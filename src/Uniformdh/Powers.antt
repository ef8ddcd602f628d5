-- ===== src/Uniformdh/Powers.antt =====
-- Powers modulo a number, and those of a number and of its negative.
use native.Mathlib.Nat.{
  pow-zero, pow-suc, mul-zero, mul-one, mul-suc, add-mul, mul_assoc, mul_comm, mod-add-div,
  add-mul-mod_self_left,
}
use wfdef.Prelude.{ℕ, zero, suc, ◌+◌, ◌-◌, ◌*◌, ◌/◌, ◌%◌, ◌^◌, ◌≤◌, ◌≡◌, sym, ap, ◌∙◌, arith}

mul-mod_left : (a b p : ℕ) → a % p * b % p ≡ a * b % p
mul-mod_left a b p = sym (
    ap (λ r. r * b % p) (sym (mod-add-div a p))
    ∙ ap (λ r. r % p)
        (add-mul (a % p) (p * (a / p)) b ∙ ap (λ r. a % p * b + r) (mul_assoc p (a / p) b))
    ∙ add-mul-mod_self_left (a % p * b) p (a / p * b))

-- Numbers that are equal modulo `p` have products that are.
mul-mod_cong : (a b c d p : ℕ) → a % p ≡ b % p → c % p ≡ d % p → a * c % p ≡ b * d % p
mul-mod_cong a b c d p h k =
    sym (mul-mod_left a c p)
    ∙ ap (λ r. r * c % p) h
    ∙ mul-mod_left b c p
    ∙ ap (λ r. r % p) (mul_comm b c)
    ∙ sym (mul-mod_left c b p)
    ∙ ap (λ r. r * b % p) k
    ∙ mul-mod_left d b p
    ∙ ap (λ r. r % p) (mul_comm d b)

pub pow-mod_cong : (n a b p : ℕ) → a % p ≡ b % p → a ^ n % p ≡ b ^ n % p
pow-mod_cong zero a b p h = ap (λ r. r % p) (pow-zero a ∙ sym (pow-zero b))
pow-mod_cong (suc n) a b p h =
    ap (λ r. r % p) (pow-suc a n)
    ∙ mul-mod_cong (a ^ n) (b ^ n) a b p (pow-mod_cong n a b p h) h
    ∙ ap (λ r. r % p) (sym (pow-suc b n))

pow-add : (a m n : ℕ) → a ^ (m + n) ≡ a ^ m * a ^ n
pow-add a m zero =
    let same : m + zero ≡ m = omega arith in
    ap (λ r. a ^ r) same ∙ sym (ap (λ r. a ^ m * r) (pow-zero a) ∙ mul-one (a ^ m))
pow-add a m (suc n) =
    let next : m + suc n ≡ suc (m + n) = omega arith in
    ap (λ r. a ^ r) next
    ∙ pow-suc a (m + n)
    ∙ ap (λ r. r * a) (pow-add a m n)
    ∙ mul_assoc (a ^ m) (a ^ n) a
    ∙ ap (λ r. a ^ m * r) (sym (pow-suc a n))

pub pow-mul : (a m n : ℕ) → a ^ (m * n) ≡ (a ^ m) ^ n
pow-mul a m zero = ap (λ r. a ^ r) (mul-zero m) ∙ pow-zero a ∙ sym (pow-zero (a ^ m))
pow-mul a m (suc n) =
    ap (λ r. a ^ r) (mul-suc m n)
    ∙ pow-add a (m * n) m
    ∙ ap (λ r. r * a ^ m) (pow-mul a m n)
    ∙ sym (pow-suc (a ^ m) n)

square-sum : (q x : ℕ) → q * q + (q + x) * x ≡ x * x + (q + x) * q
square-sum q x = omega (arith, add-mul q x x, add-mul q x q, mul_comm q x)

-- A number and its negative have the same square.
square-mod_negative : (x p : ℕ) → x ≤ p → (p - x) * (p - x) % p ≡ x * x % p
square-mod_negative x p h =
    let q = p - x in
    let whole : q + x ≡ p = omega (arith, h) in
    sym (add-mul-mod_self_left (q * q) p x)
    ∙ ap (λ r. r % p)
        (ap (λ r. q * q + r * x) (sym whole) ∙ square-sum q x ∙ ap (λ r. x * x + r * q) whole)
    ∙ add-mul-mod_self_left (x * x) p q

pow-two : (a : ℕ) → a ^ 2 ≡ a * a
pow-two a = pow-suc a 1 ∙ ap (λ r. r * a) (pow-suc a 0 ∙ ap (λ r. r * a) (pow-zero a) ∙ omega arith)

-- An even power does not tell a number from its negative.
pub pow-mod_negative : (x p k : ℕ) → x ≤ p → (p - x) ^ (2 * k) % p ≡ x ^ (2 * k) % p
pow-mod_negative x p k h =
    ap (λ r. r % p) (pow-mul (p - x) 2 k)
    ∙ pow-mod_cong k ((p - x) ^ 2) (x ^ 2) p (
        ap (λ r. r % p) (pow-two (p - x))
        ∙ square-mod_negative x p h
        ∙ ap (λ r. r % p) (sym (pow-two x)))
    ∙ ap (λ r. r % p) (sym (pow-mul x 2 k))
