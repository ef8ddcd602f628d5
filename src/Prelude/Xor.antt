-- ===== src/Prelude/Xor.antt =====
-- Exclusive or of native numbers: it undoes itself, and it fits the width of its operands.
-- The native operation is a recursion on binary digits with fuel; the fuel is dropped first.
use Prim.Native.Nat.{
  ℕ, zero, suc, ◌+◌, ◌*◌, ◌/◌, ◌%◌, ◌^◌, ◌≤◌, ◌<◌, digits, differ, bit_xor, bit_xor-bitwise,
}
use mathlib.Core.Path.{◌≡◌, refl, ap, ◌∙◌}
use native.Mathlib.Nat.{pow-suc}
use native.Mathlib.Omega.{arith}

abbrev xor_digits : ℕ → ℕ → ℕ → ℕ
xor_digits n a b = digits (λ y. y) differ n a b

xor_digits_fuel : (n m a b : ℕ) → a ≤ n → a ≤ m → xor_digits n a b ≡ xor_digits m a b
xor_digits_fuel zero zero a b p q = refl
xor_digits_fuel zero (suc m) zero b p q = refl
xor_digits_fuel zero (suc m) (suc a) b p q = absurd (omega arith)
xor_digits_fuel (suc n) zero zero b p q = refl
xor_digits_fuel (suc n) zero (suc a) b p q = absurd (omega arith)
xor_digits_fuel (suc n) (suc m) zero b p q = refl
xor_digits_fuel (suc n) (suc m) (suc a) b p q =
    ap (λ (t : ℕ). t * 2 + differ (suc a % 2) (b % 2))
      (xor_digits_fuel n m (suc a / 2) (b / 2) (omega arith) (omega arith))

pub zero-bit_xor : (b : ℕ) → bit_xor 0 b ≡ b
zero-bit_xor b = bit_xor-bitwise 0 b

-- One equation for the lowest digit.
pub bit_xor_step : (a b : ℕ) → bit_xor a b ≡ bit_xor (a / 2) (b / 2) * 2 + differ (a % 2) (b % 2)
bit_xor_step zero b = omega (arith, zero-bit_xor b, zero-bit_xor (b / 2), differ-zero (b % 2))
  where
    differ-zero : (d : ℕ) → differ 0 d ≡ d
    differ-zero d = refl
bit_xor_step (suc a) b = omega (
  arith,
  bit_xor-bitwise (suc a) b,
  bit_xor-bitwise (suc a / 2) (b / 2),
  xor_digits_fuel a (suc a / 2) (suc a / 2) (b / 2) (omega arith) (omega arith),
)

-- The digit laws, over the two digits.
differ-lt : (x y : ℕ) → x < 2 → y < 2 → differ x y < 2
differ-lt zero y hx hy = hy
differ-lt (suc zero) zero hx hy = omega arith
differ-lt (suc zero) (suc zero) hx hy = omega arith
differ-lt (suc zero) (suc (suc y)) hx hy = absurd (omega arith)
differ-lt (suc (suc x)) y hx hy = absurd (omega arith)

differ-differ : (x y : ℕ) → x < 2 → y < 2 → differ (differ x y) y ≡ x
differ-differ zero zero hx hy = refl
differ-differ zero (suc zero) hx hy = refl
differ-differ zero (suc (suc y)) hx hy = absurd (omega arith)
differ-differ (suc zero) zero hx hy = refl
differ-differ (suc zero) (suc zero) hx hy = refl
differ-differ (suc zero) (suc (suc y)) hx hy = absurd (omega arith)
differ-differ (suc (suc x)) y hx hy = absurd (omega arith)

-- Both go from the halves to the numbers, by a bound `k` on both.
bit_xor_cancel : (k a b : ℕ) → a ≤ k → b ≤ k → bit_xor (bit_xor a b) b ≡ a
bit_xor_cancel zero a b p q =
    let ea : a ≡ 0 = omega arith in let eb : b ≡ 0 = omega arith in rw (ea, eb)
bit_xor_cancel (suc k) a b p q = step (bit_xor_cancel k (a / 2) (b / 2) (omega arith) (omega arith))
  where
    h : ℕ
    h = bit_xor (a / 2) (b / 2)

    d : ℕ
    d = differ (a % 2) (b % 2)

    d_lt : d < 2
    d_lt = differ-lt (a % 2) (b % 2) (omega arith) (omega arith)

    step : bit_xor h (b / 2) ≡ a / 2 → bit_xor (bit_xor a b) b ≡ a
    step ih =
        let first : bit_xor a b ≡ h * 2 + d = bit_xor_step a b in
        let half : (h * 2 + d) / 2 ≡ h = omega (arith, d_lt) in
        let low : (h * 2 + d) % 2 ≡ d = omega (arith, d_lt) in
        let back = differ-differ (a % 2) (b % 2) (omega arith) (omega arith) in
        rw first (bit_xor_step (h * 2 + d) b ∙ rw (half, low, ih, back) (omega arith))

pub bit_xor-bit_xor : (a b : ℕ) → bit_xor (bit_xor a b) b ≡ a
bit_xor-bit_xor a b = bit_xor_cancel (a + b) a b (omega arith) (omega arith)

pub bit_xor-lt : (k a b : ℕ) → a < 2 ^ k → b < 2 ^ k → bit_xor a b < 2 ^ k
bit_xor-lt zero a b p q =
    let ea : a ≡ 0 = omega arith in let eb : b ≡ 0 = omega arith in rw (ea, eb) (omega arith)
bit_xor-lt (suc k) a b p q = omega (
  arith,
  pow-suc 2 k,
  bit_xor_step a b,
  differ-lt (a % 2) (b % 2) (omega arith) (omega arith),
  bit_xor-lt k (a / 2) (b / 2) (omega (arith, pow-suc 2 k)) (omega (arith, pow-suc 2 k)),
)
