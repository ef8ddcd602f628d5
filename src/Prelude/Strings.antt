-- ===== src/Prelude/Strings.antt =====
-- Go's strings and byte slices as lists of bytes: literals, `bytes.Equal`, `bytes.HasPrefix`,
-- `bytes.Index` and `strconv.FormatInt`.
use Prim.Native.Char.{code}
use Prim.Native.String.{String}
use Prim.Native.Nat.{ℕ, zero, suc, ◌+◌, ◌/◌, ◌%◌, ◌≤◌}
use mathlib.Core.Path.{◌≡◌, refl, sym, ap, ◌∙◌}
use mathlib.Core.Bool.{Bool, true, false, ◌&&◌}
use mathlib.Core.Option.{Option, none, some}
use mathlib.Core.List.{[], ◌∷◌, ◌++◌}
use native.Mathlib.Omega.{arith}
use mathlib.Core.Logic.{inl, inr}
use wfdef.Prelude.Tests.{ltb, ◌==◌, Bool-cases, if◌then◌else◌}
use wfdef.Prelude.Lists.{Bytes, length, take, drop, take-append-drop}

-- The bytes of an ASCII literal.
abbrev pub codes : String → Bytes
codes String.[] = []
codes (String.◌∷◌ c s) = code c ∷ codes s

abbrev pub bytes_eq : Bytes → Bytes → Bool
bytes_eq [] [] = true
bytes_eq [] (y ∷ ys) = false
bytes_eq (x ∷ xs) [] = false
bytes_eq (x ∷ xs) (y ∷ ys) = x == y && bytes_eq xs ys

pub bytes_eq_self : (xs : Bytes) → bytes_eq xs xs ≡ true
bytes_eq_self [] = refl
bytes_eq_self (x ∷ xs) = let ih = bytes_eq_self xs in ground arith

pub eq_of_bytes_eq : (xs ys : Bytes) → bytes_eq xs ys ≡ true → xs ≡ ys
eq_of_bytes_eq [] [] h = refl
eq_of_bytes_eq [] (y ∷ ys) h = cc
eq_of_bytes_eq (x ∷ xs) [] h = cc
eq_of_bytes_eq (x ∷ xs) (y ∷ ys) h = ground (arith, eq_of_bytes_eq xs ys)

abbrev pub has_prefix : Bytes → Bytes → Bool
has_prefix xs [] = true
has_prefix [] (p ∷ ps) = false
has_prefix (x ∷ xs) (p ∷ ps) = x == p && has_prefix xs ps

abbrev pub shift : Option ℕ → Option ℕ
shift none = none
shift (some i) = some (suc i)

-- The place of the first occurrence of `p`.
unfoldable pub index : Bytes → Bytes → Option ℕ
index [] p = if has_prefix [] p then some 0 else none
index (x ∷ xs) p = if has_prefix (x ∷ xs) p then some 0 else shift (index xs p)

-- The decimal digits of a number; the number is fuel enough.
unfoldable pub digits : ℕ → ℕ → Bytes → Bytes
digits zero n acc = acc
digits (suc fuel) n acc =
    let more = digits fuel (n / 10) ((48 + n % 10) ∷ acc) in
    if ltb n 10 then (48 + n) ∷ acc else more

unfoldable pub format_int : ℕ → Bytes
unfolding digits
format_int n = digits (suc n) n []

format_int-test : format_int 438291 ≡ codes "438291"
unfolding format_int
format_int-test = refl

pub has_prefix-append : (p xs : Bytes) → has_prefix (p ++ xs) p ≡ true
has_prefix-append [] [] = refl
has_prefix-append [] (x ∷ xs) = refl
has_prefix-append (q ∷ p) xs = let ih = has_prefix-append p xs in ground arith

pub length-of_has_prefix : (xs p : Bytes) → has_prefix xs p ≡ true → length p ≤ length xs
length-of_has_prefix xs [] h = omega arith
length-of_has_prefix [] (q ∷ p) h = cc
length-of_has_prefix (x ∷ xs) (q ∷ p) h = ground (arith, length-of_has_prefix xs p)

has_prefix-append_of_le :
    (xs ys p : Bytes) → length p ≤ length xs → has_prefix (xs ++ ys) p ≡ has_prefix xs p
has_prefix-append_of_le [] [] [] h = refl
has_prefix-append_of_le [] (y ∷ ys) [] h = refl
has_prefix-append_of_le [] ys (q ∷ p) h = absurd (omega arith)
has_prefix-append_of_le (x ∷ xs) ys [] h = refl
has_prefix-append_of_le (x ∷ xs) ys (q ∷ p) h =
    ap (λ r. x == q && r) (has_prefix-append_of_le xs ys p (omega arith))

pub shift-some : (o : Option ℕ) (i : ℕ) → shift o ≡ some i → (j : ℕ) × (o ≡ some j) × (i ≡ suc j)
shift-some none i h = cc
shift-some (some j) i h = (j, refl, cc)

-- An occurrence lies within the text.
pub index-bound : (xs p : Bytes) (i : ℕ) → index xs p ≡ some i → i + length p ≤ length xs
unfolding index
index-bound [] p i h = elim (Bool-cases (has_prefix [] p)) [
  | inl t ↦
      let fits = length-of_has_prefix [] p t in
      let first : some 0 ≡ some i = rw t at h in
      let zero_at : 0 ≡ i = cc in omega (arith, fits, zero_at)
  | inr f ↦ let missing : none ≡ some i = rw f at h in cc
]
index-bound (x ∷ xs) p i h = elim (Bool-cases (has_prefix (x ∷ xs) p)) [
  | inl t ↦
      let fits = length-of_has_prefix (x ∷ xs) p t in
      let first : some 0 ≡ some i = rw t at h in
      let zero_at : 0 ≡ i = cc in omega (arith, fits, zero_at)
  | inr f ↦
      let later = shift-some (index xs p) i (rw f at h) in
      let ih = index-bound xs p later.0 later.1 in let at_suc = later.2 in omega (arith, ih, at_suc)
]

pub take-of_has_prefix : (xs p : Bytes) → has_prefix xs p ≡ true → take (length p) xs ≡ p
take-of_has_prefix xs [] h = refl
take-of_has_prefix [] (q ∷ p) h = cc
take-of_has_prefix (x ∷ xs) (q ∷ p) h = ground (arith, take-of_has_prefix xs p)

-- What stands at the place that `index` finds.
pub index-has_prefix :
    (xs p : Bytes) (i : ℕ) → index xs p ≡ some i → has_prefix (drop i xs) p ≡ true
unfolding index
index-has_prefix [] p i h = elim (Bool-cases (has_prefix [] p)) [
  | inl t ↦ let first : some 0 ≡ some i = rw t at h in let zero_at : 0 ≡ i = cc in rw (← zero_at) t
  | inr f ↦ let missing : none ≡ some i = rw f at h in cc
]
index-has_prefix (x ∷ xs) p i h = elim (Bool-cases (has_prefix (x ∷ xs) p)) [
  | inl t ↦ let first : some 0 ≡ some i = rw t at h in let zero_at : 0 ≡ i = cc in rw (← zero_at) t
  | inr f ↦
      let later = shift-some (index xs p) i (rw f at h) in
      rw later.2 (index-has_prefix xs p later.0 later.1)
]

-- More text behind a first occurrence does not move it.
pub index-append : (xs ys p : Bytes) (i : ℕ) → index xs p ≡ some i → index (xs ++ ys) p ≡ some i
unfolding index
index-append [] [] p i h = h
index-append [] (y ∷ ys) [] i h = h
index-append [] (y ∷ ys) (q ∷ p) i h = cc
index-append (x ∷ xs) ys p i h = elim (Bool-cases (has_prefix (x ∷ xs) p)) [
  | inl t ↦
      let same = has_prefix-append_of_le (x ∷ xs) ys p (length-of_has_prefix (x ∷ xs) p t) in
      let first : some 0 ≡ some i = rw t at h in rw (same ∙ t) first
  | inr f ↦
      let later = shift-some (index xs p) i (rw f at h) in
      let bound = index-bound xs p later.0 later.1 in
      let same = has_prefix-append_of_le (x ∷ xs) ys p (omega (arith, bound)) in
      rw (same ∙ f) (ap shift (index-append xs ys p later.0 later.1) ∙ ap some (sym later.2))
]

-- No occurrence comes before the one that is found.
pub index-le :
    (xs p : Bytes) (i j : ℕ) → index xs p ≡ some i → has_prefix (drop j xs) p ≡ true → i ≤ j
unfolding index
index-le [] p i zero h k =
    let first : some 0 ≡ some i = rw k at h in let zero_at : 0 ≡ i = cc in omega (arith, zero_at)
index-le [] p i (suc j) h k =
    let first : some 0 ≡ some i = rw k at h in let zero_at : 0 ≡ i = cc in omega (arith, zero_at)
index-le (x ∷ xs) p i zero h k =
    let first : some 0 ≡ some i = rw k at h in let zero_at : 0 ≡ i = cc in omega (arith, zero_at)
index-le (x ∷ xs) p i (suc j) h k = elim (Bool-cases (has_prefix (x ∷ xs) p)) [
  | inl t ↦
      let first : some 0 ≡ some i = rw t at h in let zero_at : 0 ≡ i = cc in omega (arith, zero_at)
  | inr f ↦
      let later = shift-some (index xs p) i (rw f at h) in
      let at_suc = later.2 in omega (arith, at_suc, index-le xs p later.0 j later.1 k)
]

pub has_prefix-of_take :
    (xs p : Bytes) (n : ℕ) → length p ≡ n → take n xs ≡ p → has_prefix xs p ≡ true
has_prefix-of_take xs p n hn h =
    rw (sym (take-append-drop n xs) ∙ ap (λ t. t ++ drop n xs) h) (has_prefix-append p (drop n xs))
