-- ===== src/Ntor/Clamp.antt =====
-- common/ntor/ntor.go: what the masks of `NewKeypair` make of a digest.
use Prim.Native.Nat.{bit_and, bit_or}
use wfdef.Prelude.{
  ℕ, zero, suc, ◌+◌, ◌*◌, ◌/◌, ◌%◌, ◌<◌, ◌≡◌, refl, ap, ◌∙◌, sym, Bool, true, false, Bool-cases,
  inl, inr, if◌then◌else◌, ℕ_discrete, [], ◌∷◌, ◌++◌, Bytes, IsBytes, length, take, drop,
  length-append, length-take, length-drop, take-append-drop, take-append, drop-append, ◌==◌, ==_iff,
  arith,
}
use wfdef.Ntor.{clamp, private_key_length}

-- The private key of a digest: the lowest three bits of the first byte are cleared, the highest bit
-- of the last byte is cleared and the next one is set, and the 30 bytes between are the digest's.
abbrev pub IsClamped : Bytes → Bytes → Type 0
IsClamped digest key =
    (first last : ℕ) × (middle : Bytes) × (length middle ≡ 30)
    × (digest ≡ (first ∷ middle) ++ (last ∷ []))
    × (key ≡ ((first / 8 * 8) ∷ middle) ++ ((64 + last % 64) ∷ []))

-- Two functions that are compared at the numbers under a bound, from the largest down.
same_under : (f g : ℕ → ℕ) → ℕ → Bool
same_under f g zero = true
same_under f g (suc bound) = if f bound == g bound then same_under f g bound else false

same_under_lem :
    (f g : ℕ → ℕ) (bound : ℕ) → same_under f g bound ≡ true → (b : ℕ) → b < bound → f b ≡ g b
unfolding same_under
same_under_lem f g zero checked b small = absurd (omega arith)
same_under_lem f g (suc bound) checked b small = elim (Bool-cases (f bound == g bound)) [
  | inl here ↦ elim (ℕ_discrete b bound) [
    | yes last ↦ rw last ((==_iff _ _).0 here)
    | no below ↦ same_under_lem f g bound (rw here at checked) b (omega arith)
  ]
  | inr differs ↦ (let no : false ≡ true = rw differs at checked in cc)
]

mask_first : (b : ℕ) → b < 256 → bit_and b 248 ≡ b / 8 * 8
unfolding same_under
mask_first = same_under_lem (λ b. bit_and b 248) (λ b. b / 8 * 8) 256 refl

mask_last : (b : ℕ) → b < 256 → bit_or (bit_and b 127) 64 ≡ 64 + b % 64
unfolding same_under
mask_last = same_under_lem (λ b. bit_or (bit_and b 127) 64) (λ b. 64 + b % 64) 256 refl

one_left : (xs : Bytes) → length xs ≡ 1 → IsBytes xs → (x : ℕ) × (xs ≡ x ∷ []) × (x < 256)
one_left [] h w = absurd (omega arith)
one_left (x ∷ []) h w = (x, refl, w.0)
one_left (x ∷ y ∷ xs) h w = absurd (omega arith)

drop-IsBytes : (n : ℕ) (xs : Bytes) → IsBytes xs → IsBytes (drop n xs)
drop-IsBytes zero xs w = w
drop-IsBytes (suc n) [] w = tt
drop-IsBytes (suc n) (x ∷ xs) w = drop-IsBytes n xs w.1

take_whole : (n : ℕ) (xs : Bytes) → length xs ≡ n → take n xs ≡ xs
take_whole zero [] h = refl
take_whole zero (x ∷ xs) h = absurd (omega arith)
take_whole (suc n) [] h = refl
take_whole (suc n) (x ∷ xs) h = ap (◌∷◌ x) (take_whole n xs (omega arith))

length-clamped :
    (x y : ℕ) (middle : Bytes) → length middle ≡ 30 → length ((x ∷ middle) ++ (y ∷ [])) ≡ 32
length-clamped x y middle h = omega (arith, length-append (x ∷ middle) (y ∷ []))

clamp_framed :
    (first last : ℕ) (middle : Bytes)
    → length middle ≡ 30
    → first < 256
    → last < 256
    → take private_key_length (clamp ((first ∷ middle) ++ (last ∷ [])))
      ≡ ((first / 8 * 8) ∷ middle) ++ ((64 + last % 64) ∷ [])
unfolding clamp
clamp_framed first last middle h f l =
    rw
      (
        take-append 30 middle (last ∷ []) h,
        drop-append 30 middle (last ∷ []) h,
        mask_first first f,
        mask_last last l,
      )
      (take_whole 32 (((first / 8 * 8) ∷ middle) ++ ((64 + last % 64) ∷ []))
        (length-clamped (first / 8 * 8) (64 + last % 64) middle h))

framed-IsClamped :
    (digest : Bytes) (first last : ℕ) (middle : Bytes)
    → length middle ≡ 30
    → first < 256
    → last < 256
    → digest ≡ (first ∷ middle) ++ (last ∷ [])
    → IsClamped digest (take private_key_length (clamp digest))
framed-IsClamped digest first last middle h f l e = (
  first,
  last,
  middle,
  h,
  e,
  ap (λ d. take private_key_length (clamp d)) e ∙ clamp_framed first last middle h f l,
)

-- The private key of a digest of 32 bytes.
pub clamp-IsClamped :
    (digest : Bytes)
    → length digest ≡ 32
    → IsBytes digest
    → IsClamped digest (take private_key_length (clamp digest))
clamp-IsClamped [] h w = absurd (omega arith)
clamp-IsClamped (first ∷ ds) h w =
    let (last, tail, small) =
      one_left (drop 30 ds) (omega (arith, length-drop 30 ds)) (drop-IsBytes 30 ds w.1) in
    framed-IsClamped (first ∷ ds) first last (take 30 ds) (omega (arith, length-take 30 ds)) w.0
      small (ap (◌∷◌ first) (sym (take-append-drop 30 ds) ∙ ap (λ t. take 30 ds ++ t) tail))
