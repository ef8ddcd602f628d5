-- ===== src/Uniformdh/Encoding.antt =====
-- Numbers below the group's order fit into the bytes of a key, and are read back.
use native.Mathlib.Nat.{pow-suc}
use wfdef.Prelude.{
  ℕ, zero, suc, ◌+◌, ◌-◌, ◌*◌, ◌/◌, ◌%◌, ◌^◌, ◌≤◌, ◌<◌, ◌≡◌, refl, ap, ◌∙◌, true, false, Bool-cases,
  inl, inr, [], ◌∷◌, ◌++◌, Bytes, length, length-append, length-replicate, replicate, ltb, ◌==◌, ok,
  arith,
}
use wfdef.Uniformdh.{size, modp_group, value, big_bytes, prepend_zero_bytes}

value-append : (acc : ℕ) (bs : Bytes) (b : ℕ) → value acc (bs ++ (b ∷ [])) ≡ value acc bs * 256 + b
value-append acc [] b = refl
value-append acc (c ∷ bs) b = value-append (acc * 256 + c) bs b

value-replicate : (n : ℕ) (bs : Bytes) → value 0 (replicate n 0 ++ bs) ≡ value 0 bs
value-replicate zero bs = refl
value-replicate (suc n) bs = value-replicate n bs

value-big_bytes : (fuel n : ℕ) → n ≤ fuel → value 0 (big_bytes fuel n) ≡ n
unfolding big_bytes
value-big_bytes zero n h = omega (arith, h)
value-big_bytes (suc fuel) n h = elim (Bool-cases (n == 0)) [
  | inl nothing ↦ rw nothing (ground arith)
  | inr more ↦
      let pos : 0 < n = ground arith in
      rw more (
        value-append 0 (big_bytes fuel (n / 256)) (n % 256)
        ∙ ap (λ r. r * 256 + n % 256) (value-big_bytes fuel (n / 256) (omega (arith, h, pos)))
        ∙ omega arith)
]

length-big_bytes : (k fuel n : ℕ) → n < 256 ^ k → length (big_bytes fuel n) ≤ k
unfolding big_bytes
length-big_bytes k zero n h = omega arith
length-big_bytes zero (suc fuel) n h =
    let nothing : n == 0 ≡ true = ground arith in rw nothing (omega arith)
length-big_bytes (suc k) (suc fuel) n h = elim (Bool-cases (n == 0)) [
  | inl nothing ↦ rw nothing (omega arith)
  | inr more ↦ rw more (
      omega (
        arith,
        length-append (big_bytes fuel (n / 256)) ((n % 256) ∷ []),
        length-big_bytes k fuel (n / 256) (omega (arith, h, pow-suc 256 k)),
      ))
]

modp_fits : modp_group < 256 ^ 192
unfolding modp_group
modp_fits = omega arith

-- The bytes that a number is sent as.
pub record Encodes (n : ℕ) (bs : Bytes) : Type 0 where
  pub length_eq : length bs ≡ size
  pub value_eq : value 0 bs ≡ n

pub prepend_zero_bytes-Encodes :
    (n : ℕ)
    → n ≤ modp_group
    → (bs : Bytes) × (prepend_zero_bytes size (big_bytes n n) ≡ ok bs) × Encodes n bs
unfolding prepend_zero_bytes
prepend_zero_bytes-Encodes n h =
    let src = big_bytes n n in
    let short : length src ≤ 192 = length-big_bytes 192 n n (omega (arith, h, modp_fits)) in
    let fits : ltb 192 (length src) ≡ false = ground arith in
    (
      replicate (192 - length src) 0 ++ src,
      rw fits refl,
      record {
        length_eq = omega (
          arith,
          short,
          length-append (replicate (192 - length src) 0) src,
          length-replicate {A = ℕ} (192 - length src) 0,
        );
        value_eq = value-replicate (192 - length src) src ∙ value-big_bytes n n (omega arith);
      },
    )
