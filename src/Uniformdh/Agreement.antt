-- ===== src/Uniformdh/Agreement.antt =====
-- Two keys of UniformDH agree on a secret, whichever public keys they send.
use native.Mathlib.Nat.{mul_comm, mod-lt, mod-mod}
use wfdef.Prelude.{
  ℕ, ◌-◌, ◌*◌, ◌/◌, ◌%◌, ◌^◌, ◌≤◌, ◌<◌, ◌≡◌, refl, sym, ap, ◌∙◌, ◌⊎◌, inl, inr, Bool, true, false,
  Bytes, length, ◌==◌, if◌then◌else◌, ok, arith,
}
use wfdef.Uniformdh.{
  size, modp_group, gen, PublicKey, PrivateKey, value, big_bytes, set_bytes, prepend_zero_bytes,
  key_of, generate_key, handshake,
}
use wfdef.Uniformdh.Powers.{pow-mod_cong, pow-mul, pow-mod_negative}
use wfdef.Uniformdh.Encoding.{prepend_zero_bytes-Encodes}

modp_pos : 0 < modp_group
unfolding modp_group
modp_pos = omega arith

-- The key of the private number `2 * k`.
record IsKey (k : ℕ) (key : PrivateKey) : Type 0 where
  private_eq : key.private_key ≡ 2 * k
  length_eq : length key.public.bytes ≡ size
  sent :
      (value 0 key.public.bytes ≡ gen ^ (2 * k) % modp_group)
      ⊎ (value 0 key.public.bytes ≡ modp_group - gen ^ (2 * k) % modp_group)

public_le : (k : ℕ) → gen ^ (2 * k) % modp_group ≤ modp_group
public_le k = omega (arith, mod-lt (gen ^ (2 * k)) modp_pos)

key_of-IsKey :
    (k sent : ℕ)
    → (sent ≡ gen ^ (2 * k) % modp_group) ⊎ (sent ≡ modp_group - gen ^ (2 * k) % modp_group)
    → sent ≤ modp_group
    → (key : PrivateKey) × (key_of (2 * k) sent ≡ ok key) × IsKey k key
key_of-IsKey k sent which h =
    let (bs, eq, encodes) = prepend_zero_bytes-Encodes sent h in
    (
      record {
        public = record { bytes = bs; public_key = gen ^ (2 * k) % modp_group };
        private_key = 2 * k;
      },
      rw eq refl,
      record {
        private_eq = refl;
        length_eq = encodes.length_eq;
        sent = elim which [
          | inl p ↦ inl (encodes.value_eq ∙ p)
          | inr p ↦ inr (encodes.value_eq ∙ p)
        ];
      },
    )

generate_key-IsKey :
    (bs : Bytes)
    → length bs ≡ size
    → (key : PrivateKey) × (generate_key bs ≡ ok key) × IsKey (value 0 bs / 2) key
unfolding generate_key
generate_key-IsKey bs h =
    let n = value 0 bs in
    let right : length bs == size ≡ true = ground arith in
    let even : n - n % 2 ≡ 2 * (n / 2) = omega arith in rw (right, even) (by_test (n % 2 == 0))
  where
    by_test :
        (was_even : Bool)
        → (key : PrivateKey) × (key_of (2 * (value 0 bs / 2)) (
              if was_even
              then gen ^ (2 * (value 0 bs / 2)) % modp_group
              else modp_group - gen ^ (2 * (value 0 bs / 2)) % modp_group)
            ≡ ok key)
          × IsKey (value 0 bs / 2) key
    by_test true = key_of-IsKey (value 0 bs / 2) _ (inl refl) (public_le (value 0 bs / 2))
    by_test false = key_of-IsKey (value 0 bs / 2) _ (inr refl) (omega arith)

-- The secret, from what the other side has sent.
secret_eq :
    (j k sent : ℕ)
    → (sent ≡ gen ^ (2 * k) % modp_group) ⊎ (sent ≡ modp_group - gen ^ (2 * k) % modp_group)
    → sent ^ (2 * j) % modp_group ≡ gen ^ (2 * k * (2 * j)) % modp_group
secret_eq j k sent which = elim which [
  | inl p ↦ ap (λ r. r ^ (2 * j) % modp_group) p ∙ of_public
  | inr p ↦
      ap (λ r. r ^ (2 * j) % modp_group) p
      ∙ pow-mod_negative (gen ^ (2 * k) % modp_group) modp_group j (public_le k)
      ∙ of_public
]
  where
    of_public :
        (gen ^ (2 * k) % modp_group) ^ (2 * j) % modp_group ≡ gen ^ (2 * k * (2 * j)) % modp_group
    of_public =
        pow-mod_cong (2 * j) (gen ^ (2 * k) % modp_group) (gen ^ (2 * k)) modp_group
          (mod-mod (gen ^ (2 * k)) modp_group)
        ∙ ap (λ r. r % modp_group) (sym (pow-mul gen (2 * k) (2 * j)))

-- What two sides with the private bytes `xs` and `ys` come to.
pub record Agreed (xs ys : Bytes) : Type 0 where
  pub a : PrivateKey
  pub b : PrivateKey
  pub to_b : PublicKey
  pub to_a : PublicKey
  pub secret : Bytes
  pub a_eq : generate_key xs ≡ ok a
  pub b_eq : generate_key ys ≡ ok b
  pub length_a : length a.public.bytes ≡ size
  pub length_b : length b.public.bytes ≡ size
  pub to_b_eq : set_bytes a.public.bytes ≡ ok to_b
  pub to_a_eq : set_bytes b.public.bytes ≡ ok to_a
  pub a_secret : handshake a to_a ≡ ok secret
  pub b_secret : handshake b to_b ≡ ok secret
  pub length_secret : length secret ≡ size

set_bytes-ok :
    (bs : Bytes)
    → length bs ≡ size
    → set_bytes bs ≡ ok (record { bytes = bs; public_key = value 0 bs })
unfolding set_bytes
set_bytes-ok bs h = let right : length bs == size ≡ true = ground arith in rw right refl

handshake-secret :
    (j k : ℕ) (a b : PrivateKey) (secret : Bytes)
    → IsKey j a
    → IsKey k b
    → prepend_zero_bytes size
        (big_bytes (gen ^ (2 * k * (2 * j)) % modp_group) (gen ^ (2 * k * (2 * j)) % modp_group))
      ≡ ok secret
    → handshake a (record { bytes = b.public.bytes; public_key = value 0 b.public.bytes })
      ≡ ok secret
unfolding handshake
handshake-secret j k a b secret is_a is_b eq =
    ap (λ r. prepend_zero_bytes size (big_bytes r r))
      (ap (λ r. value 0 b.public.bytes ^ r % modp_group) is_a.private_eq
        ∙ secret_eq j k (value 0 b.public.bytes) is_b.sent)
    ∙ eq

-- Any private bytes of the right length give a key, and whichever of the two public keys each side
-- sends, both take the other's and have the same secret, of the same length.
pub handshake-Agreed : (xs ys : Bytes) → length xs ≡ size → length ys ≡ size → Agreed xs ys
handshake-Agreed xs ys hx hy =
    let j = value 0 xs / 2 in
    let k = value 0 ys / 2 in
    let (a, a_eq, is_a) = generate_key-IsKey xs hx in
    let (b, b_eq, is_b) = generate_key-IsKey ys hy in
    let common = gen ^ (2 * k * (2 * j)) % modp_group in
    let (secret, eq, encodes) =
      prepend_zero_bytes-Encodes common
        (omega (arith, mod-lt (gen ^ (2 * k * (2 * j))) modp_pos)) in
    let swapped : gen ^ (2 * k * (2 * j)) % modp_group ≡ gen ^ (2 * j * (2 * k)) % modp_group =
      ap (λ r. gen ^ r % modp_group) (mul_comm (2 * k) (2 * j)) in
    record {
      a = a;
      b = b;
      to_b = record { bytes = a.public.bytes; public_key = value 0 a.public.bytes };
      to_a = record { bytes = b.public.bytes; public_key = value 0 b.public.bytes };
      secret = secret;
      a_eq = a_eq;
      b_eq = b_eq;
      length_a = is_a.length_eq;
      length_b = is_b.length_eq;
      to_b_eq = set_bytes-ok a.public.bytes is_a.length_eq;
      to_a_eq = set_bytes-ok b.public.bytes is_b.length_eq;
      a_secret = handshake-secret j k a b secret is_a is_b eq;
      b_secret =
          handshake-secret k j b a secret is_b is_a
            (ap (λ r. prepend_zero_bytes size (big_bytes r r)) (sym swapped) ∙ eq);
      length_secret = encodes.length_eq;
    }
