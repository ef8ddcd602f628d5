-- ===== src/Tests/Keys.antt =====
-- The theorem on `NewKeypair` with a curve of few keys and a small digest.
use wfdef.Prelude.{
  ◌/◌, ◌%◌, ◌≡◌, refl, sym, Bool, true, false, Option, none, some, List, [], ◌∷◌, ◌++◌, Bytes,
  IsBytes, replicate, uint16, ltb, arith,
}
use wfdef.Ntor.{Curve, CurveLaws, Hashes, DigestLaws, Keypair, clamp, new_keypair}
use wfdef.Ntor.Generated.{IsOutcome, new_keypair-IsOutcome}
use wfdef.Tests.Handshake.{curve, hashes}

-- A key below 256 in its first two bytes has no representative.
abbrev represent : Bool → Option (Bytes × Bytes)
represent true = some (replicate 32 9, replicate 32 5)
represent false = none

represent-some :
    (fits : Bool) (p r : Bytes)
    → represent fits ≡ some (p, r)
    → (p ≡ replicate 32 9) × (r ≡ replicate 32 5)
represent-some true p r h =
    let first : replicate 32 9 ≡ p = cc in
    let second : replicate 32 5 ≡ r = cc in (sym first, sym second)
represent-some false p r h = cc

abbrev sparse : Curve
sparse = record curve { elligator = λ k. represent (ltb 255 (uint16 k)) }

sparse_laws : CurveLaws sparse
sparse_laws = record {
  scalar_mult_comm = λ x y. refl;
  elligator_public = λ k p r h. (represent-some _ p r h).0;
  elligator_to_public = λ k p r h. sym (represent-some _ p r h).0;
  length-representative = λ k p r h. rw (represent-some _ p r h).1 refl;
}

-- A digest that has the first byte of the message.
abbrev digest : Bytes → Bytes
digest message = (uint16 message / 256 % 256) ∷ (replicate 30 7 ++ (200 ∷ []))

abbrev small : Hashes
small = record hashes { sha256 = digest }

fixed-IsBytes : IsBytes (replicate 30 7 ++ (200 ∷ []))
fixed-IsBytes = ground arith

small_laws : DigestLaws small
small_laws = record {
  length-sha256 = λ message. refl;
  sha256-IsBytes = λ message. (omega arith, fixed-IsBytes);
}

-- The key of the first input has no representative.
abbrev randoms : List Bytes
randoms = replicate 32 4 ∷ replicate 32 9 ∷ []

abbrev generated_keys : Keypair
generated_keys = record {
  public = replicate 32 9;
  private = 8 ∷ (replicate 30 7 ++ (72 ∷ []));
  representative = some (replicate 32 5);
}

generates : new_keypair sparse small true randoms ≡ some generated_keys
unfolding new_keypair clamp
generates = refl

new_keypair-IsOutcome_example : IsOutcome sparse small true randoms (some generated_keys)
unfolding new_keypair clamp
new_keypair-IsOutcome_example =
    new_keypair-IsOutcome sparse small sparse_laws small_laws true randoms
