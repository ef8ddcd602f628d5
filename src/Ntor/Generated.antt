-- ===== src/Ntor/Generated.antt =====
-- common/ntor/ntor.go: what `NewKeypair` makes of the random source.
use mathlib.Core.Path.{subst}
use wfdef.Prelude.{
  ◌≡◌, refl, ap, Bool, true, false, Option, none, some, List, [], ◌∷◌, ◌++◌, Option-cases, inl, inr,
  Bytes, length,
}
use wfdef.Ntor.{Curve, CurveLaws, Hashes, DigestLaws, Keypair, private_of, new_keypair}
use wfdef.Ntor.Clamp.{IsClamped, clamp-IsClamped}
use wfdef.Ntor.Agreement.{IsKeypair}

module _ (c : Curve) (h : Hashes) where
  -- No key of these inputs has a representative.
  abbrev pub NoneFits : List Bytes → Type 0
  NoneFits [] = Unit
  NoneFits (random ∷ rest) = (c.elligator (private_of c h random) ≡ none) × NoneFits rest

  -- The inputs before the one that was taken, and the public half.
  abbrev pub IsPublished : Bool → List Bytes → Keypair → Type 0
  IsPublished false passed k =
      (passed ≡ []) × (k.public ≡ c.scalar_base_mult k.private) × (k.representative ≡ none)
  IsPublished true passed k =
      NoneFits passed
      × ((r : Bytes) × (c.elligator k.private ≡ some (k.public, r)) × (k.representative ≡ some r))

  -- A key pair of one of the inputs, with the clamped digest of it as its private key.
  abbrev pub IsGenerated : Bool → List Bytes → Keypair → Type 0
  IsGenerated use_elligator randoms k =
      (passed : List Bytes) × (random : Bytes) × (rest : List Bytes) × (randoms
        ≡ passed ++ (random ∷ rest))
      × IsClamped (h.sha256 random) k.private
      × IsPublished use_elligator passed k
      × IsKeypair c k

  -- Without a key pair the source has ended, and no input of it would have done.
  abbrev pub IsOutcome : Bool → List Bytes → Option Keypair → Type 0
  IsOutcome use_elligator randoms (some k) = IsGenerated use_elligator randoms k
  IsOutcome false randoms none = randoms ≡ []
  IsOutcome true randoms none = NoneFits randoms

module _ (c : Curve) (h : Hashes) (laws : CurveLaws c) (digests : DigestLaws h) where
  private_of-IsClamped : (random : Bytes) → IsClamped (h.sha256 random) (private_of c h random)
  private_of-IsClamped random =
      clamp-IsClamped (h.sha256 random) (digests.length-sha256 random)
        (digests.sha256-IsBytes random)

  elligator-IsKeypair :
      (k p r : Bytes)
      → c.elligator k ≡ some (p, r)
      → IsKeypair c (record { public = p; private = k; representative = some r })
  elligator-IsKeypair k p r e = record {
    public_eq = laws.elligator_public k p r e;
    represented = λ r' same.
        let eq : r ≡ r' = cc in
        subst (λ r. (c.to_public r ≡ p) × (length r ≡ 32)) eq
          (laws.elligator_to_public k p r e, laws.length-representative k p r e);
  }

  -- A random input that does not do is passed over.
  IsOutcome-passes :
      (random : Bytes) (rest : List Bytes)
      → c.elligator (private_of c h random) ≡ none
      → (o : Option Keypair) → IsOutcome c h true rest o
      → IsOutcome c h true (random ∷ rest) o
  IsOutcome-passes random rest failed none fits = (failed, fits)
  IsOutcome-passes random rest failed (some k)
        (passed, taken, later, split, clamped, (unfit, published), pair) =
      (
        random ∷ passed,
        taken,
        later,
        ap (◌∷◌ random) split,
        clamped,
        ((failed, unfit), published),
        pair,
      )

  -- With a curve and a digest that keep their documentation, and whatever the random source gives:
  -- `NewKeypair` takes the first input that does, any one without Elligator and one whose key has a
  -- representative with it. The private key is the digest of that input with its masks, the public
  -- key belongs to it, and the representative to the public key. If the source ends without a key
  -- pair, no input would have done.
  pub new_keypair-IsOutcome :
      (use_elligator : Bool) (randoms : List Bytes)
      → IsOutcome c h use_elligator randoms (new_keypair c h use_elligator randoms)
  unfolding new_keypair
  new_keypair-IsOutcome true [] = tt
  new_keypair-IsOutcome false [] = refl
  new_keypair-IsOutcome false (random ∷ rest) = (
    [],
    random,
    rest,
    refl,
    private_of-IsClamped random,
    (refl, refl, refl),
    record { public_eq = refl; represented = λ r same. cc },
  )
  new_keypair-IsOutcome true (random ∷ rest) =
      elim (Option-cases (c.elligator (private_of c h random))) [
        | inl failed ↦
            rw (failed, new_keypair)
              (IsOutcome-passes random rest failed (new_keypair c h true rest)
                (new_keypair-IsOutcome true rest))
        | inr found ↦
            rw (found.1, new_keypair)
              (
                [],
                random,
                rest,
                refl,
                private_of-IsClamped random,
                (tt, (found.0.1, found.1, refl)),
                elligator-IsKeypair (private_of c h random) found.0.0 found.0.1 found.1,
              )
      ]
