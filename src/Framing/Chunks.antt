-- ===== src/Framing/Chunks.antt =====
-- Decoding does not depend on how the stream is cut into reads.
use wfdef.Prelude.{
  ℕ, ◌≤◌, ◌<◌, ◌≡◌, ◌≢◌, sym, ◌∙◌, ◌⊎◌, inl, inr, ℕ_discrete, Result-cases, [], ◌++◌, ◌∷◌, Bytes,
  length, ok, err, uint16, length-append, length-drop, take-append_of_le, drop-append_of_le, arith,
}
use wfdef.Drbg.{Sip}
use wfdef.Framing.{
  Box, Decoder, FramingError, again, min_frame_length, nonce_of, unmask_length, decode_length,
  decode_box, decode,
}

module _ (s : Sip) (b : Box) where
  -- A length that was read is never 0, so the decoder does not read it again.
  pub unmask_length-pos :
      (intn : ℕ → ℕ) (d : Decoder) (n : ℕ)
      → min_frame_length ≤ (unmask_length s b intn d n).next_length
  unfolding unmask_length
  unmask_length-pos intn d n = ground arith

  decode_box-again :
      (d d' : Decoder) (xs xs' : Bytes)
      → decode_box s b d xs ≡ (d', xs', err again)
      → (d' ≡ d) × (xs' ≡ xs)
  unfolding decode_box
  decode_box-again d d' xs xs' h = ground arith

  -- `decode_length` asks for more and has changed nothing, or it has read a length.
  decode_length-again :
      (intn : ℕ → ℕ) (d d' : Decoder) (xs xs' : Bytes)
      → decode_length s b intn d xs ≡ (d', xs', err again)
      → (d' ≡ d) × (xs' ≡ xs)
  unfolding decode_length
  decode_length-again intn d d' xs xs' h = ground arith

  decode_length-ok :
      (intn : ℕ → ℕ) (d d' : Decoder) (xs xs' : Bytes)
      → decode_length s b intn d xs ≡ (d', xs', ok tt)
      → (d'.next_length ≢ 0)
        × ((ys : Bytes) → decode_length s b intn d (xs ++ ys) ≡ (d', xs' ++ ys, ok tt))
  unfolding decode_length
  decode_length-ok intn d d' [] xs' h = ground arith
  decode_length-ok intn d d' (x ∷ []) xs' h = ground arith
  decode_length-ok intn d d' (x ∷ y ∷ xs) xs' h = (
    ground (
      arith,
      unmask_length-pos intn (record d { next_nonce = nonce_of d.nonce }) (uint16 (x ∷ y ∷ xs)),
    ),
    λ ys. ground (arith, length-append xs ys),
  )

  decode_read :
      (intn : ℕ → ℕ) (d : Decoder) (xs : Bytes)
      → d.next_length ≢ 0
      → decode s b intn d xs ≡ decode_box s b d xs
  unfolding decode
  decode_read intn d xs h = ground arith

  decode_start :
      (intn : ℕ → ℕ) (d : Decoder) (xs : Bytes)
      → d.next_length ≡ 0
      → ((x : FramingError) × (decode_length s b intn d xs
            ≡ ((decode s b intn d xs).0, (decode s b intn d xs).1, err x))
          × ((decode s b intn d xs).2 ≡ err x))
        ⊎ ((d₁ : Decoder) × (xs₁ : Bytes) × (decode_length s b intn d xs ≡ (d₁, xs₁, ok tt))
            × (decode s b intn d xs ≡ decode_box s b d₁ xs₁))
  unfolding decode
  decode_start intn d xs h = elim (Result-cases (decode_length s b intn d xs).2) [
    | inl (x, e) ↦ inl (x, ground arith, ground arith)
    | inr (u, e) ↦ inr (
      (decode_length s b intn d xs).0,
      (decode_length s b intn d xs).1,
      ground arith,
      ground arith,
    )
  ]

  decode_started :
      (intn : ℕ → ℕ) (d : Decoder) (xs : Bytes) {d₁ : Decoder} {xs₁ : Bytes}
      → d.next_length ≡ 0
      → decode_length s b intn d xs ≡ (d₁, xs₁, ok tt)
      → decode s b intn d xs ≡ decode_box s b d₁ xs₁
  unfolding decode
  decode_started intn d xs h e = ground arith

  -- While the decoder asks for more data, what it has consumed and kept is enough to go on: more
  -- data then gives what the whole stream would have given at once.
  pub decode-again-append :
      (intn : ℕ → ℕ) (d : Decoder) (xs ys : Bytes) {d' : Decoder} {xs' : Bytes}
      → decode s b intn d xs ≡ (d', xs', err again)
      → decode s b intn d' (xs' ++ ys) ≡ decode s b intn d (xs ++ ys)
  decode-again-append intn d xs ys {d'} {xs'} h = elim (ℕ_discrete d.next_length 0) [
    | no known ↦
        let same = decode_box-again d d' xs xs' (sym (decode_read intn d xs known) ∙ h) in
        rw (same.0, same.1)
    | yes start ↦ elim (decode_start intn d xs start) [
      | inl (x, e, f) ↦
          let same = decode_length-again intn d d' xs xs' (ground arith) in rw (same.0, same.1)
      | inr (d₁, xs₁, e, f) ↦
          let (pos, later) = decode_length-ok intn d d₁ xs xs₁ e in
          let same = decode_box-again d₁ d' xs₁ xs' (sym f ∙ h) in
          rw (same.0, same.1)
            (decode_read intn d₁ (xs₁ ++ ys) pos
              ∙ sym (decode_started intn d (xs ++ ys) start (later ys)))
    ]
  ]

  decode_box-ok :
      (d : Decoder) (xs : Bytes) {d' : Decoder} {xs' out : Bytes}
      → d.next_length ≢ 0
      → decode_box s b d xs ≡ (d', xs', ok out)
      → (length xs' < length xs)
        × ((ys : Bytes) → decode_box s b d (xs ++ ys) ≡ (d', xs' ++ ys, ok out))
  unfolding decode_box
  decode_box-ok d xs {d'} {xs'} {out} pos h =
      let enough : d.next_length ≤ length xs = ground arith in
      (
        ground (arith, length-drop d.next_length xs),
        λ ys. ground (
          arith,
          length-append xs ys,
          take-append_of_le d.next_length xs ys enough,
          drop-append_of_le d.next_length xs ys enough,
        ),
      )

  decode_length-shrinks :
      (intn : ℕ → ℕ) (d d' : Decoder) (xs xs' : Bytes)
      → decode_length s b intn d xs ≡ (d', xs', ok tt)
      → length xs' ≤ length xs
  unfolding decode_length
  decode_length-shrinks intn d d' [] xs' h = ground arith
  decode_length-shrinks intn d d' (x ∷ []) xs' h = ground arith
  decode_length-shrinks intn d d' (x ∷ y ∷ xs) xs' h = ground arith

  -- A decoded frame takes bytes off the buffer, and what arrives behind it makes no difference.
  pub decode-ok-append :
      (intn : ℕ → ℕ) (d : Decoder) (xs : Bytes) {d' : Decoder} {xs' out : Bytes}
      → decode s b intn d xs ≡ (d', xs', ok out)
      → (length xs' < length xs)
        × ((ys : Bytes) → decode s b intn d (xs ++ ys) ≡ (d', xs' ++ ys, ok out))
  decode-ok-append intn d xs h = elim (ℕ_discrete d.next_length 0) [
    | no known ↦
        let (less, later) = decode_box-ok d xs known (sym (decode_read intn d xs known) ∙ h) in
        (less, λ ys. decode_read intn d (xs ++ ys) known ∙ later ys)
    | yes start ↦ elim (decode_start intn d xs start) [
      | inl (x, e, f) ↦ cc
      | inr (d₁, xs₁, e, f) ↦
          let (pos, read) = decode_length-ok intn d d₁ xs xs₁ e in
          let (less, later) = decode_box-ok d₁ xs₁ pos (sym f ∙ h) in
          (
            omega (arith, decode_length-shrinks intn d d₁ xs xs₁ e),
            λ ys. decode_started intn d (xs ++ ys) start (read ys) ∙ later ys,
          )
    ]
  ]
