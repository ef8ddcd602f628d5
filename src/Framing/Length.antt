-- ===== src/Framing/Length.antt =====
-- The length of a frame.
use wfdef.Prelude.{ℕ, ◌+◌, ◌≡◌, sym, ap, ◌∙◌, Bytes, length, ok, arith}
use wfdef.Drbg.{Sip}
use wfdef.Framing.{Box, BoxLaws, Encoder, encode, nonce_of, seal_frame}
use wfdef.Framing.RoundTrip.{encode-ok}

module _ (s : Sip) (b : Box) (laws : BoxLaws b) where
  -- A frame is 18 bytes longer than its payload.
  pub length-encode :
      (e : Encoder) (room : ℕ) (payload : Bytes) {e' : Encoder} {frame : Bytes}
      → encode s b e room payload ≡ (e', ok frame)
      → length frame ≡ length payload + 18
  unfolding seal_frame
  length-encode e room payload h =
      let sealed = (encode-ok s b e room payload h).2 in
      let size = laws.length-seal payload (nonce_of e.nonce) e.key in
      sym (ap (λ r. length r.1) sealed) ∙ omega (arith, size)
