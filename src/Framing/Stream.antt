-- ===== src/Framing/Stream.antt =====
-- Whole conversations: a list of payloads as one byte stream, and its reading back.
use wfdef.Prelude.{ℕ, ◌≡◌, List, [], ◌∷◌, ◌++◌, Bytes, ok, append_assoc}
use wfdef.Drbg.{Sip}
use wfdef.Framing.{Box, BoxLaws, Encoder, Decoder, maximum_segment_length, encode, decode}
use wfdef.Framing.RoundTrip.{IsSynced, decode-encode}

module _ (s : Sip) (b : Box) where
  -- The frames of a list of payloads, one behind the other; the first error ends the run.
  pub data Encodes : Encoder → List Bytes → Encoder → Bytes → Type 0 where
    done : {e : Encoder} → Encodes e [] e []
    next :
        {e e' e'' : Encoder} {p : Bytes} {ps : List Bytes} {frame stream : Bytes}
        → encode s b e maximum_segment_length p ≡ (e', ok frame)
        → Encodes e' ps e'' stream
        → Encodes e (p ∷ ps) e'' (frame ++ stream)

  -- A decoder that reads a list of payloads off a buffer, and what is left in it.
  pub data Decodes (intn : ℕ → ℕ) : Decoder → Bytes → List Bytes → Decoder → Bytes → Type 0 where
    done : {d : Decoder} {rest : Bytes} → Decodes intn d rest [] d rest
    next :
        {d d' d'' : Decoder} {buf buf' rest p : Bytes} {ps : List Bytes}
        → decode s b intn d buf ≡ (d', buf', ok p)
        → Decodes intn d' buf' ps d'' rest
        → Decodes intn d buf (p ∷ ps) d'' rest

module _ (s : Sip) (b : Box) (laws : BoxLaws b) where
  -- The receiver reads back the payloads of every stream the sender can produce, in order, and
  -- what stands behind them is left in the buffer.
  pub Decodes-Encodes :
      (intn : ℕ → ℕ) {e e' : Encoder} {d : Decoder} {ps : List Bytes} {stream : Bytes}
      (rest : Bytes)
      → IsSynced e d
      → Encodes s b e ps e' stream
      → (d' : Decoder) × Decodes s b intn d (stream ++ rest) ps d' rest × IsSynced e' d'
  Decodes-Encodes intn {d = d} rest y done = (d, done, y)
  Decodes-Encodes intn {d = d} rest y
        (next {e = e} {p = p} {frame = frame} {stream = stream} h hs) =
      let (d₁, read, y₁) =
        decode-encode s b laws intn e d maximum_segment_length p (stream ++ rest) y h in
      let (d₂, reads, y₂) = Decodes-Encodes intn rest y₁ hs in
      (d₂, next (rw append_assoc read) reads, y₂)
