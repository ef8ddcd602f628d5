-- ===== src/Tests/Framing.antt =====
-- The theorems on the framing at concrete frames.
use wfdef.Prelude.{◌≤◌, ◌+◌, ◌^◌, ◌≡◌, refl, [], ◌∷◌, ◌++◌, Bytes, ok, err, arith}
use wfdef.Framing.{
  Encoder, Decoder, again, seal_frame, nonce_of, encode, decode, decode_length,
  maximum_segment_length,
}
use wfdef.Framing.RoundTrip.{IsSynced, decode-encode}
use wfdef.Framing.Stream.{Encodes, Decodes, next, done, Decodes-Encodes}
use wfdef.Framing.Nonces.{nonces_from, AreDistinct, IsSealed, Encodes-IsSealed}
use wfdef.Tests.{sip, box, box_laws, zeroes, encoder, decoder, synced}

abbrev text : Bytes
text = 104 ∷ 105 ∷ []

abbrev after_text : Encoder
after_text = (seal_frame sip box encoder (nonce_of encoder.nonce) text).0

abbrev frame : Bytes
frame = (seal_frame sip box encoder (nonce_of encoder.nonce) text).1

encodes_text : encode sip box encoder maximum_segment_length text ≡ (after_text, ok frame)
unfolding encode
encodes_text = refl

decode-encode_example :
    (d' : Decoder) × (decode sip box zeroes decoder (frame ++ (5 ∷ [])) ≡ (d', 5 ∷ [], ok text))
    × IsSynced after_text d'
decode-encode_example =
    decode-encode sip box box_laws zeroes encoder decoder maximum_segment_length text (5 ∷ [])
      synced encodes_text

run : Encodes sip box encoder (text ∷ []) after_text (frame ++ [])
run = next encodes_text done

Decodes-Encodes_example :
    (d' : Decoder) × Decodes sip box zeroes decoder
      ((frame ++ []) ++ (5 ∷ []))
      (text ∷ [])
      d'
      (5 ∷ [])
    × IsSynced after_text d'
Decodes-Encodes_example = Decodes-Encodes sip box box_laws zeroes (5 ∷ []) synced run

-- A second frame on top of the first.
abbrev after_two : Encoder
after_two = (seal_frame sip box after_text (nonce_of after_text.nonce) text).0

abbrev second : Bytes
second = (seal_frame sip box after_text (nonce_of after_text.nonce) text).1

encodes_second : encode sip box after_text maximum_segment_length text ≡ (after_two, ok second)
unfolding encode seal_frame
encodes_second = refl

two_frames : Encodes sip box encoder (text ∷ text ∷ []) after_two (frame ++ (second ++ []))
two_frames = next encodes_text (next encodes_second done)

Encodes-IsSealed_example :
    IsSealed box encoder.key
      (nonces_from encoder.nonce.prefix 1 2)
      (text ∷ text ∷ [])
      (frame ++ (second ++ []))
    × AreDistinct (nonces_from encoder.nonce.prefix 1 2)
    × (1 + 2 ≤ 2 ^ 64)
Encodes-IsSealed_example = Encodes-IsSealed sip box two_frames (omega arith) (omega arith)

-- Half of a length field.
short : decode sip box zeroes decoder (9 ∷ []) ≡ (decoder, 9 ∷ [], err again)
unfolding decode decode_length
short = refl

decodes_text :
    (d' : Decoder) × (decode sip box zeroes decoder (frame ++ []) ≡ (d', [], ok text))
    × IsSynced after_text d'
decodes_text =
    decode-encode sip box box_laws zeroes encoder decoder maximum_segment_length text [] synced
      encodes_text
