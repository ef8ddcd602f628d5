-- ===== src/Framing/RoundTrip.antt =====
-- A decoder in step with the encoder reads back each frame, and stays in step.
use wfdef.Prelude.{
  ℕ, ◌+◌, ◌%◌, ◌≤◌, ◌<◌, ◌≡◌, ◌≢◌, refl, sym, ◌∙◌, ap, false, ◌++◌, Bytes, length, ok, uint16,
  uint16-lt, put_uint16, uint16-put_uint16, bit_xor, length-append, take-append, drop-append, arith,
}
use wfdef.Prelude.Xor.{bit_xor-bit_xor, bit_xor-lt}
use wfdef.Drbg.{Sip, HashDrbg, next_block}
use wfdef.Framing.{
  Box, BoxLaws, Encoder, Decoder, bump, maximum_frame_payload_length, nonce_of, seal_frame, encode,
  unmask_length, decode_length, decode_box, decode,
}

-- The two ends hold the same key, nonce and mask generator, and no frame is half read.
pub record IsSynced (e : Encoder) (d : Decoder) : Type 0 where
  pub same_key : d.key ≡ e.key
  pub same_nonce : d.nonce ≡ e.nonce
  pub same_drbg : d.drbg ≡ e.drbg
  pub between_frames : d.next_length ≡ 0
  pub length_valid : d.next_length_invalid ≡ false

module _ (s : Sip) (b : Box) where
  -- A success of `encode` passed each guard, and is `seal_frame`.
  pub encode-ok :
      (e : Encoder) (room : ℕ) (payload : Bytes) {e' : Encoder} {frame : Bytes}
      → encode s b e room payload ≡ (e', ok frame)
      → (length payload ≤ maximum_frame_payload_length)
        × (e.nonce.counter ≢ 0)
        × (seal_frame s b e (nonce_of e.nonce) payload ≡ (e', frame))
  unfolding encode
  encode-ok e room payload h = ground arith

  unmask_length_masked :
      (intn : ℕ → ℕ) (d : Decoder) (len : ℕ)
      → 16 ≤ len
      → len ≤ 1446
      → unmask_length s b intn d (bit_xor len (uint16 (next_block s d.drbg).0))
        ≡ record d { drbg = (next_block s d.drbg).1; next_length = len }
  unfolding unmask_length
  unmask_length_masked intn d len lo hi =
      ground (arith, bit_xor-bit_xor len (uint16 (next_block s d.drbg).0))

module _ (s : Sip) (b : Box) (laws : BoxLaws b) where
  decode_box_sealed :
      (d : Decoder) (payload rest : Bytes)
      → d.next_length ≡ length payload + 16
      → d.next_length_invalid ≡ false
      → decode_box s b d (b.seal payload d.next_nonce d.key ++ rest)
        ≡ (record d { next_length = 0; nonce = bump d.nonce }, rest, ok payload)
  unfolding decode_box
  decode_box_sealed d payload rest h v =
      let box = b.seal payload d.next_nonce d.key in
      let fits : length box ≡ d.next_length = laws.length-seal payload d.next_nonce d.key ∙ sym h in
      ground (
        arith,
        fits,
        length-append box rest,
        take-append d.next_length box rest fits,
        drop-append d.next_length box rest fits,
        laws.unseal-seal payload d.next_nonce d.key,
      )

  -- The mask hides a length that fits two bytes.
  masked_lt : (g : HashDrbg) (n : ℕ) → n < 65536 → bit_xor n (uint16 (next_block s g).0) < 65536
  unfolding next_block
  masked_lt g n h = bit_xor-lt 16 n _ h (uint16-lt _ (s.sum-IsBytes g.key (g.written ++ g.ofb)))

  decode_length_masked :
      (intn : ℕ → ℕ) (d : Decoder) (len : ℕ) (rest : Bytes)
      → 16 ≤ len
      → len ≤ 1446
      → d.nonce.counter ≢ 0
      → decode_length s b intn d (put_uint16 (bit_xor len (uint16 (next_block s d.drbg).0)) ++ rest)
        ≡ (
          record d {
            next_nonce = nonce_of d.nonce;
            drbg = (next_block s d.drbg).1;
            next_length = len;
          },
          rest,
          ok tt,
        )
  unfolding decode_length
  decode_length_masked intn d len rest lo hi fresh =
      let m = bit_xor len (uint16 (next_block s d.drbg).0) in
      let small : m < 65536 = masked_lt d.drbg len (omega arith) in
      let read : uint16 (put_uint16 m ++ rest) ≡ m = uint16-put_uint16 m rest small in
      ground (
        arith,
        read,
        unmask_length_masked s b intn (record d { next_nonce = nonce_of d.nonce }) len lo hi,
      )

  -- where the decoder stands behind a frame
  abbrev behind : Decoder → Decoder
  behind d = record d {
    next_nonce = nonce_of d.nonce;
    drbg = (next_block s d.drbg).1;
    next_length = 0;
    nonce = bump d.nonce;
  }

  decode_masked :
      (intn : ℕ → ℕ) (d : Decoder) (payload rest : Bytes)
      → d.next_length ≡ 0
      → d.next_length_invalid ≡ false
      → d.nonce.counter ≢ 0
      → length payload ≤ maximum_frame_payload_length
      → decode s b intn d (
          put_uint16 (bit_xor (length payload + 16) (uint16 (next_block s d.drbg).0))
          ++ (b.seal payload (nonce_of d.nonce) d.key ++ rest))
        ≡ (behind d, rest, ok payload)
  unfolding decode
  decode_masked intn d payload rest z v fresh small =
      let box = b.seal payload (nonce_of d.nonce) d.key in
      let read = record d {
        next_nonce = nonce_of d.nonce;
        drbg = (next_block s d.drbg).1;
        next_length = length payload + 16;
      } in
      ground (
        arith,
        decode_length_masked intn d (length payload + 16) (box ++ rest) (omega arith) (omega arith)
            fresh,
        decode_box_sealed read payload rest refl v,
      )

  seal_frame-masked :
      (e : Encoder) (n payload : Bytes)
      → length payload ≤ maximum_frame_payload_length
      → (seal_frame s b e n payload).1
        ≡ put_uint16 (bit_xor (length payload + 16) (uint16 (next_block s e.drbg).0))
          ++ b.seal payload n e.key
  unfolding seal_frame
  seal_frame-masked e n payload small =
      let wide : length (b.seal payload n e.key) % 65536 ≡ length payload + 16 =
        omega (arith, laws.length-seal payload n e.key) in
      rw wide

  decode-seal_frame :
      (intn : ℕ → ℕ) (e : Encoder) (d : Decoder) (payload rest : Bytes)
      → IsSynced e d
      → length payload ≤ maximum_frame_payload_length
      → e.nonce.counter ≢ 0
      → decode s b intn d ((seal_frame s b e (nonce_of e.nonce) payload).1 ++ rest)
        ≡ (behind d, rest, ok payload)
  decode-seal_frame intn e d payload rest y small fresh =
      rw
        (
          seal_frame-masked e (nonce_of e.nonce) payload small,
          ← y.same_key,
          ← y.same_nonce,
          ← y.same_drbg,
        )
        (decode_masked intn d payload rest y.between_frames y.length_valid (rw y.same_nonce fresh)
          small)

  seal_frame-IsSynced :
      (e : Encoder) (d : Decoder) (payload : Bytes)
      → IsSynced e d
      → IsSynced (seal_frame s b e (nonce_of e.nonce) payload).0 (behind d)
  unfolding seal_frame
  seal_frame-IsSynced e d payload y = ground arith

  -- The decoder returns the payload that was encoded, leaves what follows the frame in the buffer,
  -- and is in step with the encoder again.
  pub decode-encode :
      (intn : ℕ → ℕ) (e : Encoder) (d : Decoder) (room : ℕ) (payload rest : Bytes) {e' : Encoder}
      {frame : Bytes}
      → IsSynced e d
      → encode s b e room payload ≡ (e', ok frame)
      → (d' : Decoder) × (decode s b intn d (frame ++ rest) ≡ (d', rest, ok payload))
        × IsSynced e' d'
  decode-encode intn e d room payload rest y h =
      let (small, fresh, sealed) = encode-ok s b e room payload h in
      (
        behind d,
        rw (ap (λ t. t.1) sealed) at (decode-seal_frame intn e d payload rest y small fresh),
        rw (ap (λ t. t.0) sealed) at (seal_frame-IsSynced e d payload y),
      )
