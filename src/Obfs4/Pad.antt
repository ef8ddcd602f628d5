-- ===== src/Obfs4/Pad.antt =====
-- The length of a burst after padding.
use wfdef.Prelude.{
  ℕ, zero, suc, ◌+◌, ◌-◌, ◌%◌, ◌≤◌, ◌≡◌, refl, ◌⊎◌, [], ◌∷◌, Bytes, length, length-append,
  length-take, take, drop, ltb, le→ltb, lt→ltb, if◌then◌else◌, Result, ok, err, arith, dec_lt,
}
use wfdef.Drbg.{Sip}
use wfdef.Framing.{Box, BoxLaws, Encoder, FramingError, maximum_segment_length, encode}
use wfdef.Framing.Length.{length-encode}
use wfdef.Defconn.Packet.{PacketInfo, packet_bytes}
use wfdef.Defconn.Packet.RoundTrip.{length-packet_bytes}
use wfdef.Obfs4.{
  max_packet_payload_length, header_length, packet_type_payload, FrameBuf, Outcome, wrote, failed,
  panicked, and_then, append_frame, make_packet, pad_length, pad_by, pad_burst, chop, burst,
}

-- No panic, and on success `n` bytes more.
abbrev pub Grew : ℕ → ℕ → Outcome → Type 0
Grew from n (wrote t) = length t.frame_buf ≡ from + n
Grew from n (failed e) = Unit
Grew from n panicked = ⊥

Grew-and_then :
    (from m n : ℕ) (r : Outcome) (f : FrameBuf → Outcome)
    → Grew from m r
    → ((t : FrameBuf) → Grew (length t.frame_buf) n (f t))
    → Grew from (m + n) (and_then r f)
Grew-and_then from m n (wrote t) f h go = onward (f t) (go t)
  where
    onward : (r : Outcome) → Grew (length t.frame_buf) n r → Grew from (m + n) r
    onward (wrote t') k = omega (arith, h, k)
    onward (failed e) k = tt
    onward panicked k = k
Grew-and_then from m n (failed e) f h go = tt
Grew-and_then from m n panicked f h go = h

Grew-cast : (from m n : ℕ) (r : Outcome) → m ≡ n → Grew from m r → Grew from n r
Grew-cast from m n r p h = rw p at h

module _ (s : Sip) (b : Box) (laws : BoxLaws b) where
  make_packet-Grew :
      (pkt_type : ℕ) (body : Bytes) (pad_len : ℕ) (t : FrameBuf)
      → length body + pad_len ≤ max_packet_payload_length
      → Grew
          (length t.frame_buf)
          (length body + pad_len + header_length)
          (make_packet s b pkt_type body pad_len t)
  unfolding make_packet
  make_packet-Grew pkt_type body pad_len t fits =
      rw (le→ltb max_packet_payload_length (length body + pad_len) fits)
        (by_result (encode s b t.encoder maximum_segment_length (packet_bytes p)) refl)
    where
      p : PacketInfo
      p = record { pkt_type = pkt_type; body = body; pad_len = pad_len }

      by_result :
          (r : Encoder × Result FramingError Bytes)
          → encode s b t.encoder maximum_segment_length (packet_bytes p) ≡ r
          → Grew (length t.frame_buf) (length body + pad_len + header_length) (append_frame s b t r)
      by_result (e, ok frame) h =
          let size = length-encode s b laws t.encoder maximum_segment_length (packet_bytes p) h in
          omega (arith, size, length-append t.frame_buf frame, length-packet_bytes p)
      by_result (e, err x) h = tt

  -- What `padBurst` adds when `pad_len` bytes are missing: a second packet brings its own header.
  abbrev pub added : ℕ → ℕ
  added pad_len =
      if ltb header_length pad_len
      then pad_len
      else if ltb 0 pad_len
      then maximum_segment_length + (pad_len + header_length)
      else 0

  pad_by-Grew :
      (pad_len : ℕ) (t : FrameBuf)
      → pad_len ≤ maximum_segment_length
      → Grew (length t.frame_buf) (added pad_len) (pad_by s b pad_len t)
  unfolding pad_by
  pad_by-Grew pad_len t fits = elim (dec_lt header_length pad_len) [
    | yes large ↦ rw (lt→ltb header_length pad_len large) (
        Grew-cast _ _ pad_len _ (omega arith)
          (make_packet-Grew packet_type_payload [] (pad_len - header_length) t (omega arith)))
    | no small ↦ elim (dec_lt 0 pad_len) [
      | yes pos ↦
          rw (le→ltb header_length pad_len (omega arith), lt→ltb 0 pad_len pos)
            (Grew-cast _ _ (maximum_segment_length + (pad_len + header_length)) _ (omega arith) (
              Grew-and_then _ _ _
                (make_packet s b packet_type_payload [] max_packet_payload_length t) _
                (make_packet-Grew packet_type_payload [] max_packet_payload_length t (omega arith))
                (λ t'. make_packet-Grew packet_type_payload [] pad_len t' (omega arith))))
      | no nothing ↦
          rw (le→ltb header_length pad_len (omega arith), le→ltb 0 pad_len (omega arith))
            (omega arith)
    ]
  ]

  -- `padBurst`, asked for at most a segment, does not panic, and on success it has added the bytes
  -- that are missing from the tail, or, where these are no more than a header, a segment and a
  -- header more.
  pub pad_burst-Grew :
      (to_pad_to : ℕ) (t : FrameBuf)
      → to_pad_to ≤ maximum_segment_length
      → Grew
          (length t.frame_buf)
          (added (pad_length s b (length t.frame_buf % maximum_segment_length) to_pad_to))
          (pad_burst s b to_pad_to t)
  unfolding pad_burst
  pad_burst-Grew to_pad_to t fits =
      pad_by-Grew (pad_length s b (length t.frame_buf % maximum_segment_length) to_pad_to) t
        (ground arith)

  -- What is sent, in terms of the segment that the sample asks for.
  abbrev pub Tail : ℕ → Outcome → Type 0
  Tail sample (wrote t) =
      (length t.frame_buf % maximum_segment_length ≡ sample % maximum_segment_length)
      ⊎ (length t.frame_buf % maximum_segment_length
          ≡ (sample + header_length) % maximum_segment_length)
  Tail sample (failed e) = Unit
  Tail sample panicked = ⊥

  pad_burst-Tail :
      (sample : ℕ) (t : FrameBuf)
      → sample ≤ maximum_segment_length
      → Tail sample (pad_burst s b sample t)
  pad_burst-Tail sample t fits = by_result (pad_burst s b sample t) (pad_burst-Grew sample t fits)
    where
      by_result :
          (r : Outcome)
          → Grew
              (length t.frame_buf)
              (added (pad_length s b (length t.frame_buf % maximum_segment_length) sample))
              r
          → Tail sample r
      by_result (wrote t') h = ground arith
      by_result (failed e) h = tt
      by_result panicked h = h

  -- The chopping neither panics nor stops early.
  abbrev NoPanic : Outcome → Type 0
  NoPanic (wrote t) = Unit
  NoPanic (failed e) = Unit
  NoPanic panicked = ⊥

  Tail-and_then :
      (sample : ℕ) (r : Outcome) (f : FrameBuf → Outcome)
      → NoPanic r
      → ((t : FrameBuf) → Tail sample (f t))
      → Tail sample (and_then r f)
  Tail-and_then sample (wrote t) f h go = go t
  Tail-and_then sample (failed e) f h go = tt
  Tail-and_then sample panicked f h go = h

  NoPanic-and_then :
      (r : Outcome) (f : FrameBuf → Outcome)
      → NoPanic r
      → ((t : FrameBuf) → NoPanic (f t))
      → NoPanic (and_then r f)
  NoPanic-and_then (wrote t) f h go = go t
  NoPanic-and_then (failed e) f h go = tt
  NoPanic-and_then panicked f h go = h

  NoPanic-Grew : (from n : ℕ) (r : Outcome) → Grew from n r → NoPanic r
  NoPanic-Grew from n (wrote t) h = tt
  NoPanic-Grew from n (failed e) h = tt
  NoPanic-Grew from n panicked h = h

  chop-NoPanic : (fuel : ℕ) (bs : Bytes) (t : FrameBuf) → NoPanic (chop s b fuel bs t)
  unfolding chop
  chop-NoPanic zero bs t = tt
  chop-NoPanic (suc fuel) [] t = tt
  chop-NoPanic (suc fuel) (c ∷ bs) t =
      let body = take max_packet_payload_length (c ∷ bs) in
      NoPanic-and_then (make_packet s b packet_type_payload body 0 t) _
        (NoPanic-Grew _ _ (make_packet s b packet_type_payload body 0 t) (
          make_packet-Grew packet_type_payload body 0 t
            (omega (arith, length-take max_packet_payload_length (c ∷ bs)))))
        (λ t'. chop-NoPanic fuel (drop max_packet_payload_length (c ∷ bs)) t')

  -- Whatever is written, with a sample of at most a segment: the burst does not panic, and if it
  -- succeeds its last segment has the length of the sample, or that length and a header.
  pub burst-Tail :
      (sample : ℕ) (e : Encoder) (bs : Bytes)
      → sample ≤ maximum_segment_length
      → Tail sample (burst s b sample e bs)
  unfolding burst
  burst-Tail sample e bs fits =
      Tail-and_then sample (chop s b (length bs) bs (record { encoder = e; frame_buf = [] })) _
        (chop-NoPanic (length bs) bs (record { encoder = e; frame_buf = [] }))
        (λ t. pad_burst-Tail sample t fits)
