-- ===== src/Scramblesuit/Pad.antt =====
-- The length of a burst after padding.
use wfdef.Prelude.{
  ℕ, ◌+◌, ◌-◌, ◌*◌, ◌%◌, ◌≤◌, ◌<◌, ◌≡◌, refl, false, Option, none, some, [], ◌++◌, Bytes, length,
  length-append, length-replicate, replicate, ltb, ◌==◌, le→ltb, lt→ltb, if◌then◌else◌, arith,
  dec_lt,
}
use wfdef.Scramblesuit.{
  Crypto, max_segment_length, pkt_overhead, max_payload_length, pkt_payload, FrameBuf, packet_bytes,
  make_packet, and_then, missing, pad_length, pad_by, pad_burst,
}

module _ {S : Type 0} (k : Crypto S) where
  -- No panic, and `n` bytes more.
  abbrev pub Longer : ℕ → ℕ → Option (FrameBuf S) → Type 0
  Longer from n (some t) = length t.frame_buf ≡ from + n
  Longer from n none = ⊥

  Longer-cast : (from m n : ℕ) (r : Option (FrameBuf S)) → m ≡ n → Longer from m r → Longer from n r
  Longer-cast from m n r p h = rw p at h

  Longer-and_then :
      (from m n : ℕ) (r : Option (FrameBuf S)) (f : FrameBuf S → Option (FrameBuf S))
      → Longer from m r
      → ((t : FrameBuf S) → Longer (length t.frame_buf) n (f t))
      → Longer from (m + n) (and_then k r f)
  Longer-and_then from m n (some t) f h go = onward (f t) (go t)
    where
      onward : (r : Option (FrameBuf S)) → Longer (length t.frame_buf) n r → Longer from (m + n) r
      onward (some t') g = omega (arith, h, g)
      onward none g = g
  Longer-and_then from m n none f h go = h

  make_packet-Longer :
      (pkt_type : ℕ) (body : Bytes) (pad_len : ℕ) (t : FrameBuf S)
      → length body + pad_len ≤ max_payload_length
      → Longer
          (length t.frame_buf)
          (length body + pad_len + pkt_overhead)
          (make_packet k pkt_type body pad_len t)
  unfolding make_packet
  make_packet-Longer pkt_type body pad_len t fits =
      let plain = packet_bytes k pkt_type body pad_len in
      let pkt = (k.xor t.tx plain).0 in
      let sealed = k.length-xor t.tx plain in
      let tag = k.length-mac pkt in
      rw (le→ltb max_payload_length (length body + pad_len) fits) (
        omega (
          arith,
          sealed,
          tag,
          length-append t.frame_buf (k.mac pkt ++ pkt),
          length-append (k.mac pkt) pkt,
          length-append body (replicate pad_len 0),
          length-replicate {A = ℕ} pad_len 0,
        ))

  pad_by-Longer :
      (pad_len : ℕ) (t : FrameBuf S)
      → pkt_overhead ≤ pad_len
      → pad_len < max_segment_length + pkt_overhead
      → Longer
          (length t.frame_buf)
          (if ltb max_segment_length pad_len then pad_len - pkt_overhead else pad_len)
          (pad_by k pad_len t)
  unfolding pad_by
  pad_by-Longer pad_len t low high =
      let nonzero : (pad_len == 0) ≡ false = ground arith in
      elim (dec_lt max_segment_length pad_len) [
        | yes two ↦
            rw (nonzero, lt→ltb max_segment_length pad_len two)
              (Longer-cast _ _ (pad_len - pkt_overhead) _ (omega arith) (
                Longer-and_then _ _ _ (make_packet k pkt_payload [] (700 - pkt_overhead) t) _
                  (make_packet-Longer pkt_payload [] (700 - pkt_overhead) t (omega arith))
                  (λ t'.
                    make_packet-Longer pkt_payload [] (pad_len - (700 + 2 * pkt_overhead)) t'
                      (omega arith))))
        | no one ↦
            rw (nonzero, le→ltb max_segment_length pad_len (omega arith))
              (Longer-cast _ _ pad_len _ (omega arith)
                (make_packet-Longer pkt_payload [] (pad_len - pkt_overhead) t (omega arith)))
      ]

  few_pad_length : (n : ℕ) → n < pkt_overhead → pad_length k n ≡ n + max_segment_length
  few_pad_length n few = rw (lt→ltb n pkt_overhead few) refl

  many_pad_length : (n : ℕ) → pkt_overhead ≤ n → pad_length k n ≡ n
  many_pad_length n many = rw (le→ltb n pkt_overhead many) refl

  -- What `padBurst` adds when `n` bytes are missing.
  abbrev pub added : ℕ → ℕ
  added n =
      if n == 0
      then max_segment_length
      else if ltb n pkt_overhead
      then n + max_segment_length - pkt_overhead
      else n

  -- `padBurst`, asked for at most a segment, does not panic; it adds the bytes that are missing from
  -- the tail; a whole segment, where none are missing; and, where these are fewer than a packet's
  -- overhead, a segment more, less that overhead.
  pub pad_burst-Longer :
      (sample_len : ℕ) (t : FrameBuf S)
      → sample_len ≤ max_segment_length
      → Longer
          (length t.frame_buf)
          (added (missing k (length t.frame_buf % max_segment_length) sample_len))
          (pad_burst k sample_len t)
  unfolding pad_burst
  pad_burst-Longer sample_len t fits =
      let n = missing k (length t.frame_buf % max_segment_length) sample_len in
      let bound : n ≤ max_segment_length = ground arith in by_bound n bound
    where
      by_bound :
          (n : ℕ)
          → n ≤ max_segment_length
          → Longer (length t.frame_buf) (added n) (pad_by k (pad_length k n) t)
      by_bound n bound = elim (dec_lt n pkt_overhead) [
        | yes few ↦ rw (few_pad_length n few) (
            Longer-cast _ _ (added n) _ (ground arith)
              (pad_by-Longer (n + max_segment_length) t (omega arith) (omega arith)))
        | no many ↦ rw (many_pad_length n (omega arith)) (
            Longer-cast _ _ (added n) _ (ground arith)
              (pad_by-Longer n t (omega arith) (omega arith)))
      ]
