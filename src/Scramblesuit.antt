-- ===== src/Scramblesuit.antt =====
-- transports/scramblesuit/conn.go: `makePacket` and `padBurst`. The stream cipher and the MAC of the
-- sending direction are parameters.
pub mod Pad
pub mod Handshake
pub mod Receive
use wfdef.Prelude.{
  ℕ, zero, suc, ◌+◌, ◌-◌, ◌*◌, ◌%◌, ◌^◌, ◌≡◌, Bool, true, false, Option, none, some, List, [], ◌∷◌,
  ◌++◌, Bytes, length, replicate, ltb, leb, ◌==◌, if◌then◌else◌, put_uint16, take, drop,
}

-- `S` is the state of the cipher; `xor` encrypts and goes on, `mac` is the truncated MAC.
pub record Crypto (S : Type 0) : Type 0 where
  pub xor : S → Bytes → Bytes × S
  pub mac : Bytes → Bytes
  pub length-xor : (k : S) (bs : Bytes) → length (xor k bs).0 ≡ length bs
  pub length-mac : (bs : Bytes) → length (mac bs) ≡ 16

abbrev pub max_segment_length : ℕ
max_segment_length = 1448

abbrev pub pkt_hdr_length : ℕ
pkt_hdr_length = 2 + 2 + 1

abbrev pub pkt_overhead : ℕ
pkt_overhead = 16 + pkt_hdr_length

abbrev pub max_payload_length : ℕ
max_payload_length = max_segment_length - pkt_overhead

abbrev pub pkt_payload : ℕ
pkt_payload = 1

-- The sending half of the crypto state, and the buffer.
pub record FrameBuf (S : Type 0) : Type 0 where
  pub tx : S
  pub frame_buf : Bytes

module _ {S : Type 0} (k : Crypto S) where
  -- The packet before it is encrypted.
  abbrev pub packet_bytes : ℕ → Bytes → ℕ → Bytes
  packet_bytes pkt_type body pad_len =
      put_uint16 ((length body + pad_len) % 2 ^ 16)
      ++ (put_uint16 (length body % 2 ^ 16) ++ (pkt_type ∷ (body ++ replicate pad_len 0)))

  -- `makePacket`; `none` is the panic. Writing to the buffer does not fail.
  unfoldable pub make_packet : ℕ → Bytes → ℕ → FrameBuf S → Option (FrameBuf S)
  make_packet pkt_type body pad_len t =
      if ltb max_payload_length (length body + pad_len)
      then none
      else (let (pkt, tx) = k.xor t.tx (packet_bytes pkt_type body pad_len) in
          some (record { tx = tx; frame_buf = t.frame_buf ++ (k.mac pkt ++ pkt) }))

  abbrev pub and_then :
      Option (FrameBuf S) → (FrameBuf S → Option (FrameBuf S)) → Option (FrameBuf S)
  and_then none f = none
  and_then (some t) f = f t

  abbrev pub missing : ℕ → ℕ → ℕ
  missing data_len sample_len =
      if leb data_len sample_len
      then sample_len - data_len
      else max_segment_length - data_len + sample_len

  -- `padLen`, which is never less than a packet without payload.
  abbrev pub pad_length : ℕ → ℕ
  pad_length n = if ltb n pkt_overhead then n + max_segment_length else n

  unfoldable pub pad_by : ℕ → FrameBuf S → Option (FrameBuf S)
  pad_by pad_len t =
      if pad_len == 0
      then some t
      else if ltb max_segment_length pad_len
      then and_then (make_packet pkt_payload [] (700 - pkt_overhead) t)
          (make_packet pkt_payload [] (pad_len - (700 + 2 * pkt_overhead)))
      else make_packet pkt_payload [] (pad_len - pkt_overhead) t

  unfoldable pub pad_burst : ℕ → FrameBuf S → Option (FrameBuf S)
  unfolding pad_by
  pad_burst sample_len t =
      pad_by (pad_length (missing (length t.frame_buf % max_segment_length) sample_len)) t

  -- The chopping of `Write`: a round takes at least a byte, so the length is enough fuel.
  unfoldable pub chop : ℕ → Bytes → FrameBuf S → Option (FrameBuf S)
  chop zero bs t = some t
  chop (suc fuel) [] t = some t
  chop (suc fuel) (c ∷ bs) t =
      and_then (make_packet pkt_payload (take max_payload_length (c ∷ bs)) 0 t)
        (chop fuel (drop max_payload_length (c ∷ bs)))

  -- What `Write` sends, when `sample` is what `lenDist` gives.
  unfoldable pub burst : ℕ → S → Bytes → Option (FrameBuf S)
  burst sample tx bs =
      and_then (chop (length bs) bs (record { tx = tx; frame_buf = [] })) (pad_burst sample)
