-- ===== src/Obfs4.antt =====
-- transports/obfs4: `makePacket`, `padBurst` and `Write` without the delays and with ScrambleSuit's.
-- transports/obfs4/framing is the code of transports/defconn/framing, but for its logging.
pub mod Pad
pub mod Switch
pub mod Paranoid
use wfdef.Prelude.{
  ℕ, zero, suc, ◌+◌, ◌-◌, ◌%◌, ◌≤◌, ◌≡◌, Bool, true, false, Option, none, some, List, [], ◌∷◌, ◌++◌,
  Bytes, length, take, drop, ltb, leb, if◌then◌else◌, Result, ok, err,
}
use wfdef.Drbg.{Sip}
use wfdef.Framing.{
  Box, Encoder, FramingError, maximum_segment_length, maximum_frame_payload_length, frame_overhead,
  encode,
}
use wfdef.Defconn.Packet.{packet_bytes}

abbrev pub packet_overhead : ℕ
packet_overhead = 2 + 1

abbrev pub max_packet_payload_length : ℕ
max_packet_payload_length = maximum_frame_payload_length - packet_overhead

abbrev pub header_length : ℕ
header_length = frame_overhead + packet_overhead

abbrev pub packet_type_payload : ℕ
packet_type_payload = 0

-- The encoder and `frameBuf`.
pub record FrameBuf : Type 0 where
  pub encoder : Encoder
  pub frame_buf : Bytes

pub data Outcome : Type 0 where
  wrote : FrameBuf → Outcome
  failed : FramingError → Outcome
  panicked : Outcome

abbrev pub and_then : Outcome → (FrameBuf → Outcome) → Outcome
and_then (wrote t) f = f t
and_then (failed e) f = failed e
and_then panicked f = panicked

module _ (s : Sip) (b : Box) where
  abbrev pub append_frame : FrameBuf → Encoder × Result FramingError Bytes → Outcome
  append_frame t (e, ok frame) = wrote (record { encoder = e; frame_buf = t.frame_buf ++ frame })
  append_frame t (e, err x) = failed x

  -- `makePacket` into `frameBuf`. The packets are those of transports/defconn.
  unfoldable pub make_packet : ℕ → Bytes → ℕ → FrameBuf → Outcome
  make_packet pkt_type body pad_len t =
      if ltb max_packet_payload_length (length body + pad_len)
      then panicked
      else append_frame t (
          encode s b t.encoder maximum_segment_length
            (packet_bytes (record { pkt_type = pkt_type; body = body; pad_len = pad_len })))

  -- How much is missing from the tail of the burst to `to_pad_to`.
  abbrev pub pad_length : ℕ → ℕ → ℕ
  pad_length tail_len to_pad_to =
      if leb tail_len to_pad_to
      then to_pad_to - tail_len
      else maximum_segment_length - tail_len + to_pad_to

  unfoldable pub pad_by : ℕ → FrameBuf → Outcome
  pad_by pad_len t =
      if ltb header_length pad_len
      then make_packet packet_type_payload [] (pad_len - header_length) t
      else if ltb 0 pad_len
      then and_then (make_packet packet_type_payload [] max_packet_payload_length t)
          (make_packet packet_type_payload [] pad_len)
      else wrote t

  unfoldable pub pad_burst : ℕ → FrameBuf → Outcome
  unfolding pad_by
  pad_burst to_pad_to t =
      pad_by (pad_length (length t.frame_buf % maximum_segment_length) to_pad_to) t

  -- Chop the pending data into payload frames: each round takes at least a byte, so the length is
  -- enough fuel.
  unfoldable pub chop : ℕ → Bytes → FrameBuf → Outcome
  chop zero bs t = wrote t
  chop (suc fuel) [] t = wrote t
  chop (suc fuel) (c ∷ bs) t =
      and_then (make_packet packet_type_payload (take max_packet_payload_length (c ∷ bs)) 0 t)
        (chop fuel (drop max_packet_payload_length (c ∷ bs)))

  -- `frameBuf` of `Write`, when `sample` is what `lenDist` gives, and the mode is not paranoid.
  unfoldable pub burst : ℕ → Encoder → Bytes → Outcome
  burst sample e bs =
      and_then (chop (length bs) bs (record { encoder = e; frame_buf = [] })) (pad_burst sample)

  -- The writes with `iatEnabled`: segments of the maximum length. A round takes at least a byte.
  unfoldable pub segments : ℕ → Bytes → List Bytes
  segments zero bs = []
  segments (suc fuel) [] = []
  segments (suc fuel) (c ∷ bs) =
      take maximum_segment_length (c ∷ bs) ∷ segments fuel (drop maximum_segment_length (c ∷ bs))
