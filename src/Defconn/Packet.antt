-- ===== src/Defconn/Packet.antt =====
-- transports/defconn/packet.go: the packet format, `MakePacket` and the parsing half of
-- `ReadPackets`.
pub mod RoundTrip
use wfdef.Prelude.{
  ℕ, ◌+◌, ◌-◌, ◌%◌, ◌^◌, ◌≡◌, Bool, Option, none, some, List, [], ◌∷◌, ◌++◌, Bytes, length, take,
  drop, replicate, ltb, if◌then◌else◌, Result, ok, err, put_uint16, uint16,
}
use wfdef.Drbg.{Sip, SeedError, seed_length}
use wfdef.Framing.{Box, Encoder, FramingError, maximum_segment_length, encode}

abbrev pub packet_overhead : ℕ
packet_overhead = 2 + 1

abbrev pub max_packet_payload_length : ℕ
max_packet_payload_length = 536

abbrev pub max_packet_padding_length : ℕ
max_packet_padding_length = max_packet_payload_length

abbrev pub seed_packet_payload_length : ℕ
seed_packet_payload_length = seed_length

-- The errors of the receiving side; `read_error` is one of the network's.
pub data PacketError : Type 0 where
  framing : FramingError → PacketError
  invalid_packet_length : ℕ → PacketError
  invalid_payload_length : ℕ → PacketError
  seed : SeedError → PacketError
  read_error : ℕ → PacketError

pub record PacketInfo : Type 0 where
  pub pkt_type : ℕ
  pub body : Bytes
  pub pad_len : ℕ

-- type, length of the payload, payload, padding
unfoldable pub packet_bytes : PacketInfo → Bytes
packet_bytes p =
    p.pkt_type ∷ (put_uint16 (length p.body % 2 ^ 16) ++ (p.body ++ replicate p.pad_len 0))

module _ (s : Sip) (b : Box) where
  -- `MakePacket` into a buffer, which cannot fail; `none` is the panic.
  unfoldable pub make_packet : Encoder → PacketInfo → Option (Encoder × Result FramingError Bytes)
  unfolding packet_bytes
  make_packet e p =
      if ltb max_packet_payload_length (length p.body + p.pad_len)
      then none
      else some (encode s b e maximum_segment_length (packet_bytes p))

-- The two length checks of `ReadPackets`, and the slices behind them.
unfoldable pub parse_packet : Bytes → Result PacketError (ℕ × Bytes)
parse_packet [] = err (invalid_packet_length 0)
parse_packet (pkt_type ∷ r) =
    if ltb (length (pkt_type ∷ r)) packet_overhead
    then err (invalid_packet_length (length (pkt_type ∷ r)))
    else if ltb (length (pkt_type ∷ r) - packet_overhead) (uint16 r)
    then err (invalid_payload_length (uint16 r))
    else ok (pkt_type, take (uint16 r) (drop 2 r))
