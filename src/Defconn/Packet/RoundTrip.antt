-- ===== src/Defconn/Packet/RoundTrip.antt =====
-- Parsing gives back the type and the payload of every packet that `MakePacket` accepts.
use wfdef.Prelude.{
  ℕ, ◌+◌, ◌%◌, ◌^◌, ◌≤◌, ◌≡◌, ◌++◌, Bytes, length, replicate, ok, uint16-put_uint16, length-append,
  length-replicate, take-append, arith,
}
use wfdef.Defconn.Packet.{
  PacketInfo, packet_bytes, parse_packet, packet_overhead, max_packet_payload_length,
}

pub length-packet_bytes :
    (p : PacketInfo) → length (packet_bytes p) ≡ packet_overhead + length p.body + p.pad_len
unfolding packet_bytes
length-packet_bytes p =
    omega
      (arith, length-append p.body (replicate p.pad_len 0), length-replicate {A = ℕ} p.pad_len 0)

-- Within the length that `MakePacket` accepts, parsing a packet returns its type and payload.
pub parse_packet-packet_bytes :
    (p : PacketInfo)
    → length p.body + p.pad_len ≤ max_packet_payload_length
    → parse_packet (packet_bytes p) ≡ ok (p.pkt_type, p.body)
unfolding parse_packet packet_bytes
parse_packet-packet_bytes p fits =
    let pads : Bytes = replicate p.pad_len 0 in
    ground (
      arith,
      uint16-put_uint16 (length p.body % 2 ^ 16) (p.body ++ pads) (omega arith),
      length-append p.body pads,
      length-replicate {A = ℕ} p.pad_len 0,
      take-append (length p.body) p.body pads,
    )
