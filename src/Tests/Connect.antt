-- ===== src/Tests/Connect.antt =====
-- The theorems on the connection's handshake and on `Read` at concrete connections.
use wfdef.Prelude.{
  ℕ, ◌≡◌, refl, false, Option, ok, err, none, some, List, [], ◌∷◌, ◌++◌, Bytes, take, drop,
  replicate, arith,
}
use wfdef.Ntor.{client_handshake, constant_time_is_zero}
use wfdef.Framing.{
  Encoder, Decoder, encode, seal_frame, decode, decode_length, decode_box, unmask_length,
}
use wfdef.Framing.RoundTrip.{IsSynced}
use wfdef.Defconn.Handshake.Client.{in_step}
use wfdef.Defconn.Connect.{client_loop, client_keys, server_keys}
use wfdef.Defconn.Connect.Completes.{Completed, client_loop-Completed}
use wfdef.Defconn.Connect.Keys.{client_keys-server_keys}
use wfdef.Defconn.PacketType
use wfdef.Defconn.Packet.{PacketInfo, read_error, make_packet, packet_bytes, parse_packet}
use wfdef.Defconn.Receive.{
  Link, switch, dispatch, round, process, with_read_error, read_packets, on_payload,
}
use wfdef.Defconn.Read.{gave, waits, faults, read, read_loop}
use wfdef.Defconn.Read.Delivers.{Delivered, read-Delivered}
use wfdef.Tests.{sip, box, zeroes, encoder, link}
use wfdef.Tests.Handshake.{
  curve, hashes, session_keys, session_keys-IsKeypair, node_id, x, took, reply, mark_first,
  server_sends,
}

-- The server's reply in three parts, with two bytes behind it.
abbrev reads : List Bytes
reads = take 40 reply ∷ take 50 (drop 40 reply) ∷ (drop 90 reply ++ (1 ∷ 2 ∷ [])) ∷ []

client_loop-Completed_example :
    Completed
      (client_loop curve hashes (in_step session_keys took) [] reads)
      (client_handshake curve hashes session_keys (replicate 32 9) (replicate 32 9) node_id).1.0
      (1 ∷ 2 ∷ [])
unfolding client_handshake constant_time_is_zero
client_loop-Completed_example =
    client_loop-Completed curve hashes session_keys took x [] reply (1 ∷ 2 ∷ [])
      (client_handshake curve hashes session_keys (replicate 32 9) (replicate 32 9) node_id).1.0
      reads session_keys-IsKeypair refl refl (omega arith) mark_first refl server_sends refl

client_keys-server_keys_example :
    (ce : Encoder) × (se : Encoder) × (cd : Decoder) × (sd : Decoder) × (client_keys
        (replicate 144 3)
      ≡ some (ce, cd))
    × (server_keys (replicate 144 3) ≡ some (se, sd))
    × IsSynced ce sd
    × IsSynced se cd
client_keys-server_keys_example = client_keys-server_keys (replicate 144 3) refl

-- A packet of two bytes on the network, and the error that the same read gives.
abbrev packet : PacketInfo
packet = record { pkt_type = PacketType.payload; body = 104 ∷ 105 ∷ []; pad_len = 534 }

abbrev wire : Bytes
wire = elim (make_packet sip box encoder packet) [
  | some (e, ok frame) ↦ frame
  | some (e, err x) ↦ []
  | none ↦ []
]

abbrev network : List (Bytes × Option ℕ)
network = (wire, some 3) ∷ (9 ∷ [], none) ∷ []

abbrev left : Link (Unit {0})
left = elim (read sip box switch zeroes 1 (link false) network) [
  | gave bs e l net ↦ l
  | waits l ↦ l
  | faults ↦ link false
]

reads_one :
    read sip box switch zeroes 1 (link false) network
    ≡ gave (104 ∷ []) (some (read_error 3)) left ((9 ∷ [], none) ∷ [])
unfolding read read_loop read_packets process round switch on_payload with_read_error make_packet
    packet_bytes parse_packet encode seal_frame decode decode_length decode_box unmask_length
    dispatch
reads_one = refl

keeps_one : left.receive_decoded_buffer ≡ 105 ∷ []
unfolding read read_loop read_packets process round switch on_payload with_read_error make_packet
    packet_bytes parse_packet encode seal_frame decode decode_length decode_box unmask_length
    dispatch
keeps_one = refl

read-Delivered_example :
    Delivered sip box switch zeroes 1
      (link false)
      network
      (104 ∷ [])
      (some (read_error 3))
      left
      ((9 ∷ [], none) ∷ [])
read-Delivered_example =
    read-Delivered sip box switch zeroes 1 (link false) left network ((9 ∷ [], none) ∷ [])
      (104 ∷ []) (some (read_error 3)) reads_one
