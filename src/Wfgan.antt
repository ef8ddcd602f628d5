-- ===== src/Wfgan.antt =====
-- transports/wfgan: the bursts of wfgan.go, `sendRefBurst` and `sendRealBurst`, and the switch of
-- packet.go over the loop of Defconn.Receive.
pub mod Switch
pub mod Bursts
pub mod Turns
use wfdef.Prelude.{
  ℕ, zero, suc, ◌+◌, ◌-◌, ◌≤◌, ◌≡◌, Bool, true, false, not, ◌&&◌, Option, none, some, List, [], ◌∷◌,
  ◌++◌, Bytes, length, take, drop, ltb, leb, max, if◌then◌else◌,
}
use wfdef.Defconn.State.{Counters, increment_sent}
use wfdef.Defconn.PacketType
use wfdef.Defconn.Packet.{PacketInfo, max_packet_payload_length, max_packet_padding_length}

-- What a burst works on; `send_chan` holds all that was put into the channel.
pub record Sender : Type 0 where
  pub is_server : Bool
  pub counters : Counters
  pub receive_buf : Bytes
  pub written : ℕ
  pub send_chan : List PacketInfo

-- A full packet with as much data as there is; a dummy, if there is none.
unfoldable pub send_packet : Sender → Sender
send_packet c =
    let body = take max_packet_payload_length c.receive_buf in
    let real = ltb 0 (length body) in
    record c {
      receive_buf = drop max_packet_payload_length c.receive_buf;
      written = c.written + length body;
      counters = if real && not c.is_server then increment_sent c.counters else c.counters;
      send_chan =
          c.send_chan
          ++ (record {
            pkt_type = if real then PacketType.payload else PacketType.dummy;
            body = body;
            pad_len = max_packet_padding_length - length body;
          }
              ∷ []);
    }

-- `toSend`; `low` and `high` are the size of the reference burst less and plus the tolerance,
-- rounded.
abbrev pub to_send : ℕ → ℕ → ℕ → ℕ
to_send low high buf_size =
    let lower_bound = max low 536 in
    if ltb buf_size lower_bound then lower_bound else if ltb buf_size high then buf_size else high

-- `for toSend >= MaxPacketPayloadLength`; each round takes a packet's length off `toSend`, which is
-- fuel enough.
unfoldable pub send_while : ℕ → ℕ → Sender → Sender
send_while zero left c = c
send_while (suc fuel) left c = elim (leb max_packet_payload_length left) [
  | true ↦ send_while fuel (left - max_packet_payload_length) (send_packet c)
  | false ↦ c
]

unfoldable pub send_ref_burst : ℕ → ℕ → Sender → Sender
send_ref_burst low high c = let n = to_send low high (length c.receive_buf) in send_while n n c

-- `for receiveBuf.GetLen() > 0`; each round takes at least a byte off the buffer.
unfoldable pub send_all : ℕ → Sender → Sender
send_all zero c = c
send_all (suc fuel) c = elim (ltb 0 (length c.receive_buf)) [
  | true ↦ send_all fuel (send_packet c)
  | false ↦ c
]

unfoldable pub send_real_burst : Sender → Sender
send_real_burst c = send_all (length c.receive_buf) c
