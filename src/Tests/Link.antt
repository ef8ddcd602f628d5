-- ===== src/Tests/Link.antt =====
-- The theorems on the packets and the receiving side at concrete connections.
use wfdef.Prelude.{◌≡◌, refl, false, inr, none, some, [], ◌∷◌, ◌++◌, arith}
use wfdef.Framing.{again, decode, decode_length}
use wfdef.Defconn.Packet.{PacketInfo, framing}
use wfdef.Defconn.Receive.{Link, returns, switch, round, process, with_read_error, read_packets}
use wfdef.Defconn.Receive.Local.{switch-IsLocal}
use wfdef.Defconn.Receive.Total.{Ends, read_packets-Ends}
use wfdef.Defconn.Receive.Chunks.{read_packets-append}
use wfdef.Tests.{sip, box, zeroes, link}

abbrev packet : PacketInfo
packet = record { pkt_type = 0; body = 104 ∷ 105 ∷ []; pad_len = 534 }

abbrev client : Link (Unit {0})
client = link false

abbrev waiting : Link (Unit {0})
waiting = record client { receive_buffer = 9 ∷ [] }

-- One byte of a frame has arrived.
partial :
    read_packets sip box switch zeroes client (9 ∷ []) none ≡ returns waiting (some (framing again))
unfolding read_packets process round decode decode_length with_read_error
partial = refl

read_packets-append_example :
    read_packets sip box switch zeroes waiting (5 ∷ []) none
    ≡ read_packets sip box switch zeroes client ((9 ∷ []) ++ (5 ∷ [])) none
read_packets-append_example =
    read_packets-append sip box switch switch-IsLocal zeroes client waiting (some (framing again))
      (9 ∷ []) (5 ∷ []) partial (inr refl) (omega arith)

read_packets-Ends_example : Ends (read_packets sip box switch zeroes client (9 ∷ 5 ∷ []) none)
read_packets-Ends_example =
    read_packets-Ends sip box switch switch-IsLocal zeroes client (9 ∷ 5 ∷ []) none
