-- ===== src/Tests/Wfgan.antt =====
-- The theorems on WFGAN's bursts at a concrete buffer.
use wfdef.Prelude.{◌/◌, false, [], replicate}
use wfdef.Defconn.Packet.{max_packet_payload_length}
use wfdef.Wfgan.{Sender, to_send, send_ref_burst}
use wfdef.Wfgan.Bursts.{HasSent, send_ref_burst-HasSent}
use wfdef.Tests.{counters}

abbrev sender : Sender
sender = record {
  is_server = false;
  counters = counters;
  receive_buf = replicate 3 65;
  written = 0;
  send_chan = [];
}

send_ref_burst-HasSent_example :
    HasSent
      (to_send 1000 1200 3 / max_packet_payload_length)
      sender
      (send_ref_burst 1000 1200 sender)
send_ref_burst-HasSent_example = send_ref_burst-HasSent 1000 1200 sender
