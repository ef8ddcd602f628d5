-- ===== src/Tests/WfganTurns.antt =====
-- The theorem on the turns of WFGAN at a concrete run, from a tuple to the server's answer.
use wfdef.Prelude.{ℕ, refl, true, false, some, List, [], ◌∷◌}
use wfdef.Defconn.State.{start, new_state, set_state}
use wfdef.Defconn.PacketType
use wfdef.Defconn.Packet.{PacketInfo}
use wfdef.Defconn.Copy.{signal}
use wfdef.Defconn.Receive.{Link}
use wfdef.Wfgan.{Sender, send_packet, send_while, send_ref_burst}
use wfdef.Wfgan.Switch.{Extra, switch}
use wfdef.Wfgan.Turns.{
  Tolerance, Client, System, finish, client_round, client_asks, answer, take_packet, Step,
  client_turns, arrives, server_answers, done, after,
}
use wfdef.Wfgan.Turns.Answers.{Owed, Steps-Owed}
use wfdef.Tests.{counters, decoder}

abbrev exact : Tolerance
exact = record { low = λ n. n; high = λ n. n }

abbrev idle : Sender
idle = record {
  is_server = true;
  counters = counters;
  receive_buf = [];
  written = 0;
  send_chan = [];
}

abbrev link_with : List ℕ → Link (Extra ℕ)
link_with signals = record {
  is_server = true;
  len_seed = [];
  counters = counters;
  conn_state = set_state new_state start;
  receive_buffer = [];
  receive_decoded_buffer = [];
  decoder = decoder;
  extra = record { random_p = 0; draws = 0; can_send_chan = signals };
}

abbrev client_with : List PacketInfo → Client
client_with ps = record {
  conn_state = set_state new_state start;
  sender = record idle { is_server = false; send_chan = ps };
}

abbrev system_with : List PacketInfo → List ℕ → System ℕ
system_with ps signals = record {
  client = client_with ps;
  server = record { sender = idle; link = link_with signals };
}

turns :
    Step
      (λ n. n)
      exact
      (system_with [] [])
      (700 ∷ [])
      []
      (system_with (signal PacketType.dummy ∷ finish 700 ∷ []) [])
unfolding client_round client_asks send_ref_burst send_while send_packet
turns = client_turns (some (600, 700))

dummy_arrives :
    Step
      (λ n. n)
      exact
      (system_with (signal PacketType.dummy ∷ finish 700 ∷ []) [])
      []
      []
      (system_with (finish 700 ∷ []) [])
unfolding take_packet switch
dummy_arrives = arrives (signal PacketType.dummy) (finish 700 ∷ []) refl refl

finish_arrives :
    Step (λ n. n) exact (system_with (finish 700 ∷ []) []) [] [] (system_with [] (700 ∷ []))
unfolding take_packet switch
finish_arrives = arrives (finish 700) [] refl refl

abbrev answered : System ℕ
answered = record (system_with [] []) {
  server = record {
    sender = record idle { send_chan = signal PacketType.dummy ∷ [] };
    link = link_with [];
  };
}

answers : Step (λ n. n) exact (system_with [] (700 ∷ [])) [] (700 ∷ []) answered
unfolding answer send_ref_burst send_while send_packet
answers = server_answers 700 [] false refl

Steps-Owed_example : Owed (700 ∷ []) (700 ∷ []) answered
Steps-Owed_example =
    Steps-Owed (λ n. n) exact {s = system_with [] []} refl refl
      (after (after (after (after done turns) dummy_arrives) finish_arrives) answers)
