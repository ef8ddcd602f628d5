-- ===== src/Tests/Randomwt.antt =====
-- The theorems on the turns of Random-WT at a concrete run.
use wfdef.Prelude.{◌+◌, ◌≡◌, refl, true, false, some, [], ◌∷◌, ◌++◌}
use wfdef.Defconn.Packet.{PacketInfo}
use wfdef.Randomwt.PacketType
use wfdef.Randomwt.{
  start_ready, real, got, End, System, signal, Steps, client_talks, to_server, done, after, sends,
  talk, receive, client_talkie, pad_real_burst, sample_dummy_burst, chop, new_end, new_system,
}
use wfdef.Randomwt.Turns.{signals, Steps-signals}
use wfdef.Randomwt.Delivery.{Carries, Steps-Carries}

abbrev letter : PacketInfo
letter = record { pkt_type = PacketType.payload; body = 65 ∷ []; pad_len = 535 }

-- The client has read a letter, and sent it with a dummy.
abbrev client : End
client = record (new_end false 1 1 []) {
  phase = start_ready;
  fake_turn = true;
  out = letter ∷ signal PacketType.dummy ∷ signal PacketType.real_finish ∷ [];
}

abbrev first : System
first = record { client = client; server = new_end true 1 1 [] }

abbrev server : End
server = record (new_end true 1 1 []) { received = 65 ∷ [] }

talks :
    talk (new_end false 1 1 (real ∷ [])) real [] false (got (65 ∷ [])) (λ n. n)
    ≡ some (client, 65 ∷ [])
unfolding talk client_talkie pad_real_burst sample_dummy_burst chop
talks = refl

takes : receive (new_end true 1 1 []) letter ≡ some server
unfolding receive
takes = refl

abbrev second : System
second = record {
  client = sends client letter (signal PacketType.dummy ∷ signal PacketType.real_finish ∷ []);
  server = server;
}

run : Steps (new_system 1 1 1 1) (([] ++ (65 ∷ [])) ++ []) (([] ++ []) ++ []) ((0 + 0) + 0) second
run =
    after (after done (client_talks real [] false (got (65 ∷ [])) (λ n. n) refl talks))
      (to_server letter (signal PacketType.dummy ∷ signal PacketType.real_finish ∷ []) refl takes)

Steps-signals_example : signals second ≡ 1 + ((0 + 0) + 0)
Steps-signals_example = Steps-signals 1 1 1 1 run

Steps-Carries_example :
    Carries second.client second.server (([] ++ (65 ∷ [])) ++ [])
    × Carries second.server second.client (([] ++ []) ++ [])
Steps-Carries_example = Steps-Carries 1 1 1 1 run
