-- ===== src/Tests/RegulatorClient.antt =====
-- The theorem on the client of RegulaTor, with a list for a queue.
use wfdef.Prelude.{◌+◌, ◌≡◌, refl, ap, Option, none, some, List, [], ◌∷◌, ◌++◌, length, arith}
use wfdef.Prelude.Fifo.{Fifo, FifoLaws}
use wfdef.Prelude.Options.{Goes}
use wfdef.Defconn.State.{new_state, Counters}
use wfdef.Regulator.Client.{
  UpstreamDataInfo, ClientConfig, Event, reads, rounds, ticks, run, new_client,
}
use wfdef.Regulator.Client.Carried.{Carried}
use wfdef.Regulator.Client.Rounds.{run-Carried}

abbrev uncons : {A : Type 0} → List A → Option (A × List A)
uncons [] = none
uncons (x ∷ xs) = some (x, xs)

abbrev first : {A : Type 0} → List A → Option A
first [] = none
first (x ∷ xs) = some x

abbrev list_queue : Fifo (List UpstreamDataInfo) UpstreamDataInfo
list_queue = record {
  get_len = length;
  enqueue = λ q a. some (q ++ (a ∷ []));
  dequeue = uncons;
  get_first = first;
}

uncons-cons :
    (q : List UpstreamDataInfo) (a : UpstreamDataInfo) (rest : List UpstreamDataInfo)
    → q ≡ a ∷ rest
    → (q' : List UpstreamDataInfo) × (uncons q ≡ some (a, q')) × (q' ≡ rest)
uncons-cons q a rest eq = (rest, ap uncons eq, refl)

list_laws : FifoLaws list_queue
list_laws = record {
  contents = λ q. q;
  length-contents = λ q. refl;
  enqueue-contents = λ q a. (q ++ (a ∷ []), refl, refl);
  dequeue-contents = uncons-cons;
}

abbrev config : ClientConfig
config = record { r = 200; decayed = λ r t. r; c = 1000; gap = λ r. 10; initial_rate = 50 }

abbrev no_counters : Counters
no_counters = record { sent = 0; rcv = 0 }

abbrev events : List Event
events = reads (65 ∷ 66 ∷ []) (λ k. 5 + k) 6 ∷ rounds 7 8 9 ∷ ticks ∷ []

run-Carried_example :
    Goes
      (Carried list_queue list_laws config (65 ∷ 66 ∷ []))
      (run list_queue config (new_client list_queue config new_state no_counters [] 4) events)
unfolding list_laws
run-Carried_example =
    run-Carried list_queue list_laws config new_state no_counters [] 4 events refl (omega arith)
