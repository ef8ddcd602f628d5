-- ===== src/Tests/Front.antt =====
-- The theorems on FRONT's padding with lists for queues.
use wfdef.Prelude.{
  ◌≡◌, refl, true, false, ℕ, Option, none, some, List, [], ◌∷◌, ◌++◌, length, ltb, if◌then◌else◌,
  arith, ◌+◌,
}
use wfdef.Defconn.State.{start, set_state, new_state}
use wfdef.Front.Queue.{FixedFifo, FifoLaws}
use wfdef.Front.{
  sort, insert, Padder, empty, refill, init_front_args, on_padding, on_round, on_time, Steps,
  signals, rounds, wakes, others, done, after,
}
use wfdef.Front.Times.{IsSorted, times, on_padding-contents}
use wfdef.Front.Padding.{Bounded, Steps-Bounded}

abbrev pop : List ℕ → Option (ℕ × List ℕ)
pop [] = none
pop (t ∷ ts) = some (t, ts)

abbrev fifo : FixedFifo (List ℕ)
fifo = record {
  capacity = 3;
  get_len = length;
  enqueue = λ q t. if ltb (length q) 3 then some (q ++ (t ∷ [])) else none;
  dequeue = pop;
}

abbrev fifo_laws : FifoLaws fifo
fifo_laws = record {
  contents = λ q. q;
  length-contents = λ q. refl;
  enqueue-contents = λ q t h. (q ++ (t ∷ []), ground arith, refl);
  dequeue-contents = λ q t ts p. (ts, rw p refl, refl);
}

abbrev padder : Padder (List ℕ)
padder = record {
  conn_state = new_state;
  ts_queue = [];
  padding_chan = [];
  waiting = none;
  send_chan = [];
  stopped = false;
}

abbrev filled : Padder (List ℕ)
filled = record padder { ts_queue = 8 ∷ [] }

sorts : sort (5 ∷ 2 ∷ 4 ∷ []) ≡ 2 ∷ 4 ∷ 5 ∷ []
unfolding sort insert
sorts = refl

on_padding-contents_example :
    ((on_padding fifo filled true [] (5 ∷ 2 ∷ [])).ts_queue
      ≡ times fifo fifo_laws true (5 ∷ 2 ∷ []))
    × ((on_padding fifo filled true [] (5 ∷ 2 ∷ [])).stopped ≡ false)
    × IsSorted (on_padding fifo filled true [] (5 ∷ 2 ∷ [])).ts_queue
on_padding-contents_example =
    on_padding-contents fifo fifo_laws filled true [] (5 ∷ 2 ∷ []) (omega arith) refl

-- The client starts, and the first of two dummies is sent.
abbrev signalled : Padder (List ℕ)
signalled = record padder {
  conn_state = set_state new_state start;
  padding_chan = [] ++ (true ∷ []);
}

abbrev scheduled : Padder (List ℕ)
scheduled = on_padding fifo signalled true [] (5 ∷ 2 ∷ [])

abbrev waits : Padder (List ℕ)
waits = on_round fifo scheduled

waits_for : waits.waiting ≡ some 2
unfolding on_round on_padding init_front_args empty refill sort insert
waits_for = refl

idle : scheduled.waiting ≡ none
unfolding on_padding
idle = refl

run : Steps fifo padder ((((0 + 0) + 2) + 0) + 0) (on_time fifo waits)
run =
    after
      (after
        (after (after done (others (set_state new_state start) (true ∷ [])))
          (signals true [] (5 ∷ 2 ∷ []) refl refl (omega arith)))
        (rounds idle))
      (wakes 2 waits_for)

Steps-Bounded_example : Bounded fifo fifo_laws ((((0 + 0) + 2) + 0) + 0) (on_time fifo waits)
Steps-Bounded_example = Steps-Bounded fifo fifo_laws refl refl refl refl run
