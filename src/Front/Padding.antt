-- ===== src/Front/Padding.antt =====
-- No more dummies go out than times were sampled.
use wfdef.Prelude.{
  ℕ, suc, ◌+◌, ◌≤◌, ◌<◌, ◌≡◌, refl, sym, ap, ◌∙◌, Bool, true, false, Option, none, some, List, [],
  ◌∷◌, ◌++◌, length, length-append, if◌then◌else◌, ◌||◌, ◌==◌, arith,
}
use wfdef.Defconn.State.{is_stop}
use wfdef.Defconn.PacketType
use wfdef.Defconn.Packet.{PacketInfo}
use wfdef.Defconn.Copy.{signal}
use wfdef.Front.Queue.{FixedFifo, FifoLaws}
use wfdef.Front.{
  Padder, on_padding, on_round, taken, on_time, Step, Steps, signals, rounds, wakes, others, done,
  after,
}
use wfdef.Front.Times.{length-sort, times, on_padding-contents}

add_zero : (n : ℕ) → n + 0 ≡ n
add_zero n = omega arith

module _ {Q : Type 0} (queue : FixedFifo Q) (laws : FifoLaws queue) where
  abbrev pub pending : Option ℕ → ℕ
  pending none = 0
  pending (some t) = 1

  abbrev pub AllDummies : List PacketInfo → Type 0
  AllDummies [] = Unit
  AllDummies (p ∷ ps) = (p ≡ signal PacketType.dummy) × AllDummies ps

  AllDummies-snoc :
      (ps : List PacketInfo) → AllDummies ps → AllDummies (ps ++ (signal PacketType.dummy ∷ []))
  AllDummies-snoc [] h = (refl, tt)
  AllDummies-snoc (p ∷ ps) h = (h.0, AllDummies-snoc ps h.1)

  -- What the padding has done with `granted` times.
  pub record Bounded (granted : ℕ) (c : Padder Q) : Type 0 where
    pub dummies : AllDummies c.send_chan
    pub bounded : length c.send_chan + (pending c.waiting + queue.get_len c.ts_queue) ≤ granted
    pub runs : c.stopped ≡ false

  length-times : (b : Bool) (ts : List ℕ) → length (times queue laws b ts) ≤ length ts
  length-times true ts = omega (arith, length-sort ts)
  length-times false ts = omega arith

  on_padding-rest :
      (c : Padder Q) (b : Bool) (rest : List Bool) (ts : List ℕ)
      → ((on_padding queue c b rest ts).send_chan ≡ c.send_chan)
        × ((on_padding queue c b rest ts).waiting ≡ c.waiting)
  unfolding on_padding
  on_padding-rest c true rest ts = (refl, refl)
  on_padding-rest c false rest ts = (refl, refl)

  on_padding-Bounded :
      (granted : ℕ) (c : Padder Q) (b : Bool) (rest : List Bool) (ts : List ℕ)
      → length ts ≤ queue.capacity
      → Bounded granted c
      → Bounded (granted + length ts) (on_padding queue c b rest ts)
  on_padding-Bounded granted c b rest ts fits h =
      let c' = on_padding queue c b rest ts in
      let r = on_padding-contents queue laws c b rest ts fits h.runs in
      let same = on_padding-rest c b rest ts in
      let size : queue.get_len c'.ts_queue ≡ length (times queue laws b ts) =
        sym (laws.length-contents c'.ts_queue) ∙ ap length r.0 in
      let sent : length c'.send_chan ≡ length c.send_chan = ap length same.0 in
      let held_back : pending c'.waiting ≡ pending c.waiting = ap pending same.1 in
      let before = h.bounded in
      record {
        dummies = rw same.0 h.dummies;
        bounded = omega (arith, size, sent, held_back, before, length-times b ts);
        runs = r.1;
      }

  on_round-Bounded :
      (granted : ℕ) (c : Padder Q)
      → c.waiting ≡ none
      → Bounded granted c
      → Bounded granted (on_round queue c)
  unfolding on_round
  on_round-Bounded granted c idle h =
      by_tests (is_stop c.conn_state.cur_state || queue.get_len c.ts_queue == 0)
        (λ on. nonempty (is_stop c.conn_state.cur_state) on) (laws.contents c.ts_queue) refl
    where
      nonempty :
          (stopped : Bool)
          → (stopped || queue.get_len c.ts_queue == 0) ≡ false
          → 0 < queue.get_len c.ts_queue
      nonempty stopped on = ground arith

      by_tests :
          (skip : Bool)
          → (skip ≡ false → 0 < queue.get_len c.ts_queue)
          → (ts : List ℕ) → laws.contents c.ts_queue ≡ ts
          → Bounded granted (if skip then c else taken queue c (queue.dequeue c.ts_queue))
      by_tests true f ts p = h
      by_tests false f [] p =
          let size : queue.get_len c.ts_queue ≡ 0 =
            sym (laws.length-contents c.ts_queue) ∙ ap length p in
          let some_left = f refl in absurd (omega (arith, size, some_left))
      by_tests false f (t ∷ ts) p =
          let d = laws.dequeue-contents c.ts_queue t ts p in
          let before = h.bounded in
          let none_held : pending c.waiting ≡ 0 = ap pending idle in
          let size : queue.get_len c.ts_queue ≡ suc (length ts) =
            sym (laws.length-contents c.ts_queue) ∙ ap length p in
          let size' : queue.get_len d.0 ≡ length ts =
            sym (laws.length-contents d.0) ∙ ap length d.2 in
          rw d.1 record {
            dummies = h.dummies;
            bounded = omega (arith, before, none_held, size, size');
            runs = h.runs;
          }

  on_time-Bounded :
      (granted : ℕ) (c : Padder Q) (t : ℕ)
      → c.waiting ≡ some t
      → Bounded granted c
      → Bounded granted (on_time queue c)
  on_time-Bounded granted c t busy h =
      let before = h.bounded in
      let one_held : pending c.waiting ≡ 1 = ap pending busy in
      record {
        dummies = AllDummies-snoc c.send_chan h.dummies;
        bounded =
            omega
              (arith, before, one_held, length-append c.send_chan (signal PacketType.dummy ∷ []));
        runs = h.runs;
      }

  Step-Bounded :
      (granted : ℕ) {c : Padder Q} {k : ℕ} {c' : Padder Q}
      → Step queue c k c'
      → Bounded granted c
      → Bounded (granted + k) c'
  Step-Bounded granted {c} (signals b rest ts running next fits) h =
      on_padding-Bounded granted c b rest ts fits h
  Step-Bounded granted {c} (rounds idle) h =
      rw (add_zero granted) (on_round-Bounded granted c idle h)
  Step-Bounded granted {c} (wakes t busy) h =
      rw (add_zero granted) (on_time-Bounded granted c t busy h)
  Step-Bounded granted {c} (others state bs) h =
      let before = h.bounded in
      record { dummies = h.dummies; bounded = omega (arith, before); runs = h.runs }

  -- In every run of FRONT's padding from an empty queue, whatever the other routines do with the
  -- state and the channel of signals: it puts dummies of full length into the channel, together with
  -- those still to come no more than the times that were sampled, and the factory does not fail.
  pub Steps-Bounded :
      {c c' : Padder Q} {granted : ℕ}
      → laws.contents c.ts_queue ≡ []
      → c.waiting ≡ none
      → c.send_chan ≡ []
      → c.stopped ≡ false
      → Steps queue c granted c'
      → Bounded granted c'
  Steps-Bounded {c} fresh idle nothing running done =
      let size : queue.get_len c.ts_queue ≡ 0 =
        sym (laws.length-contents c.ts_queue) ∙ ap length fresh in
      let unsent : length c.send_chan ≡ 0 = ap length nothing in
      let none_held : pending c.waiting ≡ 0 = ap pending idle in
      record {
        dummies = rw nothing tt;
        bounded = omega (arith, size, unsent, none_held);
        runs = running;
      }
  Steps-Bounded fresh idle nothing running (after {m = m} steps step) =
      Step-Bounded m step (Steps-Bounded fresh idle nothing running steps)
