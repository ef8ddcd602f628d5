-- ===== src/Tamaraw/Multiple.antt =====
-- The client pads what it sends: when the defense stops, the number of packets that it has sent in
-- slots is a multiple of `nSeg`.
use wfdef.Prelude.{
  ℕ, ◌+◌, ◌*◌, ◌%◌, ◌^◌, ◌≤◌, ◌<◌, ◌≡◌, refl, ap, ◌∙◌, Bool, true, false, not, ◌&&◌, ◌||◌,
  Bool-cases, inl, inr, Option, none, some, Bytes, length, ltb, ◌==◌, if◌then◌else◌, arith,
}
use wfdef.Defconn.State.{
  start, stop, ready, padding, State, is_start, is_stop, is_ready, Counters, reset_counters,
}
use wfdef.Defconn.PacketType
use wfdef.Defconn.Packet.{PacketInfo}
use wfdef.Defconn.Copy.{signal}
use wfdef.Tamaraw.{
  is_padding, Scheduler, on_read, next_packet, put, moves_to, advance, schedule, on_slot, on_window,
  Step, Steps, reads, slots, windows, receives, done, after, new_scheduler,
}
use wfdef.Tamaraw.Padding.{
  is_cell, cells, IsMultiple, Counted, Advances, advance-Advances, next_packet-cell,
  next_packet-same,
}

-- The outcome of a slot, for a client that has sent fewer than 2^32 cells.
abbrev SlotCounted : Scheduler → Option Scheduler → Type 0
SlotCounted c none = Unit
SlotCounted c (some c') =
    (c'.n_seg ≡ c.n_seg) × (cells c'.send_chan ≤ cells c.send_chan + 1) × Counted c'

schedule-SlotCounted :
    (p : PacketInfo) (c : Scheduler)
    → is_cell p ≡ true
    → cells c.send_chan + 1 < 2 ^ 32
    → Counted c
    → SlotCounted c (schedule (p, c))
unfolding schedule
schedule-SlotCounted p c cell small (base, m, count) = by_test (
    (is_stop c.conn_state.cur_state || is_ready c.conn_state.cur_state)
    && p.pkt_type == PacketType.dummy)
  where
    c' : Scheduler
    c' = record c { cur_n_seg = (c.cur_n_seg + 1) % 2 ^ 32 }

    weaken : (o : Option Scheduler) → Advances c.n_seg (cells c.send_chan + 1) o → SlotCounted c o
    weaken none a = tt
    weaken (some c'') a = let size = a.1 in (a.0, omega (arith, size), a.2)

    by_test : (skip : Bool) → SlotCounted c (if skip then some c else advance c' p)
    by_test true = (refl, omega arith, (base, m, count))
    by_test false =
        weaken (advance c' p) (advance-Advances c' p cell base m (omega (arith, count, small)))

on_slot-Counted :
    (c c' : Scheduler)
    → on_slot c ≡ some c'
    → cells c.send_chan + 1 < 2 ^ 32
    → Counted c
    → (c'.n_seg ≡ c.n_seg) × (cells c'.send_chan ≤ cells c.send_chan + 1) × Counted c'
unfolding on_slot
on_slot-Counted c c' h small (base, m, count) =
    let same = next_packet-same c in
    let c₁ = (next_packet c).1 in
    let cell = next_packet-cell c in
    let size = ap cells same.1 in
    let result =
      schedule-SlotCounted (next_packet c).0 c₁ cell (omega (arith, size, small))
        (base, rw same.0 m, (let last = same.2 in omega (arith, size, last, count))) in
    let got : SlotCounted c₁ (some c') = rw h at result in
    let bound = got.1 in (got.0 ∙ same.0, omega (arith, bound, size), got.2)

-- The number of steps of a run.
abbrev pub steps_taken : {c c' : Scheduler} {xs : Bytes} → Steps c xs c' → ℕ
steps_taken done = 0
steps_taken (after steps step) = steps_taken steps + 1

on_window-same :
    (c : Scheduler)
    → ((on_window c).n_seg ≡ c.n_seg)
      × ((on_window c).send_chan ≡ c.send_chan)
      × ((on_window c).cur_n_seg ≡ c.cur_n_seg)
unfolding on_window
on_window-same c =
    by_tests
      (not c.is_server
        && (not (is_stop c.conn_state.cur_state)
            && (ltb c.counters.sent 2 || ltb c.counters.rcv 2)))
      (is_ready c.conn_state.cur_state) (is_start c.conn_state.cur_state)
  where
    c' : Scheduler
    c' = record c { counters = reset_counters c.counters }

    by_tests :
        (few from_ready from_start : Bool)
        → let w : Scheduler =
            if few
            then (if from_ready
                then moves_to c' stop
                else if from_start
                then moves_to c' padding
                else c')
            else c' in
          (w.n_seg ≡ c.n_seg) × (w.send_chan ≡ c.send_chan) × (w.cur_n_seg ≡ c.cur_n_seg)
    by_tests false _ _ = (refl, refl, refl)
    by_tests true true _ = (refl, refl, refl)
    by_tests true false true = (refl, refl, refl)
    by_tests true false false = (refl, refl, refl)

-- What a run of `n` steps keeps.
abbrev Tracks : ℕ → ℕ → Scheduler → Type 0
Tracks n_seg n c = (c.n_seg ≡ n_seg) × Counted c × (cells c.send_chan ≤ n)

Step-Tracks :
    {c : Scheduler} {xs : Bytes} {c' : Scheduler} (n_seg n : ℕ)
    → Step c xs c'
    → n + 1 < 2 ^ 32
    → Tracks n_seg n c
    → Tracks n_seg (n + 1) c'
unfolding on_read
Step-Tracks n_seg n (reads bs) small (seg, (base, m, count), few) =
    (seg, (base, m, count), omega (arith, few))
Step-Tracks {c} {c' = c'} n_seg n (slots h) small (seg, counted, few) =
    let r = on_slot-Counted c c' h (omega (arith, few, small)) counted in
    let bound = r.1 in (r.0 ∙ seg, r.2, omega (arith, bound, few))
Step-Tracks {c} n_seg n windows small (seg, (base, m, count), few) =
    let same = on_window-same c in
    let size = ap cells same.1 in
    (
      same.0 ∙ seg,
      (base, rw same.0 m, (let last = same.2 in omega (arith, size, last, count))),
      omega (arith, size, few),
    )
Step-Tracks n_seg n receives small (seg, (base, m, count), few) =
    (seg, (base, m, count), omega (arith, few))

Steps-Tracks :
    (is_server : Bool) (n_seg : ℕ) (state : State) (counters : Counters) {c : Scheduler}
    {up : Bytes} (steps : Steps (new_scheduler is_server n_seg state counters) up c)
    → steps_taken steps < 2 ^ 32
    → Tracks n_seg (steps_taken steps) c
Steps-Tracks is_server n_seg state counters done small =
    (refl, (0, (0, omega arith), omega arith), omega arith)
Steps-Tracks is_server n_seg state counters (after steps step) small =
    Step-Tracks n_seg (steps_taken steps) step small
      (Steps-Tracks is_server n_seg state counters steps (omega arith))

-- A stop leaves nothing counted.
abbrev StopsClean : Option Scheduler → Type 0
StopsClean none = Unit
StopsClean (some c') = c'.conn_state.cur_state ≡ stop → c'.cur_n_seg ≡ 0

schedule-StopsClean :
    (p : PacketInfo) (c : Scheduler)
    → c.conn_state.cur_state ≡ padding
    → StopsClean (schedule (p, c))
unfolding schedule advance
schedule-StopsClean p c pads =
    by_tests
      ((is_stop c.conn_state.cur_state || is_ready c.conn_state.cur_state)
        && p.pkt_type == PacketType.dummy)
      (not c.is_server) (is_stop c.conn_state.cur_state && p.pkt_type == PacketType.payload)
      (is_ready c.conn_state.cur_state && p.pkt_type == PacketType.payload)
      (is_padding c.conn_state.cur_state) (c.n_seg == 0) (c'.cur_n_seg % c.n_seg == 0)
  where
    c' : Scheduler
    c' = record c { cur_n_seg = (c.cur_n_seg + 1) % 2 ^ 32 }

    by_tests :
        (skip client from_stop from_ready pads' zero_seg full : Bool)
        → StopsClean (
            if skip
            then some c
            else (if client
                then (if from_stop
                    then some (put (moves_to c' ready) p)
                    else if from_ready
                    then some (put (put (moves_to c' start) (signal PacketType.signal_start)) p)
                    else if pads'
                    then (if zero_seg
                        then none
                        else if full
                        then some (
                            put
                              (record (put (moves_to c' stop) (signal PacketType.signal_stop)) {
                                cur_n_seg = 0;
                              })
                              p)
                        else some (put c' p))
                    else some (put c' p))
                else some (put c' p)))
    by_tests true _ _ _ _ _ _ = λ h. cc
    by_tests false false _ _ _ _ _ = λ h. cc
    by_tests false true true _ _ _ _ = λ h. cc
    by_tests false true false true _ _ _ = λ h. cc
    by_tests false true false false false _ _ = λ h. cc
    by_tests false true false false true true _ = tt
    by_tests false true false false true false true = λ h. refl
    by_tests false true false false true false false = λ h. cc

next_packet-state :
    (c : Scheduler) → (next_packet c).1.conn_state.cur_state ≡ c.conn_state.cur_state
unfolding next_packet
next_packet-state c = elim (Bool-cases (ltb 0 (length c.receive_buf))) [
  | inl some_data ↦ rw some_data refl
  | inr no_data ↦ rw no_data refl
]

-- In a run of fewer than 2^32 steps, a slot that takes the client from padding to stop leaves the
-- number of packets that it has sent in slots, since the connection began, at a multiple of `nSeg`.
pub Steps-IsMultiple :
    (is_server : Bool) (n_seg : ℕ) (state : State) (counters : Counters) {c : Scheduler}
    {up : Bytes} (c' : Scheduler)
    (steps : Steps (new_scheduler is_server n_seg state counters) up c)
    → steps_taken steps + 1 < 2 ^ 32
    → c.conn_state.cur_state ≡ padding
    → on_slot c ≡ some c'
    → c'.conn_state.cur_state ≡ stop
    → IsMultiple n_seg (cells c'.send_chan)
unfolding on_slot
Steps-IsMultiple is_server n_seg state counters {c} c' steps small pads slot stops =
    let before = Steps-Tracks is_server n_seg state counters steps (omega arith) in
    let few = before.2 in
    let next = on_slot-Counted c c' slot (omega (arith, few)) before.1 in
    let clean : StopsClean (some c') =
      rw slot at
        (schedule-StopsClean (next_packet c).0 (next_packet c).1 (next_packet-state c ∙ pads)) in
    let last = clean stops in
    let counted = next.2 in
    let count = counted.2 in
    (
      counted.1.0,
      (omega (arith, count, last)) ∙ counted.1.1 ∙ ap (λ n. counted.1.0 * n) (next.0 ∙ before.0),
    )
