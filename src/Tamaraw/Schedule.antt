-- ===== src/Tamaraw/Schedule.antt =====
-- Each packet of the schedule has the same length, and the data goes out in its order.
use wfdef.Prelude.{
  ℕ, ◌+◌, ◌%◌, ◌^◌, ◌≡◌, refl, sym, ap, ◌∙◌, Bool, true, false, not, ◌&&◌, ◌||◌, Option, none, some,
  [], ◌∷◌, ◌++◌, append_assoc, append-nil, Bytes, length, length-append, length-take, take, drop,
  take-append-drop, ltb, ◌==◌, if◌then◌else◌, arith,
}
use wfdef.Defconn.State.{
  Phase, start, stop, ready, padding, State, is_start, is_stop, is_ready, set_state, Counters,
  reset_counters, increment_sent,
}
use wfdef.Defconn.PacketType
use wfdef.Defconn.Packet.{PacketInfo, max_packet_payload_length}
use wfdef.Defconn.Copy.{signal, payload_packet}
use wfdef.Defconn.Copy.Conserve.{bodies, bodies-append, IsFull, AllFull, AllFull-append}
use wfdef.Tamaraw.{
  is_padding, Scheduler, on_read, next_packet, put, moves_to, advance, schedule, on_slot, on_window,
  Step, Steps, reads, slots, windows, receives, done, after, new_scheduler,
}

-- The data read is in the packets and the buffer, in its order, and `written` counts what has been
-- read and, once more, what has been sent.
pub record Flows (up : Bytes) (c : Scheduler) : Type 0 where
  pub conserved : bodies c.send_chan ++ c.receive_buf ≡ up
  pub full : AllFull c.send_chan
  pub counted_twice : c.written ≡ length up + length (bodies c.send_chan)

abbrev pub OptionFlows : Bytes → Option Scheduler → Type 0
OptionFlows up none = Unit
OptionFlows up (some c) = Flows up c

-- A packet that is not yet in the channel.
record Holding (up : Bytes) (p : PacketInfo) (c : Scheduler) : Type 0 where
  conserved : bodies c.send_chan ++ (p.body ++ c.receive_buf) ≡ up
  full : AllFull c.send_chan
  packet_full : IsFull p
  counted : c.written ≡ length up + length (bodies c.send_chan) + length p.body

module _ (up : Bytes) (p : PacketInfo) (c : Scheduler) (h : Holding up p c) where
  puts : (state : State) (n : ℕ) → Flows up (put (record c { conn_state = state; cur_n_seg = n }) p)
  puts state n =
      let all =
        bodies-append c.send_chan (p ∷ [])
        ∙ ap (λ r. bodies c.send_chan ++ r) (append-nil p.body) in
      record {
        conserved =
            ap (λ r. r ++ c.receive_buf) all
            ∙ append_assoc (bodies c.send_chan) p.body c.receive_buf
            ∙ h.conserved;
        full = AllFull-append c.send_chan (p ∷ []) h.full (h.packet_full, tt);
        counted_twice =
            (let size = ap length all in
              let before = h.counted in
              omega (arith, size, before, length-append (bodies c.send_chan) p.body));
      }

-- A signal carries no data.
signalled :
    (up : Bytes) (p : PacketInfo) (c : Scheduler) (t : ℕ) (state : State) (n : ℕ)
    → Holding up p c
    → Holding up p (record (put (record c { conn_state = state }) (signal t)) { cur_n_seg = n })
signalled up p c t state n h =
    let same = bodies-append c.send_chan (signal t ∷ []) ∙ append-nil (bodies c.send_chan) in
    record {
      conserved = rw same h.conserved;
      full = AllFull-append c.send_chan (signal t ∷ []) h.full (refl, tt);
      packet_full = h.packet_full;
      counted = rw same h.counted;
    }

advance-Flows :
    (up : Bytes) (p : PacketInfo) (c : Scheduler) → Holding up p c → OptionFlows up (advance c p)
unfolding advance
advance-Flows up p c h =
    by_tests (not c.is_server) (is_stop c.conn_state.cur_state && p.pkt_type == PacketType.payload)
      (is_ready c.conn_state.cur_state && p.pkt_type == PacketType.payload)
      (is_padding c.conn_state.cur_state) (c.n_seg == 0) (c.cur_n_seg % c.n_seg == 0)
  where
    stays : Flows up (put c p)
    stays = puts up p c h c.conn_state c.cur_n_seg

    with_signal :
        (t n : ℕ) (phase : Phase)
        → Flows up (put (record (put (moves_to c phase) (signal t)) { cur_n_seg = n }) p)
    with_signal t n phase =
        puts up p (record (put (moves_to c phase) (signal t)) { cur_n_seg = n })
          (signalled up p c t (set_state c.conn_state phase) n h) (set_state c.conn_state phase) n

    by_tests :
        (client from_stop from_ready pads zero_seg full : Bool)
        → OptionFlows up (
            if client
            then (if from_stop
                then some (put (moves_to c ready) p)
                else if from_ready
                then some (put (put (moves_to c start) (signal PacketType.signal_start)) p)
                else if pads
                then (if zero_seg
                    then none
                    else if full
                    then some (
                        put
                          (record (put (moves_to c stop) (signal PacketType.signal_stop)) {
                            cur_n_seg = 0;
                          })
                          p)
                    else some (put c p))
                else some (put c p))
            else some (put c p))
    by_tests false _ _ _ _ _ = stays
    by_tests true true _ _ _ _ = puts up p c h (set_state c.conn_state ready) c.cur_n_seg
    by_tests true false true _ _ _ = with_signal PacketType.signal_start c.cur_n_seg start
    by_tests true false false false _ _ = stays
    by_tests true false false true true _ = tt
    by_tests true false false true false true = with_signal PacketType.signal_stop 0 stop
    by_tests true false false true false false = stays

next_packet-Flows :
    (up : Bytes) (c : Scheduler)
    → Flows up c
    → Holding up (next_packet c).0 (next_packet c).1
      × (((next_packet c).0.pkt_type == PacketType.dummy) ≡ true → Flows up (next_packet c).1)
unfolding next_packet
next_packet-Flows up c f = by_test (ltb 0 (length c.receive_buf))
  where
    body : Bytes
    body = take max_packet_payload_length c.receive_buf

    c' : Scheduler
    c' = record c {
      receive_buf = drop max_packet_payload_length c.receive_buf;
      written = c.written + length body;
      counters = increment_sent c.counters;
    }

    by_test :
        (some_data : Bool)
        → let q : PacketInfo × Scheduler =
            if some_data then (payload_packet body, c') else (signal PacketType.dummy, c) in
          Holding up q.0 q.1 × ((q.0.pkt_type == PacketType.dummy) ≡ true → Flows up q.1)
    by_test true = (
      record {
        conserved =
            ap (λ r. bodies c.send_chan ++ r)
              (take-append-drop max_packet_payload_length c.receive_buf)
            ∙ f.conserved;
        full = f.full;
        packet_full = omega (arith, length-take max_packet_payload_length c.receive_buf);
        counted = (let before = f.counted_twice in omega (arith, before));
      },
      λ dummy. cc,
    )
    by_test false = (
      record {
        conserved = f.conserved;
        full = f.full;
        packet_full = refl;
        counted = (let before = f.counted_twice in omega (arith, before));
      },
      λ dummy. f,
    )

schedule-Flows :
    (up : Bytes) (p : PacketInfo) (c : Scheduler)
    → Holding up p c
    → ((p.pkt_type == PacketType.dummy) ≡ true → Flows up c)
    → OptionFlows up (schedule (p, c))
unfolding schedule
schedule-Flows up p c h f =
    by_test (is_stop c.conn_state.cur_state || is_ready c.conn_state.cur_state)
      (p.pkt_type == PacketType.dummy) f
  where
    c' : Scheduler
    c' = record c { cur_n_seg = (c.cur_n_seg + 1) % 2 ^ 32 }

    h' : Holding up p c'
    h' = record {
      conserved = h.conserved;
      full = h.full;
      packet_full = h.packet_full;
      counted = h.counted;
    }

    by_test :
        (off dummy : Bool)
        → (dummy ≡ true → Flows up c)
        → OptionFlows up (if off && dummy then some c else advance c' p)
    by_test true true f = f refl
    by_test true false f = advance-Flows up p c' h'
    by_test false dummy f = advance-Flows up p c' h'

nothing_read : (up : Bytes) (c : Scheduler) → Flows up c → Flows (up ++ []) c
nothing_read up c f = rw (append-nil up) f

Flows-state :
    (up : Bytes) (c : Scheduler) (state : State) (counters : Counters)
    → Flows up c
    → Flows up (record c { conn_state = state; counters = counters })
Flows-state up c state counters f = record {
  conserved = f.conserved;
  full = f.full;
  counted_twice = f.counted_twice;
}

on_window-Flows : (up : Bytes) (c : Scheduler) → Flows up c → Flows up (on_window c)
unfolding on_window
on_window-Flows up c f =
    by_tests
      (not c.is_server
        && (not (is_stop c.conn_state.cur_state)
            && (ltb c.counters.sent 2 || ltb c.counters.rcv 2)))
      (is_ready c.conn_state.cur_state) (is_start c.conn_state.cur_state)
  where
    c' : Scheduler
    c' = record c { counters = reset_counters c.counters }

    by_tests :
        (few from_ready from_start : Bool)
        → Flows up (
            if few
            then (if from_ready
                then moves_to c' stop
                else if from_start
                then moves_to c' padding
                else c')
            else c')
    by_tests false _ _ = Flows-state up c c.conn_state (reset_counters c.counters) f
    by_tests true true _ =
        Flows-state up c (set_state c.conn_state stop) (reset_counters c.counters) f
    by_tests true false true =
        Flows-state up c (set_state c.conn_state padding) (reset_counters c.counters) f
    by_tests true false false = Flows-state up c c.conn_state (reset_counters c.counters) f

Step-Flows :
    (up : Bytes) {c : Scheduler} {xs : Bytes} {c' : Scheduler}
    → Step c xs c'
    → Flows up c
    → Flows (up ++ xs) c'
unfolding on_read on_slot
Step-Flows up {c} (reads bs) f = record {
  conserved =
      sym (append_assoc (bodies c.send_chan) c.receive_buf bs) ∙ ap (λ r. r ++ bs) f.conserved;
  full = f.full;
  counted_twice = (let before = f.counted_twice in omega (arith, before, length-append up bs));
}
Step-Flows up {c} {c' = c'} (slots h) f =
    let n = next_packet-Flows up c f in
    let r : OptionFlows up (some c') =
      rw h at (schedule-Flows up (next_packet c).0 (next_packet c).1 n.0 n.1) in
    nothing_read up c' r
Step-Flows up {c} windows f = nothing_read up _ (on_window-Flows up c f)
Step-Flows up {c} receives f = nothing_read up _ (Flows-state up c c.conn_state _ f)

-- In every run from a new connection, each packet put into the channel is padded to the maximum,
-- the data read from upstream is in these packets and then the buffer, in its order, and the count
-- of bytes that `ReadFrom` returns is that of the data read plus that of the data sent.
pub Steps-Flows :
    (is_server : Bool) (n_seg : ℕ) (state : State) (counters : Counters) {c : Scheduler}
    {up : Bytes}
    → Steps (new_scheduler is_server n_seg state counters) up c
    → Flows up c
Steps-Flows is_server n_seg state counters done = record {
  conserved = refl;
  full = tt;
  counted_twice = refl;
}
Steps-Flows is_server n_seg state counters (after {xs = xs} steps step) =
    Step-Flows xs step (Steps-Flows is_server n_seg state counters steps)
