-- ===== src/Tests/Copy.antt =====
-- The theorems on the sending side and on Tamaraw's schedule at concrete runs.
use wfdef.Prelude.{
  ◌<◌, ◌≡◌, refl, true, false, none, some, [], ◌∷◌, ◌++◌, Bytes, length, replicate, arith,
}
use wfdef.Defconn.State.{start, stop, padding, new_state, increment_rcv}
use wfdef.Defconn.Copy.{
  Copier, new_copier, on_read, chop, put_by_reader, on_tick, Steps, reads, chops, done, after,
}
use wfdef.Defconn.Copy.Conserve.{Inv}
use wfdef.Defconn.Copy.Wire.{Steps-Inv}
use wfdef.Defconn.Copy.Follow as Follow
use wfdef.Defconn.Copy.Agreement.{Turns-IsFollowed}
use wfdef.Tamaraw as Tamaraw
use wfdef.Tamaraw.Padding.{cells, IsMultiple}
use wfdef.Tamaraw.Multiple.{Steps-IsMultiple}
use wfdef.Tamaraw.Schedule.{Flows, Steps-Flows}
use wfdef.Tests.{sip, box, box_laws, encoder, counters, link}

abbrev client : Copier
client = new_copier false new_state counters encoder

abbrev text : Bytes
text = 104 ∷ 105 ∷ []

chopped : Steps sip box 10000 client (([] ++ text) ++ []) (chop (on_read client text))
unfolding on_read
chopped = after (after done (reads text refl refl (omega arith))) (chops refl (omega arith))

Steps-Inv_example : Inv (chop (on_read client text)) (([] ++ text) ++ [])
Steps-Inv_example = Steps-Inv sip box box_laws 10000 false new_state counters encoder chopped

in_stop : Follow.IsServerIn stop (link true)
in_stop = record { server = refl; state = refl }

-- A read that starts the defense, a window with two packets each way, and the tick at its end.
abbrev busy : Copier → Copier
busy c =
    let sent = Follow.turn_chop (Follow.turn_chop c) in
    let c' = record sent { counters = increment_rcv sent.counters } in
    record c' { counters = increment_rcv c'.counters }

abbrev started : Copier
started = Follow.turn_read client (replicate 3000 104)

abbrev first_window : Copier
first_window = Follow.turn_tick (busy started)

abbrev second_window : Copier
second_window = Follow.turn_tick (busy first_window)

in_window :
    {c : Copier}
    → Follow.Turns sip box client c
    → 0 < length c.receive_buf
    → 0 < length (Follow.turn_chop c).receive_buf
    → Follow.Turns sip box client (Follow.turn_tick (busy c))
in_window turns first second = Follow.Turns.ticks (
    Follow.Turns.receives
      (Follow.Turns.receives (Follow.Turns.chops (Follow.Turns.chops turns first) second)))

two_windows : Follow.Turns sip box client second_window
unfolding Follow.turn_read Follow.turn_chop Follow.turn_tick on_read chop put_by_reader on_tick
two_windows =
    in_window
      (in_window (Follow.Turns.reads (replicate 3000 104) Follow.Turns.done) (omega arith)
        (omega arith))
      (omega arith) (omega arith)

-- The defense outlives both windows.
outlives : second_window.conn_state.cur_state ≡ start
unfolding Follow.turn_read Follow.turn_chop Follow.turn_tick on_read chop put_by_reader on_tick
outlives = refl

Turns-IsFollowed_example : Follow.IsFollowed (link true) second_window
Turns-IsFollowed_example = Turns-IsFollowed (link true) sip box encoder counters in_stop two_windows

-- A client of Tamaraw with segments of 3 packets.
abbrev fresh : Tamaraw.Scheduler
fresh = Tamaraw.new_scheduler false 3 new_state counters

abbrev slot_of : Tamaraw.Scheduler → Tamaraw.Scheduler
slot_of c = elim (Tamaraw.on_slot c) [ some c' ↦ c' | none ↦ c ]

abbrev ready_client : Tamaraw.Scheduler
ready_client = slot_of (Tamaraw.on_read fresh text)

abbrev started_client : Tamaraw.Scheduler
started_client = slot_of (Tamaraw.on_read ready_client text)

-- It has sent two packets, and goes over to padding, as nothing has come back.
abbrev padding_client : Tamaraw.Scheduler
padding_client = Tamaraw.on_window started_client

tamaraw_run : Tamaraw.Steps fresh (((([] ++ text) ++ []) ++ text) ++ []) started_client
unfolding Tamaraw.on_slot Tamaraw.schedule Tamaraw.advance Tamaraw.next_packet Tamaraw.on_read
tamaraw_run =
    Tamaraw.after
      (Tamaraw.after
        (Tamaraw.after (Tamaraw.after Tamaraw.done (Tamaraw.reads text))
          (Tamaraw.slots {c' = ready_client} refl))
        (Tamaraw.reads text))
      (Tamaraw.slots {c' = started_client} refl)

padding_run : Tamaraw.Steps fresh ((((([] ++ text) ++ []) ++ text) ++ []) ++ []) padding_client
padding_run = Tamaraw.after tamaraw_run Tamaraw.windows

Steps-Flows_example : Flows (((([] ++ text) ++ []) ++ text) ++ []) started_client
Steps-Flows_example = Steps-Flows false 3 new_state counters tamaraw_run

pads : padding_client.conn_state.cur_state ≡ padding
unfolding Tamaraw.on_slot Tamaraw.schedule Tamaraw.advance Tamaraw.next_packet Tamaraw.on_read
    Tamaraw.on_window
pads = refl

slot : Tamaraw.on_slot padding_client ≡ some (slot_of padding_client)
unfolding Tamaraw.on_slot Tamaraw.schedule Tamaraw.advance Tamaraw.next_packet Tamaraw.on_read
    Tamaraw.on_window
slot = refl

stops : (slot_of padding_client).conn_state.cur_state ≡ stop
unfolding Tamaraw.on_slot Tamaraw.schedule Tamaraw.advance Tamaraw.next_packet Tamaraw.on_read
    Tamaraw.on_window
stops = refl

Steps-IsMultiple_example : IsMultiple 3 (cells (slot_of padding_client).send_chan)
unfolding padding_run tamaraw_run
Steps-IsMultiple_example =
    Steps-IsMultiple false 3 new_state counters (slot_of padding_client) padding_run (omega arith)
      pads slot stops
