-- ===== src/Tamaraw.antt =====
-- transports/tamaraw/tamaraw.go: the scheduler of `ReadFrom`, which sends one packet of one length
-- in each slot, and pads what it sends to a multiple of `nSeg` packets. A slot, a window and a read
-- are one step each.
pub mod Schedule
pub mod Padding
pub mod Multiple
use wfdef.Prelude.{
  ℕ, ◌+◌, ◌-◌, ◌%◌, ◌^◌, ◌<◌, ◌≡◌, Bool, true, false, not, ◌&&◌, ◌||◌, Option, none, some, List, [],
  ◌∷◌, ◌++◌, Bytes, length, take, drop, ltb, ◌==◌, if◌then◌else◌,
}
use wfdef.Defconn.State.{
  Phase, start, stop, ready, padding, State, is_start, is_stop, is_ready, set_state, Counters,
  increment_sent, increment_rcv, reset_counters,
}
use wfdef.Defconn.PacketType
use wfdef.Defconn.Packet.{PacketInfo, max_packet_payload_length, max_packet_padding_length}
use wfdef.Defconn.Copy.{signal, payload_packet}

abbrev pub is_padding : Phase → Bool
is_padding padding = true
is_padding _ = false

-- `send_chan` holds all that has been put into the channel, the packets that `Send` took included.
pub record Scheduler : Type 0 where
  pub is_server : Bool
  pub n_seg : ℕ
  pub conn_state : State
  pub counters : Counters
  pub receive_buf : Bytes
  pub written : ℕ
  pub cur_n_seg : ℕ
  pub send_chan : List PacketInfo

-- `r.Read` gave `bs`.
unfoldable pub on_read : Scheduler → Bytes → Scheduler
on_read c bs = record c { receive_buf = c.receive_buf ++ bs; written = c.written + length bs }

-- The packet of a slot: payload, or a dummy if there is none. `written` counts the payload again.
unfoldable pub next_packet : Scheduler → PacketInfo × Scheduler
next_packet c =
    if ltb 0 (length c.receive_buf)
    then (let body = take max_packet_payload_length c.receive_buf in
        (
          payload_packet body,
          record c {
            receive_buf = drop max_packet_payload_length c.receive_buf;
            written = c.written + length body;
            counters = increment_sent c.counters;
          },
        ))
    else (signal PacketType.dummy, c)

abbrev pub put : Scheduler → PacketInfo → Scheduler
put c p = record c { send_chan = c.send_chan ++ (p ∷ []) }

abbrev pub moves_to : Scheduler → Phase → Scheduler
moves_to c phase = record c { conn_state = set_state c.conn_state phase }

-- The states of the client, and the packet of the slot behind its signal; `none` is the panic of a
-- division by zero.
unfoldable pub advance : Scheduler → PacketInfo → Option Scheduler
advance c p =
    if not c.is_server
    then (if is_stop c.conn_state.cur_state && p.pkt_type == PacketType.payload
        then some (put (moves_to c ready) p)
        else if is_ready c.conn_state.cur_state && p.pkt_type == PacketType.payload
        then some (put (put (moves_to c start) (signal PacketType.signal_start)) p)
        else if is_padding c.conn_state.cur_state
        then (if c.n_seg == 0
            then none
            else if c.cur_n_seg % c.n_seg == 0
            then some (
                put
                  (record (put (moves_to c stop) (signal PacketType.signal_stop)) { cur_n_seg = 0 })
                  p)
            else some (put c p))
        else some (put c p))
    else some (put c p)

-- A tick of the schedule. `curNSeg` is a uint32.
unfoldable pub schedule : PacketInfo × Scheduler → Option Scheduler
schedule (p, c) =
    if (is_stop c.conn_state.cur_state || is_ready c.conn_state.cur_state)
      && p.pkt_type == PacketType.dummy
    then some c
    else advance (record c { cur_n_seg = (c.cur_n_seg + 1) % 2 ^ 32 }) p

unfoldable pub on_slot : Scheduler → Option Scheduler
unfolding schedule
on_slot c = schedule (next_packet c)

-- The window: too few segments take the client from ready to stop, and from start to padding.
unfoldable pub on_window : Scheduler → Scheduler
on_window c =
    let c' = record c { counters = reset_counters c.counters } in
    if not c.is_server
      && (not (is_stop c.conn_state.cur_state) && (ltb c.counters.sent 2 || ltb c.counters.rcv 2))
    then (if is_ready c.conn_state.cur_state
        then moves_to c' stop
        else if is_start c.conn_state.cur_state
        then moves_to c' padding
        else c')
    else c'

-- One step; the index is what was read from upstream.
pub data Step : Scheduler → Bytes → Scheduler → Type 0 where
  reads : {c : Scheduler} (bs : Bytes) → Step c bs (on_read c bs)
  slots : {c c' : Scheduler} → on_slot c ≡ some c' → Step c [] c'
  windows : {c : Scheduler} → Step c [] (on_window c)
  receives : {c : Scheduler} → Step c [] (record c { counters = increment_rcv c.counters })

pub data Steps : Scheduler → Bytes → Scheduler → Type 0 where
  done : {c : Scheduler} → Steps c [] c
  after :
      {c c' c'' : Scheduler} {xs ys : Bytes}
      → Steps c xs c'
      → Step c' ys c''
      → Steps c (xs ++ ys) c''

abbrev pub new_scheduler : Bool → ℕ → State → Counters → Scheduler
new_scheduler is_server n_seg state counters = record {
  is_server = is_server;
  n_seg = n_seg;
  conn_state = state;
  counters = counters;
  receive_buf = [];
  written = 0;
  cur_n_seg = 0;
  send_chan = [];
}
