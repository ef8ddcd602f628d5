-- ===== src/Regulator/Client.antt =====
-- transports/regulator/regulator.go: the client's side, `clientReadFrom`. A read, a tick and a round
-- of the main loop are one step each, as on the server's side. Floating point is in `ClientConfig`.
pub mod Carried
pub mod Rounds
use wfdef.Prelude.{
  ℕ, zero, suc, ◌+◌, ◌-◌, ◌*◌, ◌/◌, ◌==◌, Bool, true, false, not, ◌&&◌, ◌||◌, Option, none, some,
  List, [], ◌∷◌, ◌++◌, Bytes, length, take, drop, ltb, if◌then◌else◌,
}
use wfdef.Prelude.Fifo.{Fifo}
use wfdef.Prelude.Options.{◌>>=◌}
use wfdef.Defconn.State.{
  State, start, stop, ready, is_start, is_stop, is_ready, set_state, Counters, increment_sent,
  increment_rcv, reset_counters,
}
use wfdef.Defconn.PacketType
use wfdef.Defconn.Packet.{max_packet_payload_length, max_packet_padding_length}
use wfdef.Regulator.Packet.{PacketInfo}
use wfdef.Regulator.Params.{cal_target_rate_with_last}

pub record UpstreamDataInfo : Type 0 where
  pub bytes : Bytes
  pub timestamp : ℕ

-- `r`, the decay of the server's rate, and `c` in nanoseconds; `gap rate` is the time between two
-- packets for a server's rate, from floating point, `initial_rate` the rate without the defense.
pub record ClientConfig : Type 0 where
  pub r : ℕ
  pub decayed : ℕ → ℕ → ℕ
  pub c : ℕ
  pub gap : ℕ → ℕ
  pub initial_rate : ℕ

-- What the routines share; `send_chan` holds all that was put into the channel.
pub record Client (Q : Type 0) : Type 0 where
  pub conn_state : State
  pub counters : Counters
  pub receive_q : Q
  pub written : ℕ
  pub t0 : ℕ
  pub rho : ℕ
  pub last_send : ℕ
  pub send_chan : List PacketInfo

abbrev pub signal : ℕ → PacketInfo
signal t = record { pkt_type = t; t0 = 0; body = []; pad_len = max_packet_padding_length }

abbrev pub payload_packet : Bytes → PacketInfo
payload_packet bs = record {
  pkt_type = PacketType.payload;
  t0 = 0;
  body = bs;
  pad_len = max_packet_padding_length - length bs;
}

-- `utils.SleepRho`, called at `now`: when it returns.
abbrev pub sleep_rho : ℕ → ℕ → ℕ → ℕ
sleep_rho last_send rho now =
    let remaining_delay = rho - (now - last_send) in
    if ltb 0 remaining_delay then now + remaining_delay else now

module _ {Q : Type 0} (queue : Fifo Q UpstreamDataInfo) (config : ClientConfig) where
  -- The loop over what was read; a round takes at least a byte, so the length is enough fuel.
  -- `clock` gives the time of each round.
  unfoldable pub enqueue_all : ℕ → (ℕ → ℕ) → Bytes → Q → Option Q
  enqueue_all zero clock bs q = some q
  enqueue_all (suc fuel) clock [] q = some q
  enqueue_all (suc fuel) clock (x ∷ bs) q = do
    let info : UpstreamDataInfo = record {
      bytes = take max_packet_payload_length (x ∷ bs);
      timestamp = clock 0;
    }
    q' ← queue.enqueue q info
    enqueue_all fuel (λ k. clock (k + 1)) (drop max_packet_payload_length (x ∷ bs)) q'

  -- stop -> ready -> start, after a read of `n` bytes at `now`
  unfoldable pub on_arrival : Client Q → ℕ → ℕ → Client Q
  on_arrival c n now =
      if (is_stop c.conn_state.cur_state && ltb max_packet_payload_length n)
        || is_ready c.conn_state.cur_state
      then record c {
        t0 = now;
        conn_state = set_state c.conn_state start;
        send_chan = c.send_chan ++ (signal PacketType.signal_start ∷ []);
      }
      else if is_stop c.conn_state.cur_state
      then record c { conn_state = set_state c.conn_state ready }
      else c

  -- `none` is an error of the queue.
  unfoldable pub on_read : Client Q → Bytes → (ℕ → ℕ) → ℕ → Option (Client Q)
  on_read c bs clock now = do
    q ← enqueue_all (length bs) clock bs c.receive_q
    some (on_arrival (record c { receive_q = q }) (length bs) now)

  unfoldable pub on_tick : Client Q → Client Q
  on_tick c =
      if not (is_stop c.conn_state.cur_state) && (ltb c.counters.sent 2 || ltb c.counters.rcv 2)
      then record c {
        conn_state = set_state c.conn_state stop;
        send_chan = c.send_chan ++ (signal PacketType.signal_stop ∷ []);
        counters = reset_counters c.counters;
      }
      else record c { counters = reset_counters c.counters }

  -- The time to the next packet, by the rate. The initial rate is an integer, so that Go divides
  -- without remainder; `none` is the panic for a rate of 0.
  unfoldable pub set_rho : Client Q → ℕ → Option (Client Q)
  set_rho c now =
      if is_start c.conn_state.cur_state
      then some (record c {
        rho = config.gap (cal_target_rate_with_last config.decayed c.t0 now config.r);
      })
      else if config.initial_rate == 0
      then none
      else some (record c { rho = 1 / config.initial_rate * 1000000000 })

  abbrev pub sent_data : Client Q → Option (UpstreamDataInfo × Q) → Option (Client Q)
  sent_data c none = none
  sent_data c (some (info, q)) = some (record c {
    receive_q = q;
    written = c.written + length info.bytes;
    send_chan = c.send_chan ++ (payload_packet info.bytes ∷ []);
    counters = increment_sent c.counters;
  })

  -- A packet of data, or a dummy while the defense is on.
  unfoldable pub send_packet : Client Q → Option (Client Q)
  send_packet c =
      if ltb 0 (queue.get_len c.receive_q)
      then sent_data c (queue.dequeue c.receive_q)
      else if is_start c.conn_state.cur_state
      then some (record c { send_chan = c.send_chan ++ (signal PacketType.dummy ∷ []) })
      else some c

  abbrev pub hurried : Client Q → ℕ → Option UpstreamDataInfo → Client Q
  hurried c now none = c
  hurried c now (some next) =
      if ltb (next.timestamp + config.c) (now + c.rho) then record c { rho = 0 } else c

  -- The next packet goes out at once, if it would be later than `c`.
  unfoldable pub hurry : Client Q → ℕ → Client Q
  hurry c now =
      if ltb 0 (queue.get_len c.receive_q) then hurried c now (queue.get_first c.receive_q) else c

  abbrev pub sleep : Client Q → ℕ → Client Q
  sleep c now = record c { last_send = sleep_rho c.last_send c.rho now }

  -- A round of the main loop, which reads the clock for the rate, for the delay and for the sleep.
  unfoldable pub on_round : Client Q → ℕ → ℕ → ℕ → Option (Client Q)
  on_round c now now' now'' = do
    c' ← set_rho c now
    c'' ← send_packet c'
    some (sleep (hurry c'' now') now'')

-- What happens to a client. `receives` is a payload and `dummies` a dummy that `readPackets` has
-- taken, with the `t0` that the packet brings.
pub data Event : Type 0 where
  reads : Bytes → (ℕ → ℕ) → ℕ → Event
  ticks : Event
  rounds : ℕ → ℕ → ℕ → Event
  receives : ℕ → Event
  dummies : ℕ → Event

module _ {Q : Type 0} (queue : Fifo Q UpstreamDataInfo) (config : ClientConfig) where
  unfoldable pub on_event : Client Q → Event → Option (Client Q)
  on_event c (reads bs clock now) = on_read queue config c bs clock now
  on_event c ticks = some (on_tick queue config c)
  on_event c (rounds now now' now'') = on_round queue config c now now' now''
  on_event c (receives t0) = some (record c { counters = increment_rcv c.counters; t0 = t0 })
  on_event c (dummies t0) = some (if ltb c.t0 t0 then record c { t0 = t0 } else c)

  unfoldable pub run : Client Q → List Event → Option (Client Q)
  run c [] = some c
  run c (e ∷ es) = do c' ← on_event c e; run c' es

  -- The state in which the main loop starts.
  abbrev pub new_client : State → Counters → Q → ℕ → Client Q
  new_client state counters q now = record {
    conn_state = state;
    counters = counters;
    receive_q = q;
    written = 0;
    t0 = now;
    rho = 0;
    last_send = now;
    send_chan = [];
  }
