-- ===== src/Regulator.antt =====
-- transports/regulator: the parameters of params.go, the packets of packet.go and the server's side
-- of regulator.go, whose sending rate decays. The pacing itself is not modelled; a round of the main
-- loop, a signal and a read are one step each.
pub mod Packet
pub mod Params
pub mod Budget
pub mod Client
use wfdef.Prelude.{
  ℕ, ◌+◌, ◌-◌, ◌*◌, ◌/◌, ◌%◌, ◌^◌, ◌≤◌, ◌<◌, ◌≡◌, Bool, true, false, not, ◌&&◌, Option, none, some,
  List, [], ◌∷◌, ◌++◌, Bytes, length, take, drop, ltb, if◌then◌else◌,
}
use wfdef.Defconn.State.{Phase, start, stop, State, is_start, is_stop, set_state}
use wfdef.Defconn.PacketType
use wfdef.Defconn.Packet.{max_packet_payload_length, max_packet_padding_length}
use wfdef.Regulator.Packet.{PacketInfo, put_uint32}
use wfdef.Regulator.Params.{
  ServerParams, set_last_send, set_target_rate, cal_target_rate, consume_padding_budget, init,
}

-- What the routines of `serverReadFrom` share; `send_chan` holds all that was put into the channel.
pub record Server : Type 0 where
  pub sp : ServerParams
  pub padding_budget : ℕ
  pub conn_state : State
  pub receive_buf : Bytes
  pub written : ℕ
  pub send_chan : List PacketInfo

-- The arguments of the transport that the server uses. `decayed rate nanoseconds` is the rate
-- `rate * d ^ seconds` and `threshold rate` is `t * rate`, in floating point, made an integer.
pub record Config : Type 0 where
  pub r : ℕ
  pub n : ℕ
  pub decayed : ℕ → ℕ → ℕ
  pub threshold : ℕ → ℕ

module _ (config : Config) where
  -- The rate, before a packet is sent.
  unfoldable pub adjust_rate : Server → ℕ → Server
  adjust_rate c now =
      if is_start c.conn_state.cur_state
      then (let sp = cal_target_rate config.decayed c.sp now config.r in
          if ltb (config.threshold sp.target_rate)
            (length c.receive_buf / max_packet_payload_length)
          then record c { sp = set_last_send sp now }
          else record c { sp = sp })
      else record c { sp = set_target_rate (set_last_send c.sp now) config.r }

  -- A packet of data, or a dummy as long as the budget lasts.
  unfoldable pub send_packet : Server → Server
  send_packet c =
      if ltb 0 (length c.receive_buf)
      then (let body = take max_packet_payload_length c.receive_buf in
          record c {
            receive_buf = drop max_packet_payload_length c.receive_buf;
            written = c.written + length body;
            send_chan =
                c.send_chan
                ++ (record {
                  pkt_type = PacketType.payload;
                  t0 = c.sp.last_send;
                  body = body;
                  pad_len = max_packet_padding_length - length body;
                }
                    ∷ []);
          })
      else if is_start c.conn_state.cur_state && ltb 0 c.sp.padding_budget
      then (let sp = consume_padding_budget c.sp in
          record c {
            sp = sp;
            send_chan =
                c.send_chan
                ++ (record {
                  pkt_type = PacketType.dummy;
                  t0 = c.sp.last_send;
                  body = put_uint32 sp.padding_budget ++ put_uint32 c.padding_budget;
                  pad_len = max_packet_padding_length - 8;
                }
                    ∷ []);
          })
      else c

  -- A round of the main loop at the time `now`.
  unfoldable pub on_round : Server → ℕ → Server
  on_round c now = send_packet (adjust_rate c now)

  -- A signal of the client; `draw` is the budget that `utils.Uniform(0, n)` gives.
  unfoldable pub on_signal : Server → Bool → ℕ → ℕ → Server
  on_signal c true now draw =
      let sp = init c.sp config.r draw now in
      record c {
        sp = sp;
        padding_budget = sp.padding_budget;
        conn_state = set_state c.conn_state start;
      }
  on_signal c false now draw =
      if not (is_stop c.conn_state.cur_state)
      then record c { conn_state = set_state c.conn_state stop }
      else c

  unfoldable pub on_read : Server → Bytes → Server
  on_read c bs = record c { receive_buf = c.receive_buf ++ bs }

  -- One step; the indices are what was read from upstream and the budget that was drawn.
  pub data Step : Server → Bytes → ℕ → Server → Type 0 where
    reads : {c : Server} (bs : Bytes) → Step c bs 0 (on_read c bs)
    rounds : {c : Server} (now : ℕ) → Step c [] 0 (on_round c now)
    starts :
        {c : Server} (now draw : ℕ) → draw ≤ config.n → Step c [] draw (on_signal c true now draw)
    stops : {c : Server} (now : ℕ) → Step c [] 0 (on_signal c false now 0)

  pub data Steps : Server → Bytes → ℕ → Server → Type 0 where
    done : {c : Server} → Steps c [] 0 c
    after :
        {c c' c'' : Server} {xs ys : Bytes} {m k : ℕ}
        → Steps c xs m c'
        → Step c' ys k c''
        → Steps c (xs ++ ys) (m + k) c''

  -- The state in which `serverReadFrom` starts.
  abbrev pub new_server : State → ℕ → ℕ → Server
  new_server state now draw = record {
    sp = init (record { last_send = 0; target_rate = 0; padding_budget = 0 }) config.r draw now;
    padding_budget = 0;
    conn_state = state;
    receive_buf = [];
    written = 0;
    send_chan = [];
  }
