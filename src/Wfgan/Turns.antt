-- ===== src/Wfgan/Turns.antt =====
-- transports/wfgan/wfgan.go: the turns of client and server, `ReadFromClient` and `ReadFromServer`. A
-- read, a tick, a burst and the arrival of a packet are one step each, and the pauses are left out.
-- The tuples of the queue that the Python service fills are arguments.
pub mod Asks
pub mod Takes
pub mod Answers
use wfdef.Prelude.{
  ℕ, ◌+◌, ◌-◌, ◌%◌, ◌^◌, ◌≡◌, Bool, true, false, not, ◌&&◌, ◌||◌, Option, none, some, List, [], ◌∷◌,
  ◌++◌, Bytes, length, ltb, ◌==◌, if◌then◌else◌,
}
use wfdef.Defconn.State.{
  State, start, stop, ready, is_start, is_stop, is_ready, set_state, increment_rcv, reset_counters,
}
use wfdef.Defconn.PacketType
use wfdef.Defconn.Packet.{
  PacketInfo, PacketError, max_packet_payload_length, max_packet_padding_length,
}
use wfdef.Defconn.Copy.{signal}
use wfdef.Defconn.Receive.{Link, Handled, goes, panics}
use wfdef.Regulator.Packet.{put_uint32}
use wfdef.Wfgan.{Sender, send_ref_burst, send_real_burst}
use wfdef.Wfgan.Switch.{Extra, switch}

-- The bounds of a reference burst, rounded from floating point.
pub record Tolerance : Type 0 where
  pub low : ℕ → ℕ
  pub high : ℕ → ℕ

-- The `send_chan` of the client's `sender` are the packets that the server does not have yet.
pub record Client : Type 0 where
  pub conn_state : State
  pub sender : Sender

pub record Server (P : Type 0) : Type 0 where
  pub sender : Sender
  pub link : Link (Extra P)

pub record System (P : Type 0) : Type 0 where
  pub client : Client
  pub server : Server P

abbrev pub put : Sender → PacketInfo → Sender
put c p = record c { send_chan = c.send_chan ++ (p ∷ []) }

abbrev pub buffer : Sender → Bytes → Sender
buffer c bs = record c { receive_buf = c.receive_buf ++ bs }

-- stop -> ready -> start
unfoldable pub client_reads : Client → Bytes → Client
client_reads c bs =
    if (is_stop c.conn_state.cur_state && ltb max_packet_payload_length (length bs))
      || is_ready c.conn_state.cur_state
    then record {
      conn_state = set_state c.conn_state start;
      sender = put (buffer c.sender bs) (signal PacketType.signal_start);
    }
    else if is_stop c.conn_state.cur_state
    then record { conn_state = set_state c.conn_state ready; sender = buffer c.sender bs }
    else record c { sender = buffer c.sender bs }

abbrev pub reset : Sender → Sender
reset c = record c { counters = reset_counters c.counters }

unfoldable pub client_ticks : Client → Client
client_ticks c =
    if not (is_stop c.conn_state.cur_state)
      && (ltb c.sender.counters.sent 2 || ltb c.sender.counters.rcv 2)
    then record {
      conn_state = set_state c.conn_state stop;
      sender = reset (put c.sender (signal PacketType.signal_stop));
    }
    else record c { sender = reset c.sender }

-- The finish signal, with the size of the response.
abbrev pub finish : ℕ → PacketInfo
finish response = record {
  pkt_type = PacketType.finish;
  body = put_uint32 response;
  pad_len = max_packet_padding_length - 4;
}

module _ (tol : Tolerance) where
  -- A round of the client's main loop, with the tuple from the queue; `none` if there was none in time.
  unfoldable pub client_round : Client → Option (ℕ × ℕ) → Client
  client_round c tuple =
      if is_start c.conn_state.cur_state
      then elim tuple [
        | none ↦ c
        | some (request, response) ↦ record c {
          sender =
              put (send_ref_burst (tol.low request) (tol.high request) c.sender)
                (finish (response % 2 ^ 32));
        }
      ]
      else record c { sender = send_real_burst c.sender }

  -- The response sizes that the round asks the server for.
  unfoldable pub client_asks : Client → Option (ℕ × ℕ) → List ℕ
  client_asks c none = []
  client_asks c (some (request, response)) =
      if is_start c.conn_state.cur_state then (response % 2 ^ 32) ∷ [] else []

  -- The server's answer to a signal from `canSendChan`; `skip` is the Bernoulli draw.
  unfoldable pub answer : Sender → ℕ → Bool → Sender
  answer c n skip =
      if n == 0
      then send_real_burst c
      else if (length c.receive_buf == 0) && skip
      then c
      else send_ref_burst (tol.low n) (tol.high n) c

module _ {P : Type 0} where
  abbrev pub with_signals : Server P → List ℕ → Server P
  with_signals s signals = record s {
    link = record s.link { extra = record s.link.extra { can_send_chan = signals } };
  }

  -- The routine that detects that the defense is off.
  unfoldable pub detect : Server P → Server P
  detect s =
      if is_stop s.link.conn_state.cur_state
      then with_signals s (s.link.extra.can_send_chan ++ (0 ∷ []))
      else s

  -- The end of a packet's handling; `none` is a panic.
  abbrev pub handled : Server P → Handled (Extra P) → Option (Server P)
  handled s (goes l e) = some (record s { link = l })
  handled s panics = none

module _ {P : Type 0} (beta : ℕ → P) where
  -- The server takes a packet of the client.
  unfoldable pub take_packet : Server P → PacketInfo → Option (Server P)
  take_packet s p = handled s (switch beta s.link p.pkt_type p.body [])

module _ {P : Type 0} (beta : ℕ → P) (tol : Tolerance) where
  -- One step; the indices are the response sizes that the client has asked for, and the signals that
  -- the server has answered.
  pub data Step : System P → List ℕ → List ℕ → System P → Type 0 where
    client_reads_data :
        {s : System P} (bs : Bytes) → Step s [] [] (record s { client = client_reads s.client bs })
    client_has_tick : {s : System P} → Step s [] [] (record s { client = client_ticks s.client })
    client_counts :
        {s : System P}
        → Step s [] [] (record s {
          client = record s.client {
            sender = record s.client.sender { counters = increment_rcv s.client.sender.counters };
          };
        })
    client_turns :
        {s : System P} (tuple : Option (ℕ × ℕ))
        → Step s
            (client_asks tol s.client tuple)
            []
            (record s { client = client_round tol s.client tuple })
    server_reads :
        {s : System P} (bs : Bytes)
        → Step s [] []
            (record s { server = record s.server { sender = buffer s.server.sender bs } })
    server_detects : {s : System P} → Step s [] [] (record s { server = detect s.server })
    server_answers :
        {s : System P} (n : ℕ) (rest : List ℕ) (skip : Bool)
        → s.server.link.extra.can_send_chan ≡ n ∷ rest
        → Step s [] (n ∷ []) (record s {
          server = record (with_signals s.server rest) {
            sender = answer tol s.server.sender n skip;
          };
        })
    arrives :
        {s : System P} {server : Server P} (p : PacketInfo) (rest : List PacketInfo)
        → s.client.sender.send_chan ≡ p ∷ rest
        → take_packet beta s.server p ≡ some server
        → Step s [] [] (record {
          client = record s.client { sender = record s.client.sender { send_chan = rest } };
          server = server;
        })

  pub data Steps : System P → List ℕ → List ℕ → System P → Type 0 where
    done : {s : System P} → Steps s [] [] s
    after :
        {s s' s'' : System P} {xs ys xs' ys' : List ℕ}
        → Steps s xs ys s'
        → Step s' xs' ys' s''
        → Steps s (xs ++ xs') (ys ++ ys') s''
