-- ===== src/Defconn/Copy.antt =====
-- transports/defconn/defconn.go: the sending side, `ReadFrom` with its ticker routine, and `Send`.
-- Three routines share the state, the counters and the channel. A routine that has changed the state
-- holds the packet that it is about to put into the channel, so the others may run in between.
pub mod Conserve
pub mod Wire
pub mod Follow
pub mod Agreement
use wfdef.Prelude.{
  ℕ, ◌+◌, ◌-◌, ◌<◌, ◌≡◌, Bool, true, false, not, ◌&&◌, ◌||◌, Option, none, some, List, [], ◌∷◌,
  ◌++◌, Bytes, length, take, drop, ltb, ◌==◌, if◌then◌else◌, Result, ok, err,
}
use wfdef.Drbg.{Sip}
use wfdef.Framing.{Box, Encoder, FramingError}
use wfdef.Defconn.State.{
  State, start, stop, ready, is_start, is_stop, is_ready, set_state, Counters, increment_sent,
  increment_rcv, reset_counters,
}
use wfdef.Defconn.PacketType
use wfdef.Defconn.Packet.{
  PacketInfo, max_packet_payload_length, max_packet_padding_length, make_packet,
}

-- The `Send` routine: it runs, it has ended with an error, or it has panicked.
pub data Sender : Type 0 where
  running stopped panicked : Sender

-- `taken` are the packets that `Send` took from the channel, `wire` what it wrote.
pub record Copier : Type 0 where
  pub is_server : Bool
  pub conn_state : State
  pub counters : Counters
  pub receive_buf : Bytes
  pub written : ℕ
  pub held_by_reader : Option PacketInfo
  pub held_by_ticker : Option PacketInfo
  pub send_chan : List PacketInfo
  pub sender : Sender
  pub encoder : Encoder
  pub taken : List PacketInfo
  pub wire : Bytes

-- A packet without payload, of full length.
abbrev pub signal : ℕ → PacketInfo
signal t = record { pkt_type = t; body = []; pad_len = max_packet_padding_length }

-- `r.Read` gave `bs`: stop -> ready -> start
unfoldable pub on_read : Copier → Bytes → Copier
on_read c bs =
    let c' = record c { receive_buf = c.receive_buf ++ bs } in
    if not c.is_server
    then (if (is_stop c.conn_state.cur_state && ltb max_packet_payload_length (length bs))
          || is_ready c.conn_state.cur_state
        then record c' {
          conn_state = set_state c.conn_state start;
          held_by_reader = some (signal PacketType.signal_start);
        }
        else if is_stop c.conn_state.cur_state
        then record c' { conn_state = set_state c.conn_state ready }
        else c')
    else c'

-- One round of `for receiveBuf.GetLen() > 0`, up to the channel.
abbrev pub payload_packet : Bytes → PacketInfo
payload_packet body = record {
  pkt_type = PacketType.payload;
  body = body;
  pad_len = max_packet_padding_length - length body;
}

unfoldable pub chop : Copier → Copier
chop c =
    let body = take max_packet_payload_length c.receive_buf in
    record c {
      receive_buf = drop max_packet_payload_length c.receive_buf;
      written = c.written + length body;
      held_by_reader = some (payload_packet body);
    }

-- The reader puts what it holds into the channel; it counts a payload.
unfoldable pub put_by_reader : Copier → PacketInfo → Copier
put_by_reader c p = record c {
  held_by_reader = none;
  send_chan = c.send_chan ++ (p ∷ []);
  counters = if p.pkt_type == PacketType.payload then increment_sent c.counters else c.counters;
}

-- The ticker: too few segments in the window stop the defense.
unfoldable pub on_tick : Copier → Copier
on_tick c =
    if not c.is_server
      && (not (is_stop c.conn_state.cur_state) && (ltb c.counters.sent 2 || ltb c.counters.rcv 2))
    then record c {
      conn_state = set_state c.conn_state stop;
      held_by_ticker = some (signal PacketType.signal_stop);
    }
    else record c { counters = reset_counters c.counters }

unfoldable pub put_by_ticker : Copier → PacketInfo → Copier
put_by_ticker c p = record c {
  held_by_ticker = none;
  send_chan = c.send_chan ++ (p ∷ []);
  counters = reset_counters c.counters;
}

module _ (s : Sip) (b : Box) where
  -- `Send` on the packet that `MakePacket` has made.
  unfoldable pub after_make : Copier → Option (Encoder × Result FramingError Bytes) → Copier
  after_make c none = record c { sender = panicked }
  after_make c (some (e, ok frame)) = record c { encoder = e; wire = c.wire ++ frame }
  after_make c (some (e, err x)) = record c { encoder = e; sender = stopped }

  unfoldable pub send : Copier → PacketInfo → List PacketInfo → Copier
  unfolding after_make
  send c p rest =
      after_make (record c { send_chan = rest; taken = c.taken ++ (p ∷ []) })
        (make_packet s b c.encoder p)

  -- One step of one of the routines; the index is what was read from upstream. The channel holds
  -- `capacity` packets. `receives` is the counting of a payload by the reading side.
  pub data Step (capacity : ℕ) : Copier → Bytes → Copier → Type 0 where
    reads :
        {c : Copier} (bs : Bytes)
        → c.held_by_reader ≡ none
        → c.receive_buf ≡ []
        → 0 < length bs
        → Step capacity c bs (on_read c bs)
    chops :
        {c : Copier}
        → c.held_by_reader ≡ none
        → 0 < length c.receive_buf
        → Step capacity c [] (chop c)
    reader_puts :
        {c : Copier} (p : PacketInfo)
        → c.held_by_reader ≡ some p
        → length c.send_chan < capacity
        → Step capacity c [] (put_by_reader c p)
    ticks : {c : Copier} → c.held_by_ticker ≡ none → Step capacity c [] (on_tick c)
    ticker_puts :
        {c : Copier} (p : PacketInfo)
        → c.held_by_ticker ≡ some p
        → length c.send_chan < capacity
        → Step capacity c [] (put_by_ticker c p)
    sends :
        {c : Copier} (p : PacketInfo) (rest : List PacketInfo)
        → c.sender ≡ running
        → c.send_chan ≡ p ∷ rest
        → Step capacity c [] (send c p rest)
    receives : {c : Copier} → Step capacity c [] (record c { counters = increment_rcv c.counters })

  pub data Steps (capacity : ℕ) : Copier → Bytes → Copier → Type 0 where
    done : {c : Copier} → Steps capacity c [] c
    after :
        {c c' c'' : Copier} {xs ys : Bytes}
        → Steps capacity c xs c'
        → Step capacity c' ys c''
        → Steps capacity c (xs ++ ys) c''

-- The state in which `ReadFrom` starts.
abbrev pub new_copier : Bool → State → Counters → Encoder → Copier
new_copier is_server state counters e = record {
  is_server = is_server;
  conn_state = state;
  counters = counters;
  receive_buf = [];
  written = 0;
  held_by_reader = none;
  held_by_ticker = none;
  send_chan = [];
  sender = running;
  encoder = e;
  taken = [];
  wire = [];
}
