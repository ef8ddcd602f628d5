-- ===== src/Defconn/Copy/Agreement.antt =====
-- The server that has got all packets is in the state that mirrors the client's.
use wfdef.Prelude.{
  ℕ, ◌+◌, ◌≡◌, ◌≢◌, refl, sym, ap, ◌∙◌, Bool, true, false, not, ◌&&◌, ◌||◌, Option, none, some,
  List, [], ◌∷◌, ◌++◌, append_assoc, Bytes, length, ltb, if◌then◌else◌, take, drop, Result, ok, err,
}
use wfdef.Drbg.{Sip}
use wfdef.Framing.{Box, Encoder, FramingError}
use wfdef.Defconn.State.{
  Phase, start, stop, ready, padding, State, set_state, Counters, is_stop, is_ready, new_state,
  increment_sent, increment_rcv, reset_counters,
}
use wfdef.Defconn.PacketType
use wfdef.Defconn.Packet.{PacketInfo, make_packet, max_packet_payload_length}
use wfdef.Defconn.Copy.{
  Copier, signal, on_read, payload_packet, chop, put_by_reader, on_tick, put_by_ticker, send,
  after_make, Sender, stopped, panicked, new_copier,
}
use wfdef.Defconn.Copy.Follow.{
  DefConn, serve, serve-append, IsServerIn, Moves, Moves-start, Moves-stop, Moves-payload,
  reader_flushes, ticker_flushes, turn_read, turn_chop, turn_tick, Turns, done, reads, chops, ticks,
  sends, receives, mirror, flow, IsFollowed,
}

stop_mirrored : (p : Phase) → is_stop p ≡ true → mirror p ≡ stop
stop_mirrored start h = cc
stop_mirrored stop h = refl
stop_mirrored ready h = refl
stop_mirrored padding h = refl

serve_nothing : (l : DefConn) → serve l [] ≡ some l
unfolding serve
serve_nothing l = refl

module _ (l : DefConn) where
  -- A packet goes into the channel, and takes the server along.
  IsFollowed-puts :
      (c : Copier) (p : PacketInfo) (state : State) (counters : Counters) (receive_buf : Bytes)
      (written : ℕ)
      → state.cur_state ≢ padding
      → Moves (mirror c.conn_state.cur_state) p (mirror state.cur_state)
      → IsFollowed l c
      → IsFollowed l (record c {
        conn_state = state;
        counters = counters;
        receive_buf = receive_buf;
        written = written;
        held_by_reader = none;
        held_by_ticker = none;
        send_chan = c.send_chan ++ (p ∷ []);
      })
  IsFollowed-puts c p state counters receive_buf written valid moves i =
      let m = moves i.now i.follows in
      record {
        client = i.client;
        no_padding = valid;
        reader_idle = refl;
        ticker_idle = refl;
        now = m.0;
        served =
            ap (serve l) (sym (append_assoc c.taken c.send_chan (p ∷ [])))
            ∙ serve-append (flow c) l p i.served m.2;
        follows = m.3;
      }

  IsFollowed-same :
      (c : Copier) (state : State) (counters : Counters) (receive_buf : Bytes)
      → state.cur_state ≢ padding
      → mirror state.cur_state ≡ mirror c.conn_state.cur_state
      → IsFollowed l c
      → IsFollowed l (record c {
        conn_state = state;
        counters = counters;
        receive_buf = receive_buf;
        held_by_reader = none;
        held_by_ticker = none;
      })
  IsFollowed-same c state counters receive_buf valid same i = record {
    client = i.client;
    no_padding = valid;
    reader_idle = refl;
    ticker_idle = refl;
    now = i.now;
    served = i.served;
    follows = rw same i.follows;
  }

  IsFollowed-chops : (c : Copier) → IsFollowed l c → IsFollowed l (turn_chop c)
  unfolding turn_chop chop put_by_reader
  IsFollowed-chops c i = rw i.ticker_idle (
      IsFollowed-puts c (payload_packet (take max_packet_payload_length c.receive_buf)) c.conn_state
        (increment_sent c.counters) (drop max_packet_payload_length c.receive_buf)
        (c.written + length (take max_packet_payload_length c.receive_buf)) i.no_padding
        (Moves-payload (mirror c.conn_state.cur_state) _) i)

  IsFollowed-reads : (c : Copier) (bs : Bytes) → IsFollowed l c → IsFollowed l (turn_read c bs)
  unfolding turn_read on_read put_by_reader
  IsFollowed-reads c bs i =
      by_tests (not c.is_server)
        ((is_stop c.conn_state.cur_state && ltb max_packet_payload_length (length bs))
          || is_ready c.conn_state.cur_state)
        (is_stop c.conn_state.cur_state) (stop_mirrored c.conn_state.cur_state)
    where
      flushed : Copier → Copier
      flushed c' = reader_flushes c' c'.held_by_reader

      stays : IsFollowed l (flushed (record c { receive_buf = c.receive_buf ++ bs }))
      stays =
          rw (i.reader_idle, i.ticker_idle)
            (IsFollowed-same c c.conn_state c.counters (c.receive_buf ++ bs) i.no_padding refl i)

      by_tests :
          (client starts stopped_now : Bool)
          → (stopped_now ≡ true → mirror c.conn_state.cur_state ≡ stop)
          → IsFollowed l (
              flushed (
                if client
                then (if starts
                    then record c {
                      receive_buf = c.receive_buf ++ bs;
                      conn_state = set_state c.conn_state start;
                      held_by_reader = some (signal PacketType.signal_start);
                    }
                    else if stopped_now
                    then record c {
                      receive_buf = c.receive_buf ++ bs;
                      conn_state = set_state c.conn_state ready;
                    }
                    else record c { receive_buf = c.receive_buf ++ bs })
                else record c { receive_buf = c.receive_buf ++ bs }))
      by_tests false starts stopped_now m = stays
      by_tests true true stopped_now m = rw i.ticker_idle (
          IsFollowed-puts c (signal PacketType.signal_start) (set_state c.conn_state start)
            c.counters (c.receive_buf ++ bs) c.written (λ bad. cc)
            (Moves-start (mirror c.conn_state.cur_state)) i)
      by_tests true false true m =
          rw (i.reader_idle, i.ticker_idle)
            (IsFollowed-same c (set_state c.conn_state ready) c.counters (c.receive_buf ++ bs)
              (λ bad. cc) (sym (m refl)) i)
      by_tests true false false m = stays

  IsFollowed-ticks : (c : Copier) → IsFollowed l c → IsFollowed l (turn_tick c)
  unfolding turn_tick on_tick put_by_ticker
  IsFollowed-ticks c i = by_test (
      not c.is_server
      && (not (is_stop c.conn_state.cur_state) && (ltb c.counters.sent 2 || ltb c.counters.rcv 2)))
    where
      flushed : Copier → Copier
      flushed c' = ticker_flushes c' c'.held_by_ticker

      by_test :
          (few : Bool)
          → IsFollowed l (
              flushed (
                if few
                then record c {
                  conn_state = set_state c.conn_state stop;
                  held_by_ticker = some (signal PacketType.signal_stop);
                }
                else record c { counters = reset_counters c.counters }))
      by_test true = rw i.reader_idle (
          IsFollowed-puts c (signal PacketType.signal_stop) (set_state c.conn_state stop)
            (reset_counters c.counters) c.receive_buf c.written (λ bad. cc)
            (Moves-stop (mirror c.conn_state.cur_state)) i)
      by_test false =
          rw (i.reader_idle, i.ticker_idle)
            (IsFollowed-same c c.conn_state (reset_counters c.counters) c.receive_buf i.no_padding
              refl i)

  IsFollowed-receives :
      (c : Copier)
      → IsFollowed l c
      → IsFollowed l (record c { counters = increment_rcv c.counters })
  IsFollowed-receives c i = record {
    client = i.client;
    no_padding = i.no_padding;
    reader_idle = i.reader_idle;
    ticker_idle = i.ticker_idle;
    now = i.now;
    served = i.served;
    follows = i.follows;
  }

  module _ (s : Sip) (b : Box) where
    IsFollowed-sends :
        (c : Copier) (p : PacketInfo) (rest : List PacketInfo)
        → c.send_chan ≡ p ∷ rest
        → IsFollowed l c
        → IsFollowed l (send s b c p rest)
    unfolding send after_make
    IsFollowed-sends c p rest h i = by_made (make_packet s b c.encoder p)
      where
        c' : Copier
        c' = record c { send_chan = rest; taken = c.taken ++ (p ∷ []) }

        same_flow : flow c' ≡ flow c
        same_flow = append_assoc c.taken (p ∷ []) rest ∙ ap (λ q. c.taken ++ q) (sym h)

        kept :
            (sender : Sender) (e : Encoder) (wire : Bytes)
            → IsFollowed l (record c' { sender = sender; encoder = e; wire = wire })
        kept sender e wire = record {
          client = i.client;
          no_padding = i.no_padding;
          reader_idle = i.reader_idle;
          ticker_idle = i.ticker_idle;
          now = i.now;
          served = ap (serve l) same_flow ∙ i.served;
          follows = i.follows;
        }

        by_made :
            (o : Option (Encoder × Result FramingError Bytes)) → IsFollowed l (after_make s b c' o)
        by_made none = kept panicked c.encoder c.wire
        by_made (some (e, ok frame)) = kept c.sender e (c.wire ++ frame)
        by_made (some (e, err x)) = kept stopped e c.wire

    -- However the routines of a client take turns, from a new connection and a server that is in
    -- the state of a new connection, the server that has got all packets, those in the channel
    -- included, has the defense started exactly if the client has, and has not panicked.
    pub Turns-IsFollowed :
        (e : Encoder) (counters : Counters) {c : Copier}
        → IsServerIn stop l
        → Turns s b (new_copier false new_state counters e) c
        → IsFollowed l c
    Turns-IsFollowed e counters {c} v done = record {
      client = refl;
      no_padding = λ bad. cc;
      reader_idle = refl;
      ticker_idle = refl;
      now = l;
      served = serve_nothing l;
      follows = v;
    }
    Turns-IsFollowed e counters v (reads bs turns) =
        IsFollowed-reads _ bs (Turns-IsFollowed e counters v turns)
    Turns-IsFollowed e counters v (chops turns pos) =
        IsFollowed-chops _ (Turns-IsFollowed e counters v turns)
    Turns-IsFollowed e counters v (ticks turns) =
        IsFollowed-ticks _ (Turns-IsFollowed e counters v turns)
    Turns-IsFollowed e counters v (sends p rest turns run h) =
        IsFollowed-sends _ p rest h (Turns-IsFollowed e counters v turns)
    Turns-IsFollowed e counters v (receives turns) =
        IsFollowed-receives _ (Turns-IsFollowed e counters v turns)
