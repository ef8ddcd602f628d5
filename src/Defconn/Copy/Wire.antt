-- ===== src/Defconn/Copy/Wire.antt =====
-- The invariant of the routines holds in every run: no packet makes `MakePacket` panic, and each is
-- one frame of 557 bytes.
use wfdef.Prelude.{
  ℕ, ◌+◌, ◌≡◌, refl, sym, ap, ◌∙◌, Bool, true, false, not, ◌&&◌, ◌||◌, Option, some, List, [], ◌∷◌,
  ◌++◌, append_assoc, append-nil, Bytes, length, length-append, ltb, le→ltb, if◌then◌else◌, Result,
  ok, err, arith,
}
use wfdef.Drbg.{Sip}
use wfdef.Framing.{Box, BoxLaws, Encoder, FramingError, encode, maximum_segment_length}
use wfdef.Framing.Length.{length-encode}
use wfdef.Defconn.State.{State, stop, set_state, Counters, is_stop, reset_counters, increment_rcv}
use wfdef.Defconn.PacketType
use wfdef.Defconn.Packet.{PacketInfo, max_packet_payload_length, packet_bytes, make_packet}
use wfdef.Defconn.Packet.RoundTrip.{length-packet_bytes}
use wfdef.Defconn.Copy.{
  running, Copier, signal, on_tick, after_make, send, Step, Steps, reads, chops, reader_puts, ticks,
  ticker_puts, sends, receives, done, after, new_copier,
}
use wfdef.Defconn.Copy.Conserve.{
  bodies, held, IsFull, AllFull, bodies-append, AllFull-append, Inv, Inv-reads, Inv-chops,
  Inv-reader_puts, Inv-ticker_puts,
}

Inv-stays :
    (c : Copier) (up : Bytes) (state : State) (counters : Counters) (h : Option PacketInfo)
    → bodies (held h) ≡ []
    → AllFull (held h)
    → Inv c up
    → Inv (record c { conn_state = state; counters = counters; held_by_ticker = h }) (up ++ [])
Inv-stays c up state counters h empty full i = record {
  conserved = i.conserved ∙ sym (append-nil up);
  written_eq = (let before = i.written_eq in omega (arith, length-append up []));
  taken_full = i.taken_full;
  chan_full = i.chan_full;
  reader_full = i.reader_full;
  ticker_full = full;
  ticker_empty = empty;
  no_panic = i.no_panic;
  on_wire = i.on_wire;
}

Inv-ticks : (c : Copier) (up : Bytes) → Inv c up → Inv (on_tick c) (up ++ [])
unfolding on_tick
Inv-ticks c up i = by_test (
    not c.is_server
    && (not (is_stop c.conn_state.cur_state) && (ltb c.counters.sent 2 || ltb c.counters.rcv 2)))
  where
    by_test :
        (few : Bool)
        → Inv
            (if few
              then record c {
                conn_state = set_state c.conn_state stop;
                held_by_ticker = some (signal PacketType.signal_stop);
              }
              else record c { counters = reset_counters c.counters })
            (up ++ [])
    by_test true =
        Inv-stays c up (set_state c.conn_state stop) c.counters
          (some (signal PacketType.signal_stop)) refl (refl, tt) i
    by_test false =
        Inv-stays c up c.conn_state (reset_counters c.counters) c.held_by_ticker i.ticker_empty
          i.ticker_full i

module _ (s : Sip) (b : Box) (laws : BoxLaws b) where
  make_packet-full :
      (e : Encoder) (p : PacketInfo)
      → IsFull p
      → make_packet s b e p ≡ some (encode s b e maximum_segment_length (packet_bytes p))
  unfolding make_packet
  make_packet-full e p full =
      rw (le→ltb max_packet_payload_length (length p.body + p.pad_len) (omega arith)) refl

  -- The packet moves from the channel to those taken, whatever `Send` makes of it.
  moved :
      (c : Copier) (up : Bytes) (p : PacketInfo) (rest : List PacketInfo)
      → c.send_chan ≡ p ∷ rest
      → Inv c up
      → bodies (c.taken ++ (p ∷ []))
          ++ (bodies rest ++ (bodies (held c.held_by_reader) ++ c.receive_buf))
        ≡ up ++ []
  moved c up p rest h i =
      let tail = bodies (held c.held_by_reader) ++ c.receive_buf in
      ap (λ r. r ++ (bodies rest ++ tail))
        (bodies-append c.taken (p ∷ []) ∙ ap (λ r. bodies c.taken ++ r) (append-nil p.body))
      ∙ append_assoc (bodies c.taken) p.body (bodies rest ++ tail)
      ∙ ap (λ r. bodies c.taken ++ r) (sym (append_assoc p.body (bodies rest) tail))
      ∙ (rw h at i.conserved)
      ∙ sym (append-nil up)

  Inv-sends :
      (c : Copier) (up : Bytes) (p : PacketInfo) (rest : List PacketInfo)
      → c.sender ≡ running
      → c.send_chan ≡ p ∷ rest
      → Inv c up
      → Inv (send s b c p rest) (up ++ [])
  unfolding send after_make
  Inv-sends c up p rest q h i =
      let full : AllFull (p ∷ rest) = rw h at i.chan_full in
      rw (make_packet-full c.encoder p full.0)
        (by_result full (encode s b c.encoder maximum_segment_length (packet_bytes p)) refl)
    where
      c' : Copier
      c' = record c { send_chan = rest; taken = c.taken ++ (p ∷ []) }

      by_result :
          AllFull (p ∷ rest)
          → (r : Encoder × Result FramingError Bytes)
          → encode s b c.encoder maximum_segment_length (packet_bytes p) ≡ r
          → Inv (after_make s b c' (some r)) (up ++ [])
      by_result full (e, ok frame) made = record {
        conserved = moved c up p rest h i;
        written_eq = (let before = i.written_eq in omega (arith, length-append up []));
        taken_full = AllFull-append c.taken (p ∷ []) i.taken_full (full.0, tt);
        chan_full = full.1;
        reader_full = i.reader_full;
        ticker_full = i.ticker_full;
        ticker_empty = i.ticker_empty;
        no_panic = i.no_panic;
        on_wire = λ run.
            (let before = i.on_wire run in
              let size =
                length-encode s b laws c.encoder maximum_segment_length (packet_bytes p) made in
              let whole = full.0 in
              omega (
                arith,
                length-append c.wire frame,
                length-append c.taken (p ∷ []),
                length-packet_bytes p,
              ));
      }
      by_result full (e, err x) made = record {
        conserved = moved c up p rest h i;
        written_eq = (let before = i.written_eq in omega (arith, length-append up []));
        taken_full = AllFull-append c.taken (p ∷ []) i.taken_full (full.0, tt);
        chan_full = full.1;
        reader_full = i.reader_full;
        ticker_full = i.ticker_full;
        ticker_empty = i.ticker_empty;
        no_panic = λ crash. cc;
        on_wire = λ run. cc;
      }

  Step-Inv :
      (capacity : ℕ) {c : Copier} {xs : Bytes} {c' : Copier} (up : Bytes)
      → Step s b capacity c xs c'
      → Inv c up
      → Inv c' (up ++ xs)
  Step-Inv capacity {c} up (reads bs p q pos) i = Inv-reads c up bs p q i
  Step-Inv capacity {c} up (chops p pos) i = Inv-chops c up p i
  Step-Inv capacity {c} up (reader_puts p h room) i = Inv-reader_puts c up p h i
  Step-Inv capacity {c} up (ticks h) i = Inv-ticks c up i
  Step-Inv capacity {c} up (ticker_puts p h room) i = Inv-ticker_puts c up p h i
  Step-Inv capacity {c} up (sends p rest q h) i = Inv-sends c up p rest q h i
  Step-Inv capacity {c} up receives i =
      Inv-stays c up c.conn_state (increment_rcv c.counters) c.held_by_ticker i.ticker_empty
        i.ticker_full i

  new_copier-Inv :
      (is_server : Bool) (state : State) (counters : Counters) (e : Encoder)
      → Inv (new_copier is_server state counters e) []
  new_copier-Inv is_server state counters e = record {
    conserved = refl;
    written_eq = refl;
    taken_full = tt;
    chan_full = tt;
    reader_full = tt;
    ticker_full = tt;
    ticker_empty = refl;
    no_panic = λ crash. cc;
    on_wire = λ run. omega arith;
  }

  -- In every state that the routines reach from a new connection, in whatever order they run: what
  -- was read from upstream is, in its order, in the packets taken, in the channel, in the reader's
  -- hand and in the buffer; each packet is padded to the maximum; `MakePacket` has not panicked; and
  -- while `Send` runs, the wire has carried 557 bytes for each packet.
  pub Steps-Inv :
      (capacity : ℕ) (is_server : Bool) (state : State) (counters : Counters) (e : Encoder)
      {c : Copier} {upstream : Bytes}
      → Steps s b capacity (new_copier is_server state counters e) upstream c
      → Inv c upstream
  Steps-Inv capacity is_server state counters e done = new_copier-Inv is_server state counters e
  Steps-Inv capacity is_server state counters e (after {xs = xs} steps step) =
      Step-Inv capacity xs step (Steps-Inv capacity is_server state counters e steps)
