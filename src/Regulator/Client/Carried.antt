-- ===== src/Regulator/Client/Carried.antt =====
-- Whatever happens to a client of RegulaTor, it goes on, and carries its data in order.
use wfdef.Prelude.{
  ℕ, zero, suc, ◌+◌, ◌≤◌, ◌≡◌, refl, sym, ap, ◌∙◌, Bool, true, false, not, ◌&&◌, ◌||◌, List, [],
  ◌∷◌, ◌++◌, append-nil, append_assoc, Bytes, length, length-append, length-take, length-drop, take,
  drop, take-append-drop, ltb, if◌then◌else◌, arith,
}
use wfdef.Prelude.Fifo.{Fifo, FifoLaws}
use wfdef.Prelude.Options.{Goes, Goes-bind, Goes-mono}
use wfdef.Defconn.State.{start, stop, ready, is_stop, is_ready, set_state, reset_counters}
use wfdef.Defconn.PacketType
use wfdef.Defconn.Packet.{max_packet_payload_length}
use wfdef.Regulator.Packet.{PacketInfo}
use wfdef.Regulator.Budget.{carried, AllFull, carried-append, AllFull-append}
use wfdef.Regulator.Client.{
  UpstreamDataInfo, ClientConfig, Client, signal, enqueue_all, on_arrival, on_read, on_tick, Event,
  reads,
}

abbrev pub waiting : List UpstreamDataInfo → Bytes
waiting [] = []
waiting (d ∷ ds) = d.bytes ++ waiting ds

abbrev pub AllSmall : List UpstreamDataInfo → Type 0
AllSmall [] = Unit
AllSmall (d ∷ ds) = (length d.bytes ≤ max_packet_payload_length) × AllSmall ds

waiting-append : (ds es : List UpstreamDataInfo) → waiting (ds ++ es) ≡ waiting ds ++ waiting es
waiting-append [] es = refl
waiting-append (d ∷ ds) es =
    ap (λ r. d.bytes ++ r) (waiting-append ds es)
    ∙ sym (append_assoc d.bytes (waiting ds) (waiting es))

AllSmall-append : (ds es : List UpstreamDataInfo) → AllSmall ds → AllSmall es → AllSmall (ds ++ es)
AllSmall-append [] es h k = k
AllSmall-append (d ∷ ds) es h k = (h.0, AllSmall-append ds es h.1 k)

-- All that was read, in the order of the events.
abbrev pub upstream : List Event → Bytes
upstream [] = []
upstream (reads bs clock now ∷ es) = bs ++ upstream es
upstream (_ ∷ es) = upstream es

module _ {Q : Type 0} (queue : Fifo Q UpstreamDataInfo) (laws : FifoLaws queue)
    (config : ClientConfig) where
  -- What a client has done that read `up`.
  pub record Carried (up : Bytes) (c : Client Q) : Type 0 where
    pub conserved : carried c.send_chan ++ waiting (laws.contents c.receive_q) ≡ up
    pub full : AllFull c.send_chan
    pub small : AllSmall (laws.contents c.receive_q)
    pub accounted : c.written + length (waiting (laws.contents c.receive_q)) ≡ length up

  record Added (q : Q) (bs : Bytes) (q' : Q) : Type 0 where
    data_eq : waiting (laws.contents q') ≡ waiting (laws.contents q) ++ bs
    still_small : AllSmall (laws.contents q) → AllSmall (laws.contents q')

  Added-refl : (q : Q) → Added q [] q
  Added-refl q = record {
    data_eq = sym (append-nil (waiting (laws.contents q)));
    still_small = λ h. h;
  }

  enqueue-Added :
      (q : Q) (d : UpstreamDataInfo)
      → length d.bytes ≤ max_packet_payload_length
      → Goes (Added q d.bytes) (queue.enqueue q d)
  enqueue-Added q d small =
      let (q', eq, now) = laws.enqueue-contents q d in
      rw eq (record {
        data_eq =
            ap waiting now
            ∙ waiting-append (laws.contents q) (d ∷ [])
            ∙ ap (λ r. waiting (laws.contents q) ++ r) (append-nil d.bytes);
        still_small = λ h. rw now (AllSmall-append (laws.contents q) (d ∷ []) h (small, tt));
      })

  Added-trans :
      (q q' q'' : Q) (a b bs : Bytes) → a ++ b ≡ bs → Added q a q' → Added q' b q'' → Added q bs q''
  Added-trans q q' q'' a b bs eq h k = record {
    data_eq =
        k.data_eq
        ∙ ap (λ r. r ++ b) h.data_eq
        ∙ append_assoc (waiting (laws.contents q)) a b
        ∙ ap (λ r. waiting (laws.contents q) ++ r) eq;
    still_small = λ f. k.still_small (h.still_small f);
  }

  enqueue_all-Added :
      (fuel : ℕ) (clock : ℕ → ℕ) (bs : Bytes) (q : Q)
      → length bs ≤ fuel
      → Goes (Added q bs) (enqueue_all queue config fuel clock bs q)
  unfolding enqueue_all
  enqueue_all-Added zero clock [] q h = Added-refl q
  enqueue_all-Added zero clock (x ∷ bs) q h = let no : ⊥ = omega (arith, h) in elim no [ ]
  enqueue_all-Added (suc fuel) clock [] q h = Added-refl q
  enqueue_all-Added (suc fuel) clock (x ∷ bs) q h =
      let part = take max_packet_payload_length (x ∷ bs) in
      let rest = drop max_packet_payload_length (x ∷ bs) in
      let d : UpstreamDataInfo = record { bytes = part; timestamp = clock 0 } in
      Goes-bind (Added q part) (Added q (x ∷ bs)) (queue.enqueue q d)
        (λ q'. enqueue_all queue config fuel (λ k. clock (k + 1)) rest q')
        (enqueue-Added q d (omega (arith, length-take max_packet_payload_length (x ∷ bs))))
        (λ q' added.
          Goes-mono (Added q' rest) (Added q (x ∷ bs)) _
            (λ q''.
              Added-trans q q' q'' part rest (x ∷ bs)
                (take-append-drop max_packet_payload_length (x ∷ bs)) added)
            (enqueue_all-Added fuel (λ k. clock (k + 1)) rest q'
              (omega (arith, h, length-drop max_packet_payload_length (x ∷ bs)))))

  -- What does not touch the data.
  pub Carried-same :
      (up : Bytes) (c c' : Client Q)
      → c'.send_chan ≡ c.send_chan
      → c'.receive_q ≡ c.receive_q
      → c'.written ≡ c.written
      → Carried up c
      → Carried up c'
  Carried-same up c c' same_chan same_q same_written h = record {
    conserved = rw (same_chan, same_q) h.conserved;
    full = rw same_chan h.full;
    small = rw same_q h.small;
    accounted = rw (same_q, same_written) h.accounted;
  }

  -- A packet that carries nothing.
  pub Carried-put :
      (up : Bytes) (c : Client Q) (p : PacketInfo)
      → carried (p ∷ []) ≡ []
      → length p.body + p.pad_len ≡ max_packet_payload_length
      → Carried up c
      → Carried up (record c { send_chan = c.send_chan ++ (p ∷ []) })
  Carried-put up c p nothing full h = record {
    conserved =
        ap (λ r. r ++ waiting (laws.contents c.receive_q))
          (carried-append c.send_chan (p ∷ [])
            ∙ ap (λ r. carried c.send_chan ++ r) nothing
            ∙ append-nil (carried c.send_chan))
        ∙ h.conserved;
    full = AllFull-append c.send_chan (p ∷ []) h.full (full, tt);
    small = h.small;
    accounted = h.accounted;
  }

  on_arrival-Carried :
      (up : Bytes) (c : Client Q) (n now : ℕ)
      → Carried up c
      → Carried up (on_arrival queue config c n now)
  unfolding on_arrival
  on_arrival-Carried up c n now h =
      by_tests
        ((is_stop c.conn_state.cur_state && ltb max_packet_payload_length n)
          || is_ready c.conn_state.cur_state)
        (is_stop c.conn_state.cur_state)
    where
      by_tests :
          (starts stopped : Bool)
          → Carried up (
              if starts
              then record c {
                t0 = now;
                conn_state = set_state c.conn_state start;
                send_chan = c.send_chan ++ (signal PacketType.signal_start ∷ []);
              }
              else if stopped
              then record c { conn_state = set_state c.conn_state ready }
              else c)
      by_tests true _ =
          Carried-same up
            (record c { send_chan = c.send_chan ++ (signal PacketType.signal_start ∷ []) }) _ refl
            refl refl (Carried-put up c (signal PacketType.signal_start) refl refl h)
      by_tests false true = Carried-same up c _ refl refl refl h
      by_tests false false = h

  pub on_tick-Carried :
      (up : Bytes) (c : Client Q) → Carried up c → Carried up (on_tick queue config c)
  unfolding on_tick
  on_tick-Carried up c h =
      by_test
        (not (is_stop c.conn_state.cur_state) && (ltb c.counters.sent 2 || ltb c.counters.rcv 2))
    where
      by_test :
          (stops : Bool)
          → Carried up (
              if stops
              then record c {
                conn_state = set_state c.conn_state stop;
                send_chan = c.send_chan ++ (signal PacketType.signal_stop ∷ []);
                counters = reset_counters c.counters;
              }
              else record c { counters = reset_counters c.counters })
      by_test true =
          Carried-same up
            (record c { send_chan = c.send_chan ++ (signal PacketType.signal_stop ∷ []) }) _ refl
            refl refl (Carried-put up c (signal PacketType.signal_stop) refl refl h)
      by_test false = Carried-same up c _ refl refl refl h

  Carried-Added :
      (up bs : Bytes) (c : Client Q) (q : Q)
      → Carried up c
      → Added c.receive_q bs q
      → Carried (up ++ bs) (record c { receive_q = q })
  Carried-Added up bs c q h k = record {
    conserved =
        ap (λ r. carried c.send_chan ++ r) k.data_eq
        ∙ sym (append_assoc (carried c.send_chan) (waiting (laws.contents c.receive_q)) bs)
        ∙ ap (λ r. r ++ bs) h.conserved;
    full = h.full;
    small = k.still_small h.small;
    accounted = omega (
      arith,
      h.accounted,
      ap length k.data_eq,
      length-append (waiting (laws.contents c.receive_q)) bs,
      length-append up bs,
    );
  }

  pub on_read-Carried :
      (up bs : Bytes) (c : Client Q) (clock : ℕ → ℕ) (now : ℕ)
      → Carried up c
      → Goes (Carried (up ++ bs)) (on_read queue config c bs clock now)
  unfolding on_read
  on_read-Carried up bs c clock now h =
      Goes-bind (Added c.receive_q bs) (Carried (up ++ bs))
        (enqueue_all queue config (length bs) clock bs c.receive_q) _
        (enqueue_all-Added (length bs) clock bs c.receive_q (omega arith))
        (λ q k.
          on_arrival-Carried (up ++ bs) (record c { receive_q = q }) (length bs) now
            (Carried-Added up bs c q h k))
