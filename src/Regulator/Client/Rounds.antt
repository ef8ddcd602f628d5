-- ===== src/Regulator/Client/Rounds.antt =====
-- The rounds of a client's main loop send what is in the queue, and every run goes on.
use wfdef.Prelude.{
  ℕ, ◌+◌, ◌<◌, ◌*◌, ◌/◌, ◌==◌, ◌≡◌, refl, sym, ap, ◌∙◌, Bool, true, false, Option, none, some, List,
  [], ◌∷◌, ◌++◌, append-nil, append_assoc, Bytes, length, length-append, ltb, ltb→lt, Bool-cases,
  inl, inr, if◌then◌else◌, arith,
}
use wfdef.Prelude.Fifo.{Fifo, FifoLaws}
use wfdef.Prelude.Options.{Goes, Goes-bind}
use wfdef.Defconn.State.{State, Counters, is_start}
use wfdef.Defconn.PacketType
use wfdef.Regulator.Params.{cal_target_rate_with_last}
use wfdef.Regulator.Budget.{carried, carried-append, AllFull-append}
use wfdef.Regulator.Client.{
  UpstreamDataInfo, ClientConfig, Client, signal, payload_packet, set_rho, sent_data, send_packet,
  hurried, hurry, on_round, Event, reads, ticks, rounds, receives, dummies, on_event, run,
  new_client,
}
use wfdef.Regulator.Client.Carried.{
  waiting, AllSmall, upstream, Carried, Carried-same, Carried-put, on_tick-Carried, on_read-Carried,
}

module _ {Q : Type 0} (queue : Fifo Q UpstreamDataInfo) (laws : FifoLaws queue)
    (config : ClientConfig) where
  -- A packet of data leaves the queue.
  Carried-sent :
      (up : Bytes) (c : Client Q) (d : UpstreamDataInfo) (ds : List UpstreamDataInfo) (q : Q)
      → laws.contents c.receive_q ≡ d ∷ ds
      → laws.contents q ≡ ds
      → Carried queue laws config up c
      → Goes (Carried queue laws config up) (sent_data queue config c (some (d, q)))
  Carried-sent up c d ds q was is h =
      let small : AllSmall (d ∷ ds) = rw was at h.small in
      let p = payload_packet d.bytes in
      record {
        conserved =
            ap (λ r. r ++ waiting (laws.contents q))
              (carried-append c.send_chan (p ∷ [])
                ∙ ap (λ r. carried c.send_chan ++ r) (append-nil d.bytes))
            ∙ append_assoc (carried c.send_chan) d.bytes (waiting (laws.contents q))
            ∙ ap (λ r. carried c.send_chan ++ r)
                (ap (λ r. d.bytes ++ waiting r) is ∙ ap waiting (sym was))
            ∙ h.conserved;
        full = AllFull-append c.send_chan (p ∷ []) h.full (omega (arith, small.0), tt);
        small = rw is small.1;
        accounted = omega (
          arith,
          h.accounted,
          ap (λ r. length (waiting r)) was,
          ap (λ r. length (waiting r)) is,
          length-append d.bytes (waiting ds),
        );
      }

  send_data-Goes :
      (up : Bytes) (c : Client Q)
      → ltb 0 (queue.get_len c.receive_q) ≡ true
      → Carried queue laws config up c
      → Goes (Carried queue laws config up) (sent_data queue config c (queue.dequeue c.receive_q))
  send_data-Goes up c some_data h = by_contents (laws.contents c.receive_q) refl
    where
      by_contents :
          (ds : List UpstreamDataInfo)
          → laws.contents c.receive_q ≡ ds
          → Goes
              (Carried queue laws config up)
              (sent_data queue config c (queue.dequeue c.receive_q))
      by_contents [] eq =
          let no : ⊥ = omega (
            arith,
            ltb→lt 0 (queue.get_len c.receive_q) some_data,
            laws.length-contents c.receive_q,
            ap length eq,
          ) in
          elim no [ ]
      by_contents (d ∷ ds) eq =
          let (q, gives, is) = laws.dequeue-contents c.receive_q d ds eq in
          rw gives (Carried-sent up c d ds q eq is h)

  send_packet-Goes :
      (up : Bytes) (c : Client Q)
      → Carried queue laws config up c
      → Goes (Carried queue laws config up) (send_packet queue config c)
  unfolding send_packet
  send_packet-Goes up c h =
      by_tests (ltb 0 (queue.get_len c.receive_q)) (is_start c.conn_state.cur_state)
        (λ eq. send_data-Goes up c eq h)
    where
      by_tests :
          (some_data on : Bool)
          → (some_data ≡ true
              → Goes
                  (Carried queue laws config up)
                  (sent_data queue config c (queue.dequeue c.receive_q)))
          → Goes (Carried queue laws config up) (
              if some_data
              then sent_data queue config c (queue.dequeue c.receive_q)
              else if on
              then some (record c { send_chan = c.send_chan ++ (signal PacketType.dummy ∷ []) })
              else some c)
      by_tests true on f = f refl
      by_tests false true f =
          Carried-put queue laws config up c (signal PacketType.dummy) refl refl h
      by_tests false false f = h

  hurried-Carried :
      (up : Bytes) (c : Client Q) (now : ℕ) (next : Option UpstreamDataInfo)
      → Carried queue laws config up c
      → Carried queue laws config up (hurried queue config c now next)
  hurried-Carried up c now none h = h
  hurried-Carried up c now (some next) h = by_test (ltb (next.timestamp + config.c) (now + c.rho))
    where
      by_test :
          (late : Bool) → Carried queue laws config up (if late then record c { rho = 0 } else c)
      by_test true = Carried-same queue laws config up c _ refl refl refl h
      by_test false = h

  hurry-Carried :
      (up : Bytes) (c : Client Q) (now : ℕ)
      → Carried queue laws config up c
      → Carried queue laws config up (hurry queue config c now)
  unfolding hurry
  hurry-Carried up c now h = elim (Bool-cases (ltb 0 (queue.get_len c.receive_q))) [
    | inl more ↦ rw more (hurried-Carried up c now (queue.get_first c.receive_q) h)
    | inr empty ↦ rw empty h
  ]

  set_rho-Goes :
      (up : Bytes) (c : Client Q) (now : ℕ)
      → 0 < config.initial_rate
      → Carried queue laws config up c
      → Goes (Carried queue laws config up) (set_rho queue config c now)
  unfolding set_rho
  set_rho-Goes up c now pos h =
      let positive : config.initial_rate == 0 ≡ false = ground arith in
      rw positive (by_test (is_start c.conn_state.cur_state))
    where
      by_test :
          (on : Bool)
          → Goes (Carried queue laws config up) (
              if on
              then some (record c {
                rho = config.gap (cal_target_rate_with_last config.decayed c.t0 now config.r);
              })
              else some (record c { rho = 1 / config.initial_rate * 1000000000 }))
      by_test true = Carried-same queue laws config up c _ refl refl refl h
      by_test false = Carried-same queue laws config up c _ refl refl refl h

  on_round-Goes :
      (up : Bytes) (c : Client Q) (now now' now'' : ℕ)
      → 0 < config.initial_rate
      → Carried queue laws config up c
      → Goes (Carried queue laws config up) (on_round queue config c now now' now'')
  unfolding on_round
  on_round-Goes up c now now' now'' pos h =
      Goes-bind (Carried queue laws config up) (Carried queue laws config up)
        (set_rho queue config c now) _ (set_rho-Goes up c now pos h)
        (λ c' k.
          Goes-bind (Carried queue laws config up) (Carried queue laws config up)
            (send_packet queue config c') _ (send_packet-Goes up c' k)
            (λ c'' l.
              Carried-same queue laws config up (hurry queue config c'' now') _ refl refl refl
                (hurry-Carried up c'' now' l)))

  on_event-Goes :
      (up : Bytes) (c : Client Q) (e : Event)
      → 0 < config.initial_rate
      → Carried queue laws config up c
      → Goes (Carried queue laws config (up ++ upstream (e ∷ []))) (on_event queue config c e)
  unfolding on_event
  on_event-Goes up c (reads bs clock now) pos h =
      rw (append-nil bs) (on_read-Carried queue laws config up bs c clock now h)
  on_event-Goes up c ticks pos h = rw (append-nil up) (on_tick-Carried queue laws config up c h)
  on_event-Goes up c (rounds now now' now'') pos h =
      rw (append-nil up) (on_round-Goes up c now now' now'' pos h)
  on_event-Goes up c (receives t0) pos h =
      rw (append-nil up) (Carried-same queue laws config up c _ refl refl refl h)
  on_event-Goes up c (dummies t0) pos h = rw (append-nil up) (elim (Bool-cases (ltb c.t0 t0)) [
    | inl later ↦ rw later (Carried-same queue laws config up c _ refl refl refl h)
    | inr old ↦ rw old h
  ])

  upstream-cons :
      (e : Event) (es : List Event) → upstream (e ∷ []) ++ upstream es ≡ upstream (e ∷ es)
  upstream-cons (reads bs clock now) es = ap (λ r. r ++ upstream es) (append-nil bs)
  upstream-cons ticks es = refl
  upstream-cons (rounds now now' now'') es = refl
  upstream-cons (receives t0) es = refl
  upstream-cons (dummies t0) es = refl

  run-Goes :
      (up : Bytes) (c : Client Q) (es : List Event)
      → 0 < config.initial_rate
      → Carried queue laws config up c
      → Goes (Carried queue laws config (up ++ upstream es)) (run queue config c es)
  unfolding run
  run-Goes up c [] pos h = rw (append-nil up) h
  run-Goes up c (e ∷ es) pos h =
      Goes-bind (Carried queue laws config (up ++ upstream (e ∷ [])))
        (Carried queue laws config (up ++ upstream (e ∷ es))) (on_event queue config c e) _
        (on_event-Goes up c e pos h)
        (λ c' k.
          rw (sym (upstream-cons e es), sym (append_assoc up (upstream (e ∷ [])) (upstream es)))
            (run-Goes (up ++ upstream (e ∷ [])) c' es pos k))

  -- With a queue that keeps its documentation and is empty at first, and an initial rate that is not 0: whatever happens to a client, in
  -- any order, it goes on without an error; the data that it read is in its packets and then in the
  -- queue, in its order, and counted; each packet is padded to the maximum.
  pub run-Carried :
      (state : State) (counters : Counters) (q : Q) (now : ℕ) (es : List Event)
      → laws.contents q ≡ []
      → 0 < config.initial_rate
      → Goes
          (Carried queue laws config (upstream es))
          (run queue config (new_client queue config state counters q now) es)
  run-Carried state counters q now es empty pos =
      run-Goes [] (new_client queue config state counters q now) es pos (record {
        conserved = ap waiting empty;
        full = tt;
        small = rw empty tt;
        accounted = omega (arith, ap (λ r. length (waiting r)) empty);
      })
