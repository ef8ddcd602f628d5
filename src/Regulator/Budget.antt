-- ===== src/Regulator/Budget.antt =====
-- The dummies that the server sends are paid for by the budgets that it drew, and its packets are
-- all of one length.
use mathlib.Core.Path.{subst}
use wfdef.Prelude.{
  ℕ, ◌+◌, ◌-◌, ◌≤◌, ◌<◌, ◌≡◌, refl, sym, ap, ◌∙◌, Bool, true, false, not, ◌&&◌, Bool-cases, inl,
  inr, List, [], ◌∷◌, ◌++◌, append_assoc, append-nil, Bytes, length, length-take, take, drop,
  take-append-drop, ltb, ltb→lt, lt→ltb, ◌==◌, if◌then◌else◌, arith,
}
use wfdef.Defconn.State.{State, stop, is_start, is_stop, set_state}
use wfdef.Defconn.PacketType
use wfdef.Defconn.Packet.{max_packet_payload_length, max_packet_padding_length}
use wfdef.Regulator.Packet.{PacketInfo, put_uint32}
use wfdef.Regulator.Params.{
  ServerParams, set_last_send, set_target_rate, cal_target_rate, consume_padding_budget, init,
}
use wfdef.Regulator.{
  Server, Config, adjust_rate, send_packet, on_round, on_signal, on_read, Step, Steps, reads,
  rounds, starts, stops, done, after, new_server,
}

abbrev pub is_dummy : PacketInfo → Bool
is_dummy p = p.pkt_type == PacketType.dummy

abbrev pub dummies : List PacketInfo → ℕ
dummies [] = 0
dummies (p ∷ ps) = if is_dummy p then 1 + dummies ps else dummies ps

-- The data in the packets that are no dummies.
abbrev pub carried : List PacketInfo → Bytes
carried [] = []
carried (p ∷ ps) = if is_dummy p then carried ps else p.body ++ carried ps

abbrev pub AllFull : List PacketInfo → Type 0
AllFull [] = Unit
AllFull (p ∷ ps) = (length p.body + p.pad_len ≡ max_packet_payload_length) × AllFull ps

dummies-append : (ps qs : List PacketInfo) → dummies (ps ++ qs) ≡ dummies ps + dummies qs
dummies-append [] qs = omega arith
dummies-append (p ∷ ps) qs = let ih = dummies-append ps qs in ground arith

pub carried-append : (ps qs : List PacketInfo) → carried (ps ++ qs) ≡ carried ps ++ carried qs
carried-append [] qs = refl
carried-append (p ∷ ps) qs = elim (Bool-cases (is_dummy p)) [
  | inl dummy ↦ rw dummy (carried-append ps qs)
  | inr data_packet ↦ rw data_packet (
      ap (λ r. p.body ++ r) (carried-append ps qs)
      ∙ sym (append_assoc p.body (carried ps) (carried qs)))
]

pub AllFull-append : (ps qs : List PacketInfo) → AllFull ps → AllFull qs → AllFull (ps ++ qs)
AllFull-append [] qs h k = k
AllFull-append (p ∷ ps) qs h k = (h.0, AllFull-append ps qs h.1 k)

-- What a server has done that read `up`, with budgets of `granted` in all.
pub record Paid (up : Bytes) (granted : ℕ) (c : Server) : Type 0 where
  pub conserved : carried c.send_chan ++ c.receive_buf ≡ up
  pub full : AllFull c.send_chan
  pub paid : dummies c.send_chan + c.sp.padding_budget ≤ granted

Paid-sp :
    (up : Bytes) (granted : ℕ) (c : Server) (sp : ServerParams) (budget : ℕ) (state : State)
    → dummies c.send_chan + sp.padding_budget ≤ granted
    → Paid up granted c
    → Paid up granted (record c { sp = sp; padding_budget = budget; conn_state = state })
Paid-sp up granted c sp budget state fits h = record {
  conserved = h.conserved;
  full = h.full;
  paid = fits;
}

Paid-more :
    (up : Bytes) (granted k : ℕ) (c : Server) → Paid up granted c → Paid (up ++ []) (granted + k) c
Paid-more up granted k c h = record {
  conserved = h.conserved ∙ sym (append-nil up);
  full = h.full;
  paid = (let before = h.paid in omega (arith, before));
}

arith_assoc : (a b c : ℕ) → a + (b + c) ≡ (a + b) + c
arith_assoc a b c = omega arith

module _ (config : Config) where
  cal_target_rate-budget :
      (sp : ServerParams) (now : ℕ)
      → (cal_target_rate config.decayed sp now config.r).padding_budget ≡ sp.padding_budget
  unfolding cal_target_rate
  cal_target_rate-budget sp now = ground arith

  adjust_rate-Paid :
      (up : Bytes) (granted : ℕ) (c : Server) (now : ℕ)
      → Paid up granted c
      → Paid up granted (adjust_rate config c now)
  unfolding adjust_rate
  adjust_rate-Paid up granted c now h =
      by_tests (is_start c.conn_state.cur_state) (ltb (config.threshold sp.target_rate) _)
    where
      sp : ServerParams
      sp = cal_target_rate config.decayed c.sp now config.r

      fits : dummies c.send_chan + sp.padding_budget ≤ granted
      fits =
          (let same = cal_target_rate-budget c.sp now in
            let before = h.paid in omega (arith, same, before))

      by_tests :
          (on surge : Bool)
          → Paid up granted (
              if on
              then (if surge then record c { sp = set_last_send sp now } else record c { sp = sp })
              else record c { sp = set_target_rate (set_last_send c.sp now) config.r })
      by_tests true true =
          Paid-sp up granted c (set_last_send sp now) c.padding_budget c.conn_state fits h
      by_tests true false = Paid-sp up granted c sp c.padding_budget c.conn_state fits h
      by_tests false surge =
          Paid-sp up granted c (set_target_rate (set_last_send c.sp now) config.r) c.padding_budget
            c.conn_state h.paid h

  sends_data :
      (up : Bytes) (granted : ℕ) (c : Server) (t0 written : ℕ)
      → Paid up granted c
      → Paid up granted (record c {
        receive_buf = drop max_packet_payload_length c.receive_buf;
        written = written;
        send_chan =
            c.send_chan
            ++ (record {
              pkt_type = PacketType.payload;
              t0 = t0;
              body = take max_packet_payload_length c.receive_buf;
              pad_len =
                  max_packet_padding_length - length (take max_packet_payload_length c.receive_buf);
            }
                ∷ []);
      })
  sends_data up granted c t0 written h =
      let body = take max_packet_payload_length c.receive_buf in
      let p : PacketInfo = record {
        pkt_type = PacketType.payload;
        t0 = t0;
        body = body;
        pad_len = max_packet_padding_length - length body;
      } in
      record {
        conserved =
            ap (λ r. r ++ drop max_packet_payload_length c.receive_buf)
              (carried-append c.send_chan (p ∷ []))
            ∙ append_assoc (carried c.send_chan) (body ++ [])
                (drop max_packet_payload_length c.receive_buf)
            ∙ ap (λ r. carried c.send_chan ++ r)
                (ap (λ r. r ++ drop max_packet_payload_length c.receive_buf) (append-nil body)
                  ∙ take-append-drop max_packet_payload_length c.receive_buf)
            ∙ h.conserved;
        full =
            AllFull-append c.send_chan (p ∷ []) h.full
              (omega (arith, length-take max_packet_payload_length c.receive_buf), tt);
        paid = (let before = h.paid in omega (arith, before, dummies-append c.send_chan (p ∷ [])));
      }

  sends_dummy :
      (up : Bytes) (granted : ℕ) (c : Server) (t0 a b : ℕ)
      → 0 < c.sp.padding_budget
      → Paid up granted c
      → Paid up granted (record c {
        sp = record c.sp { padding_budget = c.sp.padding_budget - 1 };
        send_chan =
            c.send_chan
            ++ (record {
              pkt_type = PacketType.dummy;
              t0 = t0;
              body = put_uint32 a ++ put_uint32 b;
              pad_len = max_packet_padding_length - 8;
            }
                ∷ []);
      })
  sends_dummy up granted c t0 a b pos h =
      let p : PacketInfo = record {
        pkt_type = PacketType.dummy;
        t0 = t0;
        body = put_uint32 a ++ put_uint32 b;
        pad_len = max_packet_padding_length - 8;
      } in
      record {
        conserved =
            ap (λ r. r ++ c.receive_buf)
              (carried-append c.send_chan (p ∷ []) ∙ append-nil (carried c.send_chan))
            ∙ h.conserved;
        full = AllFull-append c.send_chan (p ∷ []) h.full (refl, tt);
        paid =
            (let before = h.paid in
              omega (arith, before, pos, dummies-append c.send_chan (p ∷ [])));
      }

  consumed :
      (sp : ServerParams)
      → 0 < sp.padding_budget
      → consume_padding_budget sp ≡ record sp { padding_budget = sp.padding_budget - 1 }
  unfolding consume_padding_budget
  consumed sp pos = rw (lt→ltb 0 sp.padding_budget pos) refl

  send_packet-Paid :
      (up : Bytes) (granted : ℕ) (c : Server)
      → Paid up granted c
      → Paid up granted (send_packet config c)
  unfolding send_packet
  send_packet-Paid up granted c h =
      by_tests (ltb 0 (length c.receive_buf)) (is_start c.conn_state.cur_state)
        (ltb 0 c.sp.padding_budget) (ltb→lt 0 c.sp.padding_budget)
    where
      body : Bytes
      body = take max_packet_payload_length c.receive_buf

      dummy_sent : ServerParams → Server
      dummy_sent sp = record c {
        sp = sp;
        send_chan =
            c.send_chan
            ++ (record {
              pkt_type = PacketType.dummy;
              t0 = c.sp.last_send;
              body = put_uint32 sp.padding_budget ++ put_uint32 c.padding_budget;
              pad_len = max_packet_padding_length - 8;
            }
                ∷ []);
      }

      by_tests :
          (some_data on funds : Bool)
          → (funds ≡ true → 0 < c.sp.padding_budget)
          → Paid up granted (
              if some_data
              then record c {
                receive_buf = drop max_packet_payload_length c.receive_buf;
                written = c.written + length body;
                send_chan =
                    c.send_chan
                    ++ (record {
                      pkt_type = PacketType.payload;
                      t0 = c.sp.last_send;
                      body = body;
                      pad_len = max_packet_padding_length - length body;
                    }
                        ∷ []);
              }
              else if on && funds
              then dummy_sent (consume_padding_budget c.sp)
              else c)
      by_tests true _ _ f = sends_data up granted c c.sp.last_send (c.written + length body) h
      by_tests false true true f =
          subst (λ sp. Paid up granted (dummy_sent sp)) (sym (consumed c.sp (f refl)))
            (sends_dummy up granted c c.sp.last_send _ _ (f refl) h)
      by_tests false true false f = h
      by_tests false false _ f = h

  Step-Paid :
      (up : Bytes) (granted : ℕ) {c : Server} {xs : Bytes} {k : ℕ} {c' : Server}
      → Step config c xs k c'
      → Paid up granted c
      → Paid (up ++ xs) (granted + k) c'
  unfolding on_read on_round on_signal init
  Step-Paid up granted {c} (reads bs) h = record {
    conserved =
        sym (append_assoc (carried c.send_chan) c.receive_buf bs) ∙ ap (λ r. r ++ bs) h.conserved;
    full = h.full;
    paid = (let before = h.paid in omega (arith, before));
  }
  Step-Paid up granted {c} (rounds now) h =
      Paid-more up granted 0 _ (
        send_packet-Paid up granted (adjust_rate config c now)
          (adjust_rate-Paid up granted c now h))
  Step-Paid up granted {c} (starts now draw fits) h = record {
    conserved = h.conserved ∙ sym (append-nil up);
    full = h.full;
    paid = (let before = h.paid in omega (arith, before));
  }
  Step-Paid up granted {c} (stops now) h =
      Paid-more up granted 0 _ (by_test (not (is_stop c.conn_state.cur_state)))
    where
      by_test :
          (moves : Bool)
          → Paid up granted
              (if moves then record c { conn_state = set_state c.conn_state stop } else c)
      by_test true =
          Paid-sp up granted c c.sp c.padding_budget (set_state c.conn_state stop) h.paid h
      by_test false = h

  -- In every run of the server from a new connection, each packet is padded to the maximum, the data
  -- read from upstream is in the packets that are no dummies and then in the buffer, in its order,
  -- and there are no more dummies than the budgets allow that were drawn for the connection and for
  -- each start signal.
  pub Steps-Paid :
      (state : State) (now draw : ℕ) {c : Server} {up : Bytes} {granted : ℕ}
      → Steps config (new_server config state now draw) up granted c
      → Paid up (draw + granted) c
  unfolding init
  Steps-Paid state now draw done = record { conserved = refl; full = tt; paid = omega arith }
  Steps-Paid state now draw (after {xs = xs} {m = m} {k = k} steps step) =
      rw (arith_assoc draw m k) (Step-Paid xs (draw + m) step (Steps-Paid state now draw steps))
