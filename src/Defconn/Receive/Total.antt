-- ===== src/Defconn/Receive/Total.antt =====
-- The loop of `ReadPackets` ends: every round that goes on takes bytes off the buffer.
use wfdef.Prelude.{
  ℕ, zero, suc, ◌⊎◌, ◌<◌, ◌≡◌, refl, sym, ◌∙◌, true, false, Bool-cases, inl, inr, Option, none,
  some, ◌++◌, Bytes, length, ltb, arith,
}
use wfdef.Drbg.{Sip}
use wfdef.Framing.{Box}
use wfdef.Defconn.Packet.{PacketError, read_error}
use wfdef.Defconn.Receive.{
  Link, Switch, Round, breaks, continues, faults, Ran, returns, panicked, out_of_fuel, run_round,
  round, process, with_read_error, read_packets,
}
use wfdef.Defconn.Receive.Local.{IsLocal, Shrinks, round-Shrinks}

run_round-eq {ℓ} :
    {X : Type ℓ} (n : ℕ) (k k' : Link X → Option PacketError → Ran X) (r : Round X)
    → ((l : Link X) (x : Option PacketError) → length l.receive_buffer < n → k l x ≡ k' l x)
    → Shrinks n r
    → run_round k r ≡ run_round k' r
run_round-eq n k k' (breaks l x) same h = refl
run_round-eq n k k' (continues l x) same h = same l x h
run_round-eq n k k' faults same h = refl

-- The run came to an end of the code's own.
abbrev pub Ends {ℓ} : {X : Type ℓ} → Ran X → Type 0
Ends out_of_fuel = ⊥
Ends _ = Unit

run_round-Ends {ℓ} :
    {X : Type ℓ} (n : ℕ) (k : Link X → Option PacketError → Ran X) (r : Round X)
    → ((l : Link X) (x : Option PacketError) → length l.receive_buffer < n → Ends (k l x))
    → Shrinks n r
    → Ends (run_round k r)
run_round-Ends n k (breaks l x) ends h = tt
run_round-Ends n k (continues l x) ends h = ends l x h
run_round-Ends n k faults ends h = tt

with_read_error-Ends {ℓ} :
    {X : Type ℓ} (e : Option ℕ) (r : Ran X) → Ends r → Ends (with_read_error e r)
unfolding with_read_error
with_read_error-Ends e (returns l x) h = tt
with_read_error-Ends e panicked h = tt
with_read_error-Ends e out_of_fuel h = h

module _ {ℓ} {X : Type ℓ} (s : Sip) (b : Box) (sw : Switch X) (local : IsLocal sw)
    (intn : ℕ → ℕ) where
  pub process_empty :
      (f : ℕ) (l : Link X) (last : Option PacketError)
      → ltb 0 (length l.receive_buffer) ≡ false
      → process s b sw intn (suc f) l last ≡ returns l last
  unfolding process
  process_empty f l last e = rw (e, process)

  pub process-round :
      (f : ℕ) (l : Link X) (last : Option PacketError)
      → ltb 0 (length l.receive_buffer) ≡ true
      → process s b sw intn (suc f) l last ≡ run_round (process s b sw intn f) (round s b sw intn l)
  unfolding process
  process-round f l last e = rw (e, process)

  -- Any fuel above the length of the buffer gives the same run.
  pub process_fuel :
      (f g : ℕ) (l : Link X) (last : Option PacketError)
      → length l.receive_buffer < f
      → length l.receive_buffer < g
      → process s b sw intn f l last ≡ process s b sw intn g l last
  process_fuel zero g l last p q = absurd (omega arith)
  process_fuel (suc f) zero l last p q = absurd (omega arith)
  process_fuel (suc f) (suc g) l last p q = elim (Bool-cases (ltb 0 (length l.receive_buffer))) [
    | inr e ↦ process_empty f l last e ∙ sym (process_empty g l last e)
    | inl e ↦
        process-round f l last e
        ∙ run_round-eq (length l.receive_buffer) (process s b sw intn f) (process s b sw intn g)
            (round s b sw intn l) (λ l' x k. process_fuel f g l' x (omega arith) (omega arith))
            (round-Shrinks s b sw local intn l)
        ∙ sym (process-round g l last e)
  ]

  process-Ends :
      (f : ℕ) (l : Link X) (last : Option PacketError)
      → length l.receive_buffer < f
      → Ends (process s b sw intn f l last)
  process-Ends zero l last p = absurd (omega arith)
  process-Ends (suc f) l last p = elim (Bool-cases (ltb 0 (length l.receive_buffer))) [
    | inr e ↦ rw (process_empty f l last e) tt
    | inl e ↦ rw (process-round f l last e) (
        run_round-Ends (length l.receive_buffer) (process s b sw intn f) (round s b sw intn l)
          (λ l' x k. process-Ends f l' x (omega arith)) (round-Shrinks s b sw local intn l))
  ]

  -- The loop of `ReadPackets` ends within the fuel that `read_packets` gives it, whatever the
  -- network delivered and whatever error came with it.
  pub read_packets-Ends :
      (l : Link X) (got : Bytes) (rd_err : Option ℕ) → Ends (read_packets s b sw intn l got rd_err)
  unfolding read_packets
  read_packets-Ends l got rd_err =
      let l' = record l { receive_buffer = l.receive_buffer ++ got } in
      with_read_error-Ends rd_err (process s b sw intn (suc (length l'.receive_buffer)) l' none)
        (process-Ends (suc (length l'.receive_buffer)) l' none (omega arith))

  -- An error of the network's read takes priority over what became of the packets: the link is as
  -- without it, and the error is that one.
  pub read_packets_priority :
      (l : Link X) (got : Bytes) (n : ℕ)
      → (read_packets s b sw intn l got (some n) ≡ panicked)
        ⊎ ((l' : Link X) × (e : Option PacketError) × (read_packets s b sw intn l got none
              ≡ returns l' e)
            × (read_packets s b sw intn l got (some n) ≡ returns l' (some (read_error n))))
  unfolding read_packets
  read_packets_priority l got n =
      let l' = record l { receive_buffer = l.receive_buffer ++ got } in
      by_run (process s b sw intn (suc (length l'.receive_buffer)) l' none)
        (process-Ends (suc (length l'.receive_buffer)) l' none (omega arith))
    where
      by_run :
          (r : Ran X)
          → Ends r
          → (with_read_error (some n) r ≡ panicked)
            ⊎ ((l' : Link X) × (e : Option PacketError) × (with_read_error none r ≡ returns l' e)
                × (with_read_error (some n) r ≡ returns l' (some (read_error n))))
      by_run (returns l' e) h = inr (l', e, refl, refl)
      by_run panicked h = inl refl
      by_run out_of_fuel h = absurd h
