-- ===== src/Defconn/Receive/Chunks.antt =====
-- What the receiver makes of a stream does not depend on how the network cuts it into reads.
use wfdef.Prelude.{
  ℕ, zero, suc, ◌+◌, ◌<◌, ◌≡◌, refl, sym, ap, ◌∙◌, Bool-cases, ◌⊎◌, inl, inr, Option, none, some,
  ◌++◌, Bytes, length, length-append, append_assoc, ltb, lt→ltb, arith,
}
use wfdef.Drbg.{Sip}
use wfdef.Framing.{Box, again}
use wfdef.Defconn.Packet.{PacketError, framing}
use wfdef.Defconn.Receive.{
  Link, Switch, Round, breaks, continues, faults, Ran, returns, panicked, out_of_fuel, run_round,
  round, process, with_read_error, read_packets,
}
use wfdef.Defconn.Receive.Local.{IsLocal, more, Shrinks, round-Shrinks, GoesOn, round-GoesOn}
use wfdef.Defconn.Receive.Total.{process_fuel, process_empty, process-round}

-- The loop ended for want of data: the buffer ran out, or holds a part of a frame.
abbrev pub IsPending : Option PacketError → Type 0
IsPending e = (e ≡ none) ⊎ (e ≡ some (framing again))

module _ {ℓ} {X : Type ℓ} (s : Sip) (b : Box) (sw : Switch X) (local : IsLocal sw)
    (intn : ℕ → ℕ) where
  -- With data in the buffer the first round is made, on any fuel above its length, and `err` is
  -- overwritten before it is looked at.
  process_first :
      (f k : ℕ) (l : Link X) (ys : Bytes) (x : Option PacketError)
      → 0 < length ys
      → length l.receive_buffer + length ys < f
      → length l.receive_buffer + length ys < suc k
      → process s b sw intn f (more ys l) x
        ≡ run_round (process s b sw intn k) (round s b sw intn (more ys l))
  process_first f k l ys x pos p q =
      let size = length-append l.receive_buffer ys in
      process_fuel s b sw local intn f (suc k) (more ys l) x (omega (arith, size))
        (omega (arith, size))
      ∙ process-round s b sw local intn k (more ys l) x (lt→ltb _ _ (omega (arith, size)))

  process-more :
      (f : ℕ) (l l' : Link X) (last e : Option PacketError) (ys : Bytes) (g h : ℕ)
      (x y : Option PacketError)
      → process s b sw intn f l last ≡ returns l' e
      → IsPending e
      → 0 < length ys
      → length l'.receive_buffer + length ys < g
      → length l.receive_buffer + length ys < h
      → process s b sw intn g (more ys l') x ≡ process s b sw intn h (more ys l) y
  process-more zero l l' last e ys g h x y r p pos u v = unfold process in cc
  process-more (suc f) l l' last e ys g h x y r p pos u v =
      elim (Bool-cases (ltb 0 (length l.receive_buffer))) [
        | inr none_left ↦
            let same : l' ≡ l =
              returned (sym (process_empty s b sw local intn f l last none_left) ∙ r) in
            rw same (
              process_first g (g + h) l ys x pos (rw same at u) (omega arith)
              ∙ sym (process_first h (g + h) l ys y pos v (omega arith)))
        | inl some_left ↦
            by_round (λ l₁ e₁ q k. process-more f l₁ l' e₁ e ys g (g + h) x e₁ q p pos u k)
              (round s b sw intn l) (round-GoesOn s b sw local intn l ys)
              (round-Shrinks s b sw local intn l)
              (sym (process-round s b sw local intn f l last some_left) ∙ r)
      ]
    where
      returned : {l₁ : Link X} {e₁ : Option PacketError} → returns l₁ e₁ ≡ returns l' e → l' ≡ l₁
      returned q = cc

      by_round :
          ((l₁ : Link X) (e₁ : Option PacketError)
            → process s b sw intn f l₁ e₁ ≡ returns l' e
            → length l₁.receive_buffer + length ys < g + h
            → process s b sw intn g (more ys l') x ≡ process s b sw intn (g + h) (more ys l₁) e₁)
          → (r₁ : Round X) → GoesOn s b sw local intn ys l r₁
          → Shrinks (length l.receive_buffer) r₁
          → run_round (process s b sw intn f) r₁ ≡ returns l' e
          → process s b sw intn g (more ys l') x ≡ process s b sw intn h (more ys l) y
      by_round ih (breaks l₁ e₁) on k q =
          let same : l' ≡ l₁ = returned q in
          let stuck : e₁ ≡ framing again = ground arith in
          process_first g (g + h) l' ys x pos u (omega arith)
          ∙ ap (run_round (process s b sw intn (g + h))) (rw same (on stuck))
          ∙ sym (process_first h (g + h) l ys y pos v (omega arith))
      by_round ih (continues l₁ e₁) on k q =
          ih l₁ e₁ q (omega arith)
          ∙ sym (
              process_first h (g + h) l ys y pos v (omega arith)
              ∙ ap (run_round (process s b sw intn (g + h))) on)
      by_round ih faults on k q = cc

  with_read_error-none : (r : Ran X) → with_read_error none r ≡ r
  unfolding with_read_error
  with_read_error-none (returns l e) = refl
  with_read_error-none panicked = refl
  with_read_error-none out_of_fuel = refl

  -- If `ReadPackets` ended for want of data, reading the rest of the stream later gives what
  -- reading it all at once gives: the same link and the same error.
  pub read_packets-append :
      (l l' : Link X) (e : Option PacketError) (xs ys : Bytes)
      → read_packets s b sw intn l xs none ≡ returns l' e
      → IsPending e
      → 0 < length ys
      → read_packets s b sw intn l' ys none ≡ read_packets s b sw intn l (xs ++ ys) none
  unfolding read_packets
  read_packets-append l l' e xs ys r p pos =
      let size = length-append l.receive_buffer xs in
      let size' = length-append l'.receive_buffer ys in
      let whole = length-append l.receive_buffer (xs ++ ys) in
      let parts = length-append xs ys in
      with_read_error-none _
      ∙ process-more (suc (length (l.receive_buffer ++ xs))) (more xs l) l' none e ys
          (suc (length (l'.receive_buffer ++ ys))) (suc (length (l.receive_buffer ++ (xs ++ ys))))
          none none (sym (with_read_error-none _) ∙ r) p pos (omega (arith, size'))
          (omega (arith, size, whole, parts))
      ∙ ap
          (λ rest.
            process s b sw intn (suc (length (l.receive_buffer ++ (xs ++ ys))))
              (record l { receive_buffer = rest }) none)
          (append_assoc l.receive_buffer xs ys)
      ∙ sym (with_read_error-none _)
