-- ===== src/Defconn/Read/Delivers.antt =====
-- A read gives data or an error that ends the connection, and loses nothing of what was decoded.
use mathlib.Core.Path.{subst}
use wfdef.Prelude.{
  ℕ, ◌<◌, ◌≡◌, refl, Bool-cases, inl, inr, Option, none, some, List, [], ◌∷◌, ◌++◌, Bytes, length,
  length-take, take-append-drop, min, ltb, ltb→lt,
}
use wfdef.Drbg.{Sip}
use wfdef.Framing.{Box}
use wfdef.Defconn.Packet.{PacketError}
use wfdef.Defconn.Receive.{Link, Switch, Ran, returns, read_packets}
use wfdef.Defconn.Receive as Receive
use wfdef.Defconn.Read.{
  Looped, ready, blocked, panicked, Gave, gave, waits, faults, fatal, go_on_or_stop, after_packets,
  read_loop, relay, read,
}

-- The links that the loop goes through: each is what `ReadPackets` made of the one before, of the
-- next read of the network, without a fatal error.
module _ {ℓ} {X : Type ℓ} (s : Sip) (b : Box) (sw : Switch X) (intn : ℕ → ℕ) where
  pub data Reaches
      : Link X
        → List (Bytes × Option ℕ)
        → Link X
        → Option PacketError
        → List (Bytes × Option ℕ)
        → Type ℓ where
    now : {l : Link X} {net : List (Bytes × Option ℕ)} → Reaches l net l none net
    stops :
        {l l' : Link X} {net : List (Bytes × Option ℕ)} {got : Bytes} {rd_err : Option ℕ}
        {e : Option PacketError} {x : PacketError}
        → read_packets s b sw intn l got rd_err ≡ returns l' e
        → fatal e ≡ some x
        → Reaches l ((got, rd_err) ∷ net) l' (some x) net
    later :
        {l l' l'' : Link X} {net net' : List (Bytes × Option ℕ)} {got : Bytes} {rd_err : Option ℕ}
        {e x : Option PacketError}
        → read_packets s b sw intn l got rd_err ≡ returns l' e
        → fatal e ≡ none
        → Reaches l' net l'' x net'
        → Reaches l ((got, rd_err) ∷ net) l'' x net'

  -- What a read of up to `size` bytes has done.
  pub record Delivered (size : ℕ) (l : Link X) (net : List (Bytes × Option ℕ)) (data_read : Bytes)
      (e : Option PacketError) (l' : Link X) (net' : List (Bytes × Option ℕ)) : Type ℓ where
    pub reached : Link X
    pub reaches : Reaches l net reached e net'
    pub conserved : data_read ++ l'.receive_decoded_buffer ≡ reached.receive_decoded_buffer
    pub as_much : length data_read ≡ min size (length reached.receive_decoded_buffer)
    pub progress : (e ≡ none) → 0 < length reached.receive_decoded_buffer

  abbrev Reached : Link X → List (Bytes × Option ℕ) → Looped X → Type ℓ
  Reached l net (ready l' e net') =
      Reaches l net l' e net' × ((e ≡ none) → 0 < length l'.receive_decoded_buffer)
  Reached l net (blocked l') = Unit {ℓ}
  Reached l net panicked = Unit {ℓ}

  Reached-later :
      (l l' : Link X) (net : List (Bytes × Option ℕ)) (got : Bytes) (rd_err : Option ℕ)
      (e : Option PacketError) (r : Looped X)
      → read_packets s b sw intn l got rd_err ≡ returns l' e
      → fatal e ≡ none
      → Reached l' net r
      → Reached l ((got, rd_err) ∷ net) r
  Reached-later l l' net got rd_err e (ready l'' x net') p q h = (later p q h.0, h.1)
  Reached-later l l' net got rd_err e (blocked l'') p q h = tt
  Reached-later l l' net got rd_err e panicked p q h = tt

  Reached-after :
      (l : Link X) (net : List (Bytes × Option ℕ)) (got : Bytes) (rd_err : Option ℕ)
      (go_on : Link X → Looped X)
      → ((l' : Link X) → Reached l' net (go_on l'))
      → (r : Ran X) → read_packets s b sw intn l got rd_err ≡ r
      → Reached l ((got, rd_err) ∷ net) (after_packets net go_on r)
  Reached-after l net got rd_err go_on ih Receive.panicked p = tt
  Reached-after l net got rd_err go_on ih Receive.out_of_fuel p = tt
  Reached-after l net got rd_err go_on ih (returns l' e) p = by_error (fatal e) refl
    where
      by_error :
          (x : Option PacketError)
          → fatal e ≡ x
          → Reached l ((got, rd_err) ∷ net) (go_on_or_stop l' net (go_on l') x)
      by_error none q = Reached-later l l' net got rd_err e (go_on l') p q (ih l')
      by_error (some x) q = (stops p q, λ bad. cc)

  loop-Reached :
      (l : Link X) (net : List (Bytes × Option ℕ)) → Reached l net (read_loop s b sw intn l net)
  unfolding read_loop
  loop-Reached l [] = elim (Bool-cases (ltb 0 (length l.receive_decoded_buffer))) [
    | inl some_data ↦ rw (some_data, read_loop) (now, λ e. ltb→lt 0 _ some_data)
    | inr nothing ↦ rw (nothing, read_loop) tt
  ]
  loop-Reached l ((got, rd_err) ∷ net) =
      elim (Bool-cases (ltb 0 (length l.receive_decoded_buffer))) [
        | inl some_data ↦ rw (some_data, read_loop) (now, λ e. ltb→lt 0 _ some_data)
        | inr nothing ↦
            rw (nothing, read_loop)
              (Reached-after l net got rd_err (λ l'. read_loop s b sw intn l' net)
                (λ l'. loop-Reached l' net) (read_packets s b sw intn l got rd_err) refl)
      ]

  abbrev AsDelivered : ℕ → Link X → List (Bytes × Option ℕ) → Gave X → Type ℓ
  AsDelivered size l net (gave bs e l' net') = Delivered size l net bs e l' net'
  AsDelivered size l net (waits l') = Unit {ℓ}
  AsDelivered size l net faults = Unit {ℓ}

  relay-AsDelivered :
      (size : ℕ) (l : Link X) (net : List (Bytes × Option ℕ)) (r : Looped X)
      → Reached l net r
      → AsDelivered size l net (relay size r)
  relay-AsDelivered size l net (ready l' e net') h = record {
    reached = l';
    reaches = h.0;
    conserved = take-append-drop size l'.receive_decoded_buffer;
    as_much = length-take size l'.receive_decoded_buffer;
    progress = h.1;
  }
  relay-AsDelivered size l net (blocked l') h = tt
  relay-AsDelivered size l net panicked h = tt

  -- Whatever the network gives: what `Read` returns is the front of what was decoded at the end of
  -- its loop, as much as fits, and the rest stays for the next read, also with an error. Each read of
  -- the network is taken in its order. Without an error there was data, so that a read into a buffer
  -- of some length never returns nothing.
  pub read-Delivered :
      (size : ℕ) (l l' : Link X) (net net' : List (Bytes × Option ℕ)) (bs : Bytes)
      (e : Option PacketError)
      → read s b sw intn size l net ≡ gave bs e l' net'
      → Delivered size l net bs e l' net'
  unfolding read
  read-Delivered size l l' net net' bs e h =
      subst (AsDelivered size l net) h
        (relay-AsDelivered size l net (read_loop s b sw intn l net) (loop-Reached l net))
