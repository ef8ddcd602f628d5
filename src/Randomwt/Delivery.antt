-- ===== src/Randomwt/Delivery.antt =====
-- What a side reads from upstream reaches the other side, in its order.
use mathlib.Core.Path.{subst}
use wfdef.Prelude.{
  ℕ, ◌≡◌, refl, sym, ap, ◌∙◌, Bool, true, false, not, ◌&&◌, some, List, [], ◌∷◌, ◌++◌, append_assoc,
  append-nil, Bytes, ltb, if◌then◌else◌, arith,
}
use wfdef.Defconn.Packet.{PacketInfo}
use wfdef.Randomwt.PacketType
use wfdef.Randomwt.{
  stop, Signal, is_stop, ReadResult, End, signal, put, talk, receive, sends, on_tick, on_alive,
  System, Step, Steps, client_talks, server_talks, to_server, to_client, client_ticks, server_ticks,
  client_alive, server_alive, done, after, new_system,
}
use wfdef.Randomwt.Carries.{
  data_of, carried, AllFull, Adds, AddsRead, Adds-refl, Adds-put, talk-AddsRead,
}

-- From `a` to `b` there are the data that `b` has got, and then those under way.
pub record Carries (a b : End) (xs : Bytes) : Type 0 where
  pub conserved : b.received ++ carried a.out ≡ xs
  pub full : AllFull a.out

Carries-append :
    (a b a' : End) (xs bs : Bytes) → Carries a b xs → Adds a bs a' → Carries a' b (xs ++ bs)
Carries-append a b a' xs bs h k = record {
  conserved =
      ap (λ r. b.received ++ r) k.carries
      ∙ sym (append_assoc b.received (carried a.out) bs)
      ∙ ap (λ r. r ++ bs) h.conserved;
  full = k.full h.full;
}

Carries-append_nil :
    (a b a' : End) (xs : Bytes) → Carries a b xs → Adds a [] a' → Carries a' b (xs ++ [])
Carries-append_nil a b a' xs h k = Carries-append a b a' xs [] h k

-- The other side's own sending changes nothing.
Carries-keeps :
    (a b b' : End) (xs : Bytes)
    → Carries a b xs
    → b'.received ≡ b.received
    → Carries a b' (xs ++ [])
Carries-keeps a b b' xs h same = record {
  conserved = ap (λ r. r ++ carried a.out) same ∙ h.conserved ∙ sym (append-nil xs);
  full = h.full;
}

talked-Adds :
    (e : End) (s : Signal) (rest : List Signal) (should_fake : Bool) (r : ReadResult)
    (uniform : ℕ → ℕ) (e' : End) (bs : Bytes)
    → talk e s rest should_fake r uniform ≡ some (e', bs)
    → Adds e bs e'
talked-Adds e s rest should_fake r uniform e' bs talked =
    let h =
      subst (AddsRead (record e { can_send = rest })) talked
        (talk-AddsRead e s rest should_fake r uniform) in
    record { carries = h.carries; keeps = h.keeps; full = h.full }

received-receive :
    (e : End) (p : PacketInfo) (e' : End)
    → receive e p ≡ some e'
    → (e'.received ≡ e.received ++ data_of p) × (e'.out ≡ e.out)
unfolding receive
received-receive e p e' h = ground (arith, append-nil e.received)

on_tick-Adds : (e : End) → Adds e [] (on_tick e)
unfolding on_tick
on_tick-Adds e = by_test (not e.is_server && (not (is_stop e.phase) && ltb e.real_n_seg 2))
  where
    by_test :
        (b : Bool)
        → Adds e [] (
            if b
            then record (put e (signal PacketType.signal_stop)) { phase = stop; real_n_seg = 0 }
            else record e { real_n_seg = 0 })
    by_test true =
        let h = Adds-put e PacketType.signal_stop refl in
        record { carries = h.carries; keeps = refl; full = h.full }
    by_test false = Adds-refl e _ refl refl

on_alive-Adds : (e : End) → Adds e [] (on_alive e)
unfolding on_alive
on_alive-Adds e = Adds-put e PacketType.real_finish refl

-- A packet goes from `a` to `b`.
Carries-delivers :
    (a b b' : End) (p : PacketInfo) (rest : List PacketInfo) (xs : Bytes)
    → Carries a b xs
    → a.out ≡ p ∷ rest
    → receive b p ≡ some b'
    → Carries (sends a p rest) b' (xs ++ [])
unfolding sends
Carries-delivers a b b' p rest xs h has taken =
    let r = received-receive b p b' taken in
    let full : AllFull (p ∷ rest) = rw has at h.full in
    record {
      conserved =
          ap (λ t. t ++ carried rest) r.0
          ∙ append_assoc b.received (data_of p) (carried rest)
          ∙ ap (λ o. b.received ++ carried o) (sym has)
          ∙ h.conserved
          ∙ sym (append-nil xs);
      full = full.1;
    }

-- What was sent the other way stays as it was.
Carries-back :
    (a b a' b' : End) (xs : Bytes)
    → Carries a b xs
    → a'.out ≡ a.out
    → b'.received ≡ b.received
    → Carries a' b' (xs ++ [])
Carries-back a b a' b' xs h same_out same = record {
  conserved =
      ap (λ r. r ++ carried a'.out) same
      ∙ ap (λ o. b.received ++ carried o) same_out
      ∙ h.conserved
      ∙ sym (append-nil xs);
  full = rw same_out h.full;
}

abbrev Both : System → Bytes → Bytes → Type 0
Both s xs ys = Carries s.client s.server xs × Carries s.server s.client ys

Both-client :
    (s : System) (e : End) (xs ys bs : Bytes)
    → Both s xs ys
    → Adds s.client bs e
    → Both (record s { client = e }) (xs ++ bs) (ys ++ [])
Both-client s e xs ys bs h k = (
  Carries-append s.client s.server e xs bs h.0 k,
  Carries-keeps s.server s.client e ys h.1 k.keeps,
)

Both-server :
    (s : System) (e : End) (xs ys bs : Bytes)
    → Both s xs ys
    → Adds s.server bs e
    → Both (record s { server = e }) (xs ++ []) (ys ++ bs)
Both-server s e xs ys bs h k = (
  Carries-keeps s.client s.server e xs h.0 k.keeps,
  Carries-append s.server s.client e ys bs h.1 k,
)

Step-Both :
    {s : System} {xs' ys' : Bytes} {n : ℕ} {s' : System} (xs ys : Bytes)
    → Step s xs' ys' n s'
    → Both s xs ys
    → Both s' (xs ++ xs') (ys ++ ys')
unfolding sends
Step-Both {s} {s'} xs ys (client_talks sig rest should_fake r uniform has talked) h =
    Both-client s s'.client xs ys _ h
      (talked-Adds s.client sig rest should_fake r uniform s'.client _ talked)
Step-Both {s} {s'} xs ys (server_talks sig rest should_fake r uniform has talked) h =
    Both-server s s'.server xs ys _ h
      (talked-Adds s.server sig rest should_fake r uniform s'.server _ talked)
Step-Both {s} {s'} xs ys (to_server p rest has taken) h = (
  Carries-delivers s.client s.server s'.server p rest xs h.0 has taken,
  Carries-back s.server s.client s'.server (sends s.client p rest) ys h.1
      (received-receive s.server p s'.server taken).1 refl,
)
Step-Both {s} {s'} xs ys (to_client p rest has taken) h = (
  Carries-back s.client s.server s'.client (sends s.server p rest) xs h.0
      (received-receive s.client p s'.client taken).1 refl,
  Carries-delivers s.server s.client s'.client p rest ys h.1 has taken,
)
Step-Both {s} xs ys client_ticks h = Both-client s _ xs ys [] h (on_tick-Adds s.client)
Step-Both {s} xs ys server_ticks h = Both-server s _ xs ys [] h (on_tick-Adds s.server)
Step-Both {s} xs ys client_alive h = Both-client s _ xs ys [] h (on_alive-Adds s.client)
Step-Both {s} xs ys server_alive h = Both-server s _ xs ys [] h (on_alive-Adds s.server)

-- In every run from new connections: what the server has decoded, and then the data on the way to it,
-- is all that the client has read from upstream, in its order, and likewise the other way; the
-- packets on the way are all padded to one length.
pub Steps-Carries :
    (client_real client_fake server_real server_fake : ℕ) {s : System} {xs ys : Bytes} {n : ℕ}
    → Steps (new_system client_real client_fake server_real server_fake) xs ys n s
    → Carries s.client s.server xs × Carries s.server s.client ys
Steps-Carries cr cf sr sf done =
    (record { conserved = refl; full = tt }, record { conserved = refl; full = tt })
Steps-Carries cr cf sr sf (after {xs = xs} {ys = ys} steps step) =
    Step-Both xs ys step (Steps-Carries cr cf sr sf steps)
