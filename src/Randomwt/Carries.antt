-- ===== src/Randomwt/Carries.antt =====
-- The data goes out in its order, in packets that are all padded to one length.
use mathlib.Core.Path.{subst}
use wfdef.Prelude.{
  ℕ, zero, suc, ◌+◌, ◌≤◌, ◌≡◌, refl, sym, ap, ◌∙◌, Bool, true, false, not, ◌&&◌, Option, none, some,
  List, [], ◌∷◌, ◌++◌, append_assoc, append-nil, Bytes, length, length-take, length-drop, take,
  drop, take-append-drop, ◌==◌, replicate, if◌then◌else◌, arith,
}
use wfdef.Defconn.Packet.{PacketInfo}
use wfdef.Randomwt.PacketType
use wfdef.Randomwt.{
  Signal, real, dummy, tear_down, is_start, is_stop, ReadResult, got, timed_out, failed, End,
  signal, put, sample_dummy_burst, chop, next_phase, moved, pad_real_burst, client_talkie,
  server_talkie, flip, talk,
}

abbrev pub data_of : PacketInfo → Bytes
data_of p = if p.pkt_type == PacketType.payload then p.body else []

abbrev pub carried : List PacketInfo → Bytes
carried [] = []
carried (p ∷ ps) = data_of p ++ carried ps

abbrev pub AllFull : List PacketInfo → Type 0
AllFull [] = Unit
AllFull (p ∷ ps) = (length p.body + p.pad_len ≡ 536) × AllFull ps

carried-append : (ps qs : List PacketInfo) → carried (ps ++ qs) ≡ carried ps ++ carried qs
carried-append [] qs = refl
carried-append (p ∷ ps) qs =
    ap (λ r. data_of p ++ r) (carried-append ps qs)
    ∙ sym (append_assoc (data_of p) (carried ps) (carried qs))

AllFull-append : (ps qs : List PacketInfo) → AllFull ps → AllFull qs → AllFull (ps ++ qs)
AllFull-append [] qs h k = k
AllFull-append (p ∷ ps) qs h k = (h.0, AllFull-append ps qs h.1 k)

-- `e'` has put the data `bs` into packets since `e`.
pub record Adds (e : End) (bs : Bytes) (e' : End) : Type 0 where
  pub carries : carried e'.out ≡ carried e.out ++ bs
  pub keeps : e'.received ≡ e.received
  pub full : AllFull e.out → AllFull e'.out

nil-Adds : (e e' e'' : End) (bs : Bytes) → Adds e [] e' → Adds e' bs e'' → Adds e bs e''
nil-Adds e e' e'' bs h k = record {
  carries = k.carries ∙ ap (λ r. r ++ bs) (h.carries ∙ append-nil (carried e.out));
  keeps = k.keeps ∙ h.keeps;
  full = λ f. k.full (h.full f);
}

Adds-nil : (e e' e'' : End) (bs : Bytes) → Adds e bs e' → Adds e' [] e'' → Adds e bs e''
Adds-nil e e' e'' bs h k = record {
  carries = k.carries ∙ append-nil (carried e'.out) ∙ h.carries;
  keeps = k.keeps ∙ h.keeps;
  full = λ f. k.full (h.full f);
}

Adds-packets :
    (e : End) (ps : List PacketInfo)
    → AllFull ps
    → Adds e (carried ps) (record e { out = e.out ++ ps })
Adds-packets e ps f = record {
  carries = carried-append e.out ps;
  keeps = refl;
  full = λ h. AllFull-append e.out ps h f;
}

pub Adds-refl : (e e' : End) → e'.out ≡ e.out → e'.received ≡ e.received → Adds e [] e'
Adds-refl e e' same_out same_received = record {
  carries = ap carried same_out ∙ sym (append-nil (carried e.out));
  keeps = same_received;
  full = λ f. rw same_out f;
}

carried-replicate : (n : ℕ) → carried (replicate n (signal PacketType.dummy)) ≡ []
carried-replicate zero = refl
carried-replicate (suc n) = carried-replicate n

AllFull-replicate : (n : ℕ) → AllFull (replicate n (signal PacketType.dummy))
AllFull-replicate zero = tt
AllFull-replicate (suc n) = (refl, AllFull-replicate n)

carried-chop : (fuel : ℕ) (bs : Bytes) → length bs ≤ fuel → carried (chop fuel bs) ≡ bs
unfolding chop
carried-chop zero [] h = refl
carried-chop zero (c ∷ bs) h = absurd (omega arith)
carried-chop (suc fuel) [] h = refl
carried-chop (suc fuel) (c ∷ bs) h =
    ap (λ r. take 536 (c ∷ bs) ++ r)
      (carried-chop fuel (drop 536 (c ∷ bs)) (omega (arith, length-drop 536 (c ∷ bs))))
    ∙ take-append-drop 536 (c ∷ bs)

AllFull-chop : (fuel : ℕ) (bs : Bytes) → AllFull (chop fuel bs)
unfolding chop
AllFull-chop zero bs = tt
AllFull-chop (suc fuel) [] = tt
AllFull-chop (suc fuel) (c ∷ bs) =
    (omega (arith, length-take 536 (c ∷ bs)), AllFull-chop fuel (drop 536 (c ∷ bs)))

Adds-sample_dummy_burst :
    (uniform : ℕ → ℕ) (n : ℕ) (e : End) → Adds e [] (sample_dummy_burst uniform n e)
unfolding sample_dummy_burst
Adds-sample_dummy_burst uniform n e = by_test (is_stop e.phase)
  where
    dummies : List PacketInfo
    dummies = replicate (uniform n) (signal PacketType.dummy)

    by_test : (b : Bool) → Adds e [] (if b then e else record e { out = e.out ++ dummies })
    by_test true = Adds-refl e e refl refl
    by_test false =
        subst (λ bs. Adds e bs (record e { out = e.out ++ dummies }))
          (carried-replicate (uniform n)) (Adds-packets e dummies (AllFull-replicate (uniform n)))

pub Adds-put : (e : End) (t : ℕ) → (t == PacketType.payload) ≡ false → Adds e [] (put e (signal t))
Adds-put e t other =
    subst (λ bs. Adds e bs (put e (signal t)))
      (ap (λ b. (if b then (signal t).body else []) ++ []) other)
      (Adds-packets e (signal t ∷ []) (refl, tt))

Adds-moved : (e : End) (bs : Bytes) → Adds e [] (moved e bs)
Adds-moved e bs =
    by_tests (not e.is_server) (is_start (next_phase e.phase (length bs)) && not (is_start e.phase))
  where
    by_tests :
        (client signals : Bool)
        → Adds e [] (
            if client
            then record (if signals then put e (signal PacketType.signal_start) else e) {
              phase = next_phase e.phase (length bs);
            }
            else e)
    by_tests true true =
        let h = Adds-put e PacketType.signal_start refl in
        record { carries = h.carries; keeps = refl; full = h.full }
    by_tests true false = Adds-refl e _ refl refl
    by_tests false signals = Adds-refl e e refl refl

-- What a talk that read `bs` has done.
abbrev pub AddsRead : End → Option (End × Bytes) → Type 0
AddsRead e none = Unit
AddsRead e (some (e', bs)) = Adds e bs e'

pad_real_burst-AddsRead :
    (e : End) (r : ReadResult) (uniform : ℕ → ℕ) → AddsRead e (pad_real_burst e r uniform)
unfolding pad_real_burst
pad_real_burst-AddsRead e failed uniform = tt
pad_real_burst-AddsRead e timed_out uniform =
    let e' = sample_dummy_burst uniform e.n_fake e in
    nil-Adds e e' (put e' (signal PacketType.real_finish)) []
      (Adds-sample_dummy_burst uniform e.n_fake e) (Adds-put e' PacketType.real_finish refl)
pad_real_burst-AddsRead e (got bs) uniform =
    let e1 = moved e bs in
    let e2 : End = record e1 { out = e1.out ++ chop (length bs) bs } in
    let e3 = sample_dummy_burst uniform e.n_real e2 in
    let chopped : Adds e1 bs e2 =
      subst (λ b. Adds e1 b e2) (carried-chop (length bs) bs (omega arith))
        (Adds-packets e1 (chop (length bs) bs) (AllFull-chop (length bs) bs)) in
    nil-Adds e e1 (put e3 (signal PacketType.real_finish)) bs (Adds-moved e bs) (
      Adds-nil e1 e3 (put e3 (signal PacketType.real_finish)) bs
        (Adds-nil e1 e2 e3 bs chopped (Adds-sample_dummy_burst uniform e.n_real e2))
        (Adds-put e3 PacketType.real_finish refl))

fakes-Adds :
    (e : End) (uniform : ℕ → ℕ)
    → Adds e [] (put (sample_dummy_burst uniform e.n_fake e) (signal PacketType.fake_finish))
fakes-Adds e uniform =
    let e' = sample_dummy_burst uniform e.n_fake e in
    nil-Adds e e' (put e' (signal PacketType.fake_finish)) []
      (Adds-sample_dummy_burst uniform e.n_fake e) (Adds-put e' PacketType.fake_finish refl)

client_talkie-AddsRead :
    (e : End) (should_fake : Bool) (r : ReadResult) (uniform : ℕ → ℕ)
    → AddsRead e (client_talkie e should_fake r uniform)
unfolding client_talkie
client_talkie-AddsRead e should_fake r uniform =
    by_tests (not (is_stop e.phase) && e.fake_turn) should_fake
  where
    by_tests :
        (fake_turn should_fake : Bool)
        → AddsRead e (
            if fake_turn
            then (if should_fake
                then some (
                  put (sample_dummy_burst uniform e.n_fake e) (signal PacketType.fake_finish),
                  [],
                )
                else some (record e { can_send = e.can_send ++ (real ∷ []) }, []))
            else pad_real_burst e r uniform)
    by_tests true true = fakes-Adds e uniform
    by_tests true false = Adds-refl e _ refl refl
    by_tests false b = pad_real_burst-AddsRead e r uniform

flip-AddsRead : (e : End) (o : Option (End × Bytes)) → AddsRead e o → AddsRead e (flip o)
flip-AddsRead e none h = tt
flip-AddsRead e (some (e', bs)) h = record { carries = h.carries; keeps = h.keeps; full = h.full }

server_talkie-AddsRead :
    (e : End) (s : Signal) (r : ReadResult) (uniform : ℕ → ℕ)
    → AddsRead e (server_talkie e s r uniform)
unfolding server_talkie
server_talkie-AddsRead e dummy r uniform = fakes-Adds e uniform
server_talkie-AddsRead e real r uniform = pad_real_burst-AddsRead e r uniform
server_talkie-AddsRead e tear_down r uniform = tt

turn-AddsRead :
    (client : Bool) (e : End) (s : Signal) (should_fake : Bool) (r : ReadResult) (uniform : ℕ → ℕ)
    → AddsRead e (
        if client
        then flip (client_talkie e should_fake r uniform)
        else server_talkie e s r uniform)
turn-AddsRead true e s should_fake r uniform =
    flip-AddsRead e (client_talkie e should_fake r uniform)
      (client_talkie-AddsRead e should_fake r uniform)
turn-AddsRead false e s should_fake r uniform = server_talkie-AddsRead e s r uniform

pub talk-AddsRead :
    (e : End) (s : Signal) (rest : List Signal) (should_fake : Bool) (r : ReadResult)
    (uniform : ℕ → ℕ)
    → AddsRead (record e { can_send = rest }) (talk e s rest should_fake r uniform)
unfolding talk
talk-AddsRead e tear_down rest should_fake r uniform = tt
talk-AddsRead e real rest should_fake r uniform =
    turn-AddsRead (not e.is_server) (record e { can_send = rest }) real should_fake r uniform
talk-AddsRead e dummy rest should_fake r uniform =
    turn-AddsRead (not e.is_server) (record e { can_send = rest }) dummy should_fake r uniform
