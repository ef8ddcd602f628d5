-- ===== src/Randomwt/Turns.antt =====
-- The sides talk in turns: a burst is sent for a signal, and ends with the signal for the other side.
use mathlib.Core.Path.{subst}
use wfdef.Prelude.{
  ℕ, ◌+◌, ◌≡◌, refl, ap, Bool, true, false, not, ◌&&◌, Option, none, some, List, [], ◌∷◌, ◌++◌,
  Bytes, length, length-append, ltb, if◌then◌else◌, arith,
}
use wfdef.Defconn.Packet.{PacketInfo}
use wfdef.Randomwt.PacketType
use wfdef.Randomwt.{
  stop, Signal, real, dummy, tear_down, is_stop, ReadResult, got, timed_out, failed, End, signal,
  put, sample_dummy_burst, chop, moved, pad_real_burst, client_talkie, server_talkie, flip, talk,
  receive, sends, on_tick, on_alive, System, Step, Steps, client_talks, server_talks, to_server,
  to_client, client_ticks, server_ticks, client_alive, server_alive, done, after, new_system,
}
use wfdef.Randomwt.Signals.{
  is_finish, one_if, finishes, finishes-append, finishes-chop, held, held-put,
  held-sample_dummy_burst, held-moved,
}

-- Every burst ends with a finish.
abbrev GivesOne : End → Option (End × Bytes) → Type 0
GivesOne e none = Unit
GivesOne e (some (e', bs)) = held e' ≡ held e + 1

pad_real_burst-GivesOne :
    (e : End) (r : ReadResult) (uniform : ℕ → ℕ) → GivesOne e (pad_real_burst e r uniform)
unfolding pad_real_burst
pad_real_burst-GivesOne e failed uniform = tt
pad_real_burst-GivesOne e timed_out uniform = omega (
  arith,
  held-put (sample_dummy_burst uniform e.n_fake e) (signal PacketType.real_finish),
  held-sample_dummy_burst uniform e.n_fake e,
)
pad_real_burst-GivesOne e (got bs) uniform =
    let e' = moved e bs in
    let full : End = record e' { out = e'.out ++ chop (length bs) bs } in
    omega (
      arith,
      held-put (sample_dummy_burst uniform e.n_real full) (signal PacketType.real_finish),
      held-sample_dummy_burst uniform e.n_real full,
      finishes-append e'.out (chop (length bs) bs),
      finishes-chop (length bs) bs,
      held-moved e bs,
    )

fakes-GivesOne :
    (e : End) (uniform : ℕ → ℕ)
    → held (put (sample_dummy_burst uniform e.n_fake e) (signal PacketType.fake_finish))
      ≡ held e + 1
fakes-GivesOne e uniform = omega (
  arith,
  held-put (sample_dummy_burst uniform e.n_fake e) (signal PacketType.fake_finish),
  held-sample_dummy_burst uniform e.n_fake e,
)

client_talkie-GivesOne :
    (e : End) (should_fake : Bool) (r : ReadResult) (uniform : ℕ → ℕ)
    → GivesOne e (client_talkie e should_fake r uniform)
unfolding client_talkie
client_talkie-GivesOne e should_fake r uniform =
    by_tests (not (is_stop e.phase) && e.fake_turn) should_fake
  where
    by_tests :
        (fake_turn should_fake : Bool)
        → GivesOne e (
            if fake_turn
            then (if should_fake
                then some (
                  put (sample_dummy_burst uniform e.n_fake e) (signal PacketType.fake_finish),
                  [],
                )
                else some (record e { can_send = e.can_send ++ (real ∷ []) }, []))
            else pad_real_burst e r uniform)
    by_tests true true = fakes-GivesOne e uniform
    by_tests true false = omega (arith, length-append e.can_send (real ∷ []))
    by_tests false b = pad_real_burst-GivesOne e r uniform

GivesOne-flip : (e : End) (o : Option (End × Bytes)) → GivesOne e o → GivesOne e (flip o)
GivesOne-flip e none h = tt
GivesOne-flip e (some (e', bs)) h = h

server_talkie-GivesOne :
    (e : End) (s : Signal) (r : ReadResult) (uniform : ℕ → ℕ)
    → GivesOne e (server_talkie e s r uniform)
unfolding server_talkie
server_talkie-GivesOne e dummy r uniform = fakes-GivesOne e uniform
server_talkie-GivesOne e real r uniform = pad_real_burst-GivesOne e r uniform
server_talkie-GivesOne e tear_down r uniform = tt

turn-GivesOne :
    (client : Bool) (e : End) (s : Signal) (should_fake : Bool) (r : ReadResult) (uniform : ℕ → ℕ)
    → GivesOne e (
        if client
        then flip (client_talkie e should_fake r uniform)
        else server_talkie e s r uniform)
turn-GivesOne true e s should_fake r uniform =
    GivesOne-flip e (client_talkie e should_fake r uniform)
      (client_talkie-GivesOne e should_fake r uniform)
turn-GivesOne false e s should_fake r uniform = server_talkie-GivesOne e s r uniform

talk-GivesOne :
    (e : End) (s : Signal) (rest : List Signal) (should_fake : Bool) (r : ReadResult)
    (uniform : ℕ → ℕ)
    → GivesOne (record e { can_send = rest }) (talk e s rest should_fake r uniform)
unfolding talk
talk-GivesOne e tear_down rest should_fake r uniform = tt
talk-GivesOne e real rest should_fake r uniform =
    turn-GivesOne (not e.is_server) (record e { can_send = rest }) real should_fake r uniform
talk-GivesOne e dummy rest should_fake r uniform =
    turn-GivesOne (not e.is_server) (record e { can_send = rest }) dummy should_fake r uniform

-- A talk takes a signal and gives one.
held-talk :
    (e : End) (s : Signal) (rest : List Signal) (should_fake : Bool) (r : ReadResult)
    (uniform : ℕ → ℕ) (e' : End) (bs : Bytes)
    → e.can_send ≡ s ∷ rest
    → talk e s rest should_fake r uniform ≡ some (e', bs)
    → held e' ≡ held e
held-talk e s rest should_fake r uniform e' bs has talked =
    let gives : held e' ≡ held (record e { can_send = rest }) + 1 =
      subst (GivesOne (record e { can_send = rest })) talked
        (talk-GivesOne e s rest should_fake r uniform) in
    let size = ap length has in omega (arith, gives, size)

held-receive :
    (e : End) (p : PacketInfo) (e' : End)
    → receive e p ≡ some e'
    → held e' ≡ held e + one_if (is_finish p)
unfolding receive
held-receive e p e' h = ground (
  arith,
  length-append e.can_send (real ∷ []),
  length-append e.can_send (dummy ∷ []),
  length-append e.can_send (tear_down ∷ []),
)

held-sends :
    (e : End) (p : PacketInfo) (rest : List PacketInfo)
    → e.out ≡ p ∷ rest
    → held (sends e p rest) + one_if (is_finish p) ≡ held e
unfolding sends
held-sends e p rest has = let size = ap finishes has in omega (arith, size)

held-on_tick : (e : End) → held (on_tick e) ≡ held e
unfolding on_tick
held-on_tick e = by_test (not e.is_server && (not (is_stop e.phase) && ltb e.real_n_seg 2))
  where
    by_test :
        (b : Bool)
        → held (
            if b
            then record (put e (signal PacketType.signal_stop)) { phase = stop; real_n_seg = 0 }
            else record e { real_n_seg = 0 })
          ≡ held e
    by_test true = omega (arith, held-put e (signal PacketType.signal_stop))
    by_test false = refl

held-on_alive : (e : End) → held (on_alive e) ≡ held e + 1
unfolding on_alive
held-on_alive e = held-put e (signal PacketType.real_finish)

-- The signals of both sides, those on the way included.
abbrev pub signals : System → ℕ
signals s = held s.client + held s.server

Step-signals :
    {s : System} {xs ys : Bytes} {n : ℕ} {s' : System}
    → Step s xs ys n s'
    → signals s' ≡ signals s + n
Step-signals {s} {s'} (client_talks sig rest should_fake r uniform has talked) =
    omega (arith, held-talk s.client sig rest should_fake r uniform s'.client _ has talked)
Step-signals {s} {s'} (server_talks sig rest should_fake r uniform has talked) =
    omega (arith, held-talk s.server sig rest should_fake r uniform s'.server _ has talked)
Step-signals {s} {s'} (to_server p rest has taken) =
    omega (arith, held-sends s.client p rest has, held-receive s.server p s'.server taken)
Step-signals {s} {s'} (to_client p rest has taken) =
    omega (arith, held-sends s.server p rest has, held-receive s.client p s'.client taken)
Step-signals {s} client_ticks = omega (arith, held-on_tick s.client)
Step-signals {s} server_ticks = omega (arith, held-on_tick s.server)
Step-signals {s} client_alive = omega (arith, held-on_alive s.client)
Step-signals {s} server_alive = omega (arith, held-on_alive s.server)

-- In every run from new connections, there is just one signal to send in both sides together, or on
-- the way between them, and one more for each time that a timer ran out. So without such a time the
-- sides never talk at once: where one has a signal, the other has none, and none is on the way.
pub Steps-signals :
    (client_real client_fake server_real server_fake : ℕ) {s : System} {xs ys : Bytes} {n : ℕ}
    → Steps (new_system client_real client_fake server_real server_fake) xs ys n s
    → signals s ≡ 1 + n
Steps-signals cr cf sr sf done = refl
Steps-signals cr cf sr sf (after steps step) =
    omega (arith, Step-signals step, Steps-signals cr cf sr sf steps)
