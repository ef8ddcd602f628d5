-- ===== src/Randomwt.antt =====
-- transports/randomwt: the talk of client and server in turns, by randomwt.go with its routines, the
-- switch of packet.go and the states of state.go. A side ends when a read of its upstream fails or
-- the other side has torn down; the runs here go on until then. The read and the draws of a burst
-- are one step. `canSendChan` holds one signal in the code, and a routine with another waits; here it
-- takes every signal at once, so that the runs of the code are among the runs here.
pub mod PacketType
pub mod Signals
pub mod Turns
pub mod Carries
pub mod Delivery
use wfdef.Prelude.{
  ℕ, zero, suc, ◌+◌, ◌-◌, ◌≤◌, ◌<◌, ◌≡◌, ◌≢◌, Bool, true, false, not, ◌&&◌, Option, none, some,
  List, [], ◌∷◌, ◌++◌, Bytes, length, take, drop, ltb, leb, ◌==◌, replicate, if◌then◌else◌,
}
use wfdef.Defconn.Packet.{PacketInfo}
use wfdef.Randomwt.PacketType

abbrev pub max_packet_payload_length : ℕ
max_packet_payload_length = 536

abbrev pub max_packet_padding_length : ℕ
max_packet_padding_length = max_packet_payload_length

pub data Phase : Type 0 where
  start stop start_ready : Phase

pub data Signal : Type 0 where
  real dummy tear_down : Signal

abbrev pub is_start : Phase → Bool
is_start start = true
is_start _ = false

abbrev pub is_stop : Phase → Bool
is_stop stop = true
is_stop _ = false

-- What `r.Read` gives before its deadline.
pub data ReadResult : Type 0 where
  got : Bytes → ReadResult
  timed_out : ReadResult
  failed : ReadResult

-- One side. `out` are the packets in `writeChan` and on the wire, until the other side has them;
-- `received` is all that was decoded; `fake_turn` is `isFakeTurn`.
pub record End : Type 0 where
  pub is_server : Bool
  pub n_real : ℕ
  pub n_fake : ℕ
  pub phase : Phase
  pub can_send : List Signal
  pub fake_turn : Bool
  pub real_n_seg : ℕ
  pub out : List PacketInfo
  pub received : Bytes

abbrev pub signal : ℕ → PacketInfo
signal t = record { pkt_type = t; body = []; pad_len = max_packet_padding_length }

abbrev pub put : End → PacketInfo → End
put e p = record e { out = e.out ++ (p ∷ []) }

-- `sampleDummyBurst`; `uniform n` is what `utils.Uniform(0, n)` gives.
unfoldable pub sample_dummy_burst : (ℕ → ℕ) → ℕ → End → End
sample_dummy_burst uniform n e =
    if is_stop e.phase
    then e
    else record e { out = e.out ++ replicate (uniform n) (signal PacketType.dummy) }

-- The packets of a real burst. A round takes at least a byte, so the length is enough fuel.
unfoldable pub chop : ℕ → Bytes → List PacketInfo
chop zero bs = []
chop (suc fuel) [] = []
chop (suc fuel) (c ∷ bs) =
    let body = take max_packet_payload_length (c ∷ bs) in
    record {
      pkt_type = PacketType.payload;
      body = body;
      pad_len = max_packet_padding_length - length body;
    }
    ∷ chop fuel (drop max_packet_payload_length (c ∷ bs))

-- The state that a read of `n` bytes leads to.
abbrev pub next_phase : Phase → ℕ → Phase
next_phase stop n = if leb n max_packet_payload_length then start_ready else start
next_phase start_ready n = start
next_phase start n = start

abbrev pub moved : End → Bytes → End
moved e bs =
    if not e.is_server
    then (let next = next_phase e.phase (length bs) in
        record (if is_start next && not (is_start e.phase)
          then put e (signal PacketType.signal_start)
          else e) { phase = next })
    else e

-- `padRealBurst`, with what it read; `none` is an error.
unfoldable pub pad_real_burst : End → ReadResult → (ℕ → ℕ) → Option (End × Bytes)
pad_real_burst e (got bs) uniform =
    let e' = moved e bs in
    some (
      put (sample_dummy_burst uniform e.n_real (record e' { out = e'.out ++ chop (length bs) bs }))
          (signal PacketType.real_finish),
      bs,
    )
pad_real_burst e timed_out uniform =
    some (put (sample_dummy_burst uniform e.n_fake e) (signal PacketType.real_finish), [])
pad_real_burst e failed uniform = none

-- `clientTalkie`; `should_fake` is the Bernoulli draw.
unfoldable pub client_talkie : End → Bool → ReadResult → (ℕ → ℕ) → Option (End × Bytes)
client_talkie e should_fake r uniform =
    if not (is_stop e.phase) && e.fake_turn
    then (if should_fake
        then some (put (sample_dummy_burst uniform e.n_fake e) (signal PacketType.fake_finish), [])
        else some (record e { can_send = e.can_send ++ (real ∷ []) }, []))
    else pad_real_burst e r uniform

-- `serverTalkie`
unfoldable pub server_talkie : End → Signal → ReadResult → (ℕ → ℕ) → Option (End × Bytes)
server_talkie e dummy r uniform =
    some (put (sample_dummy_burst uniform e.n_fake e) (signal PacketType.fake_finish), [])
server_talkie e real r uniform = pad_real_burst e r uniform
server_talkie e tear_down r uniform = none

-- The turns of the client.
abbrev pub flip : Option (End × Bytes) → Option (End × Bytes)
flip none = none
flip (some (e, bs)) = some (record e { fake_turn = not e.fake_turn }, bs)

-- A signal from `canSendChan`, `rest` behind it. A teardown ends the side.
unfoldable pub talk :
    End → Signal → List Signal → Bool → ReadResult → (ℕ → ℕ) → Option (End × Bytes)
talk e tear_down rest should_fake r uniform = none
talk e s rest should_fake r uniform =
    if not e.is_server
    then flip (client_talkie (record e { can_send = rest }) should_fake r uniform)
    else server_talkie (record e { can_send = rest }) s r uniform

-- The switch of `readPackets`; `none` is a panic. The seed of the lengths is left out.
unfoldable pub receive : End → PacketInfo → Option End
receive e p =
    if p.pkt_type == PacketType.payload
    then some (record e { received = e.received ++ p.body })
    else if p.pkt_type == PacketType.real_finish
    then some (record e { can_send = e.can_send ++ (real ∷ []) })
    else if p.pkt_type == PacketType.fake_finish
    then some (record e { can_send = e.can_send ++ (dummy ∷ []) })
    else if p.pkt_type == PacketType.tear_down
    then some (record e { can_send = e.can_send ++ (tear_down ∷ []) })
    else if p.pkt_type == PacketType.signal_start
    then (if not e.is_server then none else some (record e { phase = start }))
    else if p.pkt_type == PacketType.signal_stop
    then (if not e.is_server then none else some (record e { phase = stop }))
    else some e

-- The send routine takes a packet, `rest` behind it.
unfoldable pub sends : End → PacketInfo → List PacketInfo → End
sends e p rest = record e {
  out = rest;
  real_n_seg = if p.pkt_type == PacketType.payload then e.real_n_seg + 1 else e.real_n_seg;
}

-- The ticker.
unfoldable pub on_tick : End → End
on_tick e =
    if not e.is_server && (not (is_stop e.phase) && ltb e.real_n_seg 2)
    then record (put e (signal PacketType.signal_stop)) { phase = stop; real_n_seg = 0 }
    else record e { real_n_seg = 0 }

-- `isAliveTimer` has run out.
unfoldable pub on_alive : End → End
on_alive e = put e (signal PacketType.real_finish)

pub record System : Type 0 where
  pub client : End
  pub server : End

-- One step. The indices are what the client and the server read from upstream, and how often a timer
-- ran out.
pub data Step : System → Bytes → Bytes → ℕ → System → Type 0 where
  client_talks :
      {s : System} {e : End} {xs : Bytes} (sig : Signal) (rest : List Signal) (should_fake : Bool)
      (r : ReadResult) (uniform : ℕ → ℕ)
      → s.client.can_send ≡ sig ∷ rest
      → talk s.client sig rest should_fake r uniform ≡ some (e, xs)
      → Step s xs [] 0 (record s { client = e })
  server_talks :
      {s : System} {e : End} {ys : Bytes} (sig : Signal) (rest : List Signal) (should_fake : Bool)
      (r : ReadResult) (uniform : ℕ → ℕ)
      → s.server.can_send ≡ sig ∷ rest
      → talk s.server sig rest should_fake r uniform ≡ some (e, ys)
      → Step s [] ys 0 (record s { server = e })
  to_server :
      {s : System} {e : End} (p : PacketInfo) (rest : List PacketInfo)
      → s.client.out ≡ p ∷ rest
      → receive s.server p ≡ some e
      → Step s [] [] 0 (record { client = sends s.client p rest; server = e })
  to_client :
      {s : System} {e : End} (p : PacketInfo) (rest : List PacketInfo)
      → s.server.out ≡ p ∷ rest
      → receive s.client p ≡ some e
      → Step s [] [] 0 (record { client = e; server = sends s.server p rest })
  client_ticks : {s : System} → Step s [] [] 0 (record s { client = on_tick s.client })
  server_ticks : {s : System} → Step s [] [] 0 (record s { server = on_tick s.server })
  client_alive : {s : System} → Step s [] [] 1 (record s { client = on_alive s.client })
  server_alive : {s : System} → Step s [] [] 1 (record s { server = on_alive s.server })

pub data Steps : System → Bytes → Bytes → ℕ → System → Type 0 where
  done : {s : System} → Steps s [] [] 0 s
  after :
      {s s' s'' : System} {xs ys xs' ys' : Bytes} {m n : ℕ}
      → Steps s xs ys m s'
      → Step s' xs' ys' n s''
      → Steps s (xs ++ xs') (ys ++ ys') (m + n) s''

abbrev pub new_end : Bool → ℕ → ℕ → List Signal → End
new_end is_server n_real n_fake can_send = record {
  is_server = is_server;
  n_real = n_real;
  n_fake = n_fake;
  phase = stop;
  can_send = can_send;
  fake_turn = false;
  real_n_seg = 0;
  out = [];
  received = [];
}

-- The client has put a first signal into its own channel.
abbrev pub new_system : ℕ → ℕ → ℕ → ℕ → System
new_system client_real client_fake server_real server_fake = record {
  client = new_end false client_real client_fake (real ∷ []);
  server = new_end true server_real server_fake [];
}
