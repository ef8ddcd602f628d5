-- ===== src/Defconn/Receive.antt =====
-- The receiving side: the loop of `ReadPackets`, over the switch of a transport, and the switch of
-- defconn itself. transports/front, wfgan and regulator copy the loop with switches of their own.

pub mod Local
pub mod Total
pub mod Chunks
use wfdef.Prelude.{
  ℕ, zero, suc, ◌+◌, ◌≡◌, Bool, true, false, ◌&&◌, not, Option, none, some, [], ◌∷◌, ◌++◌, Bytes,
  length, ltb, ◌==◌, if◌then◌else◌, Result, ok, err,
}
use wfdef.Drbg.{Sip, seed_from_bytes}
use wfdef.Framing.{Box, Decoder, FramingError, again, decode}
use wfdef.Defconn.State.{
  Phase, start, stop, State, is_start, is_stop, set_state, Counters, increment_rcv,
}
use wfdef.Defconn.PacketType
use wfdef.Defconn.Packet.{
  PacketError, framing, seed, read_error, parse_packet, seed_packet_payload_length,
}

-- What `ReadPackets` touches of a `DefConn`. `len_seed` stands for `LenDist`, which is a function of
-- the seed that it was last reset with; `extra` is what a transport adds.
pub record Link {ℓ} (X : Type ℓ) : Type ℓ where
  pub is_server : Bool
  pub len_seed : Bytes
  pub counters : Counters
  pub conn_state : State
  pub receive_buffer : Bytes
  pub receive_decoded_buffer : Bytes
  pub decoder : Decoder
  pub extra : X

-- What the switch makes of a packet: a new link, with the error that it leaves in `err`, or a panic.
pub data Handled {ℓ} (X : Type ℓ) : Type ℓ where
  goes : Link X → Option PacketError → Handled X
  panics : Handled X

-- The switch on the packet type. Its arguments are the type, the payload and the whole packet.
abbrev pub Switch {ℓ} : Type ℓ → Type ℓ
Switch X = Link X → ℕ → Bytes → Bytes → Handled X

-- What one round of the loop comes to: a `break` with `err`, another round, or a panic.
pub data Round {ℓ} (X : Type ℓ) : Type ℓ where
  breaks : Link X → PacketError → Round X
  continues : Link X → Option PacketError → Round X
  faults : Round X

abbrev pub act {ℓ} : {X : Type ℓ} → Handled X → Round X
act (goes l e) = continues l e
act panics = faults

-- The end of the loop. `out_of_fuel` is not an end of the code's loop: see `Receive.Total`.
pub data Ran {ℓ} (X : Type ℓ) : Type ℓ where
  returns : Link X → Option PacketError → Ran X
  panicked : Ran X
  out_of_fuel : Ran X

abbrev pub run_round {ℓ} : {X : Type ℓ} → (Link X → Option PacketError → Ran X) → Round X → Ran X
run_round go_on (breaks l e) = returns l (some e)
run_round go_on (continues l e) = go_on l e
run_round go_on faults = panicked

-- read errors take priority over frame processing errors
unfoldable pub with_read_error {ℓ} : {X : Type ℓ} → Option ℕ → Ran X → Ran X
with_read_error rd_err (returns l e) =
    returns l (elim rd_err [ none ↦ e | some n ↦ some (read_error n) ])
with_read_error rd_err panicked = panicked
with_read_error rd_err out_of_fuel = out_of_fuel

module _ {ℓ} {X : Type ℓ} where
  -- `case PacketTypePayload`, which some transports do on the client only
  unfoldable pub on_payload : Bool → Link X → Bytes → Link X
  on_payload counts l payload =
      if ltb 0 (length payload)
      then record l {
        receive_decoded_buffer = l.receive_decoded_buffer ++ payload;
        counters = if counts then increment_rcv l.counters else l.counters;
      }
      else l

  -- `case PacketTypePrngSeed`, the same in every transport
  unfoldable pub on_prng_seed : Link X → Bytes → Handled X
  on_prng_seed l payload =
      if (length payload == seed_packet_payload_length) && not l.is_server
      then elim (seed_from_bytes payload) [
        | ok new ↦ goes (record l { len_seed = new }) none
        | err e ↦ goes l (some (seed e))
      ]
      else goes l none

  -- The switch of transports/defconn/packet.go.
  unfoldable pub switch : Switch X
  unfolding on_payload on_prng_seed
  switch l pkt_type payload pkt =
      if pkt_type == PacketType.payload
      then goes (on_payload true l payload) none
      else if pkt_type == PacketType.prng_seed
      then on_prng_seed l payload
      else if pkt_type == PacketType.signal_start
      then (if not l.is_server
          then panics
          else if not (is_start l.conn_state.cur_state)
          then goes (record l { conn_state = set_state l.conn_state start }) none
          else goes l none)
      else if pkt_type == PacketType.signal_stop
      then (if not l.is_server
          then panics
          else if not (is_stop l.conn_state.cur_state)
          then goes (record l { conn_state = set_state l.conn_state stop }) none
          else goes l none)
      else goes l none

module _ {ℓ} {X : Type ℓ} (s : Sip) (b : Box) (sw : Switch X) (intn : ℕ → ℕ) where
  -- A decoded packet goes through the length checks and the switch.
  pub dispatch_parsed : Link X → Bytes → Result PacketError (ℕ × Bytes) → Round X
  dispatch_parsed l pkt (err e) = breaks l e
  dispatch_parsed l pkt (ok (pkt_type, payload)) = act (sw l pkt_type payload pkt)

  unfoldable pub dispatch : Link X → Bytes → Round X
  unfolding dispatch_parsed
  dispatch l pkt = dispatch_parsed l pkt (parse_packet pkt)

  pub after_decode : Link X → Decoder × Bytes × Result FramingError Bytes → Round X
  after_decode l (decoder, rest, err e) =
      breaks (record l { decoder = decoder; receive_buffer = rest }) (framing e)
  after_decode l (decoder, rest, ok pkt) =
      dispatch (record l { decoder = decoder; receive_buffer = rest }) pkt

  unfoldable pub round : Link X → Round X
  unfolding after_decode
  round l = after_decode l (decode s b intn l.decoder l.receive_buffer)

  -- `for conn.ReceiveBuffer.Len() > 0`; `last` is the variable `err`
  unfoldable pub process : ℕ → Link X → Option PacketError → Ran X
  process zero l last = out_of_fuel
  process (suc fuel) l last = elim (ltb 0 (length l.receive_buffer)) [
    | false ↦ returns l last
    | true ↦ run_round (process fuel) (round l)
  ]

  -- `ReadPackets`, after a read of the network that gave `got` and, perhaps, an error.
  unfoldable pub read_packets : Link X → Bytes → Option ℕ → Ran X
  unfolding with_read_error
  read_packets l got rd_err =
      let l' = record l { receive_buffer = l.receive_buffer ++ got } in
      with_read_error rd_err (process (suc (length l'.receive_buffer)) l' none)
