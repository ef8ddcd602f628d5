-- ===== src/Regulator/Packet.antt =====
-- transports/regulator/packet.go: packets that carry the start of a surge behind their payload, and
-- the switch of the receiving side.
use wfdef.Prelude.{
  ℕ, ◌+◌, ◌*◌, ◌/◌, ◌%◌, ◌^◌, Bool, true, false, not, ◌&&◌, Option, none, some, List, [], ◌∷◌, ◌++◌,
  Bytes, length, drop, replicate, ltb, ◌==◌, if◌then◌else◌, Result, put_uint16, put_uint64,
}
use wfdef.Drbg.{Sip}
use wfdef.Framing.{Box, Encoder, FramingError, maximum_segment_length, encode}
use wfdef.Defconn.PacketType
use wfdef.Defconn.Packet.{max_packet_payload_length, packet_overhead}
use wfdef.Defconn.Receive.{Link, Switch, Handled, goes, panics, on_payload, on_prng_seed}

abbrev pub regulator_overhead : ℕ
regulator_overhead = 8

pub record PacketInfo : Type 0 where
  pub pkt_type : ℕ
  pub t0 : ℕ
  pub body : Bytes
  pub pad_len : ℕ

abbrev pub put_uint32 : ℕ → Bytes
put_uint32 n = (n / 2 ^ 24 % 256) ∷ (n / 2 ^ 16 % 256) ∷ (n / 2 ^ 8 % 256) ∷ (n % 256) ∷ []

abbrev pub uint64 : Bytes → ℕ
uint64 (a ∷ b ∷ c ∷ d ∷ e ∷ f ∷ g ∷ h ∷ r) =
    ((((((a * 256 + b) * 256 + c) * 256 + d) * 256 + e) * 256 + f) * 256 + g) * 256 + h
uint64 _ = 0

-- type, length of the payload, payload, start of the surge, padding
unfoldable pub packet_bytes : PacketInfo → Bytes
packet_bytes p =
    p.pkt_type
    ∷ (put_uint16 (length p.body % 2 ^ 16)
        ++ (p.body ++ (put_uint64 p.t0 ++ replicate p.pad_len 0)))

module _ (s : Sip) (b : Box) where
  -- `MakePacket` into a buffer; `none` is the panic.
  unfoldable pub make_packet : Encoder → PacketInfo → Option (Encoder × Result FramingError Bytes)
  make_packet e p =
      if ltb (max_packet_payload_length + regulator_overhead) (length p.body + p.pad_len)
      then none
      else some (encode s b e maximum_segment_length (packet_bytes p))

-- What a `regulatorConn` adds to a `DefConn`: the start of the surge that the client knows, and what
-- was put into `paddingChan`.
pub record Extra : Type 0 where
  pub t0 : ℕ
  pub padding_chan : List Bool

abbrev pub with_t0 : Link Extra → ℕ → Link Extra
with_t0 l t0 = record l { extra = record { t0 = t0; padding_chan = l.extra.padding_chan } }

abbrev pub signals : Link Extra → Bool → Link Extra
signals l on = record l {
  extra = record { t0 = l.extra.t0; padding_chan = l.extra.padding_chan ++ (on ∷ []) };
}

-- The cases of the switch.
unfoldable pub on_packet : Link Extra → ℕ → Bytes → ℕ → Handled Extra
on_packet l pkt_type payload t0 =
    if pkt_type == PacketType.payload
    then (let l' = on_payload (not l.is_server) l payload in
        if ltb 0 (length payload) && not l.is_server
        then goes (with_t0 l' t0) none
        else goes l' none)
    else if pkt_type == PacketType.prng_seed
    then on_prng_seed l payload
    else if pkt_type == PacketType.signal_start
    then (if not l.is_server then panics else goes (signals l true) none)
    else if pkt_type == PacketType.signal_stop
    then (if not l.is_server then panics else goes (signals l false) none)
    else if pkt_type == PacketType.dummy
    then (if not l.is_server
        then (if ltb (length payload) 8
            then panics
            else if ltb l.extra.t0 t0
            then goes (with_t0 l t0) none
            else goes l none)
        else goes l none)
    else goes l none

-- The switch, behind the read of `t0`, which panics on a packet that is too short.
unfoldable pub switch : Switch Extra
unfolding on_packet
switch l pkt_type payload pkt =
    let tail = drop (packet_overhead + length payload) pkt in
    if ltb (length tail) 8 then panics else on_packet l pkt_type payload (uint64 tail)
