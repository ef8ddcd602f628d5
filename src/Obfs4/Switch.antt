-- ===== src/Obfs4/Switch.antt =====
-- transports/obfs4/packet.go: the switch of the receiving side, over the loop of Defconn.Receive, of
-- which `readPackets` is the original. An obfs4 connection has no counters and no state.
use wfdef.Prelude.{
  ℕ, false, not, ◌&&◌, Option, none, some, Bytes, length, ◌==◌, if◌then◌else◌, Result, ok, err,
  arith,
}
use wfdef.Drbg.{SeedError, seed_from_bytes}
use wfdef.Defconn.Packet.{seed, seed_packet_payload_length}
use wfdef.Defconn.Receive.{goes, on_payload, Switch}
use wfdef.Defconn.Receive.Local.{IsLocal}
use wfdef.Obfs4.{packet_type_payload}

abbrev pub packet_type_prng_seed : ℕ
packet_type_prng_seed = 1

-- The seed of `iatDist`, if the connection has one.
abbrev pub iat_reseed : Option Bytes → Result SeedError Bytes → Option Bytes
iat_reseed none r = none
iat_reseed (some old) (ok new) = some new
iat_reseed (some old) (err e) = some old

-- `sum256` is SHA-256.
module _ (sum256 : Bytes → Bytes) where
  unfoldable pub switch : Switch (Option Bytes)
  unfolding on_payload
  switch l pkt_type payload pkt =
      if pkt_type == packet_type_payload
      then goes (on_payload false l payload) none
      else if (pkt_type == packet_type_prng_seed)
          && ((length payload == seed_packet_payload_length) && not l.is_server)
      then elim (seed_from_bytes payload) [
        | ok new ↦
            goes
              (record l {
                len_seed = new;
                extra = iat_reseed l.extra (seed_from_bytes (sum256 new));
              })
              none
        | err e ↦ goes l (some (seed e))
      ]
      else goes l none

  pub obfs4_switch-IsLocal : IsLocal switch
  unfolding switch
  obfs4_switch-IsLocal = record {
    keeps = λ l t payload pkt. ground arith;
    ignores = λ l t payload pkt bs. ground arith;
  }
