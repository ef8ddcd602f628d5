-- ===== src/Wfgan/Switch.antt =====
-- transports/wfgan/packet.go: the switch of the receiving side.
use wfdef.Prelude.{
  ℕ, ◌+◌, ◌*◌, not, none, List, [], ◌∷◌, ◌++◌, Bytes, length, ltb, ◌==◌, if◌then◌else◌, arith,
}
use wfdef.Defconn.State.{start, stop, is_start, is_stop, set_state}
use wfdef.Defconn.PacketType
use wfdef.Defconn.Receive.{goes, panics, on_payload, on_prng_seed, Switch}
use wfdef.Defconn.Receive.Local.{IsLocal}

-- What a `wfganConn` adds: the probability, how often it was drawn, and what is in `canSendChan`.
pub record Extra (P : Type 0) : Type 0 where
  pub random_p : P
  pub draws : ℕ
  pub can_send_chan : List ℕ

abbrev pub uint32 : Bytes → ℕ
uint32 (a ∷ b ∷ c ∷ d ∷ r) = ((a * 256 + b) * 256 + c) * 256 + d
uint32 _ = 0

-- `beta k` is the k-th number that `utils.Beta` gives.
module _ {P : Type 0} (beta : ℕ → P) where
  abbrev pub draw : Extra P → Extra P
  draw x = record x { random_p = beta x.draws; draws = x.draws + 1 }

  unfoldable pub switch : Switch (Extra P)
  unfolding on_payload on_prng_seed
  switch l pkt_type payload pkt =
      if pkt_type == PacketType.payload
      then goes (on_payload (not l.is_server) l payload) none
      else if pkt_type == PacketType.prng_seed
      then on_prng_seed l payload
      else if pkt_type == PacketType.signal_start
      then (if not l.is_server
          then panics
          else if not (is_start l.conn_state.cur_state)
          then goes (record l { extra = draw l.extra; conn_state = set_state l.conn_state start })
              none
          else goes l none)
      else if pkt_type == PacketType.signal_stop
      then (if not l.is_server
          then panics
          else if not (is_stop l.conn_state.cur_state)
          then goes (record l { conn_state = set_state l.conn_state stop }) none
          else goes l none)
      else if pkt_type == PacketType.finish
      then (if not l.is_server
          then panics
          else if ltb (length payload) 4
          then panics
          else goes
              (record l {
                extra = record l.extra {
                  can_send_chan = l.extra.can_send_chan ++ (uint32 payload ∷ []);
                };
              })
              none)
      else goes l none

  pub wfgan_switch-IsLocal : IsLocal switch
  unfolding switch
  wfgan_switch-IsLocal = record {
    keeps = λ l t payload pkt. ground arith;
    ignores = λ l t payload pkt bs. ground arith;
  }
