-- ===== src/Wfgan/Turns/Takes.antt =====
-- What the server does to the signals in its channel.
use mathlib.Core.Path.{subst}
use wfdef.Prelude.{
  ℕ, ◌≡◌, refl, sym, ◌∙◌, Bool, true, false, not, ◌&&◌, Bool-cases, inl, inr, none, some, List, [],
  ◌∷◌, ◌++◌, append-nil, Bytes, length, ltb, ◌==◌, if◌then◌else◌, arith, Result, ok, err,
}
use wfdef.Drbg.{SeedError, seed_from_bytes}
use wfdef.Defconn.State.{is_start, is_stop}
use wfdef.Defconn.PacketType
use wfdef.Defconn.Packet.{PacketInfo, seed, seed_packet_payload_length}
use wfdef.Defconn.Receive.{Link, Handled, goes, panics, on_payload, on_prng_seed}
use wfdef.Wfgan.Switch.{Extra, switch}
use wfdef.Wfgan.Turns.{Server, with_signals, detect, handled, take_packet}
use wfdef.Wfgan.Turns.Asks.{asked, positive, positive-append}

module _ {P : Type 0} where
  abbrev pub signals_of : Server P → List ℕ
  signals_of s = s.link.extra.can_send_chan

  abbrev Takes : Link (Extra P) → PacketInfo → Handled (Extra P) → Type 0
  Takes l p (goes l' e) = l'.extra.can_send_chan ≡ l.extra.can_send_chan ++ asked (p ∷ [])
  Takes l p panics = Unit

  pub detect-signals : (s : Server P) → positive (signals_of (detect s)) ≡ positive (signals_of s)
  unfolding detect
  detect-signals s = by_test (is_stop s.link.conn_state.cur_state)
    where
      by_test :
          (stopped : Bool)
          → positive (signals_of (if stopped then with_signals s (signals_of s ++ (0 ∷ [])) else s))
            ≡ positive (signals_of s)
      by_test true = positive-append (signals_of s) (0 ∷ []) ∙ append-nil (positive (signals_of s))
      by_test false = refl

module _ {P : Type 0} (beta : ℕ → P) where
  on_prng_seed-Takes :
      (l : Link (Extra P)) (p : PacketInfo)
      → p.pkt_type == PacketType.finish ≡ false
      → Takes l p (on_prng_seed l p.body)
  unfolding on_prng_seed
  on_prng_seed-Takes l p other =
      by_tests ((length p.body == seed_packet_payload_length) && not l.is_server)
        (seed_from_bytes p.body)
    where
      nothing : l.extra.can_send_chan ≡ l.extra.can_send_chan ++ asked (p ∷ [])
      nothing = rw other (sym (append-nil l.extra.can_send_chan))

      by_tests :
          (mine : Bool) (r : Result SeedError Bytes)
          → Takes l p (
              if mine
              then elim r [
                | ok new ↦ goes (record l { len_seed = new }) none
                | err e ↦ goes l (some (seed e))
              ]
              else goes l none)
      by_tests true (ok new) = nothing
      by_tests true (err e) = nothing
      by_tests false r = nothing

  Takes-if :
      (l : Link (Extra P)) (p : PacketInfo) (b : Bool) (h k : Handled (Extra P))
      → Takes l p h
      → Takes l p k
      → Takes l p (if b then h else k)
  Takes-if l p true h k x y = x
  Takes-if l p false h k x y = y

  on_payload-signals :
      (counts : Bool) (l : Link (Extra P)) (bs : Bytes)
      → (on_payload counts l bs).extra.can_send_chan ≡ l.extra.can_send_chan
  unfolding on_payload
  on_payload-signals counts l bs = ground arith

  finish-Takes :
      (l : Link (Extra P)) (p : PacketInfo)
      → p.pkt_type ≡ 5
      → Takes l p (switch beta l p.pkt_type p.body [])
  unfolding switch
  finish-Takes l p eq =
      let q = record p { pkt_type = 5 } in
      rw eq
        (Takes-if l q (not l.is_server) _ _ tt (Takes-if l q (ltb (length p.body) 4) _ _ tt refl))

  other-Takes :
      (l : Link (Extra P)) (p : PacketInfo)
      → p.pkt_type == PacketType.finish ≡ false
      → Takes l p (switch beta l p.pkt_type p.body [])
  unfolding switch
  other-Takes l p other =
      let nothing : l.extra.can_send_chan ≡ l.extra.can_send_chan ++ asked (p ∷ []) =
        rw other (sym (append-nil l.extra.can_send_chan)) in
      Takes-if l p (p.pkt_type == PacketType.payload) _ _
        (on_payload-signals (not l.is_server) l p.body ∙ nothing)
        (Takes-if l p (p.pkt_type == PacketType.prng_seed) _ _ (on_prng_seed-Takes l p other) (
          Takes-if l p (p.pkt_type == PacketType.signal_start) _ _
            (Takes-if l p (not l.is_server) _ _ tt
              (Takes-if l p (not (is_start l.conn_state.cur_state)) _ _ nothing nothing))
            (Takes-if l p (p.pkt_type == PacketType.signal_stop) _ _
              (Takes-if l p (not l.is_server) _ _ tt
                (Takes-if l p (not (is_stop l.conn_state.cur_state)) _ _ nothing nothing))
              (rw other nothing))))

  switch-Takes :
      (l : Link (Extra P)) (p : PacketInfo) → Takes l p (switch beta l p.pkt_type p.body [])
  switch-Takes l p = elim (Bool-cases (p.pkt_type == PacketType.finish)) [
    | inl is_finish ↦ finish-Takes l p (ground arith)
    | inr other ↦ other-Takes l p other
  ]

  handled-signals :
      (s s' : Server P) (p : PacketInfo) (h : Handled (Extra P))
      → Takes s.link p h
      → handled s h ≡ some s'
      → signals_of s' ≡ signals_of s ++ asked (p ∷ [])
  handled-signals s s' p (goes l e) takes eq =
      let same : record s { link = l } ≡ s' = cc in
      subst (λ r. signals_of r ≡ signals_of s ++ asked (p ∷ [])) same takes
  handled-signals s s' p panics takes eq = cc

  pub take_packet-signals :
      (s s' : Server P) (p : PacketInfo)
      → take_packet beta s p ≡ some s'
      → signals_of s' ≡ signals_of s ++ asked (p ∷ [])
  unfolding take_packet
  take_packet-signals s s' p eq =
      handled-signals s s' p (switch beta s.link p.pkt_type p.body []) (switch-Takes s.link p) eq
