-- ===== src/Defconn/Read.antt =====
-- transports/defconn/defconn.go: `Read`, and `MyRead`, which is `Read` with the `readPackets` of a
-- transport. The network is a list of what its reads give: data and, perhaps, an error.
pub mod Delivers
use wfdef.Prelude.{
  ℕ, ◌≡◌, Bool, true, false, Option, none, some, List, [], ◌∷◌, Bytes, length, take, drop, ltb,
}
use wfdef.Drbg.{Sip}
use wfdef.Framing.{Box, again}
use wfdef.Defconn.Packet.{
  PacketError, framing, read_error, invalid_packet_length, invalid_payload_length,
}
use wfdef.Defconn.Receive.{Link, Switch, Ran, returns, read_packets}
use wfdef.Defconn.Receive as Receive

-- What the loop comes to: it has data or an error, the network has given all that it does, or the
-- switch has panicked.
pub data Looped {ℓ} (X : Type ℓ) : Type ℓ where
  ready : Link X → Option PacketError → List (Bytes × Option ℕ) → Looped X
  blocked : Link X → Looped X
  panicked : Looped X

-- What `Read` gives: the data, the error, and the link and the network behind it.
pub data Gave {ℓ} (X : Type ℓ) : Type ℓ where
  gave : Bytes → Option PacketError → Link X → List (Bytes × Option ℕ) → Gave X
  waits : Link X → Gave X
  faults : Gave X

-- `framing.ErrAgain` is no error here.
abbrev pub fatal : Option PacketError → Option PacketError
fatal none = none
fatal (some (framing again)) = none
fatal (some e) = some e

module _ {ℓ} {X : Type ℓ} where
  abbrev pub go_on_or_stop :
      Link X → List (Bytes × Option ℕ) → Looped X → Option PacketError → Looped X
  go_on_or_stop l net rest none = rest
  go_on_or_stop l net rest (some e) = ready l (some e) net

  -- `ReadPackets` has enough fuel (`Receive.Total`).
  abbrev pub after_packets : List (Bytes × Option ℕ) → (Link X → Looped X) → Ran X → Looped X
  after_packets net go_on (returns l e) = go_on_or_stop l net (go_on l) (fatal e)
  after_packets net go_on Receive.panicked = panicked
  after_packets net go_on Receive.out_of_fuel = panicked

  module _ (s : Sip) (b : Box) (sw : Switch X) (intn : ℕ → ℕ) where
    -- `for conn.ReceiveDecodedBuffer.Len() == 0`
    unfoldable pub read_loop : Link X → List (Bytes × Option ℕ) → Looped X
    read_loop l [] = elim (ltb 0 (length l.receive_decoded_buffer)) [
      | true ↦ ready l none []
      | false ↦ blocked l
    ]
    read_loop l ((got, rd_err) ∷ net) = elim (ltb 0 (length l.receive_decoded_buffer)) [
      | true ↦ ready l none ((got, rd_err) ∷ net)
      | false ↦ after_packets net (λ l'. read_loop l' net) (read_packets s b sw intn l got rd_err)
    ]

  -- `ReceiveDecodedBuffer.Read` into `size` bytes, also when there is an error.
  abbrev pub relay : ℕ → Looped X → Gave X
  relay size (ready l e net) =
      gave (take size l.receive_decoded_buffer) e
        (record l { receive_decoded_buffer = drop size l.receive_decoded_buffer }) net
  relay size (blocked l) = waits l
  relay size panicked = faults

  module _ (s : Sip) (b : Box) (sw : Switch X) (intn : ℕ → ℕ) where
    unfoldable pub read : ℕ → Link X → List (Bytes × Option ℕ) → Gave X
    read size l net = relay size (read_loop s b sw intn l net)
