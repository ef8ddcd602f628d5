-- ===== src/Defconn/Connect.antt =====
-- transports/defconn/defconn.go: `clientHandshake` and `serverHandshake`, which read until the
-- handshake is complete and set up the link framing. The network is a list of what the reads give;
-- its end is an error of `Read`. Writing does not fail, and the deadlines are left out.
pub mod Waits
pub mod Completes
pub mod Keys
use wfdef.Prelude.{
  ℕ, ◌+◌, ◌-◌, ◌*◌, Bool, true, false, Option, none, some, List, [], ◌∷◌, ◌++◌, Bytes, length, take,
  drop, if◌then◌else◌, Result, ok, err,
}
use wfdef.Drbg.{Sip}
use wfdef.Ntor.{Curve, Hashes}
use wfdef.ReplayFilter.{ReplayFilter}
use wfdef.Framing.{Box, Encoder, Decoder, FramingError, key_length, new_encoder, new_decoder}
use wfdef.Defconn.PacketType
use wfdef.Defconn.Packet.{PacketInfo, max_packet_payload_length, make_packet}
use wfdef.Defconn.Handshake.{
  HandshakeError, mark_not_found_yet, ClientHandshake, ServerHandshake, server_generate,
}
use wfdef.Defconn.Handshake.Parse.{Parsed, parse_client_handshake, parse_server_handshake}

-- How a loop over reads ends: with what it makes of the data, what is left in `ReceiveBuffer` and the
-- reads still to come; with an error of the handshake or of the network; or with a panic.
pub data Ended {ℓ} (A : Type ℓ) : Type ℓ where
  established : A → Bytes → List Bytes → Ended A
  failed : HandshakeError → Ended A
  closed : Ended A
  panicked : Ended A

abbrev pub is_yet : HandshakeError → Bool
is_yet mark_not_found_yet = true
is_yet _ = false

-- `framing.NewEncoder` and `NewDecoder` panic on a key of another length.
abbrev pub both : Option Encoder → Option Decoder → Option (Encoder × Decoder)
both none d = none
both (some e) none = none
both (some e) (some d) = some (e, d)

-- The link crypto from `okm`, on the client and on the server.
abbrev pub client_keys : Bytes → Option (Encoder × Decoder)
client_keys okm = both (new_encoder (take key_length okm)) (new_decoder (drop key_length okm))

abbrev pub server_keys : Bytes → Option (Encoder × Decoder)
server_keys okm = both (new_encoder (drop key_length okm)) (new_decoder (take key_length okm))

-- What the client's loop does with what it parsed, when `buf` is in `ReceiveBuffer`.
abbrev pub after_client :
    (ClientHandshake → Ended Bytes)
    → Bytes
    → List Bytes
    → ClientHandshake × Option (Result HandshakeError (ℕ × Bytes))
    → Ended Bytes
after_client go_on buf reads (hs, none) = panicked
after_client go_on buf reads (hs, some (err e)) = if is_yet e then go_on hs else failed e
after_client go_on buf reads (hs, some (ok (n, seed))) = established seed (drop n buf) reads

-- What the server has at the end: its handshake, the filter and the key seed.
abbrev pub Served : Type 0
Served = ServerHandshake × ReplayFilter × Bytes

abbrev pub after_server :
    (ServerHandshake → ReplayFilter → Ended Served) → Option Parsed → Ended Served
after_server go_on none = panicked
after_server go_on (some (hs, filter, err e)) = if is_yet e then go_on hs filter else failed e
after_server go_on (some (hs, filter, ok seed)) = established (hs, filter, seed) [] []

module _ (curve : Curve) (hashes : Hashes) where
  unfoldable pub client_loop : ClientHandshake → Bytes → List Bytes → Ended Bytes
  client_loop hs buf [] = closed
  client_loop hs buf (chunk ∷ reads) =
      after_client (λ hs'. client_loop hs' (buf ++ chunk) reads) (buf ++ chunk) reads
        (parse_server_handshake curve hashes hs (buf ++ chunk))

  -- The server's loop; a read comes with its time. `ReceiveBuffer` is emptied at the end.
  unfoldable pub server_loop :
      ServerHandshake → ReplayFilter → Bytes → List (ℕ × Bytes) → Ended Served
  server_loop hs filter buf [] = closed
  server_loop hs filter buf ((now, chunk) ∷ reads) =
      after_server (λ hs' filter'. server_loop hs' filter' (buf ++ chunk) reads)
        (parse_client_handshake curve hashes hs filter now (buf ++ chunk))

-- The server's answer: its message with the packet of the seed, padded to the maximum, behind it.
abbrev pub with_seed :
    Bytes
    → Option (Encoder × Result FramingError Bytes)
    → Option (Encoder × Result FramingError Bytes)
with_seed blob none = none
with_seed blob (some (e, err x)) = some (e, err x)
with_seed blob (some (e, ok frame)) = some (e, ok (blob ++ frame))

unfoldable pub seed_packet : Bytes → PacketInfo
seed_packet len_seed = record {
  pkt_type = PacketType.prng_seed;
  body = len_seed;
  pad_len = max_packet_payload_length - length len_seed;
}

unfoldable pub answer :
    Sip → Box → Encoder → Bytes → Bytes → Option (Encoder × Result FramingError Bytes)
answer s b e blob len_seed = with_seed blob (make_packet s b e (seed_packet len_seed))
