-- ===== src/Defconn/Handshake.antt =====
-- transports/defconn/handshake_ntor.go: the messages of the obfuscated ntor handshake, their marks
-- and MACs, and the replay filter. transports/obfs4 and randomwt have copies of this file.
pub mod Parse
pub mod Find
pub mod Server
pub mod Replayed
pub mod Client
pub mod Agreement
use wfdef.Prelude.{
  ℕ, zero, suc, ◌+◌, ◌-◌, ◌*◌, ◌/◌, ◌≡◌, Bool, true, false, not, Option, none, some, List, [], ◌∷◌,
  ◌++◌, Bytes, length, take, drop, min, ltb, leb, ◌==◌, codes, bytes_eq, index, format_int,
  if◌then◌else◌, Result, ok, err,
}
use wfdef.Ntor.{
  Curve, Hashes, Keypair, representative_length, auth_length, server_handshake, client_handshake,
  compare_auth,
}
use wfdef.Framing.{frame_overhead}
use wfdef.Defconn.Packet.{packet_overhead, seed_packet_payload_length}
use wfdef.ReplayFilter.{ReplayFilter, test_and_set}

abbrev pub max_handshake_length : ℕ
max_handshake_length = 8192

abbrev pub mark_length : ℕ
mark_length = 32 / 2

abbrev pub mac_length : ℕ
mac_length = 32 / 2

abbrev pub inline_seed_frame_length : ℕ
inline_seed_frame_length = frame_overhead + packet_overhead + seed_packet_payload_length

abbrev pub server_min_handshake_length : ℕ
server_min_handshake_length = representative_length + auth_length + mark_length + mac_length

abbrev pub client_min_handshake_length : ℕ
client_min_handshake_length = representative_length + mark_length + mac_length

abbrev pub client_min_pad_length : ℕ
client_min_pad_length =
    server_min_handshake_length + inline_seed_frame_length - client_min_handshake_length

abbrev pub client_max_pad_length : ℕ
client_max_pad_length = max_handshake_length - client_min_handshake_length

abbrev pub server_min_pad_length : ℕ
server_min_pad_length = 0

abbrev pub server_max_pad_length : ℕ
server_max_pad_length =
    max_handshake_length - (server_min_handshake_length + inline_seed_frame_length)

-- The random source may fail too; `nil_pointer` is the panic on a key pair with no representative.
pub data HandshakeError : Type 0 where
  mark_not_found_yet invalid_handshake replayed_handshake ntor_failed random_failed nil_pointer :
      HandshakeError
  invalid_mac : Bytes → Bytes → HandshakeError
  invalid_auth : Bytes → Bytes → HandshakeError

-- `findMarkMac`: a panic, -1 or a position.
pub data Found : Type 0 where
  panicked : Found
  missing : Found
  at : ℕ → Found

abbrev pub at_end : Bool → ℕ → Found
at_end true pos = at pos
at_end false pos = missing

abbrev pub with_mac : ℕ → ℕ → Option ℕ → Found
with_mac start end_pos none = missing
with_mac start end_pos (some pos) =
    if ltb end_pos (start + pos + mark_length + mac_length) then missing else at (pos + start)

-- `buf[from:to]`
abbrev pub slice : ℕ → ℕ → Bytes → Bytes
slice from to buf = drop from (take to buf)

-- The last MAC of the buffer, or the first mark from `start_pos` on.
abbrev pub search_to : Bytes → Bytes → ℕ → ℕ → Bool → Found
search_to mark buf start_pos end_pos true =
    let pos = end_pos - (mark_length + mac_length) in
    at_end (bytes_eq (slice pos (pos + mark_length) buf) mark) pos
search_to mark buf start_pos end_pos false =
    with_mac start_pos end_pos (index (slice start_pos end_pos buf) mark)

unfoldable pub find_mark_mac : Bytes → Bytes → ℕ → ℕ → Bool → Found
find_mark_mac mark buf start_pos max_pos from_tail =
    let end_pos = min (length buf) max_pos in
    if not (length mark == mark_length)
    then panicked
    else if ltb (length buf) start_pos
    then missing
    else if ltb (end_pos - start_pos) (mark_length + mac_length)
    then missing
    else search_to mark buf start_pos end_pos from_tail

-- The hour of a time in nanoseconds, and its neighbours, as text.
abbrev pub epoch_hour : ℕ → ℕ
epoch_hour now = now / 1000000000 / 3600

abbrev pub hour_before : ℕ → Bytes
hour_before h = if h == 0 then codes "-1" else format_int (h - 1)

abbrev pub hours : ℕ → List Bytes
hours h = format_int h ∷ hour_before h ∷ format_int (h + 1) ∷ []

pub record ClientHandshake : Type 0 where
  pub keypair : Keypair
  pub node_id : Bytes
  pub server_identity : Bytes
  pub epoch_hour : Bytes
  pub server_representative : Option (Bytes × Bytes)
  pub server_mark : Bytes

pub record ServerHandshake : Type 0 where
  pub keypair : Keypair
  pub node_id : Bytes
  pub server_identity : Keypair
  pub epoch_hour : Bytes
  pub server_auth : Bytes
  pub client_representative : Option Bytes
  pub client_mark : Bytes

abbrev pub new_client_handshake : Bytes → Bytes → Keypair → ClientHandshake
new_client_handshake node_id server_identity session_key = record {
  keypair = session_key;
  node_id = node_id;
  server_identity = server_identity;
  epoch_hour = [];
  server_representative = none;
  server_mark = [];
}

abbrev pub new_server_handshake : Bytes → Keypair → Keypair → ServerHandshake
new_server_handshake node_id server_identity session_key = record {
  keypair = session_key;
  node_id = node_id;
  server_identity = server_identity;
  epoch_hour = [];
  server_auth = [];
  client_representative = none;
  client_mark = [];
}

module _ (hashes : Hashes) where
  -- `mac.Reset`, the writes and `mac.Sum`, cut to the length of a mark or a MAC; the key is that of
  -- the server's identity.
  abbrev pub mac : Bytes → Bytes → Bytes → Bytes
  mac public node_id message = take mac_length (hashes.hmac (public ++ node_id) message)

  -- X | P_C | M_C, and Y | AUTH | P_S | M_S.
  abbrev pub client_signed : ClientHandshake → Bytes → Bytes → Bytes
  client_signed hs x pad = x ++ (pad ++ mac hs.server_identity hs.node_id x)

  abbrev pub server_signed : ServerHandshake → Bytes → Bytes → Bytes
  server_signed hs y pad =
      y ++ (hs.server_auth ++ (pad ++ mac hs.server_identity.public hs.node_id y))

  -- `generateHandshake`, given the padding, if the random source does not fail.
  abbrev pub client_message :
      ClientHandshake
      → ℕ
      → Option Bytes
      → Option Bytes
      → ClientHandshake × Result HandshakeError Bytes
  client_message hs now none pad = (hs, err nil_pointer)
  client_message hs now (some x) none = (hs, err random_failed)
  client_message hs now (some x) (some pad) =
      let signed = client_signed hs x pad in
      let hour = format_int (epoch_hour now) in
      (
        record hs { epoch_hour = hour },
        ok (signed ++ mac hs.server_identity hs.node_id (signed ++ hour)),
      )

  unfoldable pub client_generate :
      ClientHandshake → Option Bytes → ℕ → ClientHandshake × Result HandshakeError Bytes
  client_generate hs pad now = client_message hs now hs.keypair.representative pad

  abbrev pub server_message :
      ServerHandshake → Option Bytes → Option Bytes → Result HandshakeError Bytes
  server_message hs none pad = err nil_pointer
  server_message hs (some y) none = err random_failed
  server_message hs (some y) (some pad) =
      let signed = server_signed hs y pad in
      ok (signed ++ mac hs.server_identity.public hs.node_id (signed ++ hs.epoch_hour))

  unfoldable pub server_generate : ServerHandshake → Option Bytes → Result HandshakeError Bytes
  server_generate hs pad = server_message hs hs.keypair.representative pad
