-- ===== src/Scramblesuit/Handshake.antt =====
-- transports/scramblesuit/handshake_uniformdh.go: the client's side of the UniformDH handshake, which
-- is the only one that the repository has.
pub mod Accepts
use wfdef.Prelude.{
  ℕ, ◌+◌, ◌-◌, ◌*◌, ◌/◌, ◌≡◌, Bool, true, false, not, Option, none, some, [], ◌++◌, Bytes, length,
  take, min, ltb, leb, bytes_eq, index, format_int, if◌then◌else◌, Result, ok, err,
}
use wfdef.Uniformdh as Dh
use wfdef.Uniformdh.{DhError, PublicKey, PrivateKey, key_bytes, set_bytes, handshake}
use wfdef.Defconn.Handshake.{slice, epoch_hour}

abbrev pub mac_length : ℕ
mac_length = 128 / 8

abbrev pub min_handshake_length : ℕ
min_handshake_length = Dh.size + mac_length * 2

abbrev pub max_handshake_length : ℕ
max_handshake_length = 1532

abbrev pub dh_max_pad_length : ℕ
dh_max_pad_length = 1308

-- HMAC-SHA256 and SHA-256.
pub record Hashes : Type 0 where
  pub hmac : Bytes → Bytes → Bytes
  pub sum256 : Bytes → Bytes
  pub length-hmac : (key message : Bytes) → length (hmac key message) ≡ 32

pub data HandshakeError : Type 0 where
  mark_not_found_yet invalid_handshake random_failed : HandshakeError
  dh : DhError → HandshakeError

-- `ssDHClientHandshake`; `written` is what was written to the MAC since its reset, `key` its key.
pub record ClientHandshake : Type 0 where
  pub key : Bytes
  pub written : Bytes
  pub keypair : PrivateKey
  pub epoch_hour : Bytes
  pub server_public_key : Option PublicKey
  pub server_mark : Bytes

-- `newDHClientHandshake`; the length of the padding is that of the padding.
abbrev pub new_client_handshake : Bytes → PrivateKey → ClientHandshake
new_client_handshake k_b session_key = record {
  key = k_b;
  written = [];
  keypair = session_key;
  epoch_hour = [];
  server_public_key = none;
  server_mark = [];
}

module _ (hashes : Hashes) where
  -- `hs.mac.Sum(nil)[:macLength]`
  abbrev pub sum : ClientHandshake → Bytes
  sum hs = take mac_length (hashes.hmac hs.key hs.written)

  abbrev pub write : ClientHandshake → Bytes → ClientHandshake
  write hs bs = record hs { written = hs.written ++ bs }

  abbrev pub client_message :
      ClientHandshake
      → ℕ
      → Option Bytes
      → Result DhError Bytes
      → ClientHandshake × Result HandshakeError Bytes
  client_message hs now pad (err e) = (hs, err (dh e))
  client_message hs now none (ok x) = (write hs x, err random_failed)
  client_message hs now (some pad) (ok x) =
      let c = write hs x in
      let mark = sum c in
      let hour = format_int (epoch_hour now) in
      let d = record (write (write (write c pad) mark) hour) { epoch_hour = hour } in
      (d, ok (x ++ (pad ++ (mark ++ sum d))))

  -- `generateHandshake`, with the padding, if the random source does not fail, and the clock.
  unfoldable pub generate_handshake :
      ClientHandshake → Option Bytes → ℕ → ClientHandshake × Result HandshakeError Bytes
  generate_handshake hs pad now =
      client_message (record hs { written = [] }) now pad (key_bytes hs.keypair.public)

  -- What a parse leaves; `none` is a panic.
  abbrev pub Parsed : Type 0
  Parsed = ClientHandshake × Option (Result HandshakeError (ℕ × Bytes))

  -- The public key and the mark, when they have not been read before.
  abbrev pub with_key :
      ClientHandshake → Bytes → Result DhError PublicKey → Result DhError ClientHandshake
  with_key hs y (err e) = err e
  with_key hs y (ok public) =
      let c = record hs { server_public_key = some public; written = y } in
      ok (record c { server_mark = sum c })

  abbrev pub reads : ClientHandshake → Bytes → Option PublicKey → Result DhError ClientHandshake
  reads hs resp (some public) = ok hs
  reads hs resp none = let y = take Dh.size resp in with_key hs y (set_bytes y)

  abbrev pub derived : ℕ → Result DhError Bytes → Result HandshakeError (ℕ × Bytes)
  derived n (err e) = err (dh e)
  derived n (ok secret) = ok (n, hashes.sum256 secret)

  abbrev pub completes :
      ClientHandshake → ℕ → Option PublicKey → Option (Result HandshakeError (ℕ × Bytes))
  completes hs n none = none
  completes hs n (some public) = some (derived n (handshake hs.keypair public))

  -- The MAC behind the mark at `pos`. `spare` is what the buffer has behind the end of `resp`, within
  -- its capacity: a slice may reach into it, and panics beyond it.
  unfoldable pub validates : ClientHandshake → Bytes → Bytes → ℕ → Parsed
  validates hs resp spare pos =
      let c = write (write hs (slice Dh.size (pos + mac_length) resp)) hs.epoch_hour in
      let mac_rx = slice (pos + mac_length) (pos + 2 * mac_length) (resp ++ spare) in
      if ltb (length (resp ++ spare)) (pos + 2 * mac_length)
      then (c, none)
      else if not (bytes_eq (sum c) mac_rx)
      then (c, some (err invalid_handshake))
      else (c, completes c (pos + 2 * mac_length) c.server_public_key)

  unfoldable pub finds : ClientHandshake → Bytes → Bytes → Option ℕ → Parsed
  finds hs resp spare none =
      if leb max_handshake_length (length resp)
      then (hs, some (err invalid_handshake))
      else (hs, some (err mark_not_found_yet))
  finds hs resp spare (some pos) =
      if ltb (length resp) (pos + 2 * mac_length)
      then (hs, some (err mark_not_found_yet))
      else validates hs resp spare (pos + Dh.size)

  abbrev pub searches : ClientHandshake → Bytes → Bytes → Result DhError ClientHandshake → Parsed
  searches hs resp spare (err e) = (hs, some (err (dh e)))
  searches hs resp spare (ok c) =
      let end_pos = min (length resp) (max_handshake_length - mac_length) in
      finds c resp spare (index (slice Dh.size end_pos resp) c.server_mark)

  unfoldable pub parse_server_handshake : ClientHandshake → Bytes → Bytes → Parsed
  parse_server_handshake hs resp spare =
      if ltb (length resp) min_handshake_length
      then (hs, some (err mark_not_found_yet))
      else searches hs resp spare (reads hs resp hs.server_public_key)
