-- ===== src/Defconn/Handshake/Parse.antt =====
-- transports/defconn/handshake_ntor.go: `parseClientHandshake` and `parseServerHandshake`.
use wfdef.Prelude.{
  ℕ, ◌+◌, Bool, true, false, not, Option, none, some, List, [], ◌∷◌, ◌++◌, Bytes, length, take,
  drop, ltb, leb, ◌==◌, bytes_eq, if◌then◌else◌, Result, ok, err,
}
use wfdef.Ntor.{
  Curve, Hashes, representative_length, auth_length, server_handshake, client_handshake,
  compare_auth,
}
use wfdef.ReplayFilter.{ReplayFilter, test_and_set}
use wfdef.Defconn.Handshake.{
  max_handshake_length, mark_length, mac_length, server_min_handshake_length,
  client_min_handshake_length, client_min_pad_length, server_min_pad_length, HandshakeError,
  mark_not_found_yet, invalid_handshake, replayed_handshake, ntor_failed, nil_pointer, invalid_mac,
  invalid_auth, Found, panicked, missing, at, slice, find_mark_mac, epoch_hour, hours,
  ClientHandshake, ServerHandshake, mac,
}

-- What the loop over the hours comes to, a replay or its end, with the hour that fitted last, if any.
pub data Tried : Type 0 where
  replay : ReplayFilter → Option Bytes → Tried
  tried : ReplayFilter → Option Bytes → Tried

-- What `parseClientHandshake` leaves: the state, the filter, and the result.
abbrev pub Parsed : Type 0
Parsed = ServerHandshake × ReplayFilter × Result HandshakeError Bytes

module _ (hashes : Hashes) where
  -- The loop over the hours that the server allows.
  unfoldable pub try_hours :
      ServerHandshake → ℕ → Bytes → Bytes → List Bytes → ReplayFilter → Option Bytes → Tried
  try_hours hs now signed mac_rx [] filter hour = tried filter hour
  try_hours hs now signed mac_rx (e ∷ es) filter hour =
      let seen = test_and_set filter now mac_rx in
      elim (bytes_eq (mac hashes hs.server_identity.public hs.node_id (signed ++ e)) mac_rx) [
        | true ↦ elim seen.1 [
          | true ↦ replay seen.0 hour
          | false ↦ try_hours hs now signed mac_rx es seen.0 (some e)
        ]
        | false ↦ try_hours hs now signed mac_rx es filter hour
      ]

  -- The representative and the mark, when they have not been read before.
  abbrev pub server_reads : ServerHandshake → Bytes → Option Bytes → ServerHandshake
  server_reads hs resp (some x) = hs
  server_reads hs resp none =
      let x = take representative_length resp in
      record hs {
        client_representative = some x;
        client_mark = mac hashes hs.server_identity.public hs.node_id x;
      }

  -- The client's side.
  abbrev pub client_reads : ClientHandshake → Bytes → Option (Bytes × Bytes) → ClientHandshake
  client_reads hs resp (some r) = hs
  client_reads hs resp none =
      let y = take representative_length resp in
      record hs {
        server_representative = some (y, take auth_length (drop representative_length resp));
        server_mark = mac hashes hs.server_identity hs.node_id y;
      }

module _ (curve : Curve) (hashes : Hashes) where
  -- The end, with the ntor handshake; `x` is `hs.clientRepresentative`.
  abbrev pub server_accepts : ServerHandshake → ReplayFilter → Bool × (Bytes × Bytes) → Parsed
  server_accepts hs filter (false, r) = (hs, filter, err ntor_failed)
  server_accepts hs filter (true, (seed, auth)) =
      (record hs { server_auth = auth }, filter, ok seed)

  abbrev pub server_completes : ServerHandshake → ReplayFilter → Option Bytes → Parsed
  server_completes hs filter none = (hs, filter, err nil_pointer)
  server_completes hs filter (some x) =
      server_accepts hs filter
        (server_handshake curve hashes (curve.to_public x) hs.keypair hs.server_identity hs.node_id)

  -- Behind the loop.
  unfoldable pub server_checks : ServerHandshake → ℕ → ℕ → Tried → Parsed
  server_checks hs size pos (replay filter none) = (hs, filter, err replayed_handshake)
  server_checks hs size pos (replay filter (some hour)) =
      (record hs { epoch_hour = hour }, filter, err replayed_handshake)
  server_checks hs size pos (tried filter none) = (hs, filter, err invalid_handshake)
  server_checks hs size pos (tried filter (some hour)) =
      let hs' = record hs { epoch_hour = hour } in
      if not (size == pos + mark_length + mac_length)
      then (hs', filter, err invalid_handshake)
      else server_completes hs' filter hs'.client_representative

  unfoldable pub server_finds : ServerHandshake → ReplayFilter → ℕ → Bytes → Found → Option Parsed
  server_finds hs filter now resp panicked = none
  server_finds hs filter now resp missing = some (
      if leb max_handshake_length (length resp)
      then (hs, filter, err invalid_handshake)
      else (hs, filter, err mark_not_found_yet))
  server_finds hs filter now resp (at pos) = some (
      server_checks hs (length resp) pos (
        try_hours hashes hs now (take (pos + mark_length) resp)
          (slice (pos + mark_length) (pos + mark_length + mac_length) resp) (hours (epoch_hour now))
          filter none))

  -- `none` is a panic.
  unfoldable pub parse_client_handshake : ServerHandshake → ReplayFilter → ℕ → Bytes → Option Parsed
  parse_client_handshake hs filter now resp =
      let hs' = server_reads hashes hs resp hs.client_representative in
      if ltb (length resp) client_min_handshake_length
      then some (hs, filter, err mark_not_found_yet)
      else server_finds hs' filter now resp (
          find_mark_mac hs'.client_mark resp (representative_length + client_min_pad_length)
            max_handshake_length true)

  abbrev pub client_accepts :
      ClientHandshake → ℕ → Bytes → Bool × (Bytes × Bytes) → Result HandshakeError (ℕ × Bytes)
  client_accepts hs pos server_auth (false, r) = err ntor_failed
  client_accepts hs pos server_auth (true, (seed, auth)) =
      if not (compare_auth auth server_auth)
      then err (invalid_auth auth server_auth)
      else ok (pos + mark_length + mac_length, seed)

  abbrev pub client_completes :
      ClientHandshake → ℕ → Option (Bytes × Bytes) → Result HandshakeError (ℕ × Bytes)
  client_completes hs pos none = err nil_pointer
  client_completes hs pos (some (y, server_auth)) =
      client_accepts hs pos server_auth
        (client_handshake curve hashes hs.keypair (curve.to_public y) hs.server_identity hs.node_id)

  unfoldable pub client_finds :
      ClientHandshake → Bytes → Found → Option (Result HandshakeError (ℕ × Bytes))
  client_finds hs resp panicked = none
  client_finds hs resp missing = some (
      if leb max_handshake_length (length resp)
      then err invalid_handshake
      else err mark_not_found_yet)
  client_finds hs resp (at pos) =
      let mac_cmp =
        mac hashes hs.server_identity hs.node_id (take (pos + mark_length) resp ++ hs.epoch_hour) in
      let mac_rx = slice (pos + mark_length) (pos + mark_length + mac_length) resp in
      some (
        if not (bytes_eq mac_cmp mac_rx)
        then err (invalid_mac mac_cmp mac_rx)
        else client_completes hs pos hs.server_representative)

  -- The state, and how much of `resp` the handshake is with the key seed; `none` is a panic.
  unfoldable pub parse_server_handshake :
      ClientHandshake → Bytes → ClientHandshake × Option (Result HandshakeError (ℕ × Bytes))
  parse_server_handshake hs resp =
      let hs' = client_reads hashes hs resp hs.server_representative in
      if ltb (length resp) server_min_handshake_length
      then (hs, some (err mark_not_found_yet))
      else (
        hs',
        client_finds hs' resp (
            find_mark_mac hs'.server_mark resp
              (representative_length + auth_length + server_min_pad_length) max_handshake_length
              false),
      )
