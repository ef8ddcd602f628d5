-- ===== src/Defconn/Handshake/Agreement.antt =====
-- Both sides of a whole handshake come to the same key seed.
use wfdef.Prelude.{
  ℕ, ◌≤◌, ◌≡◌, sym, ap, ◌∙◌, true, false, some, [], ◌∷◌, ◌++◌, Bytes, length, index, format_int, ok,
}
use wfdef.Ntor.{Curve, CurveLaws, Hashes, Keypair, client_handshake}
use wfdef.Ntor.Agreement.{IsKeypair, length-auth}
use wfdef.ReplayFilter.{ReplayFilter, test_and_set}
use wfdef.Defconn.Handshake.{
  client_min_pad_length, client_max_pad_length, server_max_pad_length, epoch_hour, hours,
  ClientHandshake, ServerHandshake, new_client_handshake, new_server_handshake, client_message,
  client_generate, server_generate,
}
use wfdef.Defconn.Handshake.Parse.{parse_client_handshake, parse_server_handshake}
use wfdef.Defconn.Handshake.Server.{
  knowing, signed_by, tag_of, fitting, parse_client_handshake-client_generate,
}
use wfdef.Defconn.Handshake.Client.{mark_of, in_step, parse_server_handshake-server_generate}

module _ (curve : Curve) (hashes : Hashes) where
  -- The server's state when it has accepted a client's message.
  abbrev pub accepted : Keypair → Keypair → Keypair → Bytes → Bytes → Bytes → ServerHandshake
  accepted client session identity node_id x hour =
      record (knowing hashes (new_server_handshake node_id identity session) x) {
        epoch_hour = hour;
        server_auth =
            (client_handshake curve hashes client session.public identity.public node_id).1.1;
      }

  -- A whole handshake. The client's message has a padding of a length that the code draws; its MAC
  -- fits just one of the server's three hours, the client's, and is new to the filter. The mark does
  -- not occur in the padding of the server's reply before its place, and the key exchange succeeds.
  -- Then the server accepts the message, and the client accepts the reply, whatever follows it, and
  -- both have the same key seed.
  pub handshake-agree :
      (client session identity : Keypair) (node_id x y pad pad' msg reply rest : Bytes)
      (made now : ℕ) (filter : ReplayFilter) (hs' : ClientHandshake)
      → CurveLaws curve
      → IsKeypair curve client
      → IsKeypair curve session
      → IsKeypair curve identity
      → client.representative ≡ some x
      → session.representative ≡ some y
      → client_min_pad_length ≤ length pad
      → length pad ≤ client_max_pad_length
      → length pad' ≤ server_max_pad_length
      → client_generate hashes (new_client_handshake node_id identity.public client) (some pad) made
        ≡ (hs', ok msg)
      → fitting hashes
          (knowing hashes (new_server_handshake node_id identity session) x)
          (signed_by hashes identity.public node_id x pad)
          (tag_of hashes identity.public node_id x pad (format_int (epoch_hour made)))
          (hours (epoch_hour now))
        ≡ format_int (epoch_hour made) ∷ []
      → (test_and_set filter now
          (tag_of hashes identity.public node_id x pad (format_int (epoch_hour made)))).1
        ≡ false
      → (client_handshake curve hashes client session.public identity.public node_id).0 ≡ true
      → index
          (pad' ++ mark_of hashes (accepted client session identity node_id x hs'.epoch_hour) y)
          (mark_of hashes (accepted client session identity node_id x hs'.epoch_hour) y)
        ≡ some (length pad')
      → server_generate hashes
          (accepted client session identity node_id x hs'.epoch_hour)
          (some pad')
        ≡ ok reply
      → (let seed =
            (client_handshake curve hashes client session.public identity.public node_id).1.0 in
          (parse_client_handshake curve hashes
              (new_server_handshake node_id identity session)
              filter
              now
              msg
            ≡ some (
              accepted client session identity node_id x hs'.epoch_hour,
              (test_and_set filter now
                  (tag_of hashes identity.public node_id x pad (format_int (epoch_hour made)))).0,
              ok seed,
            ))
          × ((parse_server_handshake curve hashes hs' (reply ++ rest)).1
              ≡ some (ok (length reply, seed))))
  unfolding client_generate
  handshake-agree client session identity node_id x y pad pad' msg reply rest made now filter hs'
        laws kc ks ki rx ry hmin hmax hmax' generated fits new status first replied =
      let server = accepted client session identity node_id x hs'.epoch_hour in
      let keys = client_handshake curve hashes client session.public identity.public node_id in
      let chs = new_client_handshake node_id identity.public client in
      let message = sym (ap (λ r. client_message hashes chs made r (some pad)) rx) ∙ generated in
      let stepped : in_step client server ≡ hs' =
        ap (λ h. record chs { epoch_hour = h }) (sym (ap (λ r. r.0.epoch_hour) message))
        ∙ ap (λ r. r.0) message in
      let done : keys ≡ (true, (keys.1.0, keys.1.1)) = ap (λ b. (b, (keys.1.0, keys.1.1))) status in
      (
        parse_client_handshake-client_generate curve hashes client session identity node_id x pad
            msg made now filter hs' laws kc ks ki rx hmin hmax generated fits new status,
        ap (λ k. (parse_server_handshake curve hashes k (reply ++ rest)).1) (sym stepped)
            ∙ ap (λ r. r.1)
                (parse_server_handshake-server_generate curve hashes client server y pad' reply rest
                  keys.1.0 ks ry
                  (length-auth curve hashes laws client session.public identity.public node_id)
                  hmax' first done replied),
      )
