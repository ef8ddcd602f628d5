-- ===== src/Defconn/Handshake/Client.antt =====
-- The client accepts what the server generates, and both have the key seed.
use wfdef.Prelude.{
  ℕ, ◌+◌, ◌≤◌, ◌≡◌, refl, sym, ap, ◌∙◌, Bool, true, false, none, some, [], ◌++◌, append_assoc,
  Bytes, length, length-append, take, drop, take-append, drop-append, ltb, le→ltb, if◌then◌else◌,
  bytes_eq_self, index, ok, err, arith,
}
use wfdef.Ntor.{Curve, Hashes, Keypair, client_handshake}
use wfdef.Ntor.Agreement.{IsKeypair}
use wfdef.Defconn.Handshake.{
  mark_not_found_yet, at, slice, find_mark_mac, server_max_pad_length, ClientHandshake,
  ServerHandshake, mac, server_signed, server_message, server_generate,
}
use wfdef.Defconn.Handshake.Find.{find_mark_mac-search, slice-append}
use wfdef.Defconn.Handshake.Parse.{
  client_reads, client_accepts, client_finds, parse_server_handshake,
}
use wfdef.Defconn.Handshake.Server.{length-mac}

-- The client's state when it has read a representative and an authentication tag.
abbrev pub knowing_server : Hashes → ClientHandshake → Bytes → Bytes → ClientHandshake
knowing_server hashes hs y auth = record hs {
  server_representative = some (y, auth);
  server_mark = mac hashes hs.server_identity hs.node_id y;
}

-- A client with a key pair, when the server has got its message, and it nothing.
abbrev pub in_step : Keypair → ServerHandshake → ClientHandshake
in_step keypair server = record {
  keypair = keypair;
  node_id = server.node_id;
  server_identity = server.server_identity.public;
  epoch_hour = server.epoch_hour;
  server_representative = none;
  server_mark = [];
}

abbrev pub mark_of : Hashes → ServerHandshake → Bytes → Bytes
mark_of hashes server y = mac hashes server.server_identity.public server.node_id y

-- The parts of the server's message, and what the client finds in it.
module _ (hashes : Hashes) (server : ServerHandshake) (y pad tag rest : Bytes) where
  abbrev pub message : Bytes
  message = server_signed hashes server y pad ++ (tag ++ rest)

  pub message-parts :
      message ≡ (y ++ server.server_auth) ++ (pad ++ (mark_of hashes server y ++ (tag ++ rest)))
  message-parts =
      let mark = mark_of hashes server y in
      append_assoc y (server.server_auth ++ (pad ++ mark)) (tag ++ rest)
      ∙ ap (λ r. y ++ r)
          (append_assoc server.server_auth (pad ++ mark) (tag ++ rest)
            ∙ ap (λ r. server.server_auth ++ r) (append_assoc pad mark (tag ++ rest)))
      ∙ sym (append_assoc y server.server_auth (pad ++ (mark ++ (tag ++ rest))))

  module _ (hy : length y ≡ 32) (ha : length server.server_auth ≡ 32) (ht : length tag ≡ 16) where
    pub length-signed : length (server_signed hashes server y pad) ≡ 80 + length pad
    length-signed =
        let mark = mark_of hashes server y in
        let hm = length-mac hashes server.server_identity.public server.node_id y in
        omega (
          arith,
          hy,
          ha,
          hm,
          length-append y (server.server_auth ++ (pad ++ mark)),
          length-append server.server_auth (pad ++ mark),
          length-append pad mark,
        )

    pub length-message : length message ≡ 96 + (length pad + length rest)
    length-message = omega (
      arith,
      ht,
      length-signed,
      length-append (server_signed hashes server y pad) (tag ++ rest),
      length-append tag rest,
    )

    pub message-finds :
        index (pad ++ mark_of hashes server y) (mark_of hashes server y) ≡ some (length pad)
        → length pad ≤ server_max_pad_length
        → find_mark_mac (mark_of hashes server y) message 64 8192 false ≡ at (length pad + 64)
    message-finds first hmax =
        let mark = mark_of hashes server y in
        let hm = length-mac hashes server.server_identity.public server.node_id y in
        let front : length (y ++ server.server_auth) ≡ 64 =
          omega (arith, hy, ha, length-append y server.server_auth) in
        ap (λ m. find_mark_mac mark m 64 8192 false) message-parts
        ∙ (rw front at (
            find_mark_mac-search (y ++ server.server_auth) pad mark tag rest 8192 hm ht first
              (omega (arith, front, hmax))))

    pub message-reads :
        (keypair : Keypair)
        → client_reads hashes (in_step keypair server) message none
          ≡ knowing_server hashes (in_step keypair server) y server.server_auth
    message-reads keypair =
        let more = pad ++ (mark_of hashes server y ++ (tag ++ rest)) in
        let whole = message-parts ∙ append_assoc y server.server_auth more in
        let first : take 32 message ≡ y = ap (take 32) whole ∙ take-append 32 y _ hy in
        let second : take 32 (drop 32 message) ≡ server.server_auth =
          ap (λ m. take 32 (drop 32 m)) whole
          ∙ ap (take 32) (drop-append 32 y _ hy)
          ∙ take-append 32 server.server_auth more ha in
        let knows = knowing_server hashes (in_step keypair server) in
        ap (λ a. knows a (take 32 (drop 32 message))) first ∙ ap (knows y) second

module _ (curve : Curve) (hashes : Hashes) where
  accepts_keys :
      (hs : ClientHandshake) (pos : ℕ) (r : Bool × (Bytes × Bytes))
      → r.0 ≡ true
      → client_accepts curve hashes hs pos r.1.1 r ≡ ok (pos + 16 + 16, r.1.0)
  accepts_keys hs pos (false, k) status = cc
  accepts_keys hs pos (true, (seed, auth)) status = rw (bytes_eq_self auth) refl

  -- The client on the parts of the server's message.
  pub parse_parts :
      (keypair : Keypair) (server : ServerHandshake) (y pad rest seed : Bytes)
      (hs : ClientHandshake)
      → length y ≡ 32
      → length server.server_auth ≡ 32
      → length pad ≤ server_max_pad_length
      → index (pad ++ mark_of hashes server y) (mark_of hashes server y) ≡ some (length pad)
      → client_handshake curve hashes keypair
          (curve.to_public y)
          server.server_identity.public
          server.node_id
        ≡ (true, (seed, server.server_auth))
      → (let signed = server_signed hashes server y pad in
          let tag =
            mac hashes server.server_identity.public server.node_id (signed ++ server.epoch_hour) in
          client_reads hashes hs (signed ++ (tag ++ rest)) hs.server_representative
            ≡ knowing_server hashes (in_step keypair server) y server.server_auth
          → parse_server_handshake curve hashes hs (signed ++ (tag ++ rest)) ≡ (
            knowing_server hashes (in_step keypair server) y server.server_auth,
            some (ok (length (signed ++ tag), seed)),
          ))
  unfolding parse_server_handshake client_finds
  parse_parts keypair server y pad rest seed hs hy ha hmax first done reads =
      let signed = server_signed hashes server y pad in
      let tag =
        mac hashes server.server_identity.public server.node_id (signed ++ server.epoch_hour) in
      let ht =
        length-mac hashes server.server_identity.public server.node_id
          (signed ++ server.epoch_hour) in
      let resp = signed ++ (tag ++ rest) in
      let size = length-message hashes server y pad tag rest hy ha ht in
      let short = length-signed hashes server y pad tag rest hy ha ht in
      let long = le→ltb (length resp) 96 (omega (arith, size)) in
      let known = knowing_server hashes (in_step keypair server) y server.server_auth in
      let before_tag : (length pad + 64) + 16 ≡ length signed = omega (arith, short) in
      let whole : length signed + 16 ≡ length (signed ++ tag) =
        omega (arith, ht, length-append signed tag) in
      let head : take (length signed) resp ≡ signed =
        take-append (length signed) signed (tag ++ rest) refl in
      let mac_rx : slice (length signed) (length signed + 16) resp ≡ tag =
        slice-append signed tag rest 16 ht in
      ap
        (λ k. if ltb (length resp) 96 then (hs, some (err mark_not_found_yet)) else (
          k,
          client_finds curve hashes k resp (find_mark_mac k.server_mark resp 64 8192 false),
        ))
        reads
      ∙ (rw
          (
            long,
            message-finds hashes server y pad tag rest hy ha ht first hmax,
            before_tag,
            head,
            mac_rx,
            bytes_eq_self tag,
            client_finds,
          )
          (ap
              (λ r. (
                known,
                some (client_accepts curve hashes known (length pad + 64) server.server_auth r),
              ))
              done
            ∙ (rw (bytes_eq_self server.server_auth, before_tag, whole))))

  -- The server's message, with whatever it sends behind it, where the mark does not occur in the
  -- padding before its place: a client in step with the server takes just the message, and has the
  -- key seed of its key exchange, if that gives the server's authentication tag.
  pub parse_server_handshake-server_generate :
      (keypair : Keypair) (server : ServerHandshake) (y pad msg rest seed : Bytes)
      → IsKeypair curve server.keypair
      → server.keypair.representative ≡ some y
      → length server.server_auth ≡ 32
      → length pad ≤ server_max_pad_length
      → index (pad ++ mark_of hashes server y) (mark_of hashes server y) ≡ some (length pad)
      → client_handshake curve hashes keypair server.keypair.public server.server_identity.public
          server.node_id
        ≡ (true, (seed, server.server_auth))
      → server_generate hashes server (some pad) ≡ ok msg
      → parse_server_handshake curve hashes (in_step keypair server) (msg ++ rest) ≡ (
        knowing_server hashes (in_step keypair server) y server.server_auth,
        some (ok (length msg, seed)),
      )
  unfolding server_generate
  parse_server_handshake-server_generate keypair server y pad msg rest seed ks repr ha hmax first
        done generated =
      let known = ks.represented y repr in
      let signed = server_signed hashes server y pad in
      let tag =
        mac hashes server.server_identity.public server.node_id (signed ++ server.epoch_hour) in
      let message_eq = sym (ap (λ r. server_message hashes server r (some pad)) repr) ∙ generated in
      let same_msg : signed ++ tag ≡ msg = cc message_eq in
      let done' : client_handshake curve hashes keypair (curve.to_public y)
            server.server_identity.public server.node_id
          ≡ (true, (seed, server.server_auth)) =
        ap
          (λ p.
            client_handshake curve hashes keypair p server.server_identity.public server.node_id)
          known.0
        ∙ done in
      rw (← same_msg) (
        ap (parse_server_handshake curve hashes (in_step keypair server))
          (append_assoc signed tag rest)
        ∙ parse_parts keypair server y pad rest seed (in_step keypair server) known.1 ha hmax first
            done'
            (message-reads hashes server y pad tag rest known.1 ha
              (length-mac hashes server.server_identity.public server.node_id
                (signed ++ server.epoch_hour))
              keypair))
