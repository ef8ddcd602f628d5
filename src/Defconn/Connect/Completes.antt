-- ===== src/Defconn/Connect/Completes.antt =====
-- However the network cuts the server's reply, the client's loop ends.
use wfdef.Prelude.{
  ◌+◌, ◌≤◌, ◌<◌, ◌≡◌, refl, sym, ap, ◌∙◌, true, inl, some, List, [], ◌∷◌, ◌++◌, append_assoc, Bytes,
  length, length-append, drop, append-split, dec_lt, index, ok, arith,
}
use wfdef.Ntor.{Curve, Hashes, Keypair, client_handshake}
use wfdef.Ntor.Agreement.{IsKeypair}
use wfdef.Defconn.Handshake.{
  server_max_pad_length, ClientHandshake, ServerHandshake, mac, server_signed, server_message,
  server_generate,
}
use wfdef.Defconn.Handshake.Parse.{client_reads, parse_server_handshake}
use wfdef.Defconn.Handshake.Server.{length-mac}
use wfdef.Defconn.Handshake.Client.{mark_of, knowing_server, in_step, length-signed, parse_parts}
use wfdef.Defconn.Connect.{Ended, established, failed, closed, panicked, client_loop}
use wfdef.Defconn.Connect.Waits.{Waiting, reads-Waiting, parse_server_handshake-waits}

abbrev pub concat : List Bytes → Bytes
concat [] = []
concat (c ∷ cs) = c ++ concat cs

-- The loop has ended with a key seed, and `rest` is in the buffer and the reads to come.
abbrev pub Completed : Ended Bytes → Bytes → Bytes → Type 0
Completed (established seed buf reads) seed' rest = (seed ≡ seed') × (buf ++ concat reads ≡ rest)
Completed (failed e) seed' rest = ⊥
Completed closed seed' rest = ⊥
Completed panicked seed' rest = ⊥

module _ (curve : Curve) (hashes : Hashes) (keypair : Keypair) (server : ServerHandshake)
    (y pad seed : Bytes) (hy : length y ≡ 32) (ha : length server.server_auth ≡ 32)
    (hmax : length pad ≤ server_max_pad_length)
    (first : index (pad ++ mark_of hashes server y) (mark_of hashes server y) ≡ some (length pad))
    (done : client_handshake curve hashes keypair
        (curve.to_public y)
        server.server_identity.public
        server.node_id
      ≡ (true, (seed, server.server_auth))) where
  abbrev signed : Bytes
  signed = server_signed hashes server y pad

  abbrev tag : Bytes
  tag = mac hashes server.server_identity.public server.node_id (signed ++ server.epoch_hour)

  length-tag : length tag ≡ 16
  length-tag =
      length-mac hashes server.server_identity.public server.node_id (signed ++ server.epoch_hour)

  length-message : length (signed ++ tag) ≡ 96 + length pad
  length-message = omega (
    arith,
    length-tag,
    length-append signed tag,
    length-signed hashes server y pad tag [] hy ha length-tag,
  )

  loop-completes :
      (hs : ClientHandshake) (buf rest : Bytes) (reads : List Bytes)
      → Waiting hashes server y keypair hs
      → buf ++ concat reads ≡ (signed ++ tag) ++ rest
      → length buf < length (signed ++ tag)
      → Completed (client_loop curve hashes hs buf reads) seed rest
  unfolding client_loop
  loop-completes hs buf rest [] w split short =
      let size = ap length split in
      omega (arith, size, short, length-append buf [], length-append (signed ++ tag) rest)
  loop-completes hs buf rest (chunk ∷ reads) w split short =
      let part = buf ++ chunk in
      let regroup : part ++ concat reads ≡ (signed ++ tag) ++ rest =
        append_assoc buf chunk (concat reads) ∙ split in
      let as_parts = regroup ∙ append_assoc signed tag rest in
      elim (dec_lt (length part) (length (signed ++ tag))) [
        | yes few ↦
            let p =
              parse_server_handshake-waits hashes server y pad tag rest hy ha length-tag first part
                (concat reads) as_parts (omega (arith, few, length-message)) curve keypair hs hmax
                w in
            rw (p.1, client_loop) (loop-completes p.0 part rest reads p.2 regroup few)
        | no whole ↦
            let s = append-split part (concat reads) (signed ++ tag) rest regroup (omega arith) in
            let left = drop (length (signed ++ tag)) part in
            let same : part ≡ signed ++ (tag ++ left) = s.0 ∙ append_assoc signed tag left in
            let reads_known =
              reads-Waiting hashes server y pad tag rest hy ha length-tag part (concat reads)
                as_parts keypair hs w (omega (arith, length-message)) in
            let known = knowing_server hashes (in_step keypair server) y server.server_auth in
            let parsed : parse_server_handshake curve hashes hs part
                ≡ (known, some (ok (length (signed ++ tag), seed))) =
              ap (parse_server_handshake curve hashes hs) same
              ∙ parse_parts curve hashes keypair server y pad left seed hs hy ha hmax first done (
                  sym (ap (λ p. client_reads hashes hs p hs.server_representative) same)
                  ∙ reads_known) in
            rw (parsed, client_loop) (refl, s.1)
      ]

-- Let a server send its message, with a padding in which the mark does not occur before its place,
-- and more data behind it, and let the network deliver all this in whatever parts. A client in step
-- with the server, whose key exchange gives the server's authentication tag, then ends its loop with
-- the key seed; what is behind the message is in its buffer and the reads to come.
pub client_loop-Completed :
    (curve : Curve) (hashes : Hashes) (keypair : Keypair) (server : ServerHandshake)
    (y pad msg rest seed : Bytes) (reads : List Bytes)
    → IsKeypair curve server.keypair
    → server.keypair.representative ≡ some y
    → length server.server_auth ≡ 32
    → length pad ≤ server_max_pad_length
    → index (pad ++ mark_of hashes server y) (mark_of hashes server y) ≡ some (length pad)
    → client_handshake curve hashes keypair server.keypair.public server.server_identity.public
        server.node_id
      ≡ (true, (seed, server.server_auth))
    → server_generate hashes server (some pad) ≡ ok msg
    → concat reads ≡ msg ++ rest
    → Completed (client_loop curve hashes (in_step keypair server) [] reads) seed rest
unfolding server_generate
client_loop-Completed curve hashes keypair server y pad msg rest seed reads ks repr ha hmax first
      done generated delivered =
    let known = ks.represented y repr in
    let signed = server_signed hashes server y pad in
    let tag =
      mac hashes server.server_identity.public server.node_id (signed ++ server.epoch_hour) in
    let sent = sym (ap (λ r. server_message hashes server r (some pad)) repr) ∙ generated in
    let same : signed ++ tag ≡ msg = cc sent in
    let done' : client_handshake curve hashes keypair (curve.to_public y)
          server.server_identity.public server.node_id
        ≡ (true, (seed, server.server_auth)) =
      ap (λ p. client_handshake curve hashes keypair p server.server_identity.public server.node_id)
        known.0
      ∙ done in
    let size = length-message curve hashes keypair server y pad seed known.1 ha hmax first done' in
    loop-completes curve hashes keypair server y pad seed known.1 ha hmax first done'
      (in_step keypair server) [] rest reads (inl refl) (delivered ∙ ap (λ m. m ++ rest) (sym same))
      (omega (arith, size))
