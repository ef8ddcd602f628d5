-- ===== src/Defconn/Connect/Waits.antt =====
-- The client waits while the server's message is not complete, and takes it when it is, in whatever
-- parts it arrives.
use wfdef.Prelude.{
  ℕ, ◌+◌, ◌-◌, ◌≤◌, ◌<◌, ◌≡◌, ◌≢◌, refl, sym, ap, ◌∙◌, false, ◌⊎◌, inl, inr, none, some, ◌++◌,
  append_assoc, Bytes, length, length-append, take, drop, take-append_of_le, take-drop, drop-drop,
  drop-append, ltb, leb, lt→ltb, le→ltb, dec_lt, if◌then◌else◌, has_prefix-of_take, index,
  index-append, index-le, err, arith,
}
use wfdef.Ntor.{Curve, Hashes, Keypair}
use wfdef.Defconn.Handshake.{
  mark_not_found_yet, Found, panicked, missing, at, find_mark_mac, server_max_pad_length,
  ClientHandshake, ServerHandshake,
}
use wfdef.Defconn.Handshake.Find.{find_mark_mac_sound, find_mark_mac-ne_panicked}
use wfdef.Defconn.Handshake.Parse.{client_reads, client_finds, parse_server_handshake}
use wfdef.Defconn.Handshake.Server.{length-mac}
use wfdef.Defconn.Handshake.Client.{
  mark_of, knowing_server, in_step, message, message-parts, message-reads,
}

-- The states of a client that waits for the message.
abbrev pub Waiting : Hashes → ServerHandshake → Bytes → Keypair → ClientHandshake → Type 0
Waiting hashes server y keypair hs =
    (hs ≡ in_step keypair server)
    ⊎ (hs ≡ knowing_server hashes (in_step keypair server) y server.server_auth)

-- A part of the server's message, `part ++ more`.
module _ (hashes : Hashes) (server : ServerHandshake) (y pad tag rest : Bytes) (hy : length y ≡ 32)
    (ha : length server.server_auth ≡ 32) (ht : length tag ≡ 16) (part more : Bytes)
    (split : part ++ more ≡ message hashes server y pad tag rest) where
  -- What the client knows when it has read the first 64 bytes.
  reads-part :
      (keypair : Keypair)
      → 64 ≤ length part
      → client_reads hashes (in_step keypair server) part none
        ≡ knowing_server hashes (in_step keypair server) y server.server_auth
  reads-part keypair long =
      let whole = message hashes server y pad tag rest in
      let knows = λ (a b : Bytes). knowing_server hashes (in_step keypair server) a b in
      let one : take 32 part ≡ take 32 whole =
        sym (take-append_of_le 32 part more (omega (arith, long))) ∙ ap (take 32) split in
      let two : take 32 (drop 32 part) ≡ take 32 (drop 32 whole) =
        take-drop 32 32 part
        ∙ ap (drop 32) (sym (take-append_of_le 64 part more long) ∙ ap (take 64) split)
        ∙ sym (take-drop 32 32 whole) in
      ap (λ a. knows a (take 32 (drop 32 part))) one
      ∙ ap (knows (take 32 whole)) two
      ∙ message-reads hashes server y pad tag rest hy ha ht keypair

  pub reads-Waiting :
      (keypair : Keypair) (hs : ClientHandshake)
      → Waiting hashes server y keypair hs
      → 64 ≤ length part
      → client_reads hashes hs part hs.server_representative
        ≡ knowing_server hashes (in_step keypair server) y server.server_auth
  reads-Waiting keypair hs (inl e) long =
      ap (λ h. client_reads hashes h part h.server_representative) e ∙ reads-part keypair long
  reads-Waiting keypair hs (inr e) long =
      ap (λ h. client_reads hashes h part h.server_representative) e

-- A part of the server's message, `part ++ more`, that is too short to have it whole.
module _ (hashes : Hashes) (server : ServerHandshake) (y pad tag rest : Bytes) (hy : length y ≡ 32)
    (ha : length server.server_auth ≡ 32) (ht : length tag ≡ 16)
    (first : index (pad ++ mark_of hashes server y) (mark_of hashes server y) ≡ some (length pad))
    (part more : Bytes) (split : part ++ more ≡ message hashes server y pad tag rest)
    (short : length part < 96 + length pad) where
  -- Nothing that looks like the mark has room for a MAC behind it.
  not-at : (pos : ℕ) → find_mark_mac (mark_of hashes server y) part 64 8192 false ≢ at pos
  not-at pos found =
      let mark = mark_of hashes server y in
      let hm = length-mac hashes server.server_identity.public server.node_id y in
      let sound = find_mark_mac_sound mark part 64 8192 false pos found in
      let start = sound.0 in
      let room = sound.1 in
      let body = pad ++ (mark ++ (tag ++ rest)) in
      let front : length (y ++ server.server_auth) ≡ 64 =
        omega (arith, hy, ha, length-append y server.server_auth) in
      let whole : take 16 (drop pos (part ++ more)) ≡ mark =
        take-drop 16 pos (part ++ more)
        ∙ ap (drop pos) (take-append_of_le (pos + 16) part more (omega (arith, room)))
        ∙ sound.2 in
      let behind : drop 64 (part ++ more) ≡ body =
        ap (drop 64) (split ∙ message-parts hashes server y pad tag rest)
        ∙ drop-append 64 (y ++ server.server_auth) body front in
      let place : pos - 64 + 64 ≡ pos = omega (arith, start) in
      let there : take 16 (drop (pos - 64) body) ≡ mark =
        ap (λ b. take 16 (drop (pos - 64) b)) (sym behind)
        ∙ ap (take 16) (drop-drop (pos - 64) 64 (part ++ more))
        ∙ (rw place whole) in
      let occurs : index body mark ≡ some (length pad) =
        rw (← append_assoc pad mark (tag ++ rest))
          (index-append (pad ++ mark) (tag ++ rest) mark (length pad) first) in
      let least =
        index-le body mark (length pad) (pos - 64) occurs
          (has_prefix-of_take (drop (pos - 64) body) mark 16 hm there) in
      omega (arith, least, start, room, short)

  waits-missing : find_mark_mac (mark_of hashes server y) part 64 8192 false ≡ missing
  waits-missing = by_result (find_mark_mac (mark_of hashes server y) part 64 8192 false) refl
    where
      by_result :
          (r : Found)
          → find_mark_mac (mark_of hashes server y) part 64 8192 false ≡ r
          → find_mark_mac (mark_of hashes server y) part 64 8192 false ≡ missing
      by_result panicked e = absurd (
          find_mark_mac-ne_panicked (mark_of hashes server y) part 64 8192 false
            (length-mac hashes server.server_identity.public server.node_id y) e)
      by_result missing e = e
      by_result (at pos) e = absurd (not-at pos e)

  -- On a part of the message the client goes on waiting.
  pub parse_server_handshake-waits :
      (curve : Curve) (keypair : Keypair) (hs : ClientHandshake)
      → length pad ≤ server_max_pad_length
      → Waiting hashes server y keypair hs
      → (hs' : ClientHandshake) × (parse_server_handshake curve hashes hs part
          ≡ (hs', some (err mark_not_found_yet)))
        × Waiting hashes server y keypair hs'
  unfolding parse_server_handshake client_finds
  parse_server_handshake-waits curve keypair hs hmax w = elim (dec_lt (length part) 96) [
    | yes few ↦ (hs, rw (lt→ltb (length part) 96 few), w)
    | no more_of_it ↦
        let known = knowing_server hashes (in_step keypair server) y server.server_auth in
        let enough = le→ltb (length part) 96 (omega arith) in
        let under : leb 8192 (length part) ≡ false = ground arith in
        (
          known,
          ap
                (λ k. if ltb (length part) 96 then (hs, some (err mark_not_found_yet)) else (
                  k,
                  client_finds curve hashes k part (find_mark_mac k.server_mark part 64 8192 false),
                ))
                (reads-Waiting hashes server y pad tag rest hy ha ht part more split keypair hs w
                  (omega arith))
              ∙ (rw (enough, waits-missing, under, client_finds) refl),
          inr refl,
        )
  ]
