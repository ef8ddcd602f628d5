-- ===== src/Scramblesuit/Handshake/Accepts.antt =====
-- The client accepts what a server answers, and has its secret; an answer that is cut in its MAC ends
-- the handshake.
use wfdef.Prelude.{
  ◌+◌, ◌≤◌, ◌≡◌, refl, ap, ◌∙◌, none, some, ◌++◌, append_assoc, Bytes, length, length-append,
  length-take, take, take-append, min, le→ltb, bytes_eq_self, index, ok, arith,
}
use wfdef.Uniformdh.{PublicKey, set_bytes, handshake}
use wfdef.Uniformdh.Agreement.{Agreed}
use wfdef.Defconn.Handshake.{slice}
use wfdef.Defconn.Handshake.Find.{slice-append, index-slice}
use wfdef.Scramblesuit.Handshake.{
  Hashes, dh_max_pad_length, ClientHandshake, validates, finds, parse_server_handshake,
}

module _ (hashes : Hashes) where
  abbrev pub mark_of : Bytes → Bytes → Bytes
  mark_of key y = take 16 (hashes.hmac key y)

  -- Y | P_S | M_S
  abbrev pub signed : Bytes → Bytes → Bytes → Bytes
  signed key y pad = y ++ (pad ++ mark_of key y)

  abbrev pub tag_of : Bytes → Bytes → Bytes → Bytes → Bytes
  tag_of key hour y pad = take 16 (hashes.hmac key (signed key y pad ++ hour))

  length-mark : (key message : Bytes) → length (take 16 (hashes.hmac key message)) ≡ 16
  length-mark key message =
      omega (arith, length-take 16 (hashes.hmac key message), hashes.length-hmac key message)

  -- The client's state when it has read a public key.
  abbrev pub knowing : ClientHandshake → Bytes → PublicKey → ClientHandshake
  knowing hs y public = record hs {
    server_public_key = some public;
    written = y;
    server_mark = mark_of hs.key y;
  }

  module _ (hs : ClientHandshake) (y pad part : Bytes) (public : PublicKey) (hy : length y ≡ 192)
      (hp : length pad ≤ dh_max_pad_length)
      (first : index (pad ++ mark_of hs.key y) (mark_of hs.key y) ≡ some (length pad))
      (fresh : hs.server_public_key ≡ none) (takes : set_bytes y ≡ ok public) where
    -- What the client has received: all up to the mark, and more.
    abbrev received : Bytes
    received = signed hs.key y pad ++ part

    received-parts : received ≡ y ++ (pad ++ (mark_of hs.key y ++ part))
    received-parts =
        append_assoc y (pad ++ mark_of hs.key y) part
        ∙ ap (λ r. y ++ r) (append_assoc pad (mark_of hs.key y) part)

    length-signed : length (signed hs.key y pad) ≡ length pad + 192 + 16
    length-signed = omega (
      arith,
      hy,
      length-mark hs.key y,
      length-append y (pad ++ mark_of hs.key y),
      length-append pad (mark_of hs.key y),
    )

    length-received : length received ≡ 208 + (length pad + length part)
    length-received = omega (arith, length-signed, length-append (signed hs.key y pad) part)

    first_key : take 192 received ≡ y
    first_key = ap (take 192) received-parts ∙ take-append 192 y _ hy

    found :
        index (slice 192 (min (length received) 1516) received) (mark_of hs.key y)
        ≡ some (length pad)
    found =
        ap (λ r. index (slice 192 (min (length received) 1516) r) (mark_of hs.key y)) received-parts
        ∙ (rw hy at (
            index-slice y pad (mark_of hs.key y) part (min (length received) 1516)
              (omega (arith, hy, hp, length-received, length-mark hs.key y)) first))

    -- It comes to the check of the MAC behind the mark, however little of it has come.
    parses :
        (spare : Bytes)
        → 16 ≤ length pad + length part
        → parse_server_handshake hashes hs received spare
          ≡ validates hashes (knowing hs y public) received spare (length pad + 192)
    unfolding parse_server_handshake finds
    parses spare enough =
        let long = le→ltb (length received) 224 (omega (arith, enough, length-received)) in
        let behind = le→ltb (length received) (length pad + 32) (omega (arith, length-received)) in
        rw (long, fresh, first_key, takes, found, behind) refl

    signed_part : slice 192 (length pad + 192 + 16) received ≡ pad ++ mark_of hs.key y
    signed_part =
        let size : length (pad ++ mark_of hs.key y) ≡ length pad + 16 =
          omega (arith, length-mark hs.key y, length-append pad (mark_of hs.key y)) in
        let end_eq : length y + (length pad + 16) ≡ length pad + 192 + 16 = omega (arith, hy) in
        ap (slice 192 (length pad + 192 + 16)) (append_assoc y (pad ++ mark_of hs.key y) part)
        ∙ (rw (end_eq, hy) at
            (slice-append y (pad ++ mark_of hs.key y) part (length pad + 16) size))

  -- When the MAC and more has come.
  module _ (hs : ClientHandshake) (y pad rest spare : Bytes) (public : PublicKey) (secret : Bytes)
      (hy : length y ≡ 192) (hp : length pad ≤ dh_max_pad_length)
      (first : index (pad ++ mark_of hs.key y) (mark_of hs.key y) ≡ some (length pad))
      (fresh : hs.server_public_key ≡ none) (takes : set_bytes y ≡ ok public)
      (shared : handshake hs.keypair public ≡ ok secret) where
    abbrev answer : Bytes
    answer = signed hs.key y pad ++ (tag_of hs.key hs.epoch_hour y pad ++ rest)

    mac_part :
        slice (length pad + 192 + 16) (length pad + 192 + 32) (answer ++ spare)
        ≡ tag_of hs.key hs.epoch_hour y pad
    mac_part =
        let front =
          length-signed hs y pad (tag_of hs.key hs.epoch_hour y pad ++ rest) public hy hp first
            fresh takes in
        let tag = tag_of hs.key hs.epoch_hour y pad in
        let end_eq : length pad + 192 + 16 + 16 ≡ length pad + 192 + 32 = omega arith in
        ap (slice (length pad + 192 + 16) (length pad + 192 + 32)) (
          append_assoc (signed hs.key y pad) (tag ++ rest) spare
          ∙ ap (λ r. signed hs.key y pad ++ r) (append_assoc tag rest spare))
        ∙ (rw (front, end_eq) at
            (slice-append (signed hs.key y pad) tag (rest ++ spare) 16
              (length-mark hs.key (signed hs.key y pad ++ hs.epoch_hour))))

    accepts :
        (parse_server_handshake hashes hs answer spare).1
        ≡ some (ok (length pad + 192 + 32, hashes.sum256 secret))
    unfolding validates
    accepts =
        let tag = tag_of hs.key hs.epoch_hour y pad in
        let part = tag ++ rest in
        let ht = length-mark hs.key (signed hs.key y pad ++ hs.epoch_hour) in
        let size = length-received hs y pad part public hy hp first fresh takes in
        let enough : 16 ≤ length pad + length part = omega (arith, ht, length-append tag rest) in
        let room =
          le→ltb (length (answer ++ spare)) (length pad + 192 + 32)
            (omega (arith, size, ht, length-append tag rest, length-append answer spare)) in
        ap (λ r. r.1) (parses hs y pad part public hy hp first fresh takes spare enough)
        ∙ (rw
            (
              room,
              signed_part hs y pad part public hy hp first fresh takes,
              mac_part,
              bytes_eq_self tag,
              shared,
            )
            refl)

  -- With a client and a server that have keys: when all of the server's answer to the client has come,
  -- with whatever stands behind it, and the mark is not in the padding before its place, the client
  -- takes just the answer, and derives its seed from the secret that the server has, too.
  pub parse_server_handshake-Agreed :
      (xs ys : Bytes) (g : Agreed xs ys) (hs : ClientHandshake) (pad rest spare : Bytes)
      → hs.keypair ≡ g.a
      → hs.server_public_key ≡ none
      → length pad ≤ dh_max_pad_length
      → index (pad ++ mark_of hs.key g.b.public.bytes) (mark_of hs.key g.b.public.bytes)
        ≡ some (length pad)
      → (handshake g.b g.to_b ≡ ok g.secret)
        × ((parse_server_handshake hashes hs
              (signed hs.key g.b.public.bytes pad
                ++ (tag_of hs.key hs.epoch_hour g.b.public.bytes pad ++ rest))
              spare).1
            ≡ some (
                ok (
                  length (
                      signed hs.key g.b.public.bytes pad
                      ++ tag_of hs.key hs.epoch_hour g.b.public.bytes pad),
                  hashes.sum256 g.secret,
                )))
  parse_server_handshake-Agreed xs ys g hs pad rest spare own fresh hp first =
      let y = g.b.public.bytes in
      let shared : handshake hs.keypair g.to_a ≡ ok g.secret = rw own g.a_secret in
      let tag = tag_of hs.key hs.epoch_hour y pad in
      let whole : length pad + 192 + 32 ≡ length (signed hs.key y pad ++ tag) = omega (
        arith,
        length-append (signed hs.key y pad) tag,
        length-mark hs.key (signed hs.key y pad ++ hs.epoch_hour),
        length-signed hs y pad (tag ++ rest) g.to_a g.length_b hp first fresh g.to_a_eq,
      ) in
      (
        g.b_secret,
        accepts hs y pad rest spare g.to_a g.secret g.length_b hp first fresh g.to_a_eq shared
            ∙ ap (λ n. some (ok (n, hashes.sum256 g.secret))) whole,
      )
