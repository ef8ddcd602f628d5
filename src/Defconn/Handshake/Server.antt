-- ===== src/Defconn/Handshake/Server.antt =====
-- The server accepts what a client generates within an hour of its own clock, and is then in step
-- with it.
use wfdef.Prelude.{
  ℕ, ◌+◌, ◌≤◌, ◌≡◌, refl, sym, ap, ◌∙◌, Bool, true, false, Bool-cases, inl, inr, Option, none, some,
  List, [], ◌∷◌, ◌++◌, append_assoc, append-nil, Bytes, length, length-append, length-take, take,
  take-append, ltb, le→ltb, ==_iff, if◌then◌else◌, bytes_eq, format_int, ok, err, arith,
}
use wfdef.Ntor.{Curve, CurveLaws, Hashes, Keypair, server_handshake, client_handshake}
use wfdef.Ntor.Agreement.{IsKeypair, client_handshake-server_handshake}
use wfdef.ReplayFilter.{ReplayFilter, test_and_set}
use wfdef.Defconn.Handshake.{
  at, slice, find_mark_mac, client_min_pad_length, client_max_pad_length, mark_not_found_yet,
  epoch_hour, hours, ClientHandshake, ServerHandshake, new_client_handshake, new_server_handshake,
  mac, client_message, client_generate,
}
use wfdef.Defconn.Handshake.Find.{find_mark_mac-tail, slice-append}
use wfdef.Defconn.Handshake.Parse.{
  tried, replay, try_hours, server_accepts, server_checks, server_finds, server_reads,
  parse_client_handshake,
}

module _ (hashes : Hashes) where
  pub length-mac :
      (public node_id message : Bytes) → length (mac hashes public node_id message) ≡ 16
  length-mac public node_id message =
      let size = hashes.length-hmac (public ++ node_id) message in
      omega (arith, size, length-take 16 (hashes.hmac (public ++ node_id) message))

  -- The hours of a list under which a MAC is that of a message.
  abbrev pub keep : Bool → Bytes → List Bytes → List Bytes
  keep true e es = e ∷ es
  keep false e es = es

  abbrev pub fitting : ServerHandshake → Bytes → Bytes → List Bytes → List Bytes
  fitting hs signed mac_rx [] = []
  fitting hs signed mac_rx (e ∷ es) =
      keep (bytes_eq (mac hashes hs.server_identity.public hs.node_id (signed ++ e)) mac_rx) e
        (fitting hs signed mac_rx es)

  -- A MAC that fits no hour of the rest.
  try_hours-unfit :
      (hs : ServerHandshake) (now : ℕ) (signed mac_rx : Bytes) (es : List Bytes)
      (filter : ReplayFilter) (hour : Option Bytes)
      → fitting hs signed mac_rx es ≡ []
      → try_hours hashes hs now signed mac_rx es filter hour ≡ tried filter hour
  unfolding try_hours
  try_hours-unfit hs now signed mac_rx [] filter hour h = refl
  try_hours-unfit hs now signed mac_rx (e ∷ es) filter hour h =
      elim (Bool-cases
        (bytes_eq (mac hashes hs.server_identity.public hs.node_id (signed ++ e)) mac_rx)) [
          | inl fits ↦ let bad : e ∷ fitting hs signed mac_rx es ≡ [] = rw fits at h in cc
          | inr other ↦
              rw (other, try_hours)
                (try_hours-unfit hs now signed mac_rx es filter hour (rw other at h))
        ]

  -- A new MAC that fits one hour.
  pub try_hours-fits :
      (hs : ServerHandshake) (now : ℕ) (signed mac_rx e : Bytes) (es : List Bytes)
      (filter : ReplayFilter) (hour : Option Bytes)
      → fitting hs signed mac_rx es ≡ e ∷ []
      → (test_and_set filter now mac_rx).1 ≡ false
      → try_hours hashes hs now signed mac_rx es filter hour
        ≡ tried (test_and_set filter now mac_rx).0 (some e)
  unfolding try_hours
  try_hours-fits hs now signed mac_rx e [] filter hour h new = cc
  try_hours-fits hs now signed mac_rx e (d ∷ es) filter hour h new =
      elim (Bool-cases
        (bytes_eq (mac hashes hs.server_identity.public hs.node_id (signed ++ d)) mac_rx)) [
          | inl fits ↦
              let found : d ∷ fitting hs signed mac_rx es ≡ e ∷ [] = rw fits at h in
              let same : d ≡ e = cc in
              let rest : fitting hs signed mac_rx es ≡ [] = cc in
              rw (fits, new, try_hours)
                (try_hours-unfit hs now signed mac_rx es (test_and_set filter now mac_rx).0 (some d)
                    rest
                  ∙ ap (λ d. tried (test_and_set filter now mac_rx).0 (some d)) same)
          | inr other ↦
              rw (other, try_hours)
                (try_hours-fits hs now signed mac_rx e es filter hour (rw other at h) new)
        ]

  -- A MAC that has been seen.
  pub try_hours-replay :
      (hs : ServerHandshake) (now : ℕ) (signed mac_rx e : Bytes) (es rest : List Bytes)
      (filter : ReplayFilter) (hour : Option Bytes)
      → fitting hs signed mac_rx es ≡ e ∷ rest
      → (test_and_set filter now mac_rx).1 ≡ true
      → try_hours hashes hs now signed mac_rx es filter hour
        ≡ replay (test_and_set filter now mac_rx).0 hour
  unfolding try_hours
  try_hours-replay hs now signed mac_rx e [] rest filter hour h seen = cc
  try_hours-replay hs now signed mac_rx e (d ∷ es) rest filter hour h seen =
      elim (Bool-cases
        (bytes_eq (mac hashes hs.server_identity.public hs.node_id (signed ++ d)) mac_rx)) [
          | inl fits ↦ rw (fits, seen, try_hours) refl
          | inr other ↦
              rw (other, try_hours)
                (try_hours-replay hs now signed mac_rx e es rest filter hour (rw other at h) seen)
        ]

-- The server's state when it has read a representative.
abbrev pub knowing : Hashes → ServerHandshake → Bytes → ServerHandshake
knowing hashes hs x = record hs {
  client_representative = some x;
  client_mark = mac hashes hs.server_identity.public hs.node_id x;
}

-- X | P_C | M_C of a client with the identity of the server, and the MAC behind it.
abbrev pub signed_by : Hashes → Bytes → Bytes → Bytes → Bytes → Bytes
signed_by hashes public node_id x pad = x ++ (pad ++ mac hashes public node_id x)

abbrev pub tag_of : Hashes → Bytes → Bytes → Bytes → Bytes → Bytes → Bytes
tag_of hashes public node_id x pad hour =
    mac hashes public node_id (signed_by hashes public node_id x pad ++ hour)

module _ (curve : Curve) (hashes : Hashes) where
  -- The parts of a message as the server takes it apart.
  pub parse_client_handshake-parts :
      (hs : ServerHandshake) (filter : ReplayFilter) (now : ℕ) (x pad tag : Bytes)
      → hs.client_representative ≡ none
      → length x ≡ 32
      → client_min_pad_length ≤ length pad
      → length pad ≤ client_max_pad_length
      → length tag ≡ 16
      → (let signed = x ++ (pad ++ mac hashes hs.server_identity.public hs.node_id x) in
          parse_client_handshake curve hashes hs filter now (signed ++ tag)
          ≡ some (
              server_checks curve hashes
                (knowing hashes hs x)
                (length (signed ++ tag))
                (length (x ++ pad))
                (try_hours hashes
                  (knowing hashes hs x)
                  now
                  signed
                  tag
                  (hours (epoch_hour now))
                  filter
                  none)))
  unfolding parse_client_handshake server_finds
  parse_client_handshake-parts hs filter now x pad tag fresh hx hmin hmax ht =
      let mark = mac hashes hs.server_identity.public hs.node_id x in
      let hm = length-mac hashes hs.server_identity.public hs.node_id x in
      let signed = x ++ (pad ++ mark) in
      let size : length (signed ++ tag) ≡ 64 + length pad = omega (
        arith,
        hx,
        hm,
        ht,
        length-append signed tag,
        length-append x (pad ++ mark),
        length-append pad mark,
      ) in
      let long = le→ltb (length (signed ++ tag)) 64 (omega (arith, size)) in
      let front : take 32 (signed ++ tag) ≡ x =
        ap (take 32) (append_assoc x (pad ++ mark) tag) ∙ take-append 32 x _ hx in
      let regroup : signed ++ tag ≡ (x ++ pad) ++ (mark ++ tag) =
        ap (λ s. s ++ tag) (sym (append_assoc x pad mark)) ∙ append_assoc (x ++ pad) mark tag in
      let body_size = length-append x pad in
      let found : find_mark_mac mark (signed ++ tag) (32 + client_min_pad_length) 8192 true
          ≡ at (length (x ++ pad)) =
        ap (λ r. find_mark_mac mark r (32 + client_min_pad_length) 8192 true) regroup
        ∙ find_mark_mac-tail (x ++ pad) mark tag (32 + client_min_pad_length) 8192 hm ht
            (omega (arith, body_size)) (omega (arith, body_size)) in
      let reads : server_reads hashes hs (signed ++ tag) hs.client_representative
          ≡ knowing hashes hs x =
        ap (server_reads hashes hs (signed ++ tag)) fresh ∙ ap (knowing hashes hs) front in
      let before_tag : length (x ++ pad) + 16 ≡ length signed =
        omega (arith, hm, body_size, length-append x (pad ++ mark), length-append pad mark) in
      let behind : length (x ++ pad) + 16 + 16 ≡ length signed + 16 = omega (arith, before_tag) in
      let head : take (length (x ++ pad) + 16) (signed ++ tag) ≡ signed =
        rw before_tag (take-append (length signed) signed tag refl) in
      let rest : slice (length (x ++ pad) + 16) (length (x ++ pad) + 16 + 16) (signed ++ tag)
          ≡ tag =
        rw (behind, before_tag)
          (ap (λ t. slice (length signed) (length signed + 16) (signed ++ t)) (sym (append-nil tag))
            ∙ slice-append signed tag [] 16 ht) in
      ap
        (λ k.
          if ltb (length (signed ++ tag)) 64
          then some (hs, filter, err mark_not_found_yet)
          else server_finds curve hashes k filter now (signed ++ tag)
              (find_mark_mac k.client_mark (signed ++ tag) (32 + client_min_pad_length) 8192 true))
        reads
      ∙ (rw (long, found, head, rest, server_finds) refl)

  checks_pass :
      (hs : ServerHandshake) (x : Bytes) (size pos : ℕ) (filter : ReplayFilter) (hour : Bytes)
      (r : Bool × (Bytes × Bytes))
      → size ≡ pos + 16 + 16
      → hs.client_representative ≡ some x
      → server_handshake curve hashes (curve.to_public x) hs.keypair hs.server_identity hs.node_id
        ≡ r
      → r.0 ≡ true
      → server_checks curve hashes hs size pos (tried filter (some hour))
        ≡ (record hs { epoch_hour = hour; server_auth = r.1.1 }, filter, ok r.1.0)
  unfolding server_checks
  checks_pass hs x size pos filter hour (false, k) fits known done status = cc
  checks_pass hs x size pos filter hour (true, k) fits known done status =
      let exact = (==_iff size (pos + 16 + 16)).1 fits in
      rw (exact, known)
        (ap
          (server_accepts curve hashes
            (record hs { epoch_hour = hour; client_representative = some x }) filter)
          done)

  -- A client's message, made with a padding of a length that the code draws, a key pair with a
  -- representative and the server's identity. If its MAC fits just one of the server's three hours,
  -- which is the client's, the filter has not seen it and the key exchange succeeds, the server
  -- accepts it: it has the key seed and the authentication tag that the client will have, and the
  -- client's hour, and the filter has the MAC.
  pub parse_client_handshake-client_generate :
      (client session identity : Keypair) (node_id x pad msg : Bytes) (made now : ℕ)
      (filter : ReplayFilter) (hs' : ClientHandshake)
      → CurveLaws curve
      → IsKeypair curve client
      → IsKeypair curve session
      → IsKeypair curve identity
      → client.representative ≡ some x
      → client_min_pad_length ≤ length pad
      → length pad ≤ client_max_pad_length
      → client_generate hashes (new_client_handshake node_id identity.public client) (some pad) made
        ≡ (hs', ok msg)
      → fitting hashes
          (knowing hashes (new_server_handshake node_id identity session) x)
          (signed_by hashes identity.public node_id x pad)
          (tag_of hashes identity.public node_id x pad (format_int (epoch_hour made)))
          (hours (epoch_hour now))
        ≡ format_int (epoch_hour made) ∷ []
      → (test_and_set filter now
          (tag_of hashes identity.public node_id x pad (format_int (epoch_hour made)))).1
        ≡ false
      → (client_handshake curve hashes client session.public identity.public node_id).0 ≡ true
      → (let keys = client_handshake curve hashes client session.public identity.public node_id in
          parse_client_handshake curve hashes
            (new_server_handshake node_id identity session)
            filter
            now
            msg
          ≡ some (
            record (knowing hashes (new_server_handshake node_id identity session) x) {
              epoch_hour = hs'.epoch_hour;
              server_auth = keys.1.1;
            },
            (test_and_set filter now
                (tag_of hashes identity.public node_id x pad (format_int (epoch_hour made)))).0,
            ok keys.1.0,
          ))
  unfolding client_generate
  parse_client_handshake-client_generate client session identity node_id x pad msg made now filter
        hs' laws kc ks ki repr hmin hmax generated fits new status =
      let server = new_server_handshake node_id identity session in
      let chs = new_client_handshake node_id identity.public client in
      let signed = signed_by hashes identity.public node_id x pad in
      let hour = format_int (epoch_hour made) in
      let tag = mac hashes identity.public node_id (signed ++ hour) in
      let known = kc.represented x repr in
      let ht = length-mac hashes identity.public node_id (signed ++ hour) in
      let hm = length-mac hashes identity.public node_id x in
      let width = known.1 in
      let message = sym (ap (λ r. client_message hashes chs made r (some pad)) repr) ∙ generated in
      let same_msg : signed ++ tag ≡ msg = cc message in
      let same_hour : hour ≡ hs'.epoch_hour = ap (λ r. r.0.epoch_hour) message in
      let mark = mac hashes identity.public node_id x in
      let size : length (signed ++ tag) ≡ length (x ++ pad) + 16 + 16 = omega (
        arith,
        hm,
        ht,
        width,
        length-append signed tag,
        length-append x (pad ++ mark),
        length-append pad mark,
        length-append x pad,
      ) in
      let keys = client_handshake curve hashes client session.public identity.public node_id in
      let agree : server_handshake curve hashes (curve.to_public x) session identity node_id
          ≡ keys =
        ap (λ p. server_handshake curve hashes p session identity node_id) known.0
        ∙ sym (
            client_handshake-server_handshake curve hashes laws client session identity node_id kc
              ks ki) in
      rw (← same_msg, ← same_hour)
        (parse_client_handshake-parts server filter now x pad tag refl width hmin hmax ht
          ∙ ap some (
              ap
                (server_checks curve hashes (knowing hashes server x) (length (signed ++ tag))
                  (length (x ++ pad)))
                (try_hours-fits hashes (knowing hashes server x) now signed tag hour
                  (hours (epoch_hour now)) filter none fits new)
              ∙ checks_pass (knowing hashes server x) x (length (signed ++ tag)) (length (x ++ pad))
                  (test_and_set filter now tag).0 hour keys size refl agree status))
