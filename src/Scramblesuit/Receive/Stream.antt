-- ===== src/Scramblesuit/Receive/Stream.antt =====
-- A stream of packets is read back whole.
use mathlib.Core.Path.{subst}
use wfdef.Prelude.{
  ℕ, zero, suc, ◌+◌, ◌*◌, ◌≤◌, ◌<◌, ◌≡◌, refl, sym, ap, ◌∙◌, true, false, Bool-cases, inl, inr,
  none, some, [], ◌++◌, append-nil, append_assoc, Bytes, length, length-append, ltb, lt→ltb, arith,
}
use wfdef.Scramblesuit.{Crypto, FrameBuf, make_packet, pkt_payload, max_payload_length}
use wfdef.Scramblesuit.Receive.{
  cleared, Receiver, goes, round, Ran, returns, invalid, out_of_fuel, process, read_packets,
}
use wfdef.Scramblesuit.Receive.RoundTrip.{StreamLaws, header, rest_of, length-rest_of, round-read}

module _ {S : Type 0} (k : Crypto S) where
  -- Packets of payload that a sender makes one after the other: the states of its cipher before and
  -- after, what goes to the wire, and the data.
  pub data Sends : S → Bytes → Bytes → S → Type 0 where
    nothing : {s : S} → Sends s [] [] s
    sends :
        {s s' : S} {wire bytes : Bytes} (body : Bytes) (pad_len : ℕ) (t : FrameBuf S)
        → make_packet k pkt_payload body pad_len (record { tx = s; frame_buf = [] }) ≡ some t
        → Sends t.tx wire bytes s'
        → Sends s (t.frame_buf ++ wire) (body ++ bytes) s'

  -- A receiver that has read `bytes`, and nothing else is left.
  pub record HasRead (r : Receiver S) (bytes : Bytes) (s : S) (r' : Receiver S) : Type 0 where
    pub decoded_eq : r'.decoded ≡ r.decoded ++ bytes
    pub nothing_left : r'.receive_buffer ≡ []
    pub fresh_state : r'.state ≡ cleared
    pub in_step : r'.rx ≡ s

  abbrev pub ReadsBack : Receiver S → Bytes → S → Ran S → Type 0
  ReadsBack r bytes s (returns r') = HasRead r bytes s r'
  ReadsBack r bytes s (invalid r') = ⊥
  ReadsBack r bytes s out_of_fuel = ⊥

module _ {S : Type 0} (k : Crypto S) (laws : StreamLaws k) where
  -- The cipher on a packet, part by part.
  abbrev sealed_header : S → Bytes → ℕ → Bytes
  sealed_header s body pad_len = (k.xor s (header body pad_len)).0

  abbrev sealed : S → Bytes → ℕ → Bytes
  sealed s body pad_len = (k.xor (k.xor s (header body pad_len)).1 (rest_of body pad_len)).0

  abbrev after : S → Bytes → ℕ → S
  after s body pad_len = (k.xor (k.xor s (header body pad_len)).1 (rest_of body pad_len)).1

  -- A packet that was made, as it is on the wire.
  abbrev made : S → Bytes → ℕ → FrameBuf S
  made s body pad_len =
      let pkt = sealed_header s body pad_len ++ sealed s body pad_len in
      record { tx = after s body pad_len; frame_buf = k.mac pkt ++ pkt }

  make_packet-made :
      (s : S) (body : Bytes) (pad_len : ℕ) (t : FrameBuf S)
      → make_packet k pkt_payload body pad_len (record { tx = s; frame_buf = [] }) ≡ some t
      → (length body + pad_len ≤ max_payload_length) × (made s body pad_len ≡ t)
  unfolding make_packet
  make_packet-made s body pad_len t h =
      elim (Bool-cases (ltb max_payload_length (length body + pad_len))) [
        | inl long ↦ let panics : none ≡ some t = rw long at h in cc
        | inr fits ↦
            let gives =
              rw (fits, laws.xor-append s (header body pad_len) (rest_of body pad_len)) at h in
            (ground arith, cc gives)
      ]

  -- The round on a packet that was made.
  round-made :
      (r : Receiver S) (s : S) (body : Bytes) (pad_len : ℕ) (t : FrameBuf S) (more : Bytes)
      → make_packet k pkt_payload body pad_len (record { tx = s; frame_buf = [] }) ≡ some t
      → r.state ≡ cleared
      → r.rx ≡ s
      → r.receive_buffer ≡ t.frame_buf ++ more
      → round k r
        ≡ goes (record r {
          rx = t.tx;
          digest = sealed_header s body pad_len ++ sealed s body pad_len;
          receive_buffer = more;
          decoded = r.decoded ++ body;
          state = cleared;
        })
  round-made r s body pad_len t more h fresh in_step buffered =
      let known = make_packet-made s body pad_len t h in
      let first = sealed_header s body pad_len in
      let second = sealed s body pad_len in
      let tx = (k.xor s (header body pad_len)).1 in
      let mac = k.mac (first ++ second) in
      let parts : r.receive_buffer ≡ mac ++ (first ++ (second ++ more)) =
        buffered
        ∙ ap (λ r. r ++ more) (sym (ap (λ r. r.frame_buf) known.1))
        ∙ append_assoc mac (first ++ second) more
        ∙ ap (λ r. mac ++ r) (append_assoc first second more) in
      let hs : length second ≡ length body + pad_len =
        k.length-xor tx (rest_of body pad_len) ∙ length-rest_of body pad_len in
      let opens_header : k.xor r.rx first ≡ (header body pad_len, tx) =
        ap (λ r. k.xor r first) in_step ∙ laws.xor-xor s (header body pad_len) in
      round-read k laws body pad_len known.0 r mac first second more tx (after s body pad_len) fresh
        (k.length-mac (first ++ second)) (k.length-xor s (header body pad_len)) hs opens_header
        (laws.xor-xor tx (rest_of body pad_len)) refl parts
      ∙ ap
          (λ x. goes (record r {
            rx = x;
            digest = first ++ second;
            receive_buffer = more;
            decoded = r.decoded ++ body;
            state = cleared;
          }))
          (ap (λ r. r.tx) known.1)

  ReadsBack-append :
      (r r' : Receiver S) (body bytes : Bytes) (s : S) (ran : Ran S)
      → r'.decoded ≡ r.decoded ++ body
      → ReadsBack k r' bytes s ran
      → ReadsBack k r (body ++ bytes) s ran
  ReadsBack-append r r' body bytes s (returns r'') eq h = record {
    decoded_eq = h.decoded_eq ∙ ap (λ r. r ++ bytes) eq ∙ append_assoc r.decoded body bytes;
    nothing_left = h.nothing_left;
    fresh_state = h.fresh_state;
    in_step = h.in_step;
  }
  ReadsBack-append r r' body bytes s (invalid r'') eq h = h
  ReadsBack-append r r' body bytes s out_of_fuel eq h = h

  process-ReadsBack :
      (fuel : ℕ) {s s' : S} {wire bytes : Bytes} (r : Receiver S)
      → Sends k s wire bytes s'
      → length wire < fuel
      → r.state ≡ cleared
      → r.rx ≡ s
      → r.receive_buffer ≡ wire
      → ReadsBack k r bytes s' (process k fuel r)
  unfolding process
  process-ReadsBack zero r sent h fresh in_step buffered =
      let no : ⊥ = omega (arith, h) in elim no [ ]
  process-ReadsBack (suc fuel) r nothing h fresh in_step buffered =
      let empty : ltb 0 (length r.receive_buffer) ≡ false = rw buffered refl in
      rw (empty, process)
        (record {
          decoded_eq = sym (append-nil r.decoded);
          nothing_left = buffered;
          fresh_state = fresh;
          in_step = in_step;
        })
  process-ReadsBack (suc fuel) {s} {s'} r
        (sends {wire = wire} {bytes = bytes} body pad_len t made_eq rest) h fresh in_step buffered =
      let known = make_packet-made s body pad_len t made_eq in
      let size : 16 ≤ length t.frame_buf = rw (sym (ap (λ r. r.frame_buf) known.1)) (
        omega (
          arith,
          k.length-mac (sealed_header s body pad_len ++ sealed s body pad_len),
          length-append (k.mac (sealed_header s body pad_len ++ sealed s body pad_len))
              (sealed_header s body pad_len ++ sealed s body pad_len),
        )) in
      let more : ltb 0 (length r.receive_buffer) ≡ true =
        lt→ltb 0 (length r.receive_buffer)
          (omega (arith, ap length buffered, size, length-append t.frame_buf wire)) in
      rw (more, round-made r s body pad_len t wire made_eq fresh in_step buffered, process)
        (ReadsBack-append r _ body bytes s' _ refl (
          process-ReadsBack fuel _ rest (omega (arith, h, size, length-append t.frame_buf wire))
            refl refl refl))

  -- With a stream cipher: a receiver in step with the sender, with no packet begun and nothing in its
  -- buffer, that gets the packets of payload which the sender made, of any lengths and paddings, reads
  -- all of their data in its order, finds no invalid packet, has nothing left and is in step again.
  pub read_packets-ReadsBack :
      {s s' : S} {wire bytes : Bytes} (r : Receiver S)
      → Sends k s wire bytes s'
      → r.state ≡ cleared
      → r.rx ≡ s
      → r.receive_buffer ≡ []
      → ReadsBack k r bytes s' (read_packets k r wire)
  unfolding read_packets
  read_packets-ReadsBack {s' = s'} {wire = wire} {bytes = bytes} r sent fresh in_step empty =
      subst
        (λ b.
          ReadsBack k r bytes s' (process k (2 * length b + 2) (record r { receive_buffer = b })))
        (sym (ap (λ b. b ++ wire) empty))
        (ReadsBack-append r (record r { receive_buffer = wire }) [] bytes s' _
          (sym (append-nil r.decoded))
          (process-ReadsBack (2 * length wire + 2) (record r { receive_buffer = wire }) sent
            (omega arith) fresh in_step refl))
