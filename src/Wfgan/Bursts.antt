-- ===== src/Wfgan/Bursts.antt =====
-- A burst sends as many packets as it is told to, all of one length, and the data in its order.
use wfdef.Prelude.{
  ℕ, zero, suc, ◌+◌, ◌-◌, ◌/◌, ◌≤◌, ◌<◌, ◌≡◌, refl, ap, ◌∙◌, Bool-cases, inl, inr, [], ◌∷◌, ◌++◌,
  append_assoc, append-nil, length, length-append, length-take, length-drop, take, drop,
  take-append-drop, ltb, leb, if◌then◌else◌, arith,
}
use wfdef.Defconn.PacketType
use wfdef.Defconn.Packet.{PacketInfo, max_packet_payload_length, max_packet_padding_length}
use wfdef.Defconn.Copy.Conserve.{bodies, bodies-append, AllFull, AllFull-append}
use wfdef.Wfgan.{
  Sender, send_packet, to_send, send_while, send_ref_burst, send_all, send_real_burst,
}

-- `c'` has sent `n` packets more than `c`.
pub record HasSent (n : ℕ) (c c' : Sender) : Type 0 where
  pub count : length c'.send_chan ≡ length c.send_chan + n
  pub conserved : bodies c'.send_chan ++ c'.receive_buf ≡ bodies c.send_chan ++ c.receive_buf
  pub accounted : c'.written + length c'.receive_buf ≡ c.written + length c.receive_buf
  pub full : AllFull c.send_chan → AllFull c'.send_chan

HasSent-trans :
    (m n : ℕ) (c c' c'' : Sender) → HasSent m c c' → HasSent n c' c'' → HasSent (m + n) c c''
HasSent-trans m n c c' c'' h k = record {
  count = (let first = h.count in let second = k.count in omega (arith, first, second));
  conserved = k.conserved ∙ h.conserved;
  accounted = k.accounted ∙ h.accounted;
  full = λ f. k.full (h.full f);
}

HasSent-refl : (c : Sender) → HasSent 0 c c
HasSent-refl c = record { count = omega arith; conserved = refl; accounted = refl; full = λ f. f }

send_packet-HasSent : (c : Sender) → HasSent 1 c (send_packet c)
unfolding send_packet
send_packet-HasSent c =
    let body = take max_packet_payload_length c.receive_buf in
    let rest = drop max_packet_payload_length c.receive_buf in
    let p : PacketInfo = record {
      pkt_type = if ltb 0 (length body) then PacketType.payload else PacketType.dummy;
      body = body;
      pad_len = max_packet_padding_length - length body;
    } in
    record {
      count = omega (arith, length-append c.send_chan (p ∷ []));
      conserved =
          ap (λ r. r ++ rest)
            (bodies-append c.send_chan (p ∷ [])
              ∙ ap (λ r. bodies c.send_chan ++ r) (append-nil body))
          ∙ append_assoc (bodies c.send_chan) body rest
          ∙ ap (λ r. bodies c.send_chan ++ r)
              (take-append-drop max_packet_payload_length c.receive_buf);
      accounted = omega (
        arith,
        length-take max_packet_payload_length c.receive_buf,
        length-drop max_packet_payload_length c.receive_buf,
      );
      full = λ f.
          AllFull-append c.send_chan (p ∷ []) f
            (omega (arith, length-take max_packet_payload_length c.receive_buf), tt);
    }

HasSent-cast : (m n : ℕ) (c c' : Sender) → m ≡ n → HasSent m c c' → HasSent n c c'
HasSent-cast m n c c' p h = rw p at h

send_while-HasSent :
    (fuel left : ℕ) (c : Sender)
    → left ≤ fuel
    → HasSent (left / max_packet_payload_length) c (send_while fuel left c)
unfolding send_while
send_while-HasSent zero left c h = HasSent-cast 0 _ c c (omega arith) (HasSent-refl c)
send_while-HasSent (suc fuel) left c h = elim (Bool-cases (leb max_packet_payload_length left)) [
  | inl more ↦
      let ge : max_packet_payload_length ≤ left = ground arith in
      rw (more, send_while)
        (HasSent-cast (1 + (left - max_packet_payload_length) / max_packet_payload_length) _ c _
          (omega (arith, ge))
          (HasSent-trans 1 _ c (send_packet c) _ (send_packet-HasSent c) (
            send_while-HasSent fuel (left - max_packet_payload_length) (send_packet c)
              (omega arith))))
  | inr enough ↦
      let small : left < max_packet_payload_length = ground arith in
      rw (enough, send_while) (HasSent-cast 0 _ c c (omega (arith, small)) (HasSent-refl c))
]

-- A reference burst of a size within its tolerance: it sends the packets that fit into `toSend`,
-- each of full length, with the data of the buffer in its order, leaves the rest there and counts
-- what it took in `written`.
pub send_ref_burst-HasSent :
    (low high : ℕ) (c : Sender)
    → HasSent
        (to_send low high (length c.receive_buf) / max_packet_payload_length)
        c
        (send_ref_burst low high c)
unfolding send_ref_burst
send_ref_burst-HasSent low high c =
    send_while-HasSent (to_send low high (length c.receive_buf))
      (to_send low high (length c.receive_buf)) c (omega arith)

send_packet-rest :
    (c : Sender)
    → length (send_packet c).receive_buf ≡ length c.receive_buf - max_packet_payload_length
unfolding send_packet
send_packet-rest c = length-drop max_packet_payload_length c.receive_buf

-- The packets that a number of bytes needs.
abbrev pub packets_for : ℕ → ℕ
packets_for n = (n + 535) / max_packet_payload_length

send_all-HasSent :
    (fuel : ℕ) (c : Sender)
    → length c.receive_buf ≤ fuel
    → HasSent (packets_for (length c.receive_buf)) c (send_all fuel c)
      × (length (send_all fuel c).receive_buf ≡ 0)
unfolding send_all
send_all-HasSent zero c h = (HasSent-cast 0 _ c c (omega arith) (HasSent-refl c), omega arith)
send_all-HasSent (suc fuel) c h = elim (Bool-cases (ltb 0 (length c.receive_buf))) [
  | inl more ↦
      let rest = send_packet-rest c in
      let pos : 0 < length c.receive_buf = ground arith in
      let ih = send_all-HasSent fuel (send_packet c) (omega (arith, rest, pos)) in
      rw (more, send_all)
        (
          (HasSent-cast (1 + packets_for (length (send_packet c).receive_buf)) _ c _
              (omega (arith, rest, pos))
              (HasSent-trans 1 _ c (send_packet c) _ (send_packet-HasSent c) ih.0)),
          ih.1,
        )
  | inr empty ↦
      let nothing : length c.receive_buf ≡ 0 = ground arith in
      rw (empty, send_all) (HasSent-cast 0 _ c c (omega (arith, nothing)) (HasSent-refl c), nothing)
]

-- A real burst empties the buffer, in as few full packets as its data needs, in its order, and
-- counts what it took in `written`.
pub send_real_burst-HasSent :
    (c : Sender)
    → HasSent (packets_for (length c.receive_buf)) c (send_real_burst c)
      × (length (send_real_burst c).receive_buf ≡ 0)
unfolding send_real_burst
send_real_burst-HasSent c = send_all-HasSent (length c.receive_buf) c (omega arith)
