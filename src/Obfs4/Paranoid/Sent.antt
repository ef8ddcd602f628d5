-- ===== src/Obfs4/Paranoid/Sent.antt =====
-- The writes of the paranoid mode carry the burst in its order.
use wfdef.Prelude.{
  ℕ, ◌+◌, ◌%◌, ◌-◌, ◌⊎◌, ◌≤◌, ◌<◌, ◌≡◌, refl, sym, ap, ◌∙◌, Bool, true, false, not, Bool-cases, inl,
  inr, List, [], ◌∷◌, ◌++◌, append-nil, append_assoc, Bytes, length, length-take, take, drop,
  take-append-drop, ltb, ◌==◌, if◌then◌else◌, Result, ok, err, arith,
}
use wfdef.Drbg.{Sip}
use wfdef.Framing.{Box, BoxLaws, Encoder, FramingError, maximum_segment_length, encode}
use wfdef.Defconn.Packet.{packet_bytes}
use wfdef.Obfs4.{
  max_packet_payload_length, header_length, packet_type_payload, FrameBuf, Outcome, wrote, failed,
  panicked, and_then, append_frame, make_packet, pad_length, pad_by, pad_burst,
}
use wfdef.Obfs4.Pad.{Grew, pad_burst-Grew}
use wfdef.Obfs4.Paranoid.{
  Written, written, gave_up, crashed, then_writes, dropped, writes, after_padding, paranoid,
}

-- What a call has put behind `from`, if it succeeds.
abbrev Extends : Bytes → Outcome → Type 0
Extends from (wrote t) = (x : Bytes) × (t.frame_buf ≡ from ++ x)
Extends from (failed e) = Unit
Extends from panicked = Unit

Extends-and_then :
    (from : Bytes) (r : Outcome) (f : FrameBuf → Outcome)
    → Extends from r
    → ((t : FrameBuf) → Extends t.frame_buf (f t))
    → Extends from (and_then r f)
Extends-and_then from (wrote t) f (x, eq) go = onward (f t) (go t)
  where
    onward : (r : Outcome) → Extends t.frame_buf r → Extends from r
    onward (wrote t') (y, eq') = (x ++ y, eq' ∙ ap (λ r. r ++ y) eq ∙ append_assoc from x y)
    onward (failed e) h = tt
    onward panicked h = tt
Extends-and_then from (failed e) f h go = tt
Extends-and_then from panicked f h go = tt

abbrev pub joined : List Bytes → Bytes
joined [] = []
joined (w ∷ ws) = w ++ joined ws

-- A length that fits into a segment, and is not 0.
abbrev pub Fits : ℕ → Type 0
Fits n = (0 < n) × (n ≤ maximum_segment_length)

abbrev pub AllFit : List ℕ → Type 0
AllFit [] = Unit
AllFit (n ∷ ns) = Fits n × AllFit ns

abbrev pub AllWithin : List Bytes → Type 0
AllWithin [] = Unit
AllWithin (w ∷ ws) = Fits (length w) × AllWithin ws

-- The writes and what is left are `from` with padding behind it.
abbrev pub Sent : Bytes → Written → Type 0
Sent from (written ws t) = ((x : Bytes) × (joined ws ++ t.frame_buf ≡ from ++ x)) × AllWithin ws
Sent from (gave_up e) = Unit
Sent from crashed = ⊥

Sent-append : (from x : Bytes) (r : Written) → Sent (from ++ x) r → Sent from r
Sent-append from x (written ws t) ((y, eq), within) = ((x ++ y, eq ∙ append_assoc from x y), within)
Sent-append from x (gave_up e) h = tt
Sent-append from x crashed h = h

Sent-then_writes :
    (n : ℕ) (buf : Bytes) (r : Written)
    → Fits (length (take n buf))
    → Sent (drop n buf) r
    → Sent buf (then_writes (take n buf) r)
Sent-then_writes n buf (written ws t) fits ((x, eq), within) = (
  (
    x,
    append_assoc (take n buf) (joined ws) t.frame_buf
        ∙ ap (λ r. take n buf ++ r) eq
        ∙ sym (append_assoc (take n buf) (drop n buf) x)
        ∙ ap (λ r. r ++ x) (take-append-drop n buf),
  ),
  (fits, within),
)
Sent-then_writes n buf (gave_up e) fits h = tt
Sent-then_writes n buf crashed fits h = h

module _ (s : Sip) (b : Box) (laws : BoxLaws b) where
  make_packet-Extends :
      (t : FrameBuf) (pkt_type : ℕ) (body : Bytes) (pad_len : ℕ)
      → Extends t.frame_buf (make_packet s b pkt_type body pad_len t)
  unfolding make_packet
  make_packet-Extends t pkt_type body pad_len =
      by_tests (ltb max_packet_payload_length (length body + pad_len)) (
        encode s b t.encoder maximum_segment_length
          (packet_bytes (record { pkt_type = pkt_type; body = body; pad_len = pad_len })))
    where
      by_tests :
          (long : Bool) (r : Encoder × Result FramingError Bytes)
          → Extends t.frame_buf (if long then panicked else append_frame s b t r)
      by_tests true r = tt
      by_tests false (e, ok frame) = (frame, refl)
      by_tests false (e, err x) = tt

  pad_burst-Extends : (n : ℕ) (t : FrameBuf) → Extends t.frame_buf (pad_burst s b n t)
  unfolding pad_burst pad_by
  pad_burst-Extends n t = by_tests (ltb header_length pad_len) (ltb 0 pad_len)
    where
      pad_len : ℕ
      pad_len = pad_length s b (length t.frame_buf % maximum_segment_length) n

      by_tests :
          (large some_missing : Bool)
          → Extends t.frame_buf (
              if large
              then make_packet s b packet_type_payload [] (pad_len - header_length) t
              else if some_missing
              then and_then
                  (make_packet s b packet_type_payload [] max_packet_payload_length t)
                  (make_packet s b packet_type_payload [] pad_len)
              else wrote t)
      by_tests true some_missing =
          make_packet-Extends t packet_type_payload [] (pad_len - header_length)
      by_tests false true =
          Extends-and_then t.frame_buf
            (make_packet s b packet_type_payload [] max_packet_payload_length t) _
            (make_packet-Extends t packet_type_payload [] max_packet_payload_length)
            (λ t'. make_packet-Extends t' packet_type_payload [] pad_len)
      by_tests false false = ([], sym (append-nil t.frame_buf))

  writes-Sent :
      (n : ℕ) (go_on : FrameBuf → Written) (t : FrameBuf)
      → Fits n
      → n ≤ length t.frame_buf
      → ((t : FrameBuf) → Sent t.frame_buf (go_on t))
      → Sent t.frame_buf (writes s b n go_on t)
  writes-Sent n go_on t fits enough go =
      let pos = fits.0 in
      let small = fits.1 in
      let some_bytes : n == 0 ≡ false = ground arith in
      rw some_bytes (
        Sent-then_writes n t.frame_buf (go_on (dropped n t))
          (
            omega (arith, pos, enough, length-take n t.frame_buf),
            omega (arith, small, enough, length-take n t.frame_buf),
          )
          (go (dropped n t)))

  after_padding-Sent :
      (n from m : ℕ) (go_on : FrameBuf → Written) (buf : Bytes) (r : Outcome)
      → Fits n
      → Extends buf r
      → Grew from m r
      → ((t : FrameBuf) → Sent t.frame_buf (go_on t))
      → Sent buf (after_padding s b n go_on r)
  after_padding-Sent n from m go_on buf (wrote t) fits (x, eq) grew go =
      Sent-append buf x _ (rw (sym eq) (by_test (Bool-cases (length t.frame_buf == n))))
    where
      by_test :
          (((length t.frame_buf == n) ≡ true) ⊎ ((length t.frame_buf == n) ≡ false))
          → Sent t.frame_buf (if length t.frame_buf == n then writes s b n go_on t else go_on t)
      by_test (inl exact) = rw exact (writes-Sent n go_on t fits (ground arith) go)
      by_test (inr longer) = rw longer (go t)
  after_padding-Sent n from m go_on buf (failed e) fits h grew go = tt
  after_padding-Sent n from m go_on buf panicked fits h grew go = grew

  -- With samples of at least a byte and at most a segment: the paranoid mode does not panic, each of
  -- its writes has a byte and fits into a segment, and the writes with what is left are the burst that
  -- was to be sent, with what the padding appended behind it.
  pub paranoid-Sent :
      (ns : List ℕ) (t : FrameBuf) → AllFit ns → Sent t.frame_buf (paranoid s b ns t)
  unfolding paranoid
  paranoid-Sent [] t h = (([], sym (append-nil t.frame_buf)), tt)
  paranoid-Sent (n ∷ ns) t (fits, h) =
      by_tests (Bool-cases (ltb 0 (length t.frame_buf))) (Bool-cases (ltb (length t.frame_buf) n))
        (λ t'. paranoid-Sent ns t' h)
    where
      by_tests :
          ((ltb 0 (length t.frame_buf) ≡ true) ⊎ (ltb 0 (length t.frame_buf) ≡ false))
          → ((ltb (length t.frame_buf) n ≡ true) ⊎ (ltb (length t.frame_buf) n ≡ false))
          → ((t' : FrameBuf) → Sent t'.frame_buf (paranoid s b ns t'))
          → Sent t.frame_buf (
              if not (ltb 0 (length t.frame_buf))
              then written [] t
              else if ltb (length t.frame_buf) n
              then after_padding s b n (paranoid s b ns) (pad_burst s b n t)
              else writes s b n (paranoid s b ns) t)
      by_tests (inr empty) d go = rw empty (([], sym (append-nil t.frame_buf)), tt)
      by_tests (inl more) (inl short) go =
          rw (more, short)
            (after_padding-Sent n (length t.frame_buf) _ (paranoid s b ns) t.frame_buf
              (pad_burst s b n t) fits (pad_burst-Extends n t) (pad_burst-Grew s b laws n t fits.1)
              go)
      by_tests (inl more) (inr enough) go =
          rw (more, enough) (writes-Sent n (paranoid s b ns) t fits (ground arith) go)
