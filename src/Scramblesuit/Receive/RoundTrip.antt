-- ===== src/Scramblesuit/Receive/RoundTrip.antt =====
-- What `makePacket` makes, `readPackets` reads back.
use wfdef.Prelude.{
  ℕ, ◌+◌, ◌%◌, ◌^◌, ◌≤◌, ◌≡◌, refl, sym, ap, ◌∙◌, Bool-cases, inl, inr, none, some, [], ◌∷◌, ◌++◌,
  append-nil, Bytes, length, length-append, length-replicate, replicate, drop, take-append,
  drop-append, ltb, le→ltb, bytes_eq_self, put_uint16, uint16, arith,
}
use wfdef.Scramblesuit.{Crypto, pkt_payload, max_payload_length}
use wfdef.Scramblesuit.Receive.{
  cleared, Receiver, goes, take_mac, take_header, take_data, authenticate, dispatch, finishes,
  round,
}

-- A stream cipher: bytes are encrypted one after the other, and encrypting again decrypts.
pub record StreamLaws {S : Type 0} (k : Crypto S) : Type 0 where
  pub xor-append :
      (s : S) (xs ys : Bytes)
      → k.xor s (xs ++ ys)
        ≡ ((k.xor s xs).0 ++ (k.xor (k.xor s xs).1 ys).0, (k.xor (k.xor s xs).1 ys).1)
  pub xor-nil : (s : S) → k.xor s [] ≡ ([], s)
  pub xor-xor : (s : S) (xs : Bytes) → k.xor s (k.xor s xs).0 ≡ (xs, (k.xor s xs).1)

nil_of_length : (xs : Bytes) → length xs ≡ 0 → xs ≡ []
nil_of_length [] h = refl
nil_of_length (x ∷ xs) h = let no : ⊥ = omega (arith, h) in elim no [ ]

-- The five bytes of a packet's header, and what stands behind them.
abbrev pub header : Bytes → ℕ → Bytes
header body pad_len =
    put_uint16 ((length body + pad_len) % 2 ^ 16)
    ++ (put_uint16 (length body % 2 ^ 16) ++ (pkt_payload ∷ []))

abbrev pub rest_of : Bytes → ℕ → Bytes
rest_of body pad_len = body ++ replicate pad_len 0

pub length-rest_of :
    (body : Bytes) (pad_len : ℕ) → length (rest_of body pad_len) ≡ length body + pad_len
length-rest_of body pad_len =
    omega (arith, length-append body (replicate pad_len 0), length-replicate {A = ℕ} pad_len 0)

module _ {S : Type 0} (k : Crypto S) (laws : StreamLaws k) (body : Bytes) (pad_len : ℕ)
    (fits : length body + pad_len ≤ max_payload_length) where
  header_total : uint16 (header body pad_len) ≡ (length body + pad_len)
  header_total = omega (arith, fits)

  header_payload : uint16 (drop 2 (header body pad_len)) ≡ length body
  header_payload = omega (arith, fits)

  -- The receiver's states in a round on a packet.
  module _ (r : Receiver S) (mac sealed_header sealed more : Bytes) (tx tx' : S)
      (fresh : r.state ≡ cleared) (hm : length mac ≡ 16) (hh : length sealed_header ≡ 5)
      (hs : length sealed ≡ (length body + pad_len))
      (opens_header : k.xor r.rx sealed_header ≡ (header body pad_len, tx))
      (opens : k.xor tx sealed ≡ ((rest_of body pad_len), tx'))
      (tagged : k.mac (sealed_header ++ sealed) ≡ mac)
      (buffered : r.receive_buffer ≡ mac ++ (sealed_header ++ (sealed ++ more))) where
    abbrev with_mac : Receiver S
    with_mac = record r {
      receive_buffer = sealed_header ++ (sealed ++ more);
      state = record cleared { mac = some mac };
    }

    takes_mac : take_mac k r r.state.mac ≡ goes with_mac
    unfolding take_mac
    takes_mac =
        let room =
          le→ltb (length (mac ++ (sealed_header ++ (sealed ++ more)))) 16
            (omega (arith, hm, length-append mac (sealed_header ++ (sealed ++ more)))) in
        rw
          (
            fresh,
            buffered,
            room,
            take-append 16 mac (sealed_header ++ (sealed ++ more)) hm,
            drop-append 16 mac (sealed_header ++ (sealed ++ more)) hm,
          )
          refl

    abbrev with_hdr : Receiver S
    with_hdr = record r {
      rx = tx;
      digest = sealed_header;
      receive_buffer = sealed ++ more;
      state = record {
        mac = some mac;
        hdr = some (header body pad_len);
        total_len = (length body + pad_len);
        payload_len = length body;
      };
    }

    takes_header : take_header k with_mac none ≡ goes with_hdr
    unfolding take_header
    takes_header =
        let room =
          le→ltb (length (sealed_header ++ (sealed ++ more))) 5
            (omega (arith, hh, length-append sealed_header (sealed ++ more))) in
        let payload_fits = le→ltb (length body + pad_len) (length body) (omega arith) in
        let total_fits = le→ltb max_payload_length (length body + pad_len) fits in
        rw
          (
            room,
            take-append 5 sealed_header (sealed ++ more) hh,
            drop-append 5 sealed_header (sealed ++ more) hh,
            opens_header,
            header_total,
            header_payload,
            payload_fits,
            total_fits,
          )
          refl

    abbrev opened : Receiver S
    opened = record with_hdr { rx = tx'; digest = sealed_header ++ sealed; receive_buffer = more }

    takes_data : take_data k with_hdr ≡ goes (opened, (rest_of body pad_len))
    unfolding take_data
    takes_data = elim (Bool-cases (ltb 0 (length body + pad_len))) [
      | inl some_data ↦
          let room =
            le→ltb (length (sealed ++ more)) (length body + pad_len)
              (omega (arith, hs, length-append sealed more)) in
          rw
            (
              some_data,
              room,
              take-append (length body + pad_len) sealed more hs,
              drop-append (length body + pad_len) sealed more hs,
              opens,
            )
            refl
      | inr empty ↦
          let none_left : length body + pad_len ≡ 0 = ground arith in
          let sealed_nil = nil_of_length sealed (omega (arith, hs, none_left)) in
          let rest_nil =
            nil_of_length (rest_of body pad_len)
              (omega (arith, length-rest_of body pad_len, none_left)) in
          let nothing : ([], tx) ≡ ((rest_of body pad_len), tx') =
            sym (laws.xor-nil tx) ∙ ap (k.xor tx) (sym sealed_nil) ∙ opens in
          let same : tx ≡ tx' = ap (λ p. p.1) nothing in
          rw (empty, sealed_nil, rest_nil, append-nil sealed_header, sym same) refl
    ]

    abbrev pub read : Receiver S
    read = record r {
      rx = tx';
      digest = sealed_header ++ sealed;
      receive_buffer = more;
      decoded = r.decoded ++ body;
      state = cleared;
    }

    finished : finishes k (opened, (rest_of body pad_len)) ≡ goes read
    unfolding authenticate dispatch
    finished =
        rw (tagged, bytes_eq_self mac, take-append (length body) body (replicate pad_len 0) refl)
          refl

    pub round-read : round k r ≡ goes read
    unfolding round
    round-read = rw (takes_mac, takes_header, takes_data) finished
