-- ===== src/Framing/Nonces.antt =====
-- The nonces under which the frames of a stream are sealed.
use wfdef.Prelude.{
  ℕ, zero, suc, ◌+◌, ◌*◌, ◌%◌, ◌^◌, ◌≤◌, ◌<◌, ◌≡◌, ◌≢◌, refl, sym, ap, ◌∙◌, List, [], ◌∷◌, ◌++◌,
  Bytes, length, take, drop, drop-append, put_uint64, ℕ_discrete, ok, arith,
}
use wfdef.Drbg.{Sip}
use wfdef.Framing.{Box, Encoder, nonce_of, maximum_segment_length, seal_frame, encode}
use wfdef.Framing.RoundTrip.{encode-ok}
use wfdef.Framing.Stream.{Encodes, done, next}

-- The nonces of a prefix with the counters n, n + 1, …: `k` of them.
abbrev pub nonces_from : Bytes → ℕ → ℕ → List Bytes
nonces_from prefix n zero = []
nonces_from prefix n (suc k) =
    nonce_of (record { prefix = prefix; counter = n }) ∷ nonces_from prefix (n + 1) k

-- A byte string is none of a list's.
abbrev pub IsAbsent : Bytes → List Bytes → Type 0
IsAbsent x [] = Unit
IsAbsent x (y ∷ ys) = (x ≢ y) × IsAbsent x ys

-- No byte string stands in a list twice.
abbrev pub AreDistinct : List Bytes → Type 0
AreDistinct [] = Unit
AreDistinct (x ∷ xs) = IsAbsent x xs × AreDistinct xs

-- A stream is the boxes of the payloads under a key, each sealed under the nonce in its place and
-- each behind the two bytes of its length field.
abbrev pub IsSealed : Box → Bytes → List Bytes → List Bytes → Bytes → Type 0
IsSealed b key [] [] stream = stream ≡ []
IsSealed b key (n ∷ ns) (p ∷ ps) stream =
    (field : Bytes) × (rest : Bytes) × (length field ≡ 2)
    × (stream ≡ (field ++ b.seal p n key) ++ rest)
    × IsSealed b key ns ps rest
IsSealed b key _ _ stream = ⊥

-- The bytes of a counter give it back.
counter_read : Bytes → ℕ
counter_read [] = 0
counter_read (b ∷ bs) = b * 256 ^ length bs + counter_read bs

counter_read-put : (n : ℕ) → n < 2 ^ 64 → counter_read (put_uint64 n) ≡ n
unfolding counter_read
counter_read-put n h = omega arith

nonce_of-inj :
    (prefix : Bytes) (n m : ℕ)
    → n < 2 ^ 64
    → m < 2 ^ 64
    → nonce_of (record { prefix = prefix; counter = n })
      ≡ nonce_of (record { prefix = prefix; counter = m })
    → n ≡ m
nonce_of-inj prefix n m hn hm same =
    sym (counter_read-put n hn)
    ∙ ap counter_read (
        sym (drop-append (length prefix) prefix (put_uint64 n) refl)
        ∙ ap (drop (length prefix)) same
        ∙ drop-append (length prefix) prefix (put_uint64 m) refl)
    ∙ counter_read-put m hm

nonces_from-IsAbsent :
    (prefix : Bytes) (n m k : ℕ)
    → n < m
    → m + k ≤ 2 ^ 64
    → IsAbsent (nonce_of (record { prefix = prefix; counter = n })) (nonces_from prefix m k)
nonces_from-IsAbsent prefix n m zero lt fits = tt
nonces_from-IsAbsent prefix n m (suc k) lt fits = (
  λ same. let eq : n ≡ m = nonce_of-inj prefix n m (omega arith) (omega arith) same in omega arith,
  nonces_from-IsAbsent prefix n (m + 1) k (omega arith) (omega arith),
)

nonces_from-AreDistinct :
    (prefix : Bytes) (n k : ℕ) → n + k ≤ 2 ^ 64 → AreDistinct (nonces_from prefix n k)
nonces_from-AreDistinct prefix n zero fits = tt
nonces_from-AreDistinct prefix n (suc k) fits = (
  nonces_from-IsAbsent prefix n (n + 1) k (omega arith) (omega arith),
  nonces_from-AreDistinct prefix (n + 1) k (omega arith),
)

module _ (s : Sip) (b : Box) where
  -- One frame, and the encoder behind it.
  encode_lem :
      (e : Encoder) (room : ℕ) (payload : Bytes) {e' : Encoder} {frame : Bytes}
      → encode s b e room payload ≡ (e', ok frame)
      → (e.nonce.counter ≢ 0)
        × (e'.key ≡ e.key)
        × (e'.nonce.prefix ≡ e.nonce.prefix)
        × (e'.nonce.counter ≡ (e.nonce.counter + 1) % 2 ^ 64)
        × ((field : Bytes) × (length field ≡ 2)
            × (frame ≡ field ++ b.seal payload (nonce_of e.nonce) e.key))
  unfolding seal_frame
  encode_lem e room payload h =
      let (_, fresh, sealed) = encode-ok s b e room payload h in
      let back : _ ≡ _ = sym sealed in
      (
        fresh,
        ap (λ (t : Encoder × Bytes). t.0.key) back,
        ap (λ (t : Encoder × Bytes). t.0.nonce.prefix) back,
        ap (λ (t : Encoder × Bytes). t.0.nonce.counter) back,
        (
          take 2 (seal_frame s b e (nonce_of e.nonce) payload).1,
          refl,
          ap (λ (t : Encoder × Bytes). t.1) back,
        ),
      )

  Encodes_exhausted :
      {e e' : Encoder} {ps : List Bytes} {stream : Bytes}
      → Encodes s b e ps e' stream
      → e.nonce.counter ≡ 0
      → (ps ≡ []) × (stream ≡ [])
  Encodes_exhausted done z = (refl, refl)
  Encodes_exhausted (next {e = e} {p = p} h hs) z =
      absurd ((encode_lem e maximum_segment_length p h).0 z)

  IsSealed-next :
      {key key' prefix prefix' : Bytes} (n n' : ℕ) (p : Bytes) (ps : List Bytes) {frame : Bytes}
      (stream : Bytes)
      → (field : Bytes) × (length field ≡ 2)
        × (frame ≡ field ++ b.seal p (nonce_of (record { prefix = prefix; counter = n })) key)
      → key' ≡ key
      → prefix' ≡ prefix
      → n' ≡ n + 1
      → IsSealed b key' (nonces_from prefix' n' (length ps)) ps stream
      → IsSealed b key (nonces_from prefix n (length (p ∷ ps))) (p ∷ ps) (frame ++ stream)
  IsSealed-next n n' p ps stream (field, two, framed) k q c rest =
      (field, stream, two, ap (λ x. x ++ stream) framed, rw (k, q, c) at rest)

  encode-IsSealed :
      {e e' : Encoder} {ps : List Bytes} {stream : Bytes}
      → Encodes s b e ps e' stream
      → 0 < e.nonce.counter
      → e.nonce.counter < 2 ^ 64
      → IsSealed b e.key (nonces_from e.nonce.prefix e.nonce.counter (length ps)) ps stream
        × (e.nonce.counter + length ps ≤ 2 ^ 64)
  encode-IsSealed done pos wide = (refl, omega arith)
  encode-IsSealed (next {e = e} {e' = e'} {p = p} {ps = ps} {stream = stream} h hs) pos wide =
      let (_, same_key, same_prefix, step, framed) = encode_lem e maximum_segment_length p h in
      elim (ℕ_discrete (e.nonce.counter + 1) (2 ^ 64)) [
        | yes full ↦
            let (none_left, short) = Encodes_exhausted hs (omega arith) in
            (
              rw (none_left, short) (framed.0, [], framed.1, ap (λ x. x ++ []) framed.2, refl),
              rw none_left (omega arith),
            )
        | no more ↦
            let same : e'.nonce.counter ≡ e.nonce.counter + 1 = omega arith in
            let (later, fits) = encode-IsSealed hs (omega arith) (omega arith) in
            (
              IsSealed-next e.nonce.counter e'.nonce.counter p ps stream framed same_key same_prefix
                  same later,
              omega arith,
            )
      ]

  -- From a counter that is neither 0 nor too large for 64 bits, the stream of a run is the boxes of
  -- its payloads under the encoder's key, sealed under the nonces of the encoder's prefix with the
  -- counters that follow one another from the encoder's on. No two of these nonces are the same, and
  -- the run ends before the counter of a frame would come round to 0.
  pub Encodes-IsSealed :
      {e e' : Encoder} {ps : List Bytes} {stream : Bytes}
      → Encodes s b e ps e' stream
      → 0 < e.nonce.counter
      → e.nonce.counter < 2 ^ 64
      → IsSealed b e.key (nonces_from e.nonce.prefix e.nonce.counter (length ps)) ps stream
        × AreDistinct (nonces_from e.nonce.prefix e.nonce.counter (length ps))
        × (e.nonce.counter + length ps ≤ 2 ^ 64)
  Encodes-IsSealed {e = e} {ps = ps} run pos wide =
      let (sealed, fits) = encode-IsSealed run pos wide in
      (sealed, nonces_from-AreDistinct e.nonce.prefix e.nonce.counter (length ps) fits, fits)
