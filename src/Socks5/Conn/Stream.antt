-- ===== src/Socks5/Conn/Stream.antt =====
-- How a message is read, however the network cuts it: triples over the connection.
use wfdef.Prelude.{
  ℕ, ◌≤◌, ◌<◌, ◌≡◌, refl, sym, ap, ◌∙◌, false, List, [], ◌∷◌, ◌++◌, append_assoc, append-nil, Bytes,
  length, length-append, take, drop, take-append, drop-append, take-append_of_le, drop-append_of_le,
  lt→ltb, le→ltb, Result, ok, arith, dec_lt,
}
use wfdef.Socks5.Conn.{
  Conn, SocksError, M, bind_next, after_error, fill, read_bytes, read_byte, read_byte_verify, write,
  flush, no_trailing, flush_buffers,
}

abbrev pub concat : List Bytes → Bytes
concat [] = []
concat (chunk ∷ chunks) = chunk ++ concat chunks

-- The connection works, `msg` is the rest of the message that is being read, in `chunks`, and
-- `later` are the reads after it.
pub record Holds (c : Conn) (msg : Bytes) (later : List Bytes) (written sent : Bytes) : Type 0 where
  pub chunks : List Bytes
  pub incoming_eq : c.incoming ≡ chunks ++ later
  pub message_eq : c.buffered ++ concat chunks ≡ msg
  pub written_eq : c.written ≡ written
  pub sent_eq : c.sent ≡ sent
  pub works : c.broken ≡ false
  pub fine : c.failed ≡ false

-- The operation that came to `r` gave `a`, and left the connection in this state.
abbrev pub Yields :
    {A : Type 0} → Conn × Result SocksError A → A → Bytes → List Bytes → Bytes → Bytes → Type 0
Yields r a msg later written sent = (c' : Conn) × (r ≡ (c', ok a)) × Holds c' msg later written sent

pub Yields->>= :
    {A B : Type 0} (r : Conn × Result SocksError A) (f : A → M B) {a : A} {b : B} {msg msg' : Bytes}
    {later later' : List Bytes} {written written' sent sent' : Bytes}
    → Yields r a msg later written sent
    → ((c : Conn) → Holds c msg later written sent → Yields (f a c) b msg' later' written' sent')
    → Yields (bind_next r f) b msg' later' written' sent'
Yields->>= r f {a} (c, p, h) go =
    let (c', q, h') = go c h in (c', ap (λ x. bind_next x f) p ∙ q, h')

pub Yields-or_else :
    {A : Type 0} (r : Conn × Result SocksError A) (cleanup : M Unit) {a : A} {msg : Bytes}
    {later : List Bytes} {written sent : Bytes}
    → Yields r a msg later written sent
    → Yields (after_error r cleanup) a msg later written sent
Yields-or_else r cleanup (c, p, h) = (c, ap (λ x. after_error x cleanup) p, h)

fill-enough :
    (n : ℕ) (c : Conn) (buf : Bytes) (incoming : List Bytes)
    → n ≤ length buf
    → fill n c buf incoming
      ≡ (record c { buffered = drop n buf; incoming = incoming }, ok (take n buf))
unfolding fill
fill-enough n c buf [] p = rw (le→ltb (length buf) n p) refl
fill-enough n c buf (chunk ∷ chunks) p = rw (le→ltb (length buf) n p) refl

fill_more :
    (n : ℕ) (c : Conn) (buf chunk : Bytes) (chunks : List Bytes)
    → length buf < n
    → fill n c buf (chunk ∷ chunks) ≡ fill n c (buf ++ chunk) chunks
unfolding fill
fill_more n c buf chunk chunks p = rw (lt→ltb (length buf) n p) refl

-- What `fill` comes to on the bytes of `xs ++ ys`.
abbrev Fills : Conn → Bytes → Bytes → List Bytes → Conn × Result SocksError Bytes → Type 0
Fills c xs ys later r =
    (buf' : Bytes) × (chunks' : List Bytes) × (r
      ≡ (record c { buffered = buf'; incoming = chunks' ++ later }, ok xs))
    × (buf' ++ concat chunks' ≡ ys)

fill-served :
    (n : ℕ) (c : Conn) (buf : Bytes) (chunks later : List Bytes) (xs ys : Bytes)
    → buf ++ concat chunks ≡ xs ++ ys
    → length xs ≡ n
    → n ≤ length buf
    → Fills c xs ys later (fill n c buf (chunks ++ later))
fill-served n c buf chunks later xs ys p q le =
    let taken : take n buf ≡ xs =
      sym (take-append_of_le n buf (concat chunks) le) ∙ ap (take n) p ∙ take-append n xs ys q in
    let left : drop n buf ++ concat chunks ≡ ys =
      sym (drop-append_of_le n buf (concat chunks) le) ∙ ap (drop n) p ∙ drop-append n xs ys q in
    (drop n buf, chunks, fill-enough n c buf (chunks ++ later) le ∙ rw taken refl, left)

fill-chunks :
    (n : ℕ) (c : Conn) (buf : Bytes) (chunks later : List Bytes) (xs ys : Bytes)
    → buf ++ concat chunks ≡ xs ++ ys
    → length xs ≡ n
    → Fills c xs ys later (fill n c buf (chunks ++ later))
fill-chunks n c buf [] later xs ys p q =
    let total = ap length p in
    fill-served n c buf [] later xs ys p q
      (omega (arith, length-append xs ys, length-append buf [], q, total))
fill-chunks n c buf (chunk ∷ chunks) later xs ys p q =
    let ih =
      fill-chunks n c (buf ++ chunk) chunks later xs ys (append_assoc buf chunk (concat chunks) ∙ p)
        q in
    elim (dec_lt (length buf) n) [
      | yes short ↦ (ih.0, ih.1, fill_more n c buf chunk (chunks ++ later) short ∙ ih.2, ih.3)
      | no enough ↦ fill-served n c buf (chunk ∷ chunks) later xs ys p q (omega arith)
    ]

pub read_bytes-Yields :
    (n : ℕ) (c : Conn) (xs ys : Bytes) {later : List Bytes} {written sent : Bytes}
    → length xs ≡ n
    → Holds c (xs ++ ys) later written sent
    → Yields (read_bytes n c) xs ys later written sent
unfolding read_bytes
read_bytes-Yields n c xs ys {later} q h =
    let r = fill-chunks n c c.buffered h.chunks later xs ys h.message_eq q in
    (
      record c { buffered = r.0; incoming = r.1 ++ later },
      ap (fill n c c.buffered) h.incoming_eq ∙ r.2,
      record {
        chunks = r.1;
        incoming_eq = refl;
        message_eq = r.3;
        written_eq = h.written_eq;
        sent_eq = h.sent_eq;
        works = h.works;
        fine = h.fine;
      },
    )

pub read_byte-Yields :
    (c : Conn) (b : ℕ) (ys : Bytes) {later : List Bytes} {written sent : Bytes}
    → Holds c (b ∷ ys) later written sent
    → Yields (read_byte c) b ys later written sent
unfolding read_byte
read_byte-Yields c b ys h =
    Yields->>= (read_bytes 1 c) _ (read_bytes-Yields 1 c (b ∷ []) ys refl h)
      (λ c' h'. (c', refl, h'))

pub read_byte_verify-Yields :
    (c : Conn) (b : ℕ) (ys : Bytes) {later : List Bytes} {written sent : Bytes}
    → Holds c (b ∷ ys) later written sent
    → Yields (read_byte_verify b c) tt ys later written sent
unfolding read_byte_verify
read_byte_verify-Yields c b ys h =
    Yields->>= (read_byte c) _ (read_byte-Yields c b ys h) (λ c' h'. (c', ground arith, h'))

pub write-Yields :
    (c : Conn) (bs : Bytes) {msg : Bytes} {later : List Bytes} {written sent : Bytes}
    → Holds c msg later written sent
    → Yields (write bs c) tt msg later (written ++ bs) sent
unfolding write
write-Yields c bs h = (
  record c { written = c.written ++ bs },
  rw h.fine refl,
  record {
    chunks = h.chunks;
    incoming_eq = h.incoming_eq;
    message_eq = h.message_eq;
    written_eq = ap (λ w. w ++ bs) h.written_eq;
    sent_eq = h.sent_eq;
    works = h.works;
    fine = h.fine;
  },
)

append-eq-nil : (xs ys : Bytes) → xs ++ ys ≡ [] → (xs ≡ []) × (ys ≡ [])
append-eq-nil [] ys h = (refl, h)
append-eq-nil (x ∷ xs) ys h = cc

flush-Yields :
    (c : Conn) (w : Bytes) {msg : Bytes} {later : List Bytes} {written sent : Bytes}
    → c.written ≡ w
    → Holds c msg later written sent
    → Yields (flush c) tt msg later [] (sent ++ written)
unfolding flush
flush-Yields c [] {written = written} {sent = sent} p h = (
  c,
  rw (h.fine, p) refl,
  record {
    chunks = h.chunks;
    incoming_eq = h.incoming_eq;
    message_eq = h.message_eq;
    written_eq = p;
    sent_eq = h.sent_eq ∙ sym (append-nil sent) ∙ ap (λ w. sent ++ w) (sym p ∙ h.written_eq);
    works = h.works;
    fine = h.fine;
  },
)
flush-Yields c (b ∷ w) p h = (
  record c { written = []; sent = c.sent ++ c.written },
  rw (h.fine, h.works, p) refl,
  record {
    chunks = h.chunks;
    incoming_eq = h.incoming_eq;
    message_eq = h.message_eq;
    written_eq = refl;
    sent_eq = rw (h.sent_eq, h.written_eq) refl;
    works = h.works;
    fine = h.fine;
  },
)

-- A flush after a whole message has been read.
pub flush_buffers-Yields :
    (c : Conn) {later : List Bytes} {written sent : Bytes}
    → Holds c [] later written sent
    → Yields (flush_buffers c) tt [] later [] (sent ++ written)
unfolding flush_buffers no_trailing
flush_buffers-Yields c h = Yields->>= (flush c) _ (flush-Yields c c.written refl h) (λ c' h'.
    let empty = (append-eq-nil c'.buffered (concat h'.chunks) h'.message_eq).0 in
    (c', rw empty refl, h'))

concat-append :
    (chunks chunks' : List Bytes) → concat (chunks ++ chunks') ≡ concat chunks ++ concat chunks'
concat-append [] chunks' = refl
concat-append (chunk ∷ chunks) chunks' =
    ap (λ r. chunk ++ r) (concat-append chunks chunks')
    ∙ sym (append_assoc chunk (concat chunks) (concat chunks'))

-- The next message, in any pieces.
pub Holds-next :
    (c : Conn) (chunks later : List Bytes) {written sent : Bytes}
    → Holds c [] (chunks ++ later) written sent
    → Holds c (concat chunks) later written sent
Holds-next c chunks later h =
    let empty = append-eq-nil c.buffered (concat h.chunks) h.message_eq in
    record {
      chunks = h.chunks ++ chunks;
      incoming_eq = h.incoming_eq ∙ sym (append_assoc h.chunks chunks later);
      message_eq = rw empty.0 (concat-append h.chunks chunks ∙ rw empty.1 refl);
      written_eq = h.written_eq;
      sent_eq = h.sent_eq;
      works = h.works;
      fine = h.fine;
    }
