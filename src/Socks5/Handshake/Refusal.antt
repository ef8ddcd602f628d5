-- ===== src/Socks5/Handshake/Refusal.antt =====
-- What a client is told when the handshake with it fails.
use wfdef.Prelude.{
  ℕ, ◌≡◌, refl, ap, ◌∙◌, Bool, true, false, List, [], ◌∷◌, ◌++◌, Bytes, length, ltb, Bool-cases,
  inl, inr, if◌then◌else◌, Result, ok, err, arith,
}
use wfdef.Socks5.Args.{ArgsError, is_empty, parse_client_parameters}
use wfdef.Socks5.Conn.{
  Conn, SocksError, username_length, password_length, M, return, throw, bind_next, after_error,
  ◌>>=◌, ◌or_else◌, fill, read_bytes, read_byte, read_byte_verify, write, flush, no_trailing,
  flush_buffers,
}
use wfdef.Socks5.Handshake.{
  version, send_err_resp, reply_bytes, reply, read_field, arg_string, parse_args, auth_rfc1929,
}

-- Nothing has been sent on the way from `c` to `c'`, and the connection still works.
pub record IsQuiet (c c' : Conn) : Type 0 where
  pub written_eq : c'.written ≡ c.written
  pub sent_eq : c'.sent ≡ c.sent
  pub works : c'.broken ≡ false
  pub fine : c'.failed ≡ false

abbrev pub Works : Conn → Type 0
Works c = (c.broken ≡ false) × (c.failed ≡ false)

fill-IsQuiet :
    (n : ℕ) (c : Conn) (buf : Bytes) (chunks : List Bytes)
    → Works c
    → IsQuiet c (fill n c buf chunks).0
unfolding fill
fill-IsQuiet n c buf [] w = elim (Bool-cases (ltb (length buf) n)) [
  | inl short ↦ rw short (record { written_eq = refl; sent_eq = refl; works = w.0; fine = w.1 })
  | inr enough ↦ rw enough (record { written_eq = refl; sent_eq = refl; works = w.0; fine = w.1 })
]
fill-IsQuiet n c buf (chunk ∷ chunks) w = elim (Bool-cases (ltb (length buf) n)) [
  | inl short ↦ rw short (fill-IsQuiet n c (buf ++ chunk) chunks w)
  | inr enough ↦ rw enough (record { written_eq = refl; sent_eq = refl; works = w.0; fine = w.1 })
]

-- Whatever an operation came to, it was quiet.
abbrev Quietly : {A : Type 0} → Conn → Conn × Result SocksError A → Type 0
Quietly c r = IsQuiet c r.0

read_bytes-Quietly : (n : ℕ) (c : Conn) → Works c → Quietly c (read_bytes n c)
unfolding read_bytes
read_bytes-Quietly n c w = fill-IsQuiet n c c.buffered c.incoming w

Quietly-return :
    {A B : Type 0} (c : Conn) (r : Conn × Result SocksError A) (f : A → M B)
    → Quietly c r
    → ((a : A) (c' : Conn) → (f a c').0 ≡ c')
    → Quietly c (bind_next r f)
Quietly-return c (c', ok a) f h stays = rw (stays a c') h
Quietly-return c (c', err e) f h stays = h

read_byte-Quietly : (c : Conn) → Works c → Quietly c (read_byte c)
unfolding read_byte
read_byte-Quietly c w =
    Quietly-return c (read_bytes 1 c) _ (read_bytes-Quietly 1 c w) (λ bs c'. refl)

read_byte_verify-Quietly : (n : ℕ) (c : Conn) → Works c → Quietly c (read_byte_verify n c)
unfolding read_byte_verify
read_byte_verify-Quietly n c w =
    Quietly-return c (read_byte c) _ (read_byte-Quietly c w) (λ b c'. ground arith)

-- A cleanup that sends `answer`.
abbrev pub Sends : M Unit → Bytes → Type 0
Sends cleanup answer = (c : Conn) → Works c → (cleanup c).0.sent ≡ c.sent ++ (c.written ++ answer)

no_trailing-Quietly : (c : Conn) → (no_trailing c).0 ≡ c
unfolding no_trailing
no_trailing-Quietly c = elim (Bool-cases (ltb 0 (length c.buffered))) [
  | inl more ↦ rw more refl
  | inr none_left ↦ rw none_left refl
]

flush_buffers-sent :
    (c : Conn)
    → Works c
    → is_empty c.written ≡ false
    → (flush_buffers c).0.sent ≡ c.sent ++ c.written
unfolding flush_buffers flush
flush_buffers-sent c w some_written =
    rw (w.1, some_written, w.0) (ap (λ (c' : Conn). c'.sent) (no_trailing-Quietly _))

is_empty-append : (xs : Bytes) (b : ℕ) (bs : Bytes) → is_empty (xs ++ (b ∷ bs)) ≡ false
is_empty-append [] b bs = refl
is_empty-append (x ∷ xs) b bs = refl

send_err_resp-Sends : Sends send_err_resp (1 ∷ 1 ∷ [])
unfolding send_err_resp write
send_err_resp-Sends c w = rw w.1 (
    flush_buffers-sent (record c { written = c.written ++ (1 ∷ 1 ∷ []); failed = false })
      (w.0, refl) (is_empty-append c.written 1 _))

reply-Sends : (code : ℕ) → Sends (reply code) (reply_bytes code)
unfolding reply write
reply-Sends code c w = rw w.1 (
    flush_buffers-sent (record c { written = c.written ++ reply_bytes code; failed = false })
      (w.0, refl) (is_empty-append c.written version _))

module _ (P : Bytes → Type 0) where
  -- An operation that failed has sent one of the answers `P`; one that did not has sent nothing.
  abbrev pub Refuses : {A : Type 0} → Conn → Conn × Result SocksError A → Type 0
  Refuses c (c', ok a) = IsQuiet c c'
  Refuses c (c', err e) = (answer : Bytes) × P answer × (c'.sent ≡ c.sent ++ (c.written ++ answer))

  Refuses-onward :
      {B : Type 0} (c c' : Conn) (r : Conn × Result SocksError B)
      → IsQuiet c c'
      → Refuses c' r
      → Refuses c r
  Refuses-onward c c' (c'', ok b) h k = record {
    written_eq = k.written_eq ∙ h.written_eq;
    sent_eq = k.sent_eq ∙ h.sent_eq;
    works = k.works;
    fine = k.fine;
  }
  Refuses-onward c c' (c'', err e) h k = (k.0, k.1, k.2 ∙ rw (h.sent_eq, h.written_eq) refl)

  Refuses->>= :
      {A B : Type 0} (c : Conn) (r : Conn × Result SocksError A) (f : A → M B)
      → Refuses c r
      → ((a : A) (c' : Conn) → Works c' → Refuses c' (f a c'))
      → Refuses c (bind_next r f)
  Refuses->>= c (c', ok a) f h go = Refuses-onward c c' (f a c') h (go a c' (h.works, h.fine))
  Refuses->>= c (c', err e) f h go = h

  Refuses-or_else :
      {A : Type 0} (c : Conn) (r : Conn × Result SocksError A) (cleanup : M Unit) (answer : Bytes)
      → Sends cleanup answer
      → P answer
      → Quietly c r
      → Refuses c (after_error r cleanup)
  Refuses-or_else c (c', ok a) cleanup answer s p h = h
  Refuses-or_else c (c', err e) cleanup answer s p h =
      (answer, p, s c' (h.works, h.fine) ∙ rw (h.sent_eq, h.written_eq) refl)

  Refuses-return : {A : Type 0} (c : Conn) (a : A) → Works c → Refuses c (return a c)
  Refuses-return c a w = record { written_eq = refl; sent_eq = refl; works = w.0; fine = w.1 }

guard-Quietly :
    (t : Bool) (e : SocksError) (c : Conn)
    → Works c
    → Quietly c ((if t then throw {A = Unit} e else return tt) c)
guard-Quietly true e c w = record { written_eq = refl; sent_eq = refl; works = w.0; fine = w.1 }
guard-Quietly false e c w = record { written_eq = refl; sent_eq = refl; works = w.0; fine = w.1 }

-- The answer to bad credentials.
abbrev pub IsFailure : Bytes → Type 0
IsFailure answer = answer ≡ 1 ∷ 1 ∷ []

auth_step :
    {A : Type 0} (c : Conn) (m : M A)
    → Quietly c (m c)
    → Refuses IsFailure c ((m or_else send_err_resp) c)
auth_step c m h =
    Refuses-or_else IsFailure c (m c) send_err_resp (1 ∷ 1 ∷ []) send_err_resp-Sends refl h

read_field-Refuses : (e : SocksError) (c : Conn) → Works c → Refuses IsFailure c (read_field e c)
unfolding read_field
read_field-Refuses e c w =
    Refuses->>= IsFailure c _ _ (auth_step c read_byte (read_byte-Quietly c w)) (λ len c₁ w₁.
      Refuses->>= IsFailure c₁ _ _
        (auth_step c₁ (if ltb len 1 then throw e else return tt)
          (guard-Quietly (ltb len 1) e c₁ w₁))
        (λ u c₂ w₂. auth_step c₂ (read_bytes len) (read_bytes-Quietly len c₂ w₂)))

-- What the client is told about its credentials.
abbrev pub Answers : {A : Type 0} → Conn → Conn × Result SocksError A → Type 0
Answers c (c', ok a) = (c'.sent ≡ c.sent) × (c'.written ≡ c.written ++ (1 ∷ 0 ∷ []))
Answers c (c', err e) = c'.sent ≡ c.sent ++ (c.written ++ (1 ∷ 1 ∷ []))

Answers->>= :
    {A B : Type 0} (c : Conn) (r : Conn × Result SocksError A) (f : A → M B)
    → Refuses IsFailure c r
    → ((a : A) (c' : Conn) → Works c' → Answers c' (f a c'))
    → Answers c (bind_next r f)
Answers->>= {B = B} c (c', ok a) f h go = onward (f a c') (go a c' (h.works, h.fine))
  where
    onward : (r : Conn × Result SocksError B) → Answers c' r → Answers c r
    onward (c'', ok b) k = (k.0 ∙ h.sent_eq, k.1 ∙ rw h.written_eq refl)
    onward (c'', err e) k = k ∙ rw (h.sent_eq, h.written_eq) refl
Answers->>= c (c', err e) f h go = h.2 ∙ rw h.1 refl

module _ {A : Type 0} (add : A → Bytes → Bytes → A) (empty : A) where
  parse_args-Quietly :
      (r : Result ArgsError A) (c : Conn) → Works c → Quietly c (parse_args add empty r c)
  parse_args-Quietly (ok args) c w = record {
    written_eq = refl;
    sent_eq = refl;
    works = w.0;
    fine = w.1;
  }
  parse_args-Quietly (err e) c w = record {
    written_eq = refl;
    sent_eq = refl;
    works = w.0;
    fine = w.1;
  }

  write-Answers :
      (c : Conn) (args : A) → Works c → Answers c ((write (1 ∷ 0 ∷ []) >>= (λ _. return args)) c)
  unfolding write
  write-Answers c args w = rw w.1 (refl, refl)

  -- On a connection that works, whatever the client sends, a failed authentication has sent 1 1
  -- after what was to be sent before, and a successful one has put 1 0 in the write buffer and sent
  -- nothing.
  pub auth_rfc1929-Answers : (c : Conn) → Works c → Answers c (auth_rfc1929 add empty c)
  unfolding auth_rfc1929
  auth_rfc1929-Answers c w =
      Answers->>= c _ _ (auth_step c (read_byte_verify 1) (read_byte_verify-Quietly 1 c w))
        (λ u c₁ w₁. Answers->>= c₁ _ _ (read_field-Refuses username_length c₁ w₁) (λ uname c₂ w₂.
          Answers->>= c₂ _ _ (read_field-Refuses password_length c₂ w₂) (λ passwd c₃ w₃.
            let parsed = parse_client_parameters add empty (arg_string uname passwd) in
            Answers->>= c₃ _ _
              (auth_step c₃ (parse_args add empty parsed) (parse_args-Quietly parsed c₃ w₃))
              (λ args c₄ w₄. write-Answers c₄ args w₄))))
