-- ===== src/Socks5/Handshake/Success.antt =====
-- The handshake with a client that follows the protocol.
use wfdef.Prelude.{
  ℕ, ◌<◌, ◌≡◌, refl, ap, Bool, true, false, List, [], ◌∷◌, ◌++◌, append-nil, Bytes, length, le→ltb,
  ◌==◌, if◌then◌else◌, ok, put_uint16, arith,
}
use wfdef.Socks5.Args.{parse_client_parameters}
use wfdef.Socks5.Conn.{
  username_length, password_length, domain_length, Conn, SocksError, return, throw, read_bytes,
  read_byte, read_byte_verify, write, flush_buffers,
}
use wfdef.Socks5.Conn.Stream.{
  concat, Holds, Yields, Yields->>=, Yields-or_else, read_bytes-Yields, read_byte-Yields,
  read_byte_verify-Yields, write-Yields, flush_buffers-Yields, Holds-next,
}
use wfdef.Socks5.Handshake.{
  version, auth_username_password, contains, pick_method, negotiate_auth, read_field,
  reply_general_failure, reply_command_not_supported, send_err_resp, reply, arg_string, parse_args,
  auth_rfc1929, authenticate, Host, ipv4, domain_name, ipv6, read_host, read_addr, port,
  read_command, handshake,
}

-- The messages of the client.
abbrev pub greeting : Bytes → Bytes
greeting methods = version ∷ length methods ∷ methods

abbrev pub credentials : Bytes → Bytes → Bytes
credentials uname passwd = 1 ∷ length uname ∷ (uname ++ (length passwd ∷ passwd))

abbrev pub host_bytes : Host → Bytes
host_bytes (ipv4 addr) = 1 ∷ addr
host_bytes (domain_name addr) = 3 ∷ length addr ∷ addr
host_bytes (ipv6 addr) = 4 ∷ addr

abbrev pub IsHost : Host → Type 0
IsHost (ipv4 addr) = length addr ≡ 4
IsHost (domain_name addr) = 0 < length addr
IsHost (ipv6 addr) = length addr ≡ 16

abbrev pub connect : Host → ℕ → Bytes
connect host n = version ∷ 1 ∷ 0 ∷ (host_bytes host ++ put_uint16 n)

guard-Yields :
    (t : Bool) (e : SocksError) (c : Conn) {msg : Bytes} {later : List Bytes} {written sent : Bytes}
    → t ≡ false
    → Holds c msg later written sent
    → Yields ((if t then throw {A = Unit} e else return tt) c) tt msg later written sent
guard-Yields t e c p h = (c, rw p refl, h)

pub pick_method-password :
    (methods : Bytes)
    → contains auth_username_password methods ≡ true
    → pick_method methods ≡ auth_username_password
unfolding pick_method
pick_method-password methods has = rw has refl

-- The rest of a message in one read.
read_rest-Yields :
    (n : ℕ) (c : Conn) (xs : Bytes) {later : List Bytes} {written sent : Bytes}
    → length xs ≡ n
    → Holds c xs later written sent
    → Yields (read_bytes n c) xs [] later written sent
read_rest-Yields n c xs q h = read_bytes-Yields n c xs [] q (rw (append-nil xs) h)

pub negotiate_auth-Yields :
    (c : Conn) (methods : Bytes) {later : List Bytes} {written sent : Bytes}
    → Holds c (greeting methods) later written sent
    → Yields
        (negotiate_auth c)
        (pick_method methods)
        []
        later
        []
        (sent ++ (written ++ (version ∷ pick_method methods ∷ [])))
unfolding negotiate_auth
negotiate_auth-Yields c methods h =
    Yields->>= (read_byte_verify version c) _ (read_byte_verify-Yields c version _ h) (λ c₁ h₁.
      Yields->>= (read_byte c₁) _ (read_byte-Yields c₁ (length methods) _ h₁) (λ c₂ h₂.
        Yields->>= (read_bytes (length methods) c₂) _
          (read_rest-Yields (length methods) c₂ methods refl h₂)
          (λ c₃ h₃.
            Yields->>= (write (version ∷ pick_method methods ∷ []) c₃) _
              (write-Yields c₃ (version ∷ pick_method methods ∷ []) h₃)
              (λ c₄ h₄.
                Yields->>= (flush_buffers c₄) _ (flush_buffers-Yields c₄ h₄)
                  (λ c₅ h₅. (c₅, refl, h₅))))))

read_field-Yields :
    (e : SocksError) (c : Conn) (xs ys : Bytes) {later : List Bytes} {written sent : Bytes}
    → 0 < length xs
    → Holds c (length xs ∷ (xs ++ ys)) later written sent
    → Yields (read_field e c) xs ys later written sent
unfolding read_field
read_field-Yields e c xs ys p h =
    Yields->>= _ _ (Yields-or_else _ send_err_resp (read_byte-Yields c (length xs) _ h)) (λ c₁ h₁.
      Yields->>= _ _
        (Yields-or_else _ send_err_resp
          (guard-Yields _ e c₁ (le→ltb (length xs) 1 (omega arith)) h₁))
        (λ c₂ h₂. Yields-or_else _ send_err_resp (read_bytes-Yields (length xs) c₂ xs ys refl h₂)))

module _ {A : Type 0} (add : A → Bytes → Bytes → A) (empty : A) where
  auth_rfc1929-Yields :
      (c : Conn) (uname passwd : Bytes) (args : A) {later : List Bytes} {written sent : Bytes}
      → 0 < length uname
      → 0 < length passwd
      → parse_client_parameters add empty (arg_string uname passwd) ≡ ok args
      → Holds c (credentials uname passwd) later written sent
      → Yields (auth_rfc1929 add empty c) args [] later (written ++ (1 ∷ 0 ∷ [])) sent
  unfolding auth_rfc1929
  auth_rfc1929-Yields c uname passwd args p q r h =
      Yields->>= _ _ (Yields-or_else _ send_err_resp (read_byte_verify-Yields c 1 _ h)) (λ c₁ h₁.
        Yields->>= _ _ (read_field-Yields username_length c₁ uname _ p h₁) (λ c₂ h₂.
          Yields->>= _ _
            (read_field-Yields password_length c₂ passwd [] q (rw (append-nil passwd) h₂))
            (λ c₃ h₃.
              Yields->>= _ _
                (Yields-or_else _ send_err_resp (c₃, ap (λ o. parse_args add empty o c₃) r, h₃))
                (λ c₄ h₄.
                  Yields->>= _ _ (write-Yields c₄ (1 ∷ 0 ∷ []) h₄) (λ c₅ h₅. (c₅, refl, h₅))))))

  authenticate-Yields :
      (c : Conn) (uname passwd : Bytes) (args : A) {later : List Bytes} {written sent : Bytes}
      → 0 < length uname
      → 0 < length passwd
      → parse_client_parameters add empty (arg_string uname passwd) ≡ ok args
      → Holds c (credentials uname passwd) later written sent
      → Yields
          (authenticate add empty auth_username_password c)
          args
          []
          later
          []
          (sent ++ (written ++ (1 ∷ 0 ∷ [])))
  unfolding authenticate
  authenticate-Yields c uname passwd args p q r h =
      Yields->>= _ _ (auth_rfc1929-Yields c uname passwd args p q r h)
        (λ c₁ h₁. Yields->>= _ _ (flush_buffers-Yields c₁ h₁) (λ c₂ h₂. (c₂, refl, h₂)))

read_host-Yields :
    (c : Conn) (host : Host) (ys : Bytes) {later : List Bytes} {written sent : Bytes}
    → IsHost host
    → Holds c (host_bytes host ++ ys) later written sent
    → Yields (read_host c) host ys later written sent
unfolding read_host read_addr
read_host-Yields c (ipv4 addr) ys p h =
    Yields->>= _ _ (Yields-or_else _ (reply reply_general_failure) (read_byte-Yields c 1 _ h))
      (λ c₁ h₁.
        Yields->>= _ _
          (Yields-or_else _ (reply reply_general_failure) (read_bytes-Yields 4 c₁ addr ys p h₁))
          (λ c₂ h₂. (c₂, refl, h₂)))
read_host-Yields c (domain_name addr) ys p h =
    Yields->>= _ _ (Yields-or_else _ (reply reply_general_failure) (read_byte-Yields c 3 _ h))
      (λ c₁ h₁.
        Yields->>= _ _
          (Yields-or_else _ (reply reply_general_failure) (read_byte-Yields c₁ (length addr) _ h₁))
          (λ c₂ h₂.
            Yields->>= _ _
              (Yields-or_else _ (reply reply_general_failure)
                (guard-Yields (length addr == 0) domain_length c₂ (ground arith) h₂))
              (λ c₃ h₃.
                Yields->>= _ _
                  (Yields-or_else _ (reply reply_general_failure)
                    (read_bytes-Yields (length addr) c₃ addr ys refl h₃))
                  (λ c₄ h₄. (c₄, refl, h₄)))))
read_host-Yields c (ipv6 addr) ys p h =
    Yields->>= _ _ (Yields-or_else _ (reply reply_general_failure) (read_byte-Yields c 4 _ h))
      (λ c₁ h₁.
        Yields->>= _ _
          (Yields-or_else _ (reply reply_general_failure) (read_bytes-Yields 16 c₁ addr ys p h₁))
          (λ c₂ h₂. (c₂, refl, h₂)))

read_command-Yields :
    (c : Conn) (host : Host) (n : ℕ) {later : List Bytes} {written sent : Bytes}
    → IsHost host
    → n < 65536
    → Holds c (connect host n) later written sent
    → Yields (read_command c) (host, n) [] later [] (sent ++ written)
unfolding read_command
read_command-Yields c host n p q h =
    Yields->>= _ _
      (Yields-or_else _ (reply reply_general_failure) (read_byte_verify-Yields c version _ h))
      (λ c₁ h₁.
        Yields->>= _ _
          (Yields-or_else _ (reply reply_command_not_supported) (read_byte_verify-Yields c₁ 1 _ h₁))
          (λ c₂ h₂.
            Yields->>= _ _
              (Yields-or_else _ (reply reply_general_failure) (read_byte_verify-Yields c₂ 0 _ h₂))
              (λ c₃ h₃. Yields->>= _ _ (read_host-Yields c₃ host (put_uint16 n) p h₃) (λ c₄ h₄.
                Yields->>= _ _
                  (Yields-or_else _ (reply reply_general_failure)
                    (read_rest-Yields 2 c₄ (put_uint16 n) refl h₄))
                  (λ c₅ h₅. Yields->>= _ _ (flush_buffers-Yields c₅ h₅) (λ c₆ h₆.
                    let same : port (put_uint16 n) ≡ n = omega arith in (c₆, rw same refl, h₆)))))))

module _ {A : Type 0} (add : A → Bytes → Bytes → A) (empty : A) where
  -- On a connection that works, a client that offers username/password and sends its greeting, its
  -- credentials and its request one after the other, each in any pieces, gets the replies 5 2 and
  -- 1 0, and the handshake gives the host and port that it asked for and the arguments that its
  -- credentials hold, with nothing left over.
  pub handshake-password :
      (c : Conn) (methods uname passwd : Bytes) (args : A) (host : Host) (n : ℕ)
      (greets creds requests later : List Bytes) {sent : Bytes}
      → contains auth_username_password methods ≡ true
      → 0 < length uname
      → 0 < length passwd
      → parse_client_parameters add empty (arg_string uname passwd) ≡ ok args
      → IsHost host
      → n < 65536
      → concat greets ≡ greeting methods
      → concat creds ≡ credentials uname passwd
      → concat requests ≡ connect host n
      → Holds c [] (greets ++ (creds ++ (requests ++ later))) [] sent
      → Yields
          (handshake add empty c)
          ((host, n), args)
          []
          later
          []
          ((sent ++ (version ∷ auth_username_password ∷ [])) ++ (1 ∷ 0 ∷ []))
  unfolding handshake
  handshake-password c methods uname passwd args host n greets creds requests later {sent} has p q r
        s t e₁ e₂ e₃ h =
      let picked = pick_method-password methods has in
      Yields->>= (negotiate_auth c) _
        (rw picked at (negotiate_auth-Yields c methods (rw e₁ at (Holds-next c greets _ h))))
        (λ c₁ h₁.
          Yields->>= _ _
            (authenticate-Yields add empty c₁ uname passwd args p q r
              (rw e₂ at (Holds-next c₁ creds _ h₁)))
            (λ c₂ h₂.
              Yields->>= _ _
                (read_command-Yields c₂ host n s t (rw e₃ at (Holds-next c₂ requests later h₂)))
                (λ c₃ h₃. (
                  c₃,
                  refl,
                  rw
                      (append-nil
                        ((sent ++ (version ∷ auth_username_password ∷ [])) ++ (1 ∷ 0 ∷ [])))
                      at h₃,
                ))))
