-- ===== src/Socks5/Conn.antt =====
-- common/socks5/socks5.go: the buffered connection under a `Request`, and its helpers.
pub mod Stream
use wfdef.Prelude.{
  ℕ, ◌+◌, ◌≡◌, Bool, true, false, Option, none, some, List, [], ◌∷◌, ◌++◌, Bytes, length, take,
  drop, ltb, ◌==◌, if◌then◌else◌, Result, ok, err,
}
use wfdef.Socks5.Args.{ArgsError, is_empty}

pub data SocksError : Type 0 where
  read_failed : SocksError
  write_failed : SocksError
  -- the value that stood there, and the one expected
  message_field : ℕ → ℕ → SocksError
  username_length : SocksError
  password_length : SocksError
  arguments : ArgsError → SocksError
  no_acceptable_method : SocksError
  unsupported_method : ℕ → SocksError
  domain_length : SocksError
  unsupported_address : ℕ → SocksError
  trailing_data : ℕ → SocksError

-- `bufio.ReadWriter` on the connection. `incoming` holds what the reads of the connection will
-- return, one by one, before they fail; `broken` tells whether its writes fail; `failed` is the
-- error that a `bufio.Writer` keeps.
pub record Conn : Type 0 where
  pub buffered : Bytes
  pub incoming : List Bytes
  pub written : Bytes
  pub sent : Bytes
  pub broken : Bool
  pub failed : Bool

-- An operation on the connection.
abbrev pub M : Type 0 → Type 0
M A = Conn → Conn × Result SocksError A

abbrev pub return : {A : Type 0} → A → M A
return a c = (c, ok a)

abbrev pub throw : {A : Type 0} → SocksError → M A
throw e c = (c, err e)

abbrev pub bind_next :
    {A B : Type 0} → Conn × Result SocksError A → (A → M B) → Conn × Result SocksError B
bind_next (c, ok a) f = f a c
bind_next (c, err e) f = (c, err e)

infixl 5 ◌>>=◌
abbrev pub ◌>>=◌ : {A B : Type 0} → M A → (A → M B) → M B
(m >>= f) c = bind_next (m c) f

abbrev pub after_error :
    {A : Type 0} → Conn × Result SocksError A → M Unit → Conn × Result SocksError A
after_error (c, ok a) cleanup = (c, ok a)
after_error (c, err e) cleanup = ((cleanup c).0, err e)

-- `if x, err = m(); err != nil { _ = cleanup(); return err }`
infixl 6 ◌or_else◌
abbrev pub ◌or_else◌ : {A : Type 0} → M A → M Unit → M A
(m or_else cleanup) c = after_error (m c) cleanup

-- A read of `n` bytes: the buffer is filled from the connection as long as it is too short.
unfoldable pub fill : ℕ → Conn → Bytes → List Bytes → Conn × Result SocksError Bytes
fill n c buf [] =
    if ltb (length buf) n
    then (record c { buffered = []; incoming = [] }, err read_failed)
    else (record c { buffered = drop n buf; incoming = [] }, ok (take n buf))
fill n c buf (chunk ∷ chunks) =
    let rest = fill n c (buf ++ chunk) chunks in
    if ltb (length buf) n
    then rest
    else (record c { buffered = drop n buf; incoming = chunk ∷ chunks }, ok (take n buf))

-- `readBytes`, with `io.ReadFull`
unfoldable pub read_bytes : ℕ → M Bytes
read_bytes n c = fill n c c.buffered c.incoming

abbrev first : Bytes → ℕ
first [] = 0
first (b ∷ bs) = b

unfoldable pub read_byte : M ℕ
unfolding read_bytes
read_byte = read_bytes 1 >>= (λ bs. return (first bs))

unfoldable pub read_byte_verify : ℕ → M Unit
unfolding read_byte
read_byte_verify expected =
    read_byte >>= (λ val. if val == expected then return tt else throw (message_field val expected))

-- `Write` of the `bufio.Writer`; the messages are shorter than its buffer.
unfoldable pub write : Bytes → M Unit
write bs c =
    if c.failed then (c, err write_failed) else (record c { written = c.written ++ bs }, ok tt)

-- `Flush` of the `bufio.Writer`
unfoldable pub flush : M Unit
flush c =
    if c.failed
    then (c, err write_failed)
    else if is_empty c.written
    then (c, ok tt)
    else if c.broken
    then (record c { failed = true }, err write_failed)
    else (record c { written = []; sent = c.sent ++ c.written }, ok tt)

unfoldable pub no_trailing : M Unit
no_trailing c =
    if ltb 0 (length c.buffered) then (c, err (trailing_data (length c.buffered))) else (c, ok tt)

unfoldable pub flush_buffers : M Unit
unfolding flush no_trailing
flush_buffers = flush >>= (λ _. no_trailing)
