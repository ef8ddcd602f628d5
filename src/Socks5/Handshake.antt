-- ===== src/Socks5/Handshake.antt =====
-- common/socks5/socks5.go and rfc1929.go: the handshake.
pub mod Success
pub mod Refusal
use wfdef.Prelude.{
  ℕ, ◌+◌, ◌*◌, ◌≡◌, Bool, true, false, not, ◌&&◌, Option, none, some, List, [], ◌∷◌, ◌++◌, Bytes,
  length, ltb, ◌==◌, if◌then◌else◌, Result, ok, err,
}
use wfdef.Socks5.Args.{ArgsError, parse_client_parameters}
use wfdef.Socks5.Conn.{
  Conn, SocksError, username_length, password_length, arguments, no_acceptable_method,
  unsupported_method, domain_length, unsupported_address, M, return, throw, ◌>>=◌, ◌or_else◌,
  read_bytes, read_byte, read_byte_verify, write, flush_buffers,
}

abbrev pub version : ℕ
version = 5

abbrev pub auth_none_required : ℕ
auth_none_required = 0

abbrev pub auth_username_password : ℕ
auth_username_password = 2

abbrev pub auth_no_acceptable_methods : ℕ
auth_no_acceptable_methods = 255

-- The reply codes that the handshake sends.
abbrev pub reply_succeeded : ℕ
reply_succeeded = 0

abbrev pub reply_general_failure : ℕ
reply_general_failure = 1

abbrev pub reply_command_not_supported : ℕ
reply_command_not_supported = 7

abbrev pub reply_address_not_supported : ℕ
reply_address_not_supported = 8

-- The host and the port; the code prints them into one string.
pub data Host : Type 0 where
  ipv4 domain_name ipv6 : Bytes → Host

abbrev pub Target : Type 0
Target = Host × ℕ

-- `bytes.IndexByte(methods, b) != -1`
abbrev pub contains : ℕ → Bytes → Bool
contains b [] = false
contains b (m ∷ methods) = if m == b then true else contains b methods

unfoldable pub pick_method : Bytes → ℕ
pick_method methods =
    if contains auth_username_password methods
    then auth_username_password
    else if contains auth_none_required methods
    then auth_none_required
    else auth_no_acceptable_methods

unfoldable pub negotiate_auth : M ℕ
negotiate_auth = do
  _ ← read_byte_verify version
  nmethods ← read_byte
  methods ← read_bytes nmethods
  _ ← write (version ∷ pick_method methods ∷ [])
  _ ← flush_buffers
  return (pick_method methods)

-- `sendErrResp`: write and flush errors are swallowed.
unfoldable pub send_err_resp : M Unit
send_err_resp c = flush_buffers (write (1 ∷ 1 ∷ []) c).0

abbrev pub reply_bytes : ℕ → Bytes
reply_bytes code = version ∷ code ∷ 0 ∷ 1 ∷ 0 ∷ 0 ∷ 0 ∷ 0 ∷ 0 ∷ 0 ∷ []

unfoldable pub reply : ℕ → M Unit
reply code = do _ ← write (reply_bytes code); flush_buffers

-- The username or the password: its length, at least 1, and its bytes.
unfoldable pub read_field : SocksError → M Bytes
read_field e = do
  len ← read_byte or_else send_err_resp
  _ ← (if ltb len 1 then throw e else return tt) or_else send_err_resp
  read_bytes len or_else send_err_resp

-- The parameters; tor sets the password to NUL if it has nothing for it.
abbrev pub arg_string : Bytes → Bytes → Bytes
arg_string uname [] = uname
arg_string uname (b ∷ []) = if b == 0 then uname else uname ++ (b ∷ [])
arg_string uname (b ∷ b' ∷ passwd) = uname ++ (b ∷ b' ∷ passwd)

module _ {A : Type 0} (add : A → Bytes → Bytes → A) (empty : A) where
  abbrev pub parse_args : Result ArgsError A → M A
  parse_args (ok args) = return args
  parse_args (err e) = throw (arguments e)

  unfoldable pub auth_rfc1929 : M A
  auth_rfc1929 = do
    _ ← read_byte_verify 1 or_else send_err_resp
    uname ← read_field username_length
    passwd ← read_field password_length
    args ←
        parse_args (parse_client_parameters add empty (arg_string uname passwd))
        or_else send_err_resp
    _ ← write (1 ∷ 0 ∷ [])
    return args

  -- Without a password the arguments stay the zero value of `pt.Args`.
  unfoldable pub authenticate : ℕ → M A
  unfolding auth_rfc1929
  authenticate method = do
    args ←
        (if method == auth_none_required
          then return empty
          else if method == auth_username_password
          then auth_rfc1929
          else if method == auth_no_acceptable_methods
          then throw no_acceptable_method
          else throw (unsupported_method method))
    _ ← flush_buffers
    return args

unfoldable pub read_addr : ℕ → M Host
read_addr atyp =
    if atyp == 1
    then (do addr ← read_bytes 4 or_else reply reply_general_failure; return (ipv4 addr))
    else if atyp == 3
    then (do
      alen ← read_byte or_else reply reply_general_failure
      _ ← (if alen == 0 then throw domain_length else return tt) or_else reply reply_general_failure
      addr ← read_bytes alen or_else reply reply_general_failure
      return (domain_name addr))
    else if atyp == 4
    then (do addr ← read_bytes 16 or_else reply reply_general_failure; return (ipv6 addr))
    else throw (unsupported_address atyp) or_else reply reply_address_not_supported

-- The address type, and the address.
unfoldable pub read_host : M Host
unfolding read_addr
read_host = do atyp ← read_byte or_else reply reply_general_failure; read_addr atyp

abbrev pub port : Bytes → ℕ
port (high ∷ low ∷ r) = high * 256 + low
port _ = 0

unfoldable pub read_command : M Target
read_command = do
  _ ← read_byte_verify version or_else reply reply_general_failure
  _ ← read_byte_verify 1 or_else reply reply_command_not_supported
  _ ← read_byte_verify 0 or_else reply reply_general_failure
  host ← read_host
  raw_port ← read_bytes 2 or_else reply reply_general_failure
  _ ← flush_buffers
  return (host, port raw_port)

-- `Handshake`, after the deadline has been set. The error of the deferred reset of the deadline
-- never reaches the caller, since the results of the function have no names.
unfoldable pub handshake : {A : Type 0} → (A → Bytes → Bytes → A) → A → M (Target × A)
unfolding authenticate
handshake add empty = do
  method ← negotiate_auth
  args ← authenticate add empty method
  target ← read_command
  return (target, args)
