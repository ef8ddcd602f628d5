-- ===== src/Tests/Socks.antt =====
-- The theorems on the SOCKS5 server at a concrete client.
use wfdef.Prelude.{◌≡◌, refl, false, List, [], ◌∷◌, ◌++◌, Bytes, ok, arith}
use wfdef.Socks5.Args.{parse_client_parameters, scan, step, conclude}
use wfdef.Socks5.Args.RoundTrip.{serialize, add_all, parse_client_parameters-serialize}
use wfdef.Socks5.Conn.{Conn}
use wfdef.Socks5.Conn.Stream.{Holds, Yields}
use wfdef.Socks5.Handshake.{ipv4, arg_string, auth_rfc1929, handshake}
use wfdef.Socks5.Handshake.Success.{greeting, credentials, handshake-password}
use wfdef.Socks5.Handshake.Refusal.{Answers, auth_rfc1929-Answers}

-- The arguments as the pairs that were added, the last first.
abbrev add : List (Bytes × Bytes) → Bytes → Bytes → List (Bytes × Bytes)
add args key value = (key, value) ∷ args

abbrev pairs : List (Bytes × Bytes)
pairs = (107 ∷ 61 ∷ [], 118 ∷ []) ∷ (99 ∷ [], []) ∷ []

-- The key `k=`, with a character that is escaped.
parse_client_parameters-serialize_example :
    parse_client_parameters add [] (serialize pairs) ≡ ok (add_all add [] [] pairs)
parse_client_parameters-serialize_example =
    parse_client_parameters-serialize add [] pairs (λ h. cc, (λ h. cc, tt))

-- `k=v` in the username, and NUL for the password.
abbrev uname : Bytes
uname = 107 ∷ 61 ∷ 118 ∷ []

abbrev passwd : Bytes
passwd = 0 ∷ []

abbrev incoming : List Bytes
incoming =
    greeting (0 ∷ 2 ∷ [])
    ∷ credentials uname passwd
    ∷ (5 ∷ [])
    ∷ (1 ∷ 0 ∷ 1 ∷ 10 ∷ 0 ∷ 0 ∷ 1 ∷ 31 ∷ 144 ∷ [])
    ∷ []

abbrev conn : Conn
conn = record {
  buffered = [];
  incoming = incoming;
  written = [];
  sent = [];
  broken = false;
  failed = false;
}

conn-Holds : Holds conn [] incoming [] []
conn-Holds = record {
  chunks = [];
  incoming_eq = refl;
  message_eq = refl;
  written_eq = refl;
  sent_eq = refl;
  works = refl;
  fine = refl;
}

parsed : parse_client_parameters add [] (arg_string uname passwd) ≡ ok ((107 ∷ [], 118 ∷ []) ∷ [])
unfolding parse_client_parameters scan step conclude
parsed = refl

-- The request comes in two pieces: 10.0.0.1, port 8080.
handshake-password_example :
    Yields
      (handshake add [] conn)
      ((ipv4 (10 ∷ 0 ∷ 0 ∷ 1 ∷ []), 8080), (107 ∷ [], 118 ∷ []) ∷ [])
      []
      []
      []
      (([] ++ (5 ∷ 2 ∷ [])) ++ (1 ∷ 0 ∷ []))
handshake-password_example =
    handshake-password add [] conn (0 ∷ 2 ∷ []) uname passwd ((107 ∷ [], 118 ∷ []) ∷ [])
      (ipv4 (10 ∷ 0 ∷ 0 ∷ 1 ∷ [])) 8080 (greeting (0 ∷ 2 ∷ []) ∷ []) (credentials uname passwd ∷ [])
      ((5 ∷ []) ∷ (1 ∷ 0 ∷ 1 ∷ 10 ∷ 0 ∷ 0 ∷ 1 ∷ 31 ∷ 144 ∷ []) ∷ []) [] refl (omega arith)
      (omega arith) parsed refl (omega arith) refl refl refl conn-Holds

auth_rfc1929-Answers_example : Answers conn (auth_rfc1929 add [] conn)
auth_rfc1929-Answers_example = auth_rfc1929-Answers add [] conn (refl, refl)
