-- ===== src/Tests/DhHandshake.antt =====
-- The theorems on ScrambleSuit's UniformDH handshake at concrete keys and an answer.
use wfdef.Prelude.{◌≡◌, refl, some, [], ◌∷◌, ◌++◌, Bytes, length, replicate, index, ok, arith}
use wfdef.Uniformdh.{handshake}
use wfdef.Uniformdh.Agreement.{Agreed, handshake-Agreed}
use wfdef.Scramblesuit.Handshake.{
  Hashes, ClientHandshake, new_client_handshake, parse_server_handshake,
}
use wfdef.Scramblesuit.Handshake.Accepts.{tag_of, signed, parse_server_handshake-Agreed}

abbrev hashes : Hashes
hashes = record {
  hmac = λ key message. replicate 32 7;
  sum256 = λ message. replicate 32 8;
  length-hmac = λ key message. refl;
}

abbrev client_bytes : Bytes
client_bytes = replicate 192 6

abbrev server_bytes : Bytes
server_bytes = replicate 192 9

abbrev keys : Agreed client_bytes server_bytes
keys = handshake-Agreed client_bytes server_bytes refl refl

abbrev client : ClientHandshake
client = new_client_handshake (3 ∷ []) keys.a

abbrev pad : Bytes
pad = replicate 16 1

first_mark : index (pad ++ replicate 16 7) (replicate 16 7) ≡ some 16
unfolding index
first_mark = refl

parse_server_handshake-Agreed_example :
    (handshake keys.b keys.to_b ≡ ok keys.secret)
    × ((parse_server_handshake hashes client
          (signed hashes (3 ∷ []) keys.b.public.bytes pad
            ++ (tag_of hashes (3 ∷ []) [] keys.b.public.bytes pad ++ (5 ∷ [])))
          []).1
        ≡ some (
            ok (
              length (
                  signed hashes (3 ∷ []) keys.b.public.bytes pad
                  ++ tag_of hashes (3 ∷ []) [] keys.b.public.bytes pad),
              replicate 32 8,
            )))
parse_server_handshake-Agreed_example =
    parse_server_handshake-Agreed hashes client_bytes server_bytes keys client pad (5 ∷ []) [] refl
      refl (omega arith) first_mark
