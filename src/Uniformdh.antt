-- ===== src/Uniformdh.antt =====
-- common/uniformdh/uniformdh.go: Diffie-Hellman keys that look uniform, over `big.Int`.
pub mod Powers
pub mod Encoding
pub mod Agreement
use wfdef.Prelude.{
  ℕ, zero, suc, ◌+◌, ◌-◌, ◌*◌, ◌/◌, ◌%◌, ◌^◌, Bool, true, false, List, [], ◌∷◌, ◌++◌, Bytes, length,
  replicate, ltb, ◌==◌, if◌then◌else◌, Result, ok, err, ◌>>=◌,
}

abbrev pub size : ℕ
size = 192

-- The 1536-bit group of RFC 3526, 0xFFFFFFFFFFFFFFFFC90FDAA2...
unfoldable pub modp_group : ℕ
modp_group =
    2410312426921032588552076022197566074856950548502459942654116941958108831682612228890093858261341614673227141477904012196503648957050582631942730706805009223062734745341073406696246014589361659774041027169249453200378729434170325843778659198143763193776859869524088940195577346119843545301547043747207749969763750084308926339295559968882457872412993810129130294592999947926365264059284647209730384947211681434464714438488520940127459844288859336526896320919633919

abbrev pub gen : ℕ
gen = 2

pub data DhError : Type 0 where
  not_initialized too_long : DhError
  invalid_size : ℕ → DhError

pub record PublicKey : Type 0 where
  pub bytes : Bytes
  pub public_key : ℕ

pub record PrivateKey : Type 0 where
  pub public : PublicKey
  pub private_key : ℕ

-- `big.Int.SetBytes` after `acc`: the bytes are an unsigned number, its first byte the highest.
abbrev pub value : ℕ → Bytes → ℕ
value acc [] = acc
value acc (b ∷ bs) = value (acc * 256 + b) bs

-- `big.Int.Bytes`, without leading zeros. Each round divides, so the number is fuel enough.
unfoldable pub big_bytes : ℕ → ℕ → Bytes
big_bytes zero n = []
big_bytes (suc fuel) n =
    let rest = big_bytes fuel (n / 256) in if n == 0 then [] else rest ++ ((n % 256) ∷ [])

-- `PublicKey.Bytes`
unfoldable pub key_bytes : PublicKey → Result DhError Bytes
key_bytes key = if length key.bytes == size then ok key.bytes else err not_initialized

unfoldable pub set_bytes : Bytes → Result DhError PublicKey
set_bytes bs =
    if length bs == size
    then ok (record { bytes = bs; public_key = value 0 bs })
    else err (invalid_size (length bs))

-- `prependZeroBytes` into a destination of `n` bytes.
unfoldable pub prepend_zero_bytes : ℕ → Bytes → Result DhError Bytes
prepend_zero_bytes n src =
    if ltb n (length src) then err too_long else ok (replicate (n - length src) 0 ++ src)

-- The key for the private number `x`, and the number of its public key that is sent.
abbrev pub key_of : ℕ → ℕ → Result DhError PrivateKey
key_of x sent = do
  bs ← prepend_zero_bytes size (big_bytes sent sent)
  ok (record { public = record { bytes = bs; public_key = gen ^ x % modp_group }; private_key = x })

-- `generateKey`: the lowest bit says which of the two public keys is sent, and is then cleared.
unfoldable pub generate_key : Bytes → Result DhError PrivateKey
generate_key bs =
    if length bs == size
    then (let n = value 0 bs in
        let x = n - n % 2 in
        let public = gen ^ x % modp_group in
        key_of x (if n % 2 == 0 then public else modp_group - public))
    else err (invalid_size (length bs))

unfoldable pub handshake : PrivateKey → PublicKey → Result DhError Bytes
handshake private public =
    let secret = public.public_key ^ private.private_key % modp_group in
    prepend_zero_bytes size (big_bytes secret secret)
