-- ===== src/Drbg.antt =====
-- common/drbg/hash_drbg.go and common/csrand/csrand.go: the SipHash DRBG and ranges of random
-- numbers. SipHash and `Rand.Intn` are parameters.
use wfdef.Prelude.{
  ℕ, ◌+◌, ◌-◌, ◌≡◌, [], ◌++◌, Bytes, IsBytes, length, take, drop, ltb, if◌then◌else◌, Result, ok,
  err,
}

-- SipHash-2-4 of a message under a 16 byte key.
pub record Sip : Type 0 where
  pub sum : Bytes → Bytes → Bytes
  pub length-sum : (key message : Bytes) → length (sum key message) ≡ 8
  pub sum-IsBytes : (key message : Bytes) → IsBytes (sum key message)

abbrev pub size : ℕ
size = 8

abbrev pub seed_length : ℕ
seed_length = 16 + size

pub data SeedError : Type 0 where
  invalid_seed_length : ℕ → SeedError

-- A seed is its bytes; longer input is truncated.
unfoldable pub seed_from_bytes : Bytes → Result SeedError Bytes
seed_from_bytes src =
    if ltb (length src) seed_length
    then err (invalid_seed_length (length src))
    else ok (take seed_length src)

-- `sip` is a running hash: `written` is what it has been given, and is never reset.
pub record HashDrbg : Type 0 where
  pub key : Bytes
  pub written : Bytes
  pub ofb : Bytes

unfoldable pub new_hash_drbg : Bytes → HashDrbg
new_hash_drbg seed = record { key = take 16 seed; written = []; ofb = take size (drop 16 seed) }

unfoldable pub next_block : Sip → HashDrbg → Bytes × HashDrbg
next_block s g =
    let written = g.written ++ g.ofb in
    let block = s.sum g.key written in (block, record g { written = written; ofb = block })

-- `IntRange(min, max)`, for `min ≤ max`; `intn n` is what `Rand.Intn(n)` returns.
abbrev pub int_range : (ℕ → ℕ) → ℕ → ℕ → ℕ
int_range intn mn mx = intn (mx + 1 - mn) + mn
