-- ===== src/Framing.antt =====
-- transports/defconn/framing/framing.go: the link framing. NaCl's secretbox is a parameter.
pub mod Chunks
pub mod RoundTrip
pub mod Length
pub mod Stream
pub mod Nonces
use wfdef.Prelude.{
  ℕ, suc, ◌+◌, ◌-◌, ◌%◌, ◌^◌, ◌≡◌, Bool, true, false, ◌||◌, Option, none, some, List, [], ◌++◌,
  Bytes, length, take, drop, ltb, ◌==◌, if◌then◌else◌, bit_xor, Result, ok, err, put_uint16, uint16,
  put_uint64,
}
use wfdef.Drbg.{Sip, HashDrbg, seed_from_bytes, new_hash_drbg, next_block, int_range, seed_length}

-- `seal message nonce key` and `unseal box nonce key`.
pub record Box : Type 0 where
  pub seal : Bytes → Bytes → Bytes → Bytes
  pub unseal : Bytes → Bytes → Bytes → Option Bytes

-- What NaCl documents: a box opens to what was sealed, and is 16 bytes longer.
pub record BoxLaws (b : Box) : Type 0 where
  pub unseal-seal : (m n k : Bytes) → b.unseal (b.seal m n k) n k ≡ some m
  pub length-seal : (m n k : Bytes) → length (b.seal m n k) ≡ length m + 16

abbrev pub maximum_segment_length : ℕ
maximum_segment_length = 1500 - (40 + 12)

abbrev pub length_length : ℕ
length_length = 2

abbrev pub frame_overhead : ℕ
frame_overhead = length_length + 16

abbrev pub maximum_frame_payload_length : ℕ
maximum_frame_payload_length = maximum_segment_length - frame_overhead

abbrev pub max_frame_length : ℕ
max_frame_length = maximum_segment_length - length_length

abbrev pub min_frame_length : ℕ
min_frame_length = frame_overhead - length_length

abbrev pub key_size : ℕ
key_size = 32

abbrev pub nonce_prefix_length : ℕ
nonce_prefix_length = 16

-- `KeyLength`, the keying material of one direction
abbrev pub key_length : ℕ
key_length = key_size + nonce_prefix_length + seed_length

pub data FramingError : Type 0 where
  again tag_mismatch nonce_counter_wrapped short_buffer : FramingError
  invalid_payload_length : ℕ → FramingError

pub record BoxNonce : Type 0 where
  pub prefix : Bytes
  pub counter : ℕ

unfoldable pub nonce_init : Bytes → BoxNonce
nonce_init prefix = record { prefix = prefix; counter = 1 }

abbrev pub nonce_of : BoxNonce → Bytes
nonce_of n = n.prefix ++ put_uint64 n.counter

unfoldable pub nonce_bytes : BoxNonce → Result FramingError Bytes
nonce_bytes n = if n.counter == 0 then err nonce_counter_wrapped else ok (nonce_of n)

-- the counter is a uint64
abbrev pub bump : BoxNonce → BoxNonce
bump n = record n { counter = (n.counter + 1) % 2 ^ 64 }

pub record Encoder : Type 0 where
  pub key : Bytes
  pub nonce : BoxNonce
  pub drbg : HashDrbg

pub record Decoder : Type 0 where
  pub key : Bytes
  pub nonce : BoxNonce
  pub drbg : HashDrbg
  pub next_nonce : Bytes
  pub next_length : ℕ
  pub next_length_invalid : Bool

-- `none` is the panic on keying material of the wrong length.
unfoldable pub new_encoder : Bytes → Option Encoder
unfolding nonce_init new_hash_drbg
new_encoder key =
    if length key == key_length
    then some (record {
      key = take key_size key;
      nonce = nonce_init (take nonce_prefix_length (drop key_size key));
      drbg = new_hash_drbg (take seed_length (drop (key_size + nonce_prefix_length) key));
    })
    else none

unfoldable pub new_decoder : Bytes → Option Decoder
unfolding nonce_init new_hash_drbg
new_decoder key =
    if length key == key_length
    then some (record {
      key = take key_size key;
      nonce = nonce_init (take nonce_prefix_length (drop key_size key));
      drbg = new_hash_drbg (take seed_length (drop (key_size + nonce_prefix_length) key));
      next_nonce = [];
      next_length = 0;
      next_length_invalid = false;
    })
    else none

module _ (s : Sip) (b : Box) where
  -- behind the guards: seal the payload, and mask the length of the box
  unfoldable pub seal_frame : Encoder → Bytes → Bytes → Encoder × Bytes
  unfolding next_block
  seal_frame e nonce payload =
      let box = b.seal payload nonce e.key in
      let (mask, drbg) = next_block s e.drbg in
      let masked = bit_xor (length box % 65536) (uint16 mask) in
      (record e { nonce = bump e.nonce; drbg = drbg }, put_uint16 masked ++ box)

  -- `room` is `len(frame)`. The result is `frame[:n]`.
  unfoldable pub encode : Encoder → ℕ → Bytes → Encoder × Result FramingError Bytes
  unfolding nonce_bytes
  encode e room payload =
      if ltb maximum_frame_payload_length (length payload)
      then (e, err (invalid_payload_length (length payload)))
      else if ltb room (length payload + frame_overhead)
      then (e, err short_buffer)
      else elim (nonce_bytes e.nonce) [
        | err x ↦ (e, err x)
        | ok nonce ↦ let (e', frame) = seal_frame e nonce payload in (e', ok frame)
      ]

  -- The length field, unmasked; one out of bounds is replaced by a random valid one.
  unfoldable pub unmask_length : (ℕ → ℕ) → Decoder → ℕ → Decoder
  unfolding next_block
  unmask_length intn d obfs_len =
      let (mask, drbg) = next_block s d.drbg in
      let len = bit_xor obfs_len (uint16 mask) in
      if ltb max_frame_length len || ltb len min_frame_length
      then record d {
        drbg = drbg;
        next_length = int_range intn min_frame_length max_frame_length;
        next_length_invalid = true;
      }
      else record d { drbg = drbg; next_length = len }

  -- The block under `nextLength == 0`, on `frames`, the buffer.
  unfoldable pub decode_length :
      (ℕ → ℕ) → Decoder → Bytes → Decoder × Bytes × Result FramingError (Unit {0})
  unfolding nonce_bytes
  decode_length intn d frames =
      if ltb (length frames) length_length
      then (d, frames, err again)
      else elim (nonce_bytes d.nonce) [
        | err x ↦ (d, drop length_length frames, err x)
        | ok nonce ↦ (
          unmask_length intn (record d { next_nonce = nonce }) (uint16 frames),
          drop length_length frames,
          ok tt,
        )
      ]

  unfoldable pub decode_box : Decoder → Bytes → Decoder × Bytes × Result FramingError Bytes
  decode_box d frames =
      if ltb (length frames) d.next_length
      then (d, frames, err again)
      else elim (b.unseal (take d.next_length frames) d.next_nonce d.key) [
        | none ↦ (d, drop d.next_length frames, err tag_mismatch)
        | some out ↦
            if d.next_length_invalid then (d, drop d.next_length frames, err tag_mismatch) else (
              record d { next_length = 0; nonce = bump d.nonce },
              drop d.next_length frames,
              ok out,
            )
      ]

  -- The decoder, what is left in the buffer, and the payload or the error.
  unfoldable pub decode : (ℕ → ℕ) → Decoder → Bytes → Decoder × Bytes × Result FramingError Bytes
  decode intn d frames =
      if d.next_length == 0
      then (let (d', rest, r) = decode_length intn d frames in
          elim r [ err x ↦ (d', rest, err x) | ok _ ↦ decode_box d' rest ])
      else decode_box d frames
