-- ===== src/Defconn/Connect/Keys.antt =====
-- The link crypto that the two sides make of one key seed is in step, in both directions.
use wfdef.Prelude.{
  ◌+◌, ◌*◌, ◌≡◌, refl, false, some, [], Bytes, length, length-take, length-drop, take, drop, ==_iff,
  arith,
}
use wfdef.Framing.{
  Encoder, Decoder, key_length, key_size, nonce_prefix_length, nonce_init, new_encoder, new_decoder,
}
use wfdef.Drbg.{seed_length, new_hash_drbg}
use wfdef.Framing.RoundTrip.{IsSynced}
use wfdef.Defconn.Connect.{client_keys, server_keys}

-- A decoder and an encoder made from one key.
keys-IsSynced :
    (key : Bytes) (h : length key ≡ key_length)
    → (e : Encoder) × (d : Decoder) × (new_encoder key ≡ some e)
      × (new_decoder key ≡ some d)
      × IsSynced e d
unfolding new_encoder new_decoder
keys-IsSynced key h =
    let right = (==_iff (length key) key_length).1 h in
    let nonce = nonce_init (take nonce_prefix_length (drop key_size key)) in
    let drbg = new_hash_drbg (take seed_length (drop (key_size + nonce_prefix_length) key)) in
    (
      record { key = take key_size key; nonce = nonce; drbg = drbg },
      record {
        key = take key_size key;
        nonce = nonce;
        drbg = drbg;
        next_nonce = [];
        next_length = 0;
        next_length_invalid = false;
      },
      rw right,
      rw right,
      record {
        same_key = refl;
        same_nonce = refl;
        same_drbg = refl;
        between_frames = refl;
        length_valid = refl;
      },
    )

-- With key material of twice the key's length, neither side panics, and what one side encodes the
-- other decodes, in both directions.
pub client_keys-server_keys :
    (okm : Bytes)
    → length okm ≡ key_length * 2
    → (ce : Encoder) × (se : Encoder) × (cd : Decoder) × (sd : Decoder) × (client_keys okm
        ≡ some (ce, cd))
      × (server_keys okm ≡ some (se, sd))
      × IsSynced ce sd
      × IsSynced se cd
client_keys-server_keys okm h =
    let one = keys-IsSynced (take key_length okm) (omega (arith, h, length-take key_length okm)) in
    let two = keys-IsSynced (drop key_length okm) (omega (arith, h, length-drop key_length okm)) in
    (one.0, two.0, two.1, one.1, rw (one.2, two.3), rw (two.2, one.3), one.4, two.4)
