-- ===== src/Tests.antt =====
-- Concrete data for the tests: a hash, a box and a link between a client and a server.
mod Framing
mod Link
mod Copy
mod Filter
mod Socks
mod Bursts
mod Regulator
mod Wfgan
mod Front
mod Handshake
mod Keys
mod Connect
mod Randomwt
mod RegulatorClient
mod WfganTurns
mod Uniformdh
mod DhHandshake
mod Receive
use wfdef.Prelude.{
  ℕ, ◌+◌, ◌≡◌, Bool, true, false, Option, none, some, [], ◌∷◌, ◌++◌, Bytes, length, drop, replicate,
  IsBytes, refl, arith,
}
use wfdef.Drbg.{Sip, HashDrbg}
use wfdef.Framing.{Box, BoxLaws, BoxNonce, Encoder, Decoder}
use wfdef.Framing.RoundTrip.{IsSynced}
use wfdef.Defconn.State.{new_state, Counters}
use wfdef.Defconn.Receive as Receiving

abbrev pub digest : Bytes
digest = 17 ∷ 34 ∷ 51 ∷ 68 ∷ 85 ∷ 102 ∷ 119 ∷ 136 ∷ []

abbrev pub sip : Sip
sip = record {
  sum = λ key message. digest;
  length-sum = λ key message. refl;
  sum-IsBytes = λ key message. (
    omega arith,
    (
      omega arith,
      (omega arith, (omega arith, (omega arith, (omega arith, (omega arith, (omega arith, tt)))))),
    ),
  );
}

abbrev pub tag : Bytes
tag = 1 ∷ 2 ∷ 3 ∷ 4 ∷ 5 ∷ 6 ∷ 7 ∷ 8 ∷ 9 ∷ 10 ∷ 11 ∷ 12 ∷ 13 ∷ 14 ∷ 15 ∷ 16 ∷ []

abbrev pub box : Box
box = record {
  seal = λ message nonce key. tag ++ message;
  unseal = λ sealed nonce key. some (drop 16 sealed);
}

pub box_laws : BoxLaws box
box_laws = record { unseal-seal = λ m n k. refl; length-seal = λ m n k. omega arith }

abbrev pub zeroes : ℕ → ℕ
zeroes n = 0

abbrev pub nonce : BoxNonce
nonce = record { prefix = replicate 16 9; counter = 1 }

abbrev pub hash : HashDrbg
hash = record { key = replicate 16 3; written = []; ofb = digest }

abbrev pub encoder : Encoder
encoder = record { key = replicate 32 7; nonce = nonce; drbg = hash }

abbrev pub decoder : Decoder
decoder = record {
  key = replicate 32 7;
  nonce = nonce;
  drbg = hash;
  next_nonce = [];
  next_length = 0;
  next_length_invalid = false;
}

pub synced : IsSynced encoder decoder
synced = record {
  same_key = refl;
  same_nonce = refl;
  same_drbg = refl;
  between_frames = refl;
  length_valid = refl;
}

abbrev pub counters : Counters
counters = record { sent = 0; rcv = 0 }

-- A connection, of a server or a client, that has received nothing.
abbrev pub link : Bool → Receiving.Link (Unit {0})
link is_server = record {
  is_server = is_server;
  len_seed = [];
  counters = counters;
  conn_state = new_state;
  receive_buffer = [];
  receive_decoded_buffer = [];
  decoder = decoder;
  extra = tt;
}
