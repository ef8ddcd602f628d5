-- ===== src/Tests/Handshake.antt =====
-- The theorems on the ntor handshake with a small curve and a small MAC.
use wfdef.Prelude.{
  ◌≡◌, refl, inl, true, false, some, [], ◌∷◌, ◌++◌, Bytes, ℕ, length, take, replicate, length-take,
  length-append, index, format_int, digits, ok, err, arith, ◌+◌, ◌≤◌, min,
}
use wfdef.Ntor.{
  Curve, CurveLaws, Hashes, Keypair, client_handshake, server_handshake, constant_time_is_zero,
}
use wfdef.Ntor.Agreement.{IsKeypair, client_handshake-server_handshake}
use wfdef.Ntor.Refusal.{server_handshake-zeros}
use wfdef.ReplayFilter.{
  ReplayFilter, new, test_and_set, max_filter_size, compact_filter, compact_from, on_lookup,
}
use wfdef.ReplayFilter.Replays.{IsReady, run}
use wfdef.Defconn.Handshake.Replayed.{parse_client_handshake-replayed}
use wfdef.Defconn.Handshake.{
  epoch_hour, hours, ClientHandshake, ServerHandshake, new_client_handshake, new_server_handshake,
  client_generate, server_generate, slice, find_mark_mac, at, mac, server_signed,
  replayed_handshake,
}
use wfdef.Defconn.Handshake.Parse.{parse_client_handshake, parse_server_handshake}
use wfdef.Defconn.Handshake.Find.{find_mark_mac_sound}
use wfdef.Defconn.Handshake.Server.{knowing, signed_by, tag_of, fitting}
use wfdef.Defconn.Handshake.Client.{mark_of}
use wfdef.Defconn.Handshake.Agreement.{accepted, handshake-agree}

abbrev pub curve : Curve
curve = record {
  scalar_mult = λ x y. replicate 32 1;
  scalar_base_mult = λ x. replicate 32 9;
  elligator = λ k. some (replicate 32 9, replicate 32 5);
  to_public = λ r. replicate 32 9;
}

pub curve_laws : CurveLaws curve
curve_laws = record {
  scalar_mult_comm = λ x y. refl;
  elligator_public = λ k p r e. cc;
  elligator_to_public = λ k p r e. cc;
  length-representative = λ k p r e. (let same : replicate 32 5 ≡ r = cc in rw (← same) refl);
}

-- The end of a message comes first, so that the hour is in the MAC.
abbrev backwards : Bytes → Bytes → Bytes
backwards [] acc = acc
backwards (b ∷ bs) acc = backwards bs (b ∷ acc)

pub length-mix : (message : Bytes) → length (take 32 (backwards message [] ++ replicate 32 0)) ≡ 32
length-mix message = omega (
  arith,
  length-take 32 (backwards message [] ++ replicate 32 0),
  length-append (backwards message []) (replicate 32 0),
)

abbrev pub hashes : Hashes
hashes = record {
  sha256 = λ m. take 32 (m ++ replicate 32 0);
  hmac = λ key message. take 32 (backwards message [] ++ replicate 32 0);
  length-hmac = λ key message. length-mix message;
}

abbrev pub session_keys : Keypair
session_keys = record {
  public = replicate 32 9;
  private = replicate 32 2;
  representative = some (replicate 32 5);
}

pub session_keys-IsKeypair : IsKeypair curve session_keys
session_keys-IsKeypair = record {
  public_eq = refl;
  represented = λ r e. (let same : replicate 32 5 ≡ r = cc in (refl, rw (← same) refl));
}

client_handshake-server_handshake_example :
    client_handshake curve hashes session_keys session_keys.public session_keys.public
      (replicate 20 1)
    ≡ server_handshake curve hashes session_keys.public session_keys session_keys (replicate 20 1)
client_handshake-server_handshake_example =
    client_handshake-server_handshake curve hashes curve_laws session_keys session_keys session_keys
      (replicate 20 1) session_keys-IsKeypair session_keys-IsKeypair session_keys-IsKeypair

-- A curve on which all keys have a small order.
abbrev small_order : Curve
small_order = record curve { scalar_mult = λ x y. replicate 32 0 }

server_handshake-zeros_example :
    (server_handshake small_order hashes (replicate 32 9) session_keys session_keys []).0 ≡ false
server_handshake-zeros_example =
    server_handshake-zeros small_order hashes (replicate 32 9) session_keys session_keys []
      (inl refl)

-- Five hours after the epoch, in nanoseconds.
abbrev five : ℕ
five = 18000000000000

abbrev pub node_id : Bytes
node_id = replicate 20 1

abbrev pub x : Bytes
x = replicate 32 5

abbrev pad : Bytes
pad = replicate 77 7

abbrev tag : Bytes
tag = tag_of hashes (replicate 32 9) node_id x pad (53 ∷ [])

abbrev msg : Bytes
msg = signed_by hashes (replicate 32 9) node_id x pad ++ tag

abbrev filter : ReplayFilter
filter = new length 100

abbrev server : ServerHandshake
server = new_server_handshake node_id session_keys session_keys

hour_five : format_int (epoch_hour five) ≡ 53 ∷ []
unfolding format_int digits
hour_five = refl

fits :
    fitting hashes
      (knowing hashes server x)
      (signed_by hashes (replicate 32 9) node_id x pad)
      tag
      (hours (epoch_hour five))
    ≡ (53 ∷ []) ∷ []
unfolding format_int digits
fits = refl

new_tag : (test_and_set filter five tag).1 ≡ false
unfolding test_and_set compact_filter compact_from on_lookup
new_tag = refl

filter-IsReady : IsReady filter 0 1
unfolding max_filter_size
filter-IsReady = record {
  valid = record { indexes = λ k. refl; distinct = tt; bounded = omega arith };
  ordered = omega arith;
  expires = omega arith;
  room = omega arith;
}

parse_client_handshake-replayed_example :
    parse_client_handshake curve hashes server (run (test_and_set filter five tag).0 []) five msg
    ≡ some (
      knowing hashes server x,
      (test_and_set (run (test_and_set filter five tag).0 []) five tag).0,
      err replayed_handshake,
    )
parse_client_handshake-replayed_example =
    parse_client_handshake-replayed curve hashes server filter 0 five five [] x pad tag (53 ∷ []) []
      filter-IsReady (omega arith) (omega arith) (omega arith) new_tag refl refl (omega arith)
      (omega arith) refl fits

abbrev client : ClientHandshake
client = record (new_client_handshake node_id (replicate 32 9) session_keys) {
  epoch_hour = 53 ∷ [];
}

client_sends :
    client_generate hashes
      (new_client_handshake node_id (replicate 32 9) session_keys)
      (some pad)
      five
    ≡ (client, ok msg)
unfolding client_generate format_int digits
client_sends = refl

abbrev pub took : ServerHandshake
took = accepted curve hashes session_keys session_keys session_keys node_id x (53 ∷ [])

abbrev pub reply : Bytes
reply =
    let signed = server_signed hashes took x [] in
    signed ++ mac hashes (replicate 32 9) node_id (signed ++ 53 ∷ [])

pub server_sends : server_generate hashes took (some []) ≡ ok reply
unfolding server_generate
server_sends = refl

pub succeeds :
    (client_handshake curve hashes session_keys (replicate 32 9) (replicate 32 9) node_id).0 ≡ true
unfolding client_handshake constant_time_is_zero
succeeds = refl

pub mark_first : index ([] ++ mark_of hashes took x) (mark_of hashes took x) ≡ some 0
unfolding index
mark_first = refl

handshake-agree_example :
    (parse_client_handshake curve hashes server filter five msg
      ≡ some (
        took,
        (test_and_set filter five tag).0,
        ok
            (client_handshake curve hashes session_keys
              (replicate 32 9)
              (replicate 32 9)
              node_id).1.0,
      ))
    × ((parse_server_handshake curve hashes client (reply ++ (1 ∷ 2 ∷ []))).1
        ≡ some (
            ok (
              length reply,
              (client_handshake curve hashes session_keys
                  (replicate 32 9)
                  (replicate 32 9)
                  node_id).1.0,
            )))
unfolding format_int
handshake-agree_example =
    handshake-agree curve hashes session_keys session_keys session_keys node_id x x pad [] msg reply
      (1 ∷ 2 ∷ []) five five filter client curve_laws session_keys-IsKeypair session_keys-IsKeypair
      session_keys-IsKeypair refl refl (omega arith) (omega arith) (omega arith) client_sends fits
      new_tag succeeds mark_first server_sends

found : find_mark_mac (replicate 16 5) (7 ∷ replicate 39 5) 0 8192 false ≡ at 1
unfolding find_mark_mac index
found = refl

find_mark_mac_sound_example :
    (0 ≤ 1) × (1 + 32 ≤ min 40 8192) × (slice 1 (1 + 16) (7 ∷ replicate 39 5) ≡ replicate 16 5)
find_mark_mac_sound_example =
    find_mark_mac_sound (replicate 16 5) (7 ∷ replicate 39 5) 0 8192 false 1 found
