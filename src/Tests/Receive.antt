-- ===== src/Tests/Receive.antt =====
-- The theorem on ScrambleSuit's packets at a stream of two.
use wfdef.Prelude.{ℕ, ◌+◌, ◌≡◌, refl, ap, false, some, [], ◌∷◌, ◌++◌, length, length-append, arith}
use wfdef.Scramblesuit.{Crypto, FrameBuf, make_packet}
use wfdef.Scramblesuit.Receive.{cleared, Receiver, read_packets}
use wfdef.Scramblesuit.Receive.RoundTrip.{StreamLaws}
use wfdef.Scramblesuit.Receive.Stream.{Sends, nothing, sends, ReadsBack, read_packets-ReadsBack}
use wfdef.Tests.{tag}

-- A cipher that only counts.
abbrev counting : Crypto ℕ
counting = record {
  xor = λ n bs. (bs, n + length bs);
  mac = λ bs. tag;
  length-xor = λ n bs. refl;
  length-mac = λ bs. refl;
}

counting_laws : StreamLaws counting
counting_laws = record {
  xor-append = λ n xs ys. ap (λ m. (xs ++ ys, m)) (omega (arith, length-append xs ys));
  xor-nil = λ n. ap (λ m. ([], m)) (omega arith);
  xor-xor = λ n xs. refl;
}

abbrev first : FrameBuf ℕ
first = record { tx = 8; frame_buf = tag ++ (0 ∷ 3 ∷ 0 ∷ 1 ∷ 1 ∷ 65 ∷ 0 ∷ 0 ∷ []) }

abbrev second : FrameBuf ℕ
second = record { tx = 14; frame_buf = tag ++ (0 ∷ 1 ∷ 0 ∷ 1 ∷ 1 ∷ 66 ∷ []) }

makes_first : make_packet counting 1 (65 ∷ []) 2 (record { tx = 0; frame_buf = [] }) ≡ some first
unfolding make_packet
makes_first = refl

makes_second : make_packet counting 1 (66 ∷ []) 0 (record { tx = 8; frame_buf = [] }) ≡ some second
unfolding make_packet
makes_second = refl

abbrev receiver : Receiver ℕ
receiver = record {
  is_server = false;
  rx = 0;
  digest = [];
  receive_buffer = [];
  decoded = [];
  state = cleared;
  len_seed = [];
  tickets = [];
}

stream :
    Sends counting 0
      (first.frame_buf ++ (second.frame_buf ++ []))
      ((65 ∷ []) ++ ((66 ∷ []) ++ []))
      14
stream = sends (65 ∷ []) 2 first makes_first (sends (66 ∷ []) 0 second makes_second nothing)

read_packets-ReadsBack_example :
    ReadsBack counting receiver
      (65 ∷ 66 ∷ [])
      14
      (read_packets counting receiver (first.frame_buf ++ (second.frame_buf ++ [])))
read_packets-ReadsBack_example =
    read_packets-ReadsBack counting counting_laws receiver stream refl refl refl
