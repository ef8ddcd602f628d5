-- ===== src/Randomwt/Signals.antt =====
-- The signals that a side holds, in its channel and in its packets.
use wfdef.Prelude.{
  ℕ, zero, suc, ◌+◌, ◌≡◌, refl, Bool, true, false, not, ◌&&◌, ◌||◌, List, [], ◌∷◌, ◌++◌, Bytes,
  length, drop, ◌==◌, replicate, if◌then◌else◌, arith,
}
use wfdef.Defconn.Packet.{PacketInfo}
use wfdef.Randomwt.PacketType
use wfdef.Randomwt.{
  is_start, is_stop, End, signal, put, sample_dummy_burst, chop, next_phase, moved,
}

-- A packet that makes a signal of the other side.
abbrev pub is_finish : PacketInfo → Bool
is_finish p =
    p.pkt_type == PacketType.real_finish
    || (p.pkt_type == PacketType.fake_finish || p.pkt_type == PacketType.tear_down)

abbrev pub one_if : Bool → ℕ
one_if true = 1
one_if false = 0

abbrev pub finishes : List PacketInfo → ℕ
finishes [] = 0
finishes (p ∷ ps) = one_if (is_finish p) + finishes ps

pub finishes-append : (ps qs : List PacketInfo) → finishes (ps ++ qs) ≡ finishes ps + finishes qs
finishes-append [] qs = omega arith
finishes-append (p ∷ ps) qs = omega (arith, finishes-append ps qs)

pub finishes-replicate : (n : ℕ) → finishes (replicate n (signal PacketType.dummy)) ≡ 0
finishes-replicate zero = refl
finishes-replicate (suc n) = omega (arith, finishes-replicate n)

pub finishes-chop : (fuel : ℕ) (bs : Bytes) → finishes (chop fuel bs) ≡ 0
unfolding chop
finishes-chop zero bs = refl
finishes-chop (suc fuel) [] = refl
finishes-chop (suc fuel) (c ∷ bs) = omega (arith, finishes-chop fuel (drop 536 (c ∷ bs)))

-- The signals that a side has, and that it has sent.
abbrev pub held : End → ℕ
held e = length e.can_send + finishes e.out

pub held-put : (e : End) (p : PacketInfo) → held (put e p) ≡ held e + one_if (is_finish p)
held-put e p = omega (arith, finishes-append e.out (p ∷ []))

pub held-sample_dummy_burst :
    (uniform : ℕ → ℕ) (n : ℕ) (e : End) → held (sample_dummy_burst uniform n e) ≡ held e
unfolding sample_dummy_burst
held-sample_dummy_burst uniform n e = by_test (is_stop e.phase)
  where
    by_test :
        (b : Bool)
        → held (
            if b
            then e
            else record e { out = e.out ++ replicate (uniform n) (signal PacketType.dummy) })
          ≡ held e
    by_test true = refl
    by_test false = omega (
      arith,
      finishes-append e.out (replicate (uniform n) (signal PacketType.dummy)),
      finishes-replicate (uniform n),
    )

pub held-moved : (e : End) (bs : Bytes) → held (moved e bs) ≡ held e
held-moved e bs =
    by_tests (not e.is_server) (is_start (next_phase e.phase (length bs)) && not (is_start e.phase))
  where
    by_tests :
        (client signals : Bool)
        → held (
            if client
            then record (if signals then put e (signal PacketType.signal_start) else e) {
              phase = next_phase e.phase (length bs);
            }
            else e)
          ≡ held e
    by_tests true true = omega (arith, held-put e (signal PacketType.signal_start))
    by_tests true false = refl
    by_tests false signals = refl
