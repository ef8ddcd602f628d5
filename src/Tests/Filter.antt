-- ===== src/Tests/Filter.antt =====
-- The theorems on the replay filter at a concrete filter.
use wfdef.Prelude.{ℕ, ◌≡◌, refl, true, false, [], ◌∷◌, Bytes, arith}
use wfdef.ReplayFilter.{
  ReplayFilter, new, test_and_set, max_filter_size, compact_filter, compact_from, on_lookup,
}
use wfdef.ReplayFilter.Valid.{IsValid, test_and_set-IsValid}
use wfdef.ReplayFilter.Window.{seen_within, test_and_set-seen_within}
use wfdef.ReplayFilter.Replays.{IsReady, run, test_and_set-replayed}

abbrev by_first : Bytes → ℕ
by_first [] = 0
by_first (b ∷ bs) = b

-- The filter holds what it has seen for 100.
abbrev filter : ReplayFilter
filter = new by_first 100

filter-IsValid : IsValid filter
filter-IsValid = record { indexes = λ k. refl; distinct = tt; bounded = omega arith }

test_and_set-IsValid_example : IsValid (test_and_set filter 5 (7 ∷ [])).0
test_and_set-IsValid_example = test_and_set-IsValid filter 5 (7 ∷ []) filter-IsValid

filter-IsReady : IsReady filter 0 2
unfolding max_filter_size
filter-IsReady = record {
  valid = filter-IsValid;
  ordered = omega arith;
  expires = omega arith;
  room = omega arith;
}

test_and_set-seen_within_example : (test_and_set filter 5 (7 ∷ [])).1 ≡ seen_within 100 5 7 []
unfolding max_filter_size
test_and_set-seen_within_example =
    test_and_set-seen_within filter 5 0 (7 ∷ []) filter-IsValid (omega arith) (omega arith)
      (omega arith)

first_time : (test_and_set filter 5 (7 ∷ [])).1 ≡ false
unfolding test_and_set compact_filter compact_from on_lookup
first_time = refl

-- The handshake 7 comes at 5 and again at 104, with the handshake 8 in between.
test_and_set-replayed_example :
    (test_and_set (run (test_and_set filter 5 (7 ∷ [])).0 ((50, 8 ∷ []) ∷ [])) 104 (7 ∷ [])).1
    ≡ true
test_and_set-replayed_example =
    test_and_set-replayed filter 0 5 104 (7 ∷ []) ((50, 8 ∷ []) ∷ []) filter-IsReady (omega arith)
      (omega arith, omega arith) (omega arith) first_time
