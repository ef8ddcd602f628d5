-- ===== src/Defconn/Handshake/Find.antt =====
-- The search for a mark and a MAC finds them where they are, and stays within the buffer.
use wfdef.Prelude.{
  ℕ, suc, ◌+◌, ◌-◌, ◌≤◌, ◌≡◌, ◌≢◌, refl, sym, ap, ◌∙◌, Bool, true, false, not, Bool-cases, ◌⊎◌, inl,
  inr, Option, none, some, [], ◌∷◌, ◌++◌, append_assoc, Bytes, length, length-append, take, drop,
  take-append, drop-append, take-append_of_ge, take-drop, take-take, take-of_has_prefix, drop-drop,
  min, ltb, le→ltb, ◌==◌, ==_iff, if◌then◌else◌, bytes_eq_self, eq_of_bytes_eq, index, index-append,
  index-has_prefix, arith,
}
use wfdef.Defconn.Handshake.{
  panicked, missing, at, at_end, search_to, with_mac, slice, find_mark_mac,
}

find_mark_mac-passes :
    (mark buf : Bytes) (start max_pos : ℕ) (from_tail : Bool)
    → length mark ≡ 16
    → start ≤ length buf
    → start + 32 ≤ min (length buf) max_pos
    → find_mark_mac mark buf start max_pos from_tail
      ≡ search_to mark buf start (min (length buf) max_pos) from_tail
unfolding find_mark_mac
find_mark_mac-passes mark buf start max_pos from_tail hm hs he =
    let right = (==_iff (length mark) 16).1 hm in
    let inside = le→ltb (length buf) start hs in
    let room = le→ltb (min (length buf) max_pos - start) 32 (omega (arith, he)) in
    rw (right, inside, room)

-- What stands behind `body`.
pub slice-append :
    (body part rest : Bytes) (n : ℕ)
    → length part ≡ n
    → slice (length body) (length body + n) (body ++ (part ++ rest)) ≡ part
slice-append [] part rest n h = let e : 0 + n ≡ n = omega arith in rw e (take-append n part rest h)
slice-append (b ∷ body) part rest n h =
    let e : suc (length body) + n ≡ suc (length body + n) = omega arith in
    rw e (slice-append body part rest n h)

-- At the end of the buffer.
pub find_mark_mac-tail :
    (body mark mac : Bytes) (start max_pos : ℕ)
    → length mark ≡ 16
    → length mac ≡ 16
    → start ≤ length body
    → length body + 32 ≤ max_pos
    → find_mark_mac mark (body ++ (mark ++ mac)) start max_pos true ≡ at (length body)
find_mark_mac-tail body mark mac start max_pos hm hc hs hx =
    let size : length (body ++ (mark ++ mac)) ≡ length body + 32 =
      omega (arith, length-append body (mark ++ mac), length-append mark mac) in
    let is_end : min (length (body ++ (mark ++ mac))) max_pos ≡ length body + 32 =
      omega (arith, size) in
    let at_mark : (length body + 32) - 32 ≡ length body = omega arith in
    find_mark_mac-passes mark (body ++ (mark ++ mac)) start max_pos true hm (omega (arith, size))
      (omega (arith, is_end))
    ∙ (rw (is_end, at_mark, slice-append body mark mac 16 hm, bytes_eq_self mark))

-- The first mark behind `front`.
pub index-slice :
    (front pad mark rest : Bytes) (end_pos : ℕ)
    → length front + (length pad + length mark) ≤ end_pos
    → index (pad ++ mark) mark ≡ some (length pad)
    → index (slice (length front) end_pos (front ++ (pad ++ (mark ++ rest)))) mark
      ≡ some (length pad)
index-slice front pad mark rest end_pos room first =
    let sliced : slice (length front) end_pos (front ++ (pad ++ (mark ++ rest)))
        ≡ (pad ++ mark) ++ take (end_pos - length front - length (pad ++ mark)) rest =
      ap (drop (length front)) (take-append_of_ge end_pos front _ (omega (arith, room)))
      ∙ drop-append (length front) front _ refl
      ∙ ap (take (end_pos - length front)) (sym (append_assoc pad mark rest))
      ∙ take-append_of_ge (end_pos - length front) (pad ++ mark) rest
          (omega (arith, room, length-append pad mark)) in
    rw sliced (index-append (pad ++ mark) _ mark (length pad) first)

-- Behind some bytes that are not looked at, where the mark is not found before its place.
pub find_mark_mac-search :
    (front pad mark mac rest : Bytes) (max_pos : ℕ)
    → length mark ≡ 16
    → length mac ≡ 16
    → index (pad ++ mark) mark ≡ some (length pad)
    → length front + length pad + 32 ≤ max_pos
    → find_mark_mac mark (front ++ (pad ++ (mark ++ (mac ++ rest)))) (length front) max_pos false
      ≡ at (length pad + length front)
find_mark_mac-search front pad mark mac rest max_pos hm hc first hx =
    let buf = front ++ (pad ++ (mark ++ (mac ++ rest))) in
    let end_pos = min (length buf) max_pos in
    let size : length buf ≡ length front + (length pad + (32 + length rest)) = omega (
      arith,
      length-append front (pad ++ (mark ++ (mac ++ rest))),
      length-append pad (mark ++ (mac ++ rest)),
      length-append mark (mac ++ rest),
      length-append mac rest,
    ) in
    let room : length front + (length pad + 32) ≤ end_pos = omega (arith, size) in
    let found = index-slice front pad mark (mac ++ rest) end_pos (omega (arith, room, hm)) first in
    let fits = le→ltb end_pos (length front + length pad + 16 + 16) (omega (arith, room)) in
    find_mark_mac-passes mark buf (length front) max_pos false hm (omega (arith, size))
      (omega (arith, room))
    ∙ (rw (found, fits))

at_end-at : (b : Bool) (p pos : ℕ) → at_end b p ≡ at pos → (b ≡ true) × (p ≡ pos)
at_end-at true p pos h = (refl, cc)
at_end-at false p pos h = cc

with_mac-at :
    (start end_pos : ℕ) (o : Option ℕ) (pos : ℕ)
    → with_mac start end_pos o ≡ at pos
    → (i : ℕ) × (o ≡ some i) × (start + i + 32 ≤ end_pos) × (pos ≡ i + start)
with_mac-at start end_pos none pos h = cc
with_mac-at start end_pos (some i) pos h = elim (Bool-cases (ltb end_pos (start + i + 16 + 16))) [
  | inl short ↦ let none_found : missing ≡ at pos = rw short at h in cc
  | inr room ↦ let found : at (i + start) ≡ at pos = rw room at h in (i, refl, ground arith, cc)
]

-- The first bytes behind `pos` of a longer part.
slice-take :
    (pos end_pos : ℕ) (buf : Bytes)
    → pos + 16 ≤ end_pos
    → take 16 (drop pos (take end_pos buf)) ≡ slice pos (pos + 16) buf
slice-take pos end_pos buf h =
    take-drop 16 pos (take end_pos buf) ∙ ap (drop pos) (take-take (pos + 16) end_pos buf h)

-- What `search_to` finds in a part that has room for a mark and a MAC.
search_to_sound :
    (mark buf : Bytes) (start end_pos : ℕ) (from_tail : Bool) (pos : ℕ)
    → length mark ≡ 16
    → start + 32 ≤ end_pos
    → search_to mark buf start end_pos from_tail ≡ at pos
    → (start ≤ pos) × (pos + 32 ≤ end_pos) × (slice pos (pos + 16) buf ≡ mark)
search_to_sound mark buf start end_pos true pos hm room h =
    let found = at_end-at _ (end_pos - 32) pos h in
    let there = found.1 in
    let same = eq_of_bytes_eq (slice (end_pos - 32) (end_pos - 32 + 16) buf) mark found.0 in
    (omega (arith, there, room), omega (arith, there, room), rw there at same)
search_to_sound mark buf start end_pos false pos hm room h =
    let found = with_mac-at start end_pos (index (slice start end_pos buf) mark) pos h in
    let there = found.3 in
    let fits = found.2 in
    let prefix = index-has_prefix (slice start end_pos buf) mark found.0 found.1 in
    let same =
      sym (slice-take (found.0 + start) end_pos buf (omega (arith, fits)))
      ∙ ap (take 16) (sym (drop-drop found.0 start (take end_pos buf)))
      ∙ (rw hm at (take-of_has_prefix (drop found.0 (slice start end_pos buf)) mark prefix)) in
    (omega (arith, there, fits), omega (arith, there, fits), rw there same)

-- What is found lies between the start and the end, has room for the MAC behind it, and is the mark.
pub find_mark_mac_sound :
    (mark buf : Bytes) (start max_pos : ℕ) (from_tail : Bool) (pos : ℕ)
    → find_mark_mac mark buf start max_pos from_tail ≡ at pos
    → (start ≤ pos) × (pos + 32 ≤ min (length buf) max_pos) × (slice pos (pos + 16) buf ≡ mark)
unfolding find_mark_mac
find_mark_mac_sound mark buf start max_pos from_tail pos h =
    by_tests (Bool-cases (length mark == 16)) (Bool-cases (ltb (length buf) start))
      (Bool-cases (ltb (min (length buf) max_pos - start) (16 + 16)))
  where
    by_tests :
        (((length mark == 16) ≡ true) ⊎ ((length mark == 16) ≡ false))
        → ((ltb (length buf) start ≡ true) ⊎ (ltb (length buf) start ≡ false))
        → ((ltb (min (length buf) max_pos - start) (16 + 16) ≡ true)
            ⊎ (ltb (min (length buf) max_pos - start) (16 + 16) ≡ false))
        → (start ≤ pos) × (pos + 32 ≤ min (length buf) max_pos) × (slice pos (pos + 16) buf ≡ mark)
    by_tests (inr a) b c = let bad : panicked ≡ at pos = rw a at h in cc
    by_tests (inl a) (inl b) c = let bad : missing ≡ at pos = rw (a, b) at h in cc
    by_tests (inl a) (inr b) (inl c) = let bad : missing ≡ at pos = rw (a, b, c) at h in cc
    by_tests (inl a) (inr b) (inr c) =
        let room : 32 ≤ min (length buf) max_pos - start = ground arith in
        search_to_sound mark buf start (min (length buf) max_pos) from_tail pos ((==_iff _ 16).0 a)
          (omega (arith, room)) (rw (a, b, c) at h)

-- A mark of the right length makes no panic.
pub find_mark_mac-ne_panicked :
    (mark buf : Bytes) (start max_pos : ℕ) (from_tail : Bool)
    → length mark ≡ 16
    → find_mark_mac mark buf start max_pos from_tail ≢ panicked
unfolding find_mark_mac
find_mark_mac-ne_panicked mark buf start max_pos true hm = ground arith
find_mark_mac-ne_panicked mark buf start max_pos false hm =
    by_index (index (slice start (min (length buf) max_pos) buf) mark)
  where
    by_index :
        (o : Option ℕ)
        → (if not (length mark == 16)
            then panicked
            else if ltb (length buf) start
            then missing
            else if ltb (min (length buf) max_pos - start) (16 + 16)
            then missing
            else with_mac start (min (length buf) max_pos) o)
          ≢ panicked
    by_index none = ground arith
    by_index (some i) = ground arith
