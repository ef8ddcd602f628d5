-- ===== src/ReplayFilter/Valid.antt =====
-- The map and the list of the replay filter hold the same entries, and stay within the capacity.
use wfdef.Prelude.{
  ℕ, ◌≤◌, ◌<◌, ◌≡◌, refl, sym, ◌∙◌, Bool, true, false, Option, none, some, List, [], ◌∷◌, ◌++◌,
  Bytes, length, length-append, ltb, ltb→lt, ◌&&◌, ◌-◌, ◌==◌, if◌then◌else◌, arith,
}
use wfdef.ReplayFilter.{
  Entry, ReplayFilter, max_filter_size, empty, delete, reset, compact_from, compact_filter, set,
  on_lookup, test_and_set,
}

-- The first entry of a digest.
abbrev pub find : ℕ → List Entry → Option Entry
find d [] = none
find d (e ∷ es) = if d == e.digest then some e else find d es

abbrev pub IsDistinct : List Entry → Type 0
IsDistinct [] = Unit
IsDistinct (e ∷ es) = (find e.digest es ≡ none) × IsDistinct es

-- The map is an index of the list.
abbrev pub Indexes : (ℕ → Option Entry) → List Entry → Type 0
Indexes m es = (k : ℕ) → m k ≡ find k es

pub record IsValid (f : ReplayFilter) : Type 0 where
  pub indexes : Indexes f.filter f.fifo
  pub distinct : IsDistinct f.fifo
  pub bounded : length f.fifo ≤ max_filter_size

pub max_filter_size-pos : 0 < max_filter_size
unfolding max_filter_size
max_filter_size-pos = omega arith

pub find-append :
    (k : ℕ) (es : List Entry) (e : Entry)
    → find k (es ++ (e ∷ [])) ≡ elim (find k es) [ some x ↦ some x | none ↦ find k (e ∷ []) ]
find-append k [] e = refl
find-append k (x ∷ es) e = ground (arith, find-append k es e)

IsDistinct-append :
    (es : List Entry) (e : Entry)
    → IsDistinct es
    → find e.digest es ≡ none
    → IsDistinct (es ++ (e ∷ []))
IsDistinct-append [] e d h = (refl, tt)
IsDistinct-append (x ∷ es) e d h =
    ((ground (arith, find-append x.digest es e)), IsDistinct-append es e d.1 (ground arith))

pub Indexes-delete :
    (m : ℕ → Option Entry) (e : Entry) (es : List Entry)
    → Indexes m (e ∷ es)
    → find e.digest es ≡ none
    → Indexes (delete m e.digest) es
Indexes-delete m e es i h k = let at_k = i k in ground arith

-- After the compaction there is room for an entry.
pub record IsCompacted (g : ReplayFilter) : Type 0 where
  pub indexes : Indexes g.filter g.fifo
  pub distinct : IsDistinct g.fifo
  pub room : length g.fifo < max_filter_size

pub compact_from-IsCompacted :
    (f : ReplayFilter) (now : ℕ) (es : List Entry) (m : ℕ → Option Entry)
    → Indexes m es
    → IsDistinct es
    → IsCompacted (compact_from f now es m)
unfolding compact_from reset
compact_from-IsCompacted f now [] m i d = record {
  indexes = i;
  distinct = d;
  room = max_filter_size-pos;
}
compact_from-IsCompacted f now (e ∷ next) m i d =
    by_tests
      (compact_from-IsCompacted f now next (delete m e.digest) (Indexes-delete m e next i d.0) d.1)
      (ltb (length (e ∷ next)) max_filter_size) refl (ltb 0 f.ttl) (ltb now e.first_seen)
      (ltb (now - e.first_seen) f.ttl)
  where
    by_tests :
        {rest : ReplayFilter}
        → IsCompacted rest
        → (roomy : Bool) → ltb (length (e ∷ next)) max_filter_size ≡ roomy
        → (expires back young : Bool)
        → IsCompacted (
            if roomy && expires
            then (if back
                then record f { filter = empty; fifo = [] }
                else if young
                then record f { filter = m; fifo = e ∷ next }
                else rest)
            else rest)
    by_tests c false r expires back young = c
    by_tests c true r false back young = c
    by_tests c true r true true young = record {
      indexes = λ k. refl;
      distinct = tt;
      room = max_filter_size-pos;
    }
    by_tests c true r true false true = record { indexes = i; distinct = d; room = ltb→lt _ _ r }
    by_tests c true r true false false = c

on_lookup-IsValid :
    (g : ReplayFilter) (now d : ℕ) (o : Option Entry)
    → IsCompacted g
    → g.filter d ≡ o
    → IsValid (on_lookup g now d o).0
unfolding on_lookup set
on_lookup-IsValid g now d (some e) c h = record {
  indexes = c.indexes;
  distinct = c.distinct;
  bounded = (let r = c.room in omega arith);
}
on_lookup-IsValid g now d none c h =
    let new_entry : Entry = record { digest = d; first_seen = now } in
    let missing : find d g.fifo ≡ none = sym (c.indexes d) ∙ h in
    record {
      indexes =
          λ k. (let at_k = c.indexes k in ground (arith, find-append k g.fifo new_entry, missing));
      distinct = IsDistinct-append g.fifo new_entry c.distinct missing;
      bounded = (let r = c.room in omega (arith, length-append g.fifo (new_entry ∷ [])));
    }

-- Every call of `TestAndSet` keeps the map and the list of a valid filter in step, with one entry
-- for a digest and at most `maxFilterSize` of them.
pub test_and_set-IsValid :
    (f : ReplayFilter) (now : ℕ) (buf : Bytes) → IsValid f → IsValid (test_and_set f now buf).0
unfolding test_and_set compact_filter
test_and_set-IsValid f now buf v =
    let g = compact_from f now f.fifo f.filter in
    let c = compact_from-IsCompacted f now f.fifo f.filter v.indexes v.distinct in
    on_lookup-IsValid g now (f.hash buf) (g.filter (f.hash buf)) c refl
