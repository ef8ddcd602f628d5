-- ===== src/ReplayFilter/Window.antt =====
-- What the replay filter promises, while its clock does not go back and it is not full: it reports
-- the strings that were recorded less than `ttl` ago, and no others.
use wfdef.Prelude.{
  ℕ, ◌+◌, ◌-◌, ◌≤◌, ◌<◌, ◌≡◌, refl, sym, ap, ◌∙◌, Bool, false, Option, none, some, List, [], ◌∷◌,
  ◌++◌, Bytes, length, ltb, ltb→lt, ℕ_discrete, lt→ltb, le→ltb, if◌then◌else◌, arith, Bool-cases,
  inl, inr,
}
use wfdef.ReplayFilter.{
  Entry, ReplayFilter, max_filter_size, delete, reset, compact_from, compact_filter, on_lookup,
  test_and_set,
}
use wfdef.ReplayFilter.Valid.{find, IsDistinct, IsValid, compact_from-IsCompacted}

-- The entries that are younger than `ttl`.
abbrev pub recent : ℕ → ℕ → List Entry → List Entry
recent ttl now [] = []
recent ttl now (e ∷ es) =
    if ltb now (e.first_seen + ttl) then e ∷ recent ttl now es else recent ttl now es

-- The entries stand in the order of their times, from `lo` to `hi`.
abbrev pub Ordered : ℕ → ℕ → List Entry → Type 0
Ordered lo hi [] = lo ≤ hi
Ordered lo hi (e ∷ es) = (lo ≤ e.first_seen) × Ordered e.first_seen hi es

-- What the abstract filter answers: was the digest recorded less than `ttl` ago?
abbrev pub seen_within : ℕ → ℕ → ℕ → List Entry → Bool
seen_within ttl now d es = elim (find d es) [ some e ↦ ltb now (e.first_seen + ttl) | none ↦ false ]

Ordered-le : (lo hi : ℕ) (es : List Entry) → Ordered lo hi es → lo ≤ hi
Ordered-le lo hi [] o = o
Ordered-le lo hi (e ∷ es) o = let r = Ordered-le e.first_seen hi es o.1 in omega arith

pub Ordered-weaken :
    (lo lo' hi hi' : ℕ) (es : List Entry)
    → Ordered lo hi es
    → lo' ≤ lo
    → hi ≤ hi'
    → Ordered lo' hi' es
Ordered-weaken lo lo' hi hi' [] o p q = omega arith
Ordered-weaken lo lo' hi hi' (e ∷ es) o p q =
    (omega arith, Ordered-weaken _ _ _ _ es o.1 (omega arith) q)

pub Ordered-recent :
    (ttl now lo hi : ℕ) (es : List Entry) → Ordered lo hi es → Ordered lo hi (recent ttl now es)
Ordered-recent ttl now lo hi [] o = o
Ordered-recent ttl now lo hi (e ∷ es) o = elim (Bool-cases (ltb now (e.first_seen + ttl))) [
  | inl y ↦ rw y (o.0, Ordered-recent ttl now _ hi es o.1)
  | inr y ↦
      rw y (Ordered-weaken _ lo hi hi _ (Ordered-recent ttl now _ hi es o.1) o.0 (omega arith))
]

pub Ordered-append :
    (lo hi now : ℕ) (es : List Entry) (d : ℕ)
    → Ordered lo hi es
    → hi ≤ now
    → Ordered lo now (es ++ (record { digest = d; first_seen = now } ∷ []))
Ordered-append lo hi now [] d o p = (omega arith, omega arith)
Ordered-append lo hi now (e ∷ es) d o p = (o.0, Ordered-append _ hi now es d o.1 p)

pub length-recent : (ttl now : ℕ) (es : List Entry) → length (recent ttl now es) ≤ length es
length-recent ttl now [] = omega arith
length-recent ttl now (e ∷ es) = let ih = length-recent ttl now es in ground arith

-- Where the oldest entry is young, all are.
recent-all :
    (ttl now lo hi : ℕ) (es : List Entry)
    → Ordered lo hi es
    → now < lo + ttl
    → recent ttl now es ≡ es
recent-all ttl now lo hi [] o p = refl
recent-all ttl now lo hi (e ∷ es) o p =
    rw (lt→ltb now (e.first_seen + ttl) (omega arith))
      (ap (◌∷◌ e) (recent-all ttl now e.first_seen hi es o.1 (omega arith)))

pub find-recent :
    (ttl now d : ℕ) (es : List Entry)
    → IsDistinct es
    → find d (recent ttl now es) ≡ elim (find d es) [
      | some e ↦ (if ltb now (e.first_seen + ttl) then some e else none)
      | none ↦ none
    ]
find-recent ttl now d [] u = refl
find-recent ttl now d (e ∷ es) u =
    let ih = find-recent ttl now d es u.1 in
    let absent : d ≡ e.digest → find d es ≡ none = λ q. ap (λ k. find k es) q ∙ u.0 in
    elim (ℕ_discrete d e.digest) [
      | yes same ↦ let fresh = absent same in ground arith
      | no other ↦ ground arith
    ]

compact_from-recent :
    (f : ReplayFilter) (now lo : ℕ) (es : List Entry) (m : ℕ → Option Entry)
    → Ordered lo now es
    → 0 < f.ttl
    → length es < max_filter_size
    → (compact_from f now es m).fifo ≡ recent f.ttl now es
unfolding compact_from
compact_from-recent f now lo [] m o p q = refl
compact_from-recent f now lo (e ∷ next) m o p q =
    let ih = compact_from-recent f now e.first_seen next (delete m e.digest) o.1 p (omega arith) in
    let le = Ordered-le _ _ next o.1 in
    let roomy = lt→ltb (length (e ∷ next)) max_filter_size q in
    let expires = lt→ltb 0 f.ttl p in
    let back = le→ltb now e.first_seen le in
    elim (Bool-cases (ltb (now - e.first_seen) f.ttl)) [
      | inl young ↦
          rw (roomy, expires, back, young)
            (sym (
              recent-all f.ttl now e.first_seen now (e ∷ next) (omega arith, o.1)
                (let y = ltb→lt _ _ young in omega arith)))
      | inr old ↦
          rw (roomy, expires, back, old, le→ltb now (e.first_seen + f.ttl) (ground arith)) ih
    ]

pub compact_from-same :
    (f : ReplayFilter) (now : ℕ) (es : List Entry) (m : ℕ → Option Entry)
    → ((compact_from f now es m).ttl ≡ f.ttl) × ((compact_from f now es m).hash ≡ f.hash)
unfolding compact_from reset
compact_from-same f now [] m = (refl, refl)
compact_from-same f now (e ∷ next) m =
    let ih = compact_from-same f now next (delete m e.digest) in ground (arith, ih)

-- While the filter is not full, the compaction leaves the young entries, in the map and the list.
pub compact_filter-recent :
    (f : ReplayFilter) (now lo : ℕ)
    → IsValid f
    → Ordered lo now f.fifo
    → 0 < f.ttl
    → length f.fifo < max_filter_size
    → ((compact_filter f now).fifo ≡ recent f.ttl now f.fifo)
      × ((k : ℕ) → (compact_filter f now).filter k ≡ find k (recent f.ttl now f.fifo))
unfolding compact_filter
compact_filter-recent f now lo v o p q =
    let list = compact_from-recent f now lo f.fifo f.filter o p q in
    (
      list,
      λ k.
          (compact_from-IsCompacted f now f.fifo f.filter v.indexes v.distinct).indexes k
          ∙ ap (find k) list,
    )

-- While its clock does not go back and it is not full, a valid filter answers `TestAndSet` by
-- whether the first recording of the digest was less than `ttl` ago.
pub test_and_set-seen_within :
    (f : ReplayFilter) (now lo : ℕ) (buf : Bytes)
    → IsValid f
    → Ordered lo now f.fifo
    → 0 < f.ttl
    → length f.fifo < max_filter_size
    → (test_and_set f now buf).1 ≡ seen_within f.ttl now (f.hash buf) f.fifo
unfolding test_and_set on_lookup
test_and_set-seen_within f now lo buf v o p q =
    let looked = (compact_filter-recent f now lo v o p q).1 (f.hash buf) in
    let found = find-recent f.ttl now (f.hash buf) f.fifo v.distinct in
    rw (looked, found) (ground arith)
