-- ===== src/ReplayFilter/Replays.antt =====
-- A replayed handshake is caught for `ttl`, whatever other handshakes come in between.
use wfdef.Prelude.{
  ℕ, suc, ◌+◌, ◌≤◌, ◌<◌, ◌≡◌, refl, sym, ap, ◌∙◌, true, false, Option, none, some, List, [], ◌∷◌,
  ◌++◌, Bytes, length, length-append, lt→ltb, arith,
}
use wfdef.ReplayFilter.{
  Entry, ReplayFilter, max_filter_size, compact_from, compact_filter, set, on_lookup, test_and_set,
}
use wfdef.ReplayFilter.Valid.{find, IsValid, find-append, test_and_set-IsValid}
use wfdef.ReplayFilter.Window.{
  recent, Ordered, seen_within, Ordered-weaken, Ordered-recent, Ordered-append, length-recent,
  find-recent, compact_from-same, compact_filter-recent, test_and_set-seen_within,
}

-- The entries after a call that finds `o` among them.
abbrev recorded : ℕ → ℕ → List Entry → Option Entry → List Entry
recorded now d es (some e) = es
recorded now d es none = es ++ (record { digest = d; first_seen = now } ∷ [])

on_lookup-fifo :
    (g : ReplayFilter) (now d : ℕ) (es : List Entry) (o : Option Entry)
    → g.fifo ≡ es
    → (on_lookup g now d o).0.fifo ≡ recorded now d es o
unfolding on_lookup set
on_lookup-fifo g now d es none h = ap (λ l. l ++ (record { digest = d; first_seen = now } ∷ [])) h
on_lookup-fifo g now d es (some e) h = h

on_lookup-same :
    (g : ReplayFilter) (now d : ℕ) (o : Option Entry)
    → ((on_lookup g now d o).0.ttl ≡ g.ttl) × ((on_lookup g now d o).0.hash ≡ g.hash)
unfolding on_lookup set
on_lookup-same g now d none = (refl, refl)
on_lookup-same g now d (some e) = (refl, refl)

-- The list after a call: the young entries, with a new one unless the digest is among them.
test_and_set-fifo :
    (f : ReplayFilter) (now lo : ℕ) (buf : Bytes)
    → IsValid f
    → Ordered lo now f.fifo
    → 0 < f.ttl
    → length f.fifo < max_filter_size
    → (test_and_set f now buf).0.fifo
      ≡ recorded now
          (f.hash buf)
          (recent f.ttl now f.fifo)
          (find (f.hash buf) (recent f.ttl now f.fifo))
unfolding test_and_set
test_and_set-fifo f now lo buf v o p q =
    let c = compact_filter-recent f now lo v o p q in
    rw (c.1 (f.hash buf)) (
      on_lookup-fifo (compact_filter f now) now (f.hash buf) (recent f.ttl now f.fifo)
        (find (f.hash buf) (recent f.ttl now f.fifo)) c.0)

test_and_set-same :
    (f : ReplayFilter) (now : ℕ) (buf : Bytes)
    → ((test_and_set f now buf).0.ttl ≡ f.ttl) × ((test_and_set f now buf).0.hash ≡ f.hash)
unfolding test_and_set compact_filter
test_and_set-same f now buf =
    let same = compact_from-same f now f.fifo f.filter in
    let g = compact_from f now f.fifo f.filter in
    let kept = on_lookup-same g now (f.hash buf) (g.filter (f.hash buf)) in
    (kept.0 ∙ same.0, kept.1 ∙ same.1)

-- A filter that can take `n` calls more, at `now` or later.
pub record IsReady (f : ReplayFilter) (now n : ℕ) : Type 0 where
  pub valid : IsValid f
  pub ordered : Ordered 0 now f.fifo
  pub expires : 0 < f.ttl
  pub room : length f.fifo + n < max_filter_size

Ordered-recorded :
    (now d : ℕ) (es : List Entry) (o : Option Entry)
    → Ordered 0 now es
    → Ordered 0 now (recorded now d es o)
Ordered-recorded now d es none h = Ordered-append 0 now now es d h (omega arith)
Ordered-recorded now d es (some e) h = h

length-recorded :
    (now d : ℕ) (es : List Entry) (o : Option Entry)
    → length (recorded now d es o) ≤ suc (length es)
length-recorded now d es none =
    omega (arith, length-append es (record { digest = d; first_seen = now } ∷ []))
length-recorded now d es (some e) = omega arith

find-recorded :
    (now d k : ℕ) (es : List Entry) (o : Option Entry) (e : Entry)
    → find k es ≡ some e
    → find k (recorded now d es o) ≡ some e
find-recorded now d k es none e h =
    ground (arith, find-append k es (record { digest = d; first_seen = now }), h)
find-recorded now d k es (some x) e h = h

pub test_and_set-IsReady :
    (f : ReplayFilter) (last now n : ℕ) (buf : Bytes)
    → IsReady f last (suc n)
    → last ≤ now
    → IsReady (test_and_set f now buf).0 now n
test_and_set-IsReady f last now n buf r p =
    let o = Ordered-weaken 0 0 last now f.fifo r.ordered (omega arith) p in
    let room = r.room in
    let list = test_and_set-fifo f now 0 buf r.valid o r.expires (omega arith) in
    let es = recent f.ttl now f.fifo in
    let hit = find (f.hash buf) es in
    record {
      valid = test_and_set-IsValid f now buf r.valid;
      ordered =
          rw list
            (Ordered-recorded now (f.hash buf) es hit (Ordered-recent f.ttl now 0 now f.fifo o));
      expires = rw (test_and_set-same f now buf).0 r.expires;
      room = rw list (
          let short = length-recent f.ttl now f.fifo in
          let longer = length-recorded now (f.hash buf) es hit in omega arith);
    }

-- An entry stays as long as it is young.
test_and_set-keeps :
    (f : ReplayFilter) (last now n k : ℕ) (buf : Bytes) (e : Entry)
    → IsReady f last (suc n)
    → last ≤ now
    → now < e.first_seen + f.ttl
    → find k f.fifo ≡ some e
    → find k (test_and_set f now buf).0.fifo ≡ some e
test_and_set-keeps f last now n k buf e r p young h =
    let o = Ordered-weaken 0 0 last now f.fifo r.ordered (omega arith) p in
    let room = r.room in
    let list = test_and_set-fifo f now 0 buf r.valid o r.expires (omega arith) in
    let es = recent f.ttl now f.fifo in
    let kept : find k es ≡ some e =
      find-recent f.ttl now k f.fifo r.valid.distinct
      ∙ rw (h, lt→ltb now (e.first_seen + f.ttl) young) refl in
    rw list (find-recorded now (f.hash buf) k es (find (f.hash buf) es) e kept)

-- Handshakes with their times.
abbrev pub run : ReplayFilter → List (ℕ × Bytes) → ReplayFilter
run f [] = f
run f ((now, buf) ∷ calls) = run (test_and_set f now buf).0 calls

abbrev pub InOrder : ℕ → ℕ → List (ℕ × Bytes) → Type 0
InOrder lo hi [] = lo ≤ hi
InOrder lo hi ((now, buf) ∷ calls) = (lo ≤ now) × InOrder now hi calls

InOrder-le : (lo hi : ℕ) (calls : List (ℕ × Bytes)) → InOrder lo hi calls → lo ≤ hi
InOrder-le lo hi [] o = o
InOrder-le lo hi ((now, buf) ∷ calls) o = let r = InOrder-le now hi calls o.1 in omega arith

run-keeps :
    (f : ReplayFilter) (last t k : ℕ) (calls : List (ℕ × Bytes)) (e : Entry)
    → IsReady f last (length calls)
    → InOrder last t calls
    → t < e.first_seen + f.ttl
    → find k f.fifo ≡ some e
    → IsReady (run f calls) t 0
      × (find k (run f calls).fifo ≡ some e)
      × ((run f calls).ttl ≡ f.ttl)
      × ((run f calls).hash ≡ f.hash)
run-keeps f last t k [] e r o young h = (
  record {
    valid = r.valid;
    ordered = Ordered-weaken 0 0 last t f.fifo r.ordered (omega arith) o;
    expires = r.expires;
    room = (let room = r.room in omega arith);
  },
  h,
  refl,
  refl,
)
run-keeps f last t k ((now, buf) ∷ calls) e r o young h =
    let same = test_and_set-same f now buf in
    let le = InOrder-le now t calls o.1 in
    let next = test_and_set-IsReady f last now (length calls) buf r o.0 in
    let kept = test_and_set-keeps f last now (length calls) k buf e r o.0 (omega arith) h in
    let rest =
      run-keeps (test_and_set f now buf).0 now t k calls e next o.1 (rw same.0 young) kept in
    (rest.0, rest.1, rest.2 ∙ same.0, rest.3 ∙ same.1)

on_lookup-miss :
    (g : ReplayFilter) (now d : ℕ) (o : Option Entry) → (on_lookup g now d o).1 ≡ false → o ≡ none
unfolding on_lookup
on_lookup-miss g now d none h = refl
on_lookup-miss g now d (some e) h = cc

list_records :
    (f : ReplayFilter) (now : ℕ) (buf : Bytes) (es : List Entry) {list : List Entry}
    → list ≡ es ++ (record { digest = f.hash buf; first_seen = now } ∷ [])
    → find (f.hash buf) es ≡ none
    → find (f.hash buf) list ≡ some (record { digest = f.hash buf; first_seen = now })
list_records f now buf es p q =
    let new_entry : Entry = record { digest = f.hash buf; first_seen = now } in
    ap (find (f.hash buf)) p ∙ find-append (f.hash buf) es new_entry ∙ rw q (ground arith)

-- A call that misses records the digest.
test_and_set-records :
    (f : ReplayFilter) (last now n : ℕ) (buf : Bytes)
    → IsReady f last (suc n)
    → last ≤ now
    → (test_and_set f now buf).1 ≡ false
    → find (f.hash buf) (test_and_set f now buf).0.fifo
      ≡ some (record { digest = f.hash buf; first_seen = now })
unfolding test_and_set
test_and_set-records f last now n buf r p miss =
    let o = Ordered-weaken 0 0 last now f.fifo r.ordered (omega arith) p in
    let room = r.room in
    let es = recent f.ttl now f.fifo in
    let looked = (compact_filter-recent f now 0 r.valid o r.expires (omega arith)).1 (f.hash buf) in
    let none_there : find (f.hash buf) es ≡ none =
      sym looked
      ∙ on_lookup-miss (compact_filter f now) now (f.hash buf)
          ((compact_filter f now).filter (f.hash buf)) miss in
    let list = test_and_set-fifo f now 0 buf r.valid o r.expires (omega arith) in
    list_records f now buf es (list ∙ ap (recorded now (f.hash buf) es) none_there) none_there

seen_within-young :
    (ttl now d : ℕ) (es : List Entry) (e : Entry)
    → find d es ≡ some e
    → now < e.first_seen + ttl
    → seen_within ttl now d es ≡ true
seen_within-young ttl now d es e h young = ground (arith, h)

-- A handshake that is new to a filter at `t0` is reported as a replay at any `t` before `t0 + ttl`,
-- whatever calls come in between, while the clock does not go back and the filter has room for
-- these calls.
pub test_and_set-replayed :
    (f : ReplayFilter) (last t0 t : ℕ) (buf : Bytes) (calls : List (ℕ × Bytes))
    → IsReady f last (suc (length calls))
    → last ≤ t0
    → InOrder t0 t calls
    → t < t0 + f.ttl
    → (test_and_set f t0 buf).1 ≡ false
    → (test_and_set (run (test_and_set f t0 buf).0 calls) t buf).1 ≡ true
test_and_set-replayed f last t0 t buf calls r p o young miss =
    let same = test_and_set-same f t0 buf in
    let next = test_and_set-IsReady f last t0 (length calls) buf r p in
    let new = test_and_set-records f last t0 (length calls) buf r p miss in
    let new_entry : Entry = record { digest = f.hash buf; first_seen = t0 } in
    let done =
      run-keeps (test_and_set f t0 buf).0 t0 t (f.hash buf) calls new_entry next o (rw same.0 young)
        new in
    let last_state = run (test_and_set f t0 buf).0 calls in
    let answer =
      test_and_set-seen_within last_state t 0 buf done.0.valid done.0.ordered done.0.expires
        (let room = done.0.room in omega arith) in
    answer
    ∙ rw (done.2, done.3, same.0, same.1)
        (seen_within-young f.ttl t (f.hash buf) _ new_entry done.1 young)
