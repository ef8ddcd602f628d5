-- ===== src/Front/Times.antt =====
-- A start signal replaces the times in FRONT's queue, sorted, and a stop signal removes them.
use wfdef.Prelude.{
  ℕ, zero, suc, ◌+◌, ◌≤◌, ◌≡◌, refl, sym, ap, ◌∙◌, Bool, true, false, Bool-cases, inl, inr, List,
  [], ◌∷◌, ◌++◌, append_assoc, append-nil, length, length-append, leb, lt→ltb, if◌then◌else◌, arith,
}
use wfdef.Front.Queue.{FixedFifo, FifoLaws}
use wfdef.Front.{insert, sort, Padder, empty, refill, init_front_args, on_padding}

length-insert : (t : ℕ) (ts : List ℕ) → length (insert t ts) ≡ suc (length ts)
unfolding insert
length-insert t [] = refl
length-insert t (u ∷ ts) = let ih = length-insert t ts in by_test (leb t u) ih
  where
    by_test :
        (b : Bool)
        → length (insert t ts) ≡ suc (length ts)
        → length (if b then t ∷ u ∷ ts else u ∷ insert t ts) ≡ suc (suc (length ts))
    by_test true ih = refl
    by_test false ih = ap suc ih

pub length-sort : (ts : List ℕ) → length (sort ts) ≡ length ts
unfolding sort
length-sort [] = refl
length-sort (t ∷ ts) = length-insert t (sort ts) ∙ ap suc (length-sort ts)

abbrev pub FromOn : ℕ → List ℕ → Type 0
FromOn t [] = Unit
FromOn t (u ∷ ts) = t ≤ u

abbrev pub IsSorted : List ℕ → Type 0
IsSorted [] = Unit
IsSorted (t ∷ ts) = FromOn t ts × IsSorted ts

-- Where `u` may stand in front, it may after `t` is inserted, if `u` is no more than `t`.
insert-FromOn : (u t : ℕ) (ts : List ℕ) → u ≤ t → FromOn u ts → FromOn u (insert t ts)
unfolding insert
insert-FromOn u t [] h k = h
insert-FromOn u t (v ∷ ts) h k = by_test (leb t v)
  where
    by_test : (b : Bool) → FromOn u (if b then t ∷ v ∷ ts else v ∷ insert t ts)
    by_test true = h
    by_test false = k

insert-IsSorted : (t : ℕ) (ts : List ℕ) → IsSorted ts → IsSorted (insert t ts)
unfolding insert
insert-IsSorted t [] h = (tt, tt)
insert-IsSorted t (u ∷ ts) h = elim (Bool-cases (leb t u)) [
  | inl first ↦ let le : t ≤ u = ground arith in rw (first, insert) (le, h)
  | inr later ↦
      let le : u ≤ t = ground arith in
      rw (later, insert) (insert-FromOn u t ts le h.0, insert-IsSorted t ts h.1)
]

sort-IsSorted : (ts : List ℕ) → IsSorted (sort ts)
unfolding sort
sort-IsSorted [] = tt
sort-IsSorted (t ∷ ts) = insert-IsSorted t (sort ts) (sort-IsSorted ts)

module _ {Q : Type 0} (queue : FixedFifo Q) (laws : FifoLaws queue) where
  empty-contents :
      (fuel : ℕ) (q : Q) → queue.get_len q ≤ fuel → laws.contents (empty queue fuel q) ≡ []
  unfolding empty
  empty-contents fuel q h = by_contents fuel q h (laws.contents q) refl
    where
      by_contents :
          (fuel : ℕ) (q : Q)
          → queue.get_len q ≤ fuel
          → (ts : List ℕ) → laws.contents q ≡ ts
          → laws.contents (empty queue fuel q) ≡ []
      by_contents zero q h [] p = p
      by_contents (suc fuel) q h [] p =
          let none_left : queue.get_len q ≡ 0 = sym (laws.length-contents q) ∙ ap length p in
          rw (none_left, empty) p
      by_contents zero q h (t ∷ ts) p =
          let size : queue.get_len q ≡ suc (length ts) =
            sym (laws.length-contents q) ∙ ap length p in
          ground arith
      by_contents (suc fuel) q h (t ∷ ts) p =
          let size : queue.get_len q ≡ suc (length ts) =
            sym (laws.length-contents q) ∙ ap length p in
          let d = laws.dequeue-contents q t ts p in
          let size' : queue.get_len d.0 ≡ length ts =
            sym (laws.length-contents d.0) ∙ ap length d.2 in
          let some_left = lt→ltb 0 (queue.get_len q) (omega (arith, size)) in
          rw (some_left, d.1, empty) (by_contents fuel d.0 (omega (arith, h, size, size')) ts d.2)

  -- Filling a queue that has room for all.
  refill-contents :
      (ts : List ℕ) (q : Q)
      → length (laws.contents q) + length ts ≤ queue.capacity
      → ((refill queue ts q).0 ≡ true)
        × (laws.contents (refill queue ts q).1 ≡ laws.contents q ++ ts)
  unfolding refill
  refill-contents [] q h = (refl, sym (append-nil (laws.contents q)))
  refill-contents (t ∷ ts) q h =
      let size = laws.length-contents q in
      let e = laws.enqueue-contents q t (omega (arith, h, size)) in
      let size' : length (laws.contents e.0) ≡ length (laws.contents q) + 1 =
        ap length e.2 ∙ length-append (laws.contents q) (t ∷ []) in
      let ih = refill-contents ts e.0 (omega (arith, h, size')) in
      rw (e.1, refill)
        (ih.0, ih.1 ∙ ap (λ r. r ++ ts) e.2 ∙ append_assoc (laws.contents q) (t ∷ []) ts)

  init_front_args-contents :
      (ts : List ℕ) (q : Q)
      → length ts ≤ queue.capacity
      → ((init_front_args queue ts q).0 ≡ true)
        × (laws.contents (init_front_args queue ts q).1 ≡ sort ts)
  unfolding init_front_args
  init_front_args-contents ts q h =
      let q' = empty queue (queue.get_len q) q in
      let clear : laws.contents q' ≡ [] = empty-contents (queue.get_len q) q (omega arith) in
      let size = ap length clear in
      let r = refill-contents (sort ts) q' (omega (arith, h, length-sort ts, size)) in
      (r.0, r.1 ∙ ap (λ r. r ++ sort ts) clear)

  -- The times that a signal leaves in the queue.
  abbrev pub times : Bool → List ℕ → List ℕ
  times true ts = sort ts
  times false ts = []

  -- Whatever was in the queue: a start signal with no more times than the queue's capacity leaves
  -- what `sort` makes of these in it, which is in ascending order, and a stop signal none; the factory
  -- goes on.
  pub on_padding-contents :
      (c : Padder Q) (b : Bool) (rest : List Bool) (ts : List ℕ)
      → length ts ≤ queue.capacity
      → c.stopped ≡ false
      → (laws.contents (on_padding queue c b rest ts).ts_queue ≡ times b ts)
        × ((on_padding queue c b rest ts).stopped ≡ false)
        × IsSorted (laws.contents (on_padding queue c b rest ts).ts_queue)
  unfolding on_padding
  on_padding-contents c true rest ts h running =
      let r = init_front_args-contents ts c.ts_queue h in
      (r.1, rw r.0 refl, rw r.1 (sort-IsSorted ts))
  on_padding-contents c false rest ts h running =
      let clear = empty-contents (queue.get_len c.ts_queue) c.ts_queue (omega arith) in
      (clear, running, rw clear tt)
