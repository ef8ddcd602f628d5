-- ===== src/Front/Queue.antt =====
-- The queue of transports/front/front.go, a `FixedFIFO` of goconcurrentqueue, as a parameter.
use wfdef.Prelude.{ℕ, ◌<◌, ◌≡◌, Option, some, List, [], ◌∷◌, ◌++◌, length}

pub record FixedFifo (Q : Type 0) : Type 0 where
  pub capacity : ℕ
  pub get_len : Q → ℕ
  pub enqueue : Q → ℕ → Option Q
  pub dequeue : Q → Option (ℕ × Q)

-- What its documentation says: it keeps the order, and adds as long as it is not full.
pub record FifoLaws {Q : Type 0} (queue : FixedFifo Q) : Type 0 where
  pub contents : Q → List ℕ
  pub length-contents : (q : Q) → length (contents q) ≡ queue.get_len q
  pub enqueue-contents :
      (q : Q) (t : ℕ)
      → queue.get_len q < queue.capacity
      → (q' : Q) × (queue.enqueue q t ≡ some q') × (contents q' ≡ contents q ++ (t ∷ []))
  pub dequeue-contents :
      (q : Q) (t : ℕ) (ts : List ℕ)
      → contents q ≡ t ∷ ts
      → (q' : Q) × (queue.dequeue q ≡ some (t, q')) × (contents q' ≡ ts)
