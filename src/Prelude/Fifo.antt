-- ===== src/Prelude/Fifo.antt =====
-- The first-in-first-out queues of goconcurrentqueue, as a parameter of their clients.
use Prim.Native.Nat.{ℕ}
use mathlib.Core.Path.{◌≡◌}
use mathlib.Core.List.{List, [], ◌∷◌, ◌++◌}
use mathlib.Core.Option.{Option, some}
use wfdef.Prelude.Lists.{length}

pub record Fifo (Q A : Type 0) : Type 0 where
  pub get_len : Q → ℕ
  pub enqueue : Q → A → Option Q
  pub dequeue : Q → Option (A × Q)
  pub get_first : Q → Option A

-- What its documentation says of a queue that is not locked: it keeps the order.
pub record FifoLaws {Q A : Type 0} (queue : Fifo Q A) : Type 0 where
  pub contents : Q → List A
  pub length-contents : (q : Q) → length (contents q) ≡ queue.get_len q
  pub enqueue-contents :
      (q : Q) (a : A)
      → (q' : Q) × (queue.enqueue q a ≡ some q') × (contents q' ≡ contents q ++ (a ∷ []))
  pub dequeue-contents :
      (q : Q) (a : A) (rest : List A)
      → contents q ≡ a ∷ rest
      → (q' : Q) × (queue.dequeue q ≡ some (a, q')) × (contents q' ≡ rest)
