-- ===== src/Front.antt =====
-- transports/front/front.go: the padding of `ReadFrom`, which draws the times of its dummies when
-- the defense starts and sends a dummy at each; Switch has the switch of packet.go.
pub mod Switch
pub mod Queue
pub mod Times
pub mod Padding
use wfdef.Prelude.{
  ℕ, zero, suc, ◌+◌, ◌≤◌, ◌<◌, ◌≡◌, Bool, true, false, Option, none, some, List, [], ◌∷◌, ◌++◌,
  Bytes, length, leb, ltb, if◌then◌else◌, ◌||◌, ◌==◌,
}
use wfdef.Defconn.State.{State, is_stop}
use wfdef.Defconn.PacketType
use wfdef.Defconn.Packet.{PacketInfo}
use wfdef.Defconn.Copy.{signal}
use wfdef.Front.Queue.{FixedFifo}

-- `sort.Float64s` on the times, which are nanoseconds here.
unfoldable pub insert : ℕ → List ℕ → List ℕ
insert t [] = t ∷ []
insert t (u ∷ ts) = if leb t u then t ∷ u ∷ ts else u ∷ insert t ts

unfoldable pub sort : List ℕ → List ℕ
sort [] = []
sort (t ∷ ts) = insert t (sort ts)

-- What the padding factory and the padding routine share. `waiting` is the time of the dummy that
-- the routine took from the queue and waits for; `stopped` is true when the factory has ended.
pub record Padder (Q : Type 0) : Type 0 where
  pub conn_state : State
  pub ts_queue : Q
  pub padding_chan : List Bool
  pub waiting : Option ℕ
  pub send_chan : List PacketInfo
  pub stopped : Bool

module _ {Q : Type 0} (queue : FixedFifo Q) where
  -- The loop that empties the queue; each round takes one off it, and its length is fuel enough. An
  -- error of `Dequeue` is ignored.
  unfoldable pub empty : ℕ → Q → Q
  empty zero q = q
  empty (suc fuel) q = elim (ltb 0 (queue.get_len q)) [
    | true ↦ elim (queue.dequeue q) [ none ↦ empty fuel q | some d ↦ empty fuel d.1 ]
    | false ↦ q
  ]

  -- The loop that fills it. The Boolean is false if `Enqueue` has failed.
  unfoldable pub refill : List ℕ → Q → Bool × Q
  refill [] q = (true, q)
  refill (t ∷ ts) q = elim (queue.enqueue q t) [ none ↦ (false, q) | some q' ↦ refill ts q' ]

  -- `initFrontArgs` with the times that it samples.
  unfoldable pub init_front_args : List ℕ → Q → Bool × Q
  init_front_args ts q = refill (sort ts) (empty (queue.get_len q) q)

  -- The padding factory on a signal.
  unfoldable pub on_padding : Padder Q → Bool → List Bool → List ℕ → Padder Q
  on_padding c true rest ts =
      let r = init_front_args ts c.ts_queue in
      record c { padding_chan = rest; ts_queue = r.1; stopped = if r.0 then false else true }
  on_padding c false rest ts = record c {
    padding_chan = rest;
    ts_queue = empty (queue.get_len c.ts_queue) c.ts_queue;
  }

  -- The padding routine takes the next time; `none` is a wait that times out.
  abbrev pub taken : Padder Q → Option (ℕ × Q) → Padder Q
  taken c none = c
  taken c (some (t, q)) = record c { waiting = some t; ts_queue = q }

  -- The test of the state and the wait are one step.
  unfoldable pub on_round : Padder Q → Padder Q
  on_round c =
      if is_stop c.conn_state.cur_state || queue.get_len c.ts_queue == 0
      then c
      else taken c (queue.dequeue c.ts_queue)

  -- `SleepRho` is over.
  abbrev pub on_time : Padder Q → Padder Q
  on_time c = record c { waiting = none; send_chan = c.send_chan ++ (signal PacketType.dummy ∷ []) }

  -- One step; the index is the number of times sampled. `others` are the routines that set the state
  -- and put signals into `paddingChan`, which has no buffer: what stands in it waits.
  pub data Step : Padder Q → ℕ → Padder Q → Type 0 where
    signals :
        {c : Padder Q} (b : Bool) (rest : List Bool) (ts : List ℕ)
        → c.stopped ≡ false
        → c.padding_chan ≡ b ∷ rest
        → length ts ≤ queue.capacity
        → Step c (length ts) (on_padding c b rest ts)
    rounds : {c : Padder Q} → c.waiting ≡ none → Step c 0 (on_round c)
    wakes : {c : Padder Q} (t : ℕ) → c.waiting ≡ some t → Step c 0 (on_time c)
    others :
        {c : Padder Q} (state : State) (bs : List Bool)
        → Step c 0 (record c { conn_state = state; padding_chan = c.padding_chan ++ bs })

  pub data Steps : Padder Q → ℕ → Padder Q → Type 0 where
    done : {c : Padder Q} → Steps c 0 c
    after : {c c' c'' : Padder Q} {m k : ℕ} → Steps c m c' → Step c' k c'' → Steps c (m + k) c''
