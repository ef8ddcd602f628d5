-- ===== src/Tamaraw/Padding.antt =====
-- `curNSeg` counts the packets of a slot, modulo `nSeg`.
use native.Mathlib.Nat.{div-add-mod', add-mul}
use wfdef.Prelude.{
  ℕ, ◌+◌, ◌*◌, ◌/◌, ◌%◌, ◌≡◌, refl, Bool, true, false, not, ◌&&◌, ◌||◌, Bool-cases, inl, inr,
  Option, none, some, List, [], ◌∷◌, ◌++◌, length, ltb, ◌==◌, if◌then◌else◌, arith,
}
use wfdef.Defconn.State.{start, stop, ready, State, is_stop, is_ready, set_state}
use wfdef.Defconn.PacketType
use wfdef.Defconn.Packet.{PacketInfo}
use wfdef.Defconn.Copy.{signal}
use wfdef.Tamaraw.{is_padding, Scheduler, next_packet, put, moves_to, advance}

-- The packets that were sent in a slot of their own, that is, no signals.
abbrev pub is_cell : PacketInfo → Bool
is_cell p = p.pkt_type == PacketType.payload || p.pkt_type == PacketType.dummy

abbrev pub cells : List PacketInfo → ℕ
cells [] = 0
cells (p ∷ ps) = if is_cell p then 1 + cells ps else cells ps

cells-put :
    (ps : List PacketInfo) (p : PacketInfo)
    → is_cell p ≡ true
    → cells (ps ++ (p ∷ [])) ≡ cells ps + 1
cells-put [] p h = ground arith
cells-put (q ∷ ps) p h = let ih = cells-put ps p h in ground arith

cells-signal :
    (ps : List PacketInfo) (p : PacketInfo) → is_cell p ≡ false → cells (ps ++ (p ∷ [])) ≡ cells ps
cells-signal [] p h = ground arith
cells-signal (q ∷ ps) p h = let ih = cells-signal ps p h in ground arith

abbrev pub IsMultiple : ℕ → ℕ → Type 0
IsMultiple n m = (k : ℕ) × (m ≡ k * n)

-- `curNSeg` counts the cells since the last multiple of `nSeg`.
abbrev pub Counted : Scheduler → Type 0
Counted c = (base : ℕ) × IsMultiple c.n_seg base × (cells c.send_chan ≡ base + c.cur_n_seg)

-- What the client's next state is counted by, in a slot.
abbrev pub Advances : ℕ → ℕ → Option Scheduler → Type 0
Advances n total none = Unit
Advances n total (some c') = (c'.n_seg ≡ n) × (cells c'.send_chan ≡ total) × Counted c'

sum-IsMultiple : (n base cur : ℕ) → IsMultiple n base → cur % n ≡ 0 → IsMultiple n (base + cur)
sum-IsMultiple n base cur (k, m) h = (
  k + cur / n,
  (let whole = div-add-mod' cur n in
      let apart = add-mul k (cur / n) n in omega (arith, whole, apart, m, h)),
)

module _ (c : Scheduler) (p : PacketInfo) (cell : is_cell p ≡ true) (base : ℕ)
    (m : IsMultiple c.n_seg base) (count : cells c.send_chan + 1 ≡ base + c.cur_n_seg) where
  keeps :
      (state : State)
      → Advances c.n_seg (cells c.send_chan + 1) (some (put (record c { conn_state = state }) p))
  keeps state =
      let size = cells-put c.send_chan p cell in (refl, size, (base, m, omega (arith, size, count)))

  signals :
      (state : State) (q : PacketInfo)
      → is_cell q ≡ false
      → Advances c.n_seg
          (cells c.send_chan + 1)
          (some (put (put (record c { conn_state = state }) q) p))
  signals state q h =
      let first = cells-signal c.send_chan q h in
      let size = cells-put (c.send_chan ++ (q ∷ [])) p cell in
      (refl, omega (arith, size, first), (base, m, omega (arith, size, first, count)))

  concludes :
      (state : State)
      → c.cur_n_seg % c.n_seg ≡ 0
      → Advances c.n_seg (cells c.send_chan + 1) (
          some (
            put
              (record (put (record c { conn_state = state }) (signal PacketType.signal_stop)) {
                cur_n_seg = 0;
              })
              p))
  concludes state h =
      let first = cells-signal c.send_chan (signal PacketType.signal_stop) refl in
      let size = cells-put (c.send_chan ++ (signal PacketType.signal_stop ∷ [])) p cell in
      (
        refl,
        omega (arith, size, first),
        (
          base + c.cur_n_seg,
          sum-IsMultiple c.n_seg base c.cur_n_seg m h,
          omega (arith, size, first, count),
        ),
      )

  pub advance-Advances : Advances c.n_seg (cells c.send_chan + 1) (advance c p)
  unfolding advance
  advance-Advances =
      by_tests (not c.is_server)
        (is_stop c.conn_state.cur_state && p.pkt_type == PacketType.payload)
        (is_ready c.conn_state.cur_state && p.pkt_type == PacketType.payload)
        (is_padding c.conn_state.cur_state) (c.n_seg == 0) (c.cur_n_seg % c.n_seg == 0)
        (λ h. ground arith)
    where
      by_tests :
          (client from_stop from_ready pads zero_seg full : Bool)
          → (full ≡ true → c.cur_n_seg % c.n_seg ≡ 0)
          → Advances c.n_seg (cells c.send_chan + 1) (
              if client
              then (if from_stop
                  then some (put (moves_to c ready) p)
                  else if from_ready
                  then some (put (put (moves_to c start) (signal PacketType.signal_start)) p)
                  else if pads
                  then (if zero_seg
                      then none
                      else if full
                      then some (
                          put
                            (record (put (moves_to c stop) (signal PacketType.signal_stop)) {
                              cur_n_seg = 0;
                            })
                            p)
                      else some (put c p))
                  else some (put c p))
              else some (put c p))
      by_tests false _ _ _ _ _ h = keeps c.conn_state
      by_tests true true _ _ _ _ h = keeps (set_state c.conn_state ready)
      by_tests true false true _ _ _ h =
          signals (set_state c.conn_state start) (signal PacketType.signal_start) refl
      by_tests true false false false _ _ h = keeps c.conn_state
      by_tests true false false true true _ h = tt
      by_tests true false false true false true h = concludes (set_state c.conn_state stop) (h refl)
      by_tests true false false true false false h = keeps c.conn_state

pub next_packet-cell : (c : Scheduler) → is_cell (next_packet c).0 ≡ true
unfolding next_packet
next_packet-cell c = elim (Bool-cases (ltb 0 (length c.receive_buf))) [
  | inl some_data ↦ rw some_data refl
  | inr no_data ↦ rw no_data refl
]

pub next_packet-same :
    (c : Scheduler)
    → ((next_packet c).1.n_seg ≡ c.n_seg)
      × ((next_packet c).1.send_chan ≡ c.send_chan)
      × ((next_packet c).1.cur_n_seg ≡ c.cur_n_seg)
unfolding next_packet
next_packet-same c = elim (Bool-cases (ltb 0 (length c.receive_buf))) [
  | inl some_data ↦ rw some_data (refl, refl, refl)
  | inr no_data ↦ rw no_data (refl, refl, refl)
]
