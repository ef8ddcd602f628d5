-- ===== src/Defconn/State.antt =====
-- transports/defconn/state.go: the defense state and the segment counters.
use wfdef.Prelude.{ℕ, ◌+◌, ◌%◌, ◌^◌, Bool, true, false}

pub data Phase : Type 0 where
  start stop ready padding : Phase

abbrev pub is_start : Phase → Bool
is_start start = true
is_start _ = false

abbrev pub is_stop : Phase → Bool
is_stop stop = true
is_stop _ = false

abbrev pub is_ready : Phase → Bool
is_ready ready = true
is_ready _ = false

pub record State : Type 0 where
  pub cur_state : Phase
  pub last_state : Phase

abbrev pub new_state : State
new_state = record { cur_state = stop; last_state = stop }

abbrev pub set_state : State → Phase → State
set_state s new = record { cur_state = new; last_state = s.cur_state }

abbrev pub reset_state : State → State
reset_state s = record { cur_state = stop; last_state = stop }

-- `nRealSegSent` and `nRealSegRcv`, two uint32
pub record Counters : Type 0 where
  pub sent : ℕ
  pub rcv : ℕ

abbrev pub increment_sent : Counters → Counters
increment_sent c = record c { sent = (c.sent + 1) % 2 ^ 32 }

abbrev pub increment_rcv : Counters → Counters
increment_rcv c = record c { rcv = (c.rcv + 1) % 2 ^ 32 }

abbrev pub reset_counters : Counters → Counters
reset_counters c = record { sent = 0; rcv = 0 }
