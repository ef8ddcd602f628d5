-- ===== src/Defconn/PacketType.antt =====
-- transports/defconn/packet.go: the packet types.
use wfdef.Prelude.{ℕ}

abbrev pub payload : ℕ
payload = 0

abbrev pub dummy : ℕ
dummy = 1

abbrev pub prng_seed : ℕ
prng_seed = 2

abbrev pub signal_start : ℕ
signal_start = 3

abbrev pub signal_stop : ℕ
signal_stop = 4

abbrev pub finish : ℕ
finish = 5
