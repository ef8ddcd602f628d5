-- ===== src/Randomwt/PacketType.antt =====
-- The packet types of transports/randomwt/packet.go.
use wfdef.Prelude.{ℕ}

abbrev pub payload : ℕ
payload = 0

abbrev pub dummy : ℕ
dummy = 1

abbrev pub prng_seed : ℕ
prng_seed = 2

abbrev pub fake_finish : ℕ
fake_finish = 3

abbrev pub real_finish : ℕ
real_finish = 4

abbrev pub tear_down : ℕ
tear_down = 5

abbrev pub signal_start : ℕ
signal_start = 6

abbrev pub signal_stop : ℕ
signal_stop = 7
