-- ===== src/Tests/Regulator.antt =====
-- The theorem on the budget of RegulaTor's server at a concrete run.
use wfdef.Prelude.{◌+◌, true, [], ◌∷◌, ◌++◌, Bytes, arith}
use wfdef.Defconn.State.{new_state}
use wfdef.Regulator.{
  Server, Config, on_round, on_signal, on_read, Steps, reads, rounds, starts, done, after,
  new_server,
}
use wfdef.Regulator.Budget.{Paid, Steps-Paid}

abbrev config : Config
config = record { r = 10; n = 5; decayed = λ r elapsed. r; threshold = λ rate. rate }

abbrev fresh : Server
fresh = new_server config new_state 0 4

abbrev started : Server
started = on_signal config fresh true 1 2

abbrev text : Bytes
text = 104 ∷ 105 ∷ []

-- A start signal, a dummy, and a packet of data.
abbrev finished : Server
finished = on_round config (on_read config (on_round config started 2) text) 3

run : Steps config fresh (((([] ++ []) ++ []) ++ text) ++ []) ((((0 + 2) + 0) + 0) + 0) finished
run =
    after (after (after (after done (starts 1 2 (omega arith))) (rounds 2)) (reads text)) (rounds 3)

Steps-Paid_example :
    Paid (((([] ++ []) ++ []) ++ text) ++ []) (4 + ((((0 + 2) + 0) + 0) + 0)) finished
Steps-Paid_example = Steps-Paid config new_state 0 4 run
