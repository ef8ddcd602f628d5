-- ===== src/Front/Switch.antt =====
-- transports/front/packet.go: the switch of the receiving side.
use wfdef.Prelude.{◌++◌, Bool, true, false, not, none, List, [], ◌∷◌, ◌==◌, if◌then◌else◌, arith}
use wfdef.Defconn.State.{start, stop, is_start, is_stop, set_state}
use wfdef.Defconn.PacketType
use wfdef.Defconn.Receive.{goes, panics, on_payload, on_prng_seed, Switch}
use wfdef.Defconn.Receive.Local.{IsLocal}

-- `extra` is what has been put into `paddingChan`.
unfoldable pub switch : Switch (List Bool)
unfolding on_payload on_prng_seed
switch l pkt_type payload pkt =
    if pkt_type == PacketType.payload
    then goes (on_payload true l payload) none
    else if pkt_type == PacketType.prng_seed
    then on_prng_seed l payload
    else if pkt_type == PacketType.signal_start
    then (if not l.is_server
        then panics
        else if not (is_start l.conn_state.cur_state)
        then goes
            (record l { extra = l.extra ++ (true ∷ []); conn_state = set_state l.conn_state start })
            none
        else goes l none)
    else if pkt_type == PacketType.signal_stop
    then (if not l.is_server
        then panics
        else if not (is_stop l.conn_state.cur_state)
        then goes
            (record l { extra = l.extra ++ (false ∷ []); conn_state = set_state l.conn_state stop })
            none
        else goes l none)
    else goes l none

pub front_switch-IsLocal : IsLocal switch
unfolding switch
front_switch-IsLocal = record {
  keeps = λ l t payload pkt. ground arith;
  ignores = λ l t payload pkt bs. ground arith;
}
