-- ===== src/Defconn/Copy/Follow.antt =====
-- The server follows the client: what its switch makes of the client's packets is the client's
-- state, when each routine of the client puts its packet into the channel before another runs.
use wfdef.Prelude.{
  ◌<◌, ◌≡◌, ◌≢◌, refl, ap, ◌∙◌, true, false, Bool-cases, inl, inr, Option, none, some, List, [],
  ◌∷◌, ◌++◌, Bytes, length, ltb,
}
use wfdef.Drbg.{Sip}
use wfdef.Framing.{Box}
use wfdef.Defconn.State.{
  Phase, start, stop, ready, padding, set_state, increment_rcv, is_start, is_stop,
}
use wfdef.Defconn.PacketType
use wfdef.Defconn.Packet.{PacketError, PacketInfo, packet_bytes}
use wfdef.Defconn.Receive.{Link, Handled, goes, panics, switch, on_payload}
use wfdef.Defconn.Copy.{
  Copier, signal, on_read, payload_packet, chop, put_by_reader, on_tick, put_by_ticker, send,
  running,
}

-- A `DefConn` adds nothing to what the transports share.
abbrev pub DefConn : Type 0
DefConn = Link (Unit {0})

-- The switch over a list of packets, while none of them makes it panic.
unfoldable pub serve_next : Handled (Unit {0}) → (DefConn → Option (DefConn)) → Option (DefConn)
serve_next (goes l e) go_on = go_on l
serve_next panics go_on = none

unfoldable pub serve : DefConn → List PacketInfo → Option (DefConn)
unfolding serve_next
serve l [] = some l
serve l (p ∷ ps) = serve_next (switch l p.pkt_type p.body (packet_bytes p)) (λ l'. serve l' ps)

-- A server in a state.
pub record IsServerIn (phase : Phase) (l : DefConn) : Type 0 where
  pub server : l.is_server ≡ true
  pub state : l.conn_state.cur_state ≡ phase

-- A packet takes the switch of the server from one state to another.
abbrev pub Moves : Phase → PacketInfo → Phase → Type 0
Moves from p to =
    (l : DefConn)
    → IsServerIn from l
    → (l' : DefConn) × (e : Option PacketError) × (switch l p.pkt_type p.body (packet_bytes p)
        ≡ goes l' e)
      × IsServerIn to l'

is_start_iff : (p : Phase) → is_start p ≡ true → p ≡ start
is_start_iff start h = refl
is_start_iff stop h = cc
is_start_iff ready h = cc
is_start_iff padding h = cc

is_stop_iff : (p : Phase) → is_stop p ≡ true → p ≡ stop
is_stop_iff start h = cc
is_stop_iff stop h = refl
is_stop_iff ready h = cc
is_stop_iff padding h = cc

pub Moves-start : (from : Phase) → Moves from (signal PacketType.signal_start) start
unfolding switch
Moves-start from l i =
    let server = i.server in
    elim (Bool-cases (is_start l.conn_state.cur_state)) [
      | inl already ↦ (
        l,
        none,
        rw (server, already) refl,
        record { server = server; state = is_start_iff _ already },
      )
      | inr fresh ↦ (
        record l { conn_state = set_state l.conn_state start },
        none,
        rw (server, fresh) refl,
        record { server = server; state = refl },
      )
    ]

pub Moves-stop : (from : Phase) → Moves from (signal PacketType.signal_stop) stop
unfolding switch
Moves-stop from l i =
    let server = i.server in
    elim (Bool-cases (is_stop l.conn_state.cur_state)) [
      | inl already ↦ (
        l,
        none,
        rw (server, already) refl,
        record { server = server; state = is_stop_iff _ already },
      )
      | inr fresh ↦ (
        record l { conn_state = set_state l.conn_state stop },
        none,
        rw (server, fresh) refl,
        record { server = server; state = refl },
      )
    ]

pub Moves-payload : (from : Phase) (body : Bytes) → Moves from (payload_packet body) from
unfolding switch on_payload
Moves-payload from body l i = elim (Bool-cases (ltb 0 (length body))) [
  | inl some_data ↦ (
    on_payload true l body,
    none,
    refl,
    rw some_data (record { server = i.server; state = i.state }),
  )
  | inr no_data ↦ (
    on_payload true l body,
    none,
    refl,
    rw no_data (record { server = i.server; state = i.state }),
  )
]

some-inj : {l l' : DefConn} → some l ≡ some l' → l ≡ l'
some-inj h = cc

pub serve-append :
    (ps : List PacketInfo) (l : DefConn) (p : PacketInfo) {l' l'' : DefConn}
    {e : Option PacketError}
    → serve l ps ≡ some l'
    → switch l' p.pkt_type p.body (packet_bytes p) ≡ goes l'' e
    → serve l (ps ++ (p ∷ [])) ≡ some l''
unfolding serve serve_next
serve-append [] l p h k =
    let same : l ≡ _ = some-inj h in
    ap (λ x. serve_next (switch x p.pkt_type p.body (packet_bytes p)) some) same
    ∙ ap (λ r. serve_next r some) k
serve-append (q ∷ ps) l p {l'} {l''} h k =
    by_first (switch l q.pkt_type q.body (packet_bytes q)) h (λ l₁ g. serve-append ps l₁ p g k)
  where
    by_first :
        (r : Handled (Unit {0}))
        → serve_next r (λ l₁. serve l₁ ps) ≡ some l'
        → ((l₁ : DefConn) → serve l₁ ps ≡ some l' → serve l₁ (ps ++ (p ∷ [])) ≡ some l'')
        → serve_next r (λ l₁. serve l₁ (ps ++ (p ∷ []))) ≡ some l''
    by_first (goes l₁ e₁) g ih = ih l₁ g
    by_first panics g ih = cc

-- One turn of a routine, with what it puts into the channel.
abbrev pub reader_flushes : Copier → Option PacketInfo → Copier
reader_flushes c none = c
reader_flushes c (some p) = put_by_reader c p

abbrev pub ticker_flushes : Copier → Option PacketInfo → Copier
ticker_flushes c none = c
ticker_flushes c (some p) = put_by_ticker c p

unfoldable pub turn_read : Copier → Bytes → Copier
turn_read c bs = let c' = on_read c bs in reader_flushes c' c'.held_by_reader

unfoldable pub turn_chop : Copier → Copier
turn_chop c = let c' = chop c in reader_flushes c' c'.held_by_reader

unfoldable pub turn_tick : Copier → Copier
turn_tick c = let c' = on_tick c in ticker_flushes c' c'.held_by_ticker

module _ (s : Sip) (b : Box) where
  -- The runs in which the routines take turns.
  pub data Turns : Copier → Copier → Type 0 where
    done : {c : Copier} → Turns c c
    reads : {c c' : Copier} (bs : Bytes) → Turns c c' → Turns c (turn_read c' bs)
    chops : {c c' : Copier} → Turns c c' → 0 < length c'.receive_buf → Turns c (turn_chop c')
    ticks : {c c' : Copier} → Turns c c' → Turns c (turn_tick c')
    sends :
        {c c' : Copier} (p : PacketInfo) (rest : List PacketInfo)
        → Turns c c'
        → c'.sender ≡ running
        → c'.send_chan ≡ p ∷ rest
        → Turns c (send s b c' p rest)
    -- the reading side counts a payload that has come
    receives :
        {c c' : Copier} → Turns c c' → Turns c (record c' { counters = increment_rcv c'.counters })

-- What the server is to make of the client's state.
abbrev pub mirror : Phase → Phase
mirror start = start
mirror _ = stop

-- All packets, in the order in which the server gets them.
abbrev pub flow : Copier → List PacketInfo
flow c = c.taken ++ c.send_chan

-- The server that has got all packets is in the state that mirrors the client's.
pub record IsFollowed (l : DefConn) (c : Copier) : Type 0 where
  pub client : c.is_server ≡ false
  pub no_padding : c.conn_state.cur_state ≢ padding
  pub reader_idle : c.held_by_reader ≡ none
  pub ticker_idle : c.held_by_ticker ≡ none
  pub now : DefConn
  pub served : serve l (flow c) ≡ some now
  pub follows : IsServerIn (mirror c.conn_state.cur_state) now
