-- ===== src/Wfgan/Turns/Asks.antt =====
-- What the steps of client and server do to the response sizes that are asked for.
use wfdef.Prelude.{
  ℕ, zero, suc, ◌-◌, ◌%◌, ◌^◌, ◌<◌, ◌≡◌, refl, sym, ap, ◌∙◌, Bool, true, false, not, ◌&&◌, ◌||◌,
  Bool-cases, inl, inr, Option, none, some, List, [], ◌∷◌, ◌++◌, append-nil, Bytes, length, ltb,
  leb, ◌==◌, take, if◌then◌else◌, arith,
}
use wfdef.Defconn.State.{start, stop, ready, is_start, is_stop, is_ready, set_state}
use wfdef.Defconn.PacketType
use wfdef.Defconn.Packet.{PacketInfo, max_packet_payload_length}
use wfdef.Defconn.Copy.{signal}
use wfdef.Regulator.Packet.{put_uint32}
use wfdef.Wfgan.{
  Sender, send_packet, to_send, send_while, send_ref_burst, send_all, send_real_burst,
}
use wfdef.Wfgan.Switch.{uint32}
use wfdef.Wfgan.Turns.{
  Tolerance, Client, put, buffer, reset, client_reads, client_ticks, finish, client_round,
  client_asks,
}

-- The sizes that packets ask for.
abbrev pub asked : List PacketInfo → List ℕ
asked [] = []
asked (p ∷ ps) = if p.pkt_type == PacketType.finish then uint32 p.body ∷ asked ps else asked ps

-- 0 is the signal that the defense is off.
abbrev pub positive : List ℕ → List ℕ
positive [] = []
positive (zero ∷ ns) = positive ns
positive (suc n ∷ ns) = suc n ∷ positive ns

pub positive-append : (ns ms : List ℕ) → positive (ns ++ ms) ≡ positive ns ++ positive ms
positive-append [] ms = refl
positive-append (zero ∷ ns) ms = positive-append ns ms
positive-append (suc n ∷ ns) ms = ap (λ r. suc n ∷ r) (positive-append ns ms)

pub asked-append : (ps qs : List PacketInfo) → asked (ps ++ qs) ≡ asked ps ++ asked qs
asked-append [] qs = refl
asked-append (p ∷ ps) qs = elim (Bool-cases (p.pkt_type == PacketType.finish)) [
  | inl is_finish ↦ rw is_finish (ap (λ r. uint32 p.body ∷ r) (asked-append ps qs))
  | inr other ↦ rw other (asked-append ps qs)
]

asked-put :
    (c : Sender) (p : PacketInfo) → asked (put c p).send_chan ≡ asked c.send_chan ++ asked (p ∷ [])
asked-put c p = asked-append c.send_chan (p ∷ [])

uint32-put_uint32 : (n : ℕ) → n < 2 ^ 32 → uint32 (put_uint32 n) ≡ n
uint32-put_uint32 n h = omega (arith, h)

asked-send_packet : (c : Sender) → asked (send_packet c).send_chan ≡ asked c.send_chan
unfolding send_packet
asked-send_packet c =
    let body = take max_packet_payload_length c.receive_buf in by_test (ltb 0 (length body)) body
  where
    by_test :
        (real : Bool) (body : Bytes)
        → asked (
            c.send_chan
            ++ (record {
              pkt_type = if real then PacketType.payload else PacketType.dummy;
              body = body;
              pad_len = 536 - length body;
            }
                ∷ []))
          ≡ asked c.send_chan
    by_test true body = asked-append c.send_chan _ ∙ append-nil (asked c.send_chan)
    by_test false body = asked-append c.send_chan _ ∙ append-nil (asked c.send_chan)

asked-send_while :
    (fuel left : ℕ) (c : Sender) → asked (send_while fuel left c).send_chan ≡ asked c.send_chan
unfolding send_while
asked-send_while zero left c = refl
asked-send_while (suc fuel) left c = elim (Bool-cases (leb max_packet_payload_length left)) [
  | inl more ↦
      rw (more, send_while)
        (asked-send_while fuel (left - max_packet_payload_length) (send_packet c)
          ∙ asked-send_packet c)
  | inr enough ↦ rw (enough, send_while) refl
]

asked-send_all : (fuel : ℕ) (c : Sender) → asked (send_all fuel c).send_chan ≡ asked c.send_chan
unfolding send_all
asked-send_all zero c = refl
asked-send_all (suc fuel) c = elim (Bool-cases (ltb 0 (length c.receive_buf))) [
  | inl more ↦ rw (more, send_all) (asked-send_all fuel (send_packet c) ∙ asked-send_packet c)
  | inr empty ↦ rw (empty, send_all) refl
]

-- What the client does without asking for a response.
abbrev pub Quiet : Client → Client → Type 0
Quiet c c' = asked c'.sender.send_chan ≡ asked c.sender.send_chan

pub client_reads-Quiet : (c : Client) (bs : Bytes) → Quiet c (client_reads c bs)
unfolding client_reads
client_reads-Quiet c bs =
    by_tests
      ((is_stop c.conn_state.cur_state && ltb max_packet_payload_length (length bs))
        || is_ready c.conn_state.cur_state)
      (is_stop c.conn_state.cur_state)
  where
    by_tests :
        (starts stopped : Bool)
        → Quiet c (
            if starts
            then record {
              conn_state = set_state c.conn_state start;
              sender = put (buffer c.sender bs) (signal PacketType.signal_start);
            }
            else if stopped
            then record { conn_state = set_state c.conn_state ready; sender = buffer c.sender bs }
            else record c { sender = buffer c.sender bs })
    by_tests true _ =
        asked-put c.sender (signal PacketType.signal_start) ∙ append-nil (asked c.sender.send_chan)
    by_tests false true = refl
    by_tests false false = refl

pub client_ticks-Quiet : (c : Client) → Quiet c (client_ticks c)
unfolding client_ticks
client_ticks-Quiet c = by_test (
    not (is_stop c.conn_state.cur_state)
    && (ltb c.sender.counters.sent 2 || ltb c.sender.counters.rcv 2))
  where
    by_test :
        (stops : Bool)
        → Quiet c (
            if stops
            then record {
              conn_state = set_state c.conn_state stop;
              sender = reset (put c.sender (signal PacketType.signal_stop));
            }
            else record c { sender = reset c.sender })
    by_test true =
        asked-put c.sender (signal PacketType.signal_stop) ∙ append-nil (asked c.sender.send_chan)
    by_test false = refl

module _ (tol : Tolerance) where
  asked-ref_burst :
      (request response : ℕ) (c : Sender)
      → asked
          (put
            (send_ref_burst (tol.low request) (tol.high request) c)
            (finish (response % 2 ^ 32))).send_chan
        ≡ asked c.send_chan ++ ((response % 2 ^ 32) ∷ [])
  unfolding send_ref_burst
  asked-ref_burst request response c =
      let n = to_send (tol.low request) (tol.high request) (length c.receive_buf) in
      asked-put (send_while n n c) (finish (response % 2 ^ 32))
      ∙ ap (λ r. r ++ (uint32 (put_uint32 (response % 2 ^ 32)) ∷ [])) (asked-send_while n n c)
      ∙ ap (λ r. asked c.send_chan ++ (r ∷ []))
          (uint32-put_uint32 (response % 2 ^ 32) (omega arith))

  pub asked-client_round :
      (c : Client) (tuple : Option (ℕ × ℕ))
      → asked (client_round tol c tuple).sender.send_chan
        ≡ asked c.sender.send_chan ++ client_asks tol c tuple
  unfolding client_round client_asks send_real_burst
  asked-client_round c none = elim (Bool-cases (is_start c.conn_state.cur_state)) [
    | inl on ↦ rw on (sym (append-nil (asked c.sender.send_chan)))
    | inr off ↦ rw off (
        asked-send_all (length c.sender.receive_buf) c.sender
        ∙ sym (append-nil (asked c.sender.send_chan)))
  ]
  asked-client_round c (some (request, response)) =
      elim (Bool-cases (is_start c.conn_state.cur_state)) [
        | inl on ↦ rw on (asked-ref_burst request response c.sender)
        | inr off ↦ rw off (
            asked-send_all (length c.sender.receive_buf) c.sender
            ∙ sym (append-nil (asked c.sender.send_chan)))
      ]
