-- ===== src/Defconn/Copy/Conserve.antt =====
-- Whatever the routines do in between each other, the data goes out in its order, in packets of one
-- length on the wire.
use wfdef.Prelude.{
  ℕ, ◌+◌, ◌*◌, ◌≡◌, ◌≢◌, refl, sym, ap, ◌∙◌, Bool, true, false, not, ◌&&◌, ◌||◌, Option, none, some,
  List, [], ◌∷◌, ◌++◌, append_assoc, append-nil, Bytes, length, length-append, length-take,
  length-drop, take, drop, take-append-drop, ltb, if◌then◌else◌, arith,
}
use wfdef.Defconn.State.{State, start, ready, set_state, is_stop, is_ready}
use wfdef.Defconn.PacketType
use wfdef.Defconn.Packet.{PacketInfo, max_packet_payload_length}
use wfdef.Defconn.Copy.{
  running, panicked, Copier, signal, on_read, chop, put_by_reader, put_by_ticker,
}

-- The data that packets carry.
abbrev pub bodies : List PacketInfo → Bytes
bodies [] = []
bodies (p ∷ ps) = p.body ++ bodies ps

abbrev pub held : Option PacketInfo → List PacketInfo
held none = []
held (some p) = p ∷ []

-- A packet is padded to the maximum.
abbrev pub IsFull : PacketInfo → Type 0
IsFull p = length p.body + p.pad_len ≡ max_packet_payload_length

abbrev pub AllFull : List PacketInfo → Type 0
AllFull [] = Unit
AllFull (p ∷ ps) = IsFull p × AllFull ps

-- The length of a full packet in its frame.
abbrev pub wire_length : ℕ
wire_length = 557

pub bodies-append : (ps qs : List PacketInfo) → bodies (ps ++ qs) ≡ bodies ps ++ bodies qs
bodies-append [] qs = refl
bodies-append (p ∷ ps) qs =
    ap (λ r. p.body ++ r) (bodies-append ps qs) ∙ sym (append_assoc p.body (bodies ps) (bodies qs))

pub AllFull-append : (ps qs : List PacketInfo) → AllFull ps → AllFull qs → AllFull (ps ++ qs)
AllFull-append [] qs h k = k
AllFull-append (p ∷ ps) qs h k = (h.0, AllFull-append ps qs h.1 k)

-- What has been read from upstream is in the packets taken, those in the channel, the one that the
-- reader holds, and the buffer, in this order.
pub record Inv (c : Copier) (upstream : Bytes) : Type 0 where
  pub conserved :
      bodies c.taken ++ (bodies c.send_chan ++ (bodies (held c.held_by_reader) ++ c.receive_buf))
      ≡ upstream
  pub written_eq : c.written + length c.receive_buf ≡ length upstream
  pub taken_full : AllFull c.taken
  pub chan_full : AllFull c.send_chan
  pub reader_full : AllFull (held c.held_by_reader)
  pub ticker_full : AllFull (held c.held_by_ticker)
  pub ticker_empty : bodies (held c.held_by_ticker) ≡ []
  pub no_panic : c.sender ≢ panicked
  pub on_wire : c.sender ≡ running → length c.wire ≡ wire_length * length c.taken

-- With nothing held and nothing buffered, the packets carry all that has been read.
all_packed :
    (c : Copier) (up : Bytes)
    → c.held_by_reader ≡ none
    → c.receive_buf ≡ []
    → Inv c up
    → bodies c.taken ++ bodies c.send_chan ≡ up
all_packed c up p q i =
    ap (λ r. bodies c.taken ++ r) (sym (append-nil (bodies c.send_chan))) ∙ rw (p, q) at i.conserved

Inv-buffers :
    (c : Copier) (up bs : Bytes) (state : State) (h : Option PacketInfo)
    → c.held_by_reader ≡ none
    → c.receive_buf ≡ []
    → bodies (held h) ≡ []
    → AllFull (held h)
    → Inv c up
    → Inv
        (record c { receive_buf = c.receive_buf ++ bs; conn_state = state; held_by_reader = h })
        (up ++ bs)
Inv-buffers c up bs state h p q empty full i = record {
  conserved =
      rw (empty, q)
        (sym (append_assoc (bodies c.taken) (bodies c.send_chan) bs)
          ∙ ap (λ r. r ++ bs) (all_packed c up p q i));
  written_eq =
      (let before = i.written_eq in
        let size = ap length q in
        omega (arith, length-append up bs, length-append c.receive_buf bs));
  taken_full = i.taken_full;
  chan_full = i.chan_full;
  reader_full = full;
  ticker_full = i.ticker_full;
  ticker_empty = i.ticker_empty;
  no_panic = i.no_panic;
  on_wire = i.on_wire;
}

pub Inv-reads :
    (c : Copier) (up bs : Bytes)
    → c.held_by_reader ≡ none
    → c.receive_buf ≡ []
    → Inv c up
    → Inv (on_read c bs) (up ++ bs)
unfolding on_read
Inv-reads c up bs p q i =
    by_tests (not c.is_server)
      ((is_stop c.conn_state.cur_state && ltb max_packet_payload_length (length bs))
        || is_ready c.conn_state.cur_state)
      (is_stop c.conn_state.cur_state)
  where
    stays : Inv (record c { receive_buf = c.receive_buf ++ bs }) (up ++ bs)
    stays =
        Inv-buffers c up bs c.conn_state c.held_by_reader p q (ap (λ h. bodies (held h)) p)
          i.reader_full i

    by_tests :
        (client starts stopped_now : Bool)
        → Inv
            (if client
              then (if starts
                  then record c {
                    receive_buf = c.receive_buf ++ bs;
                    conn_state = set_state c.conn_state start;
                    held_by_reader = some (signal PacketType.signal_start);
                  }
                  else if stopped_now
                  then record c {
                    receive_buf = c.receive_buf ++ bs;
                    conn_state = set_state c.conn_state ready;
                  }
                  else record c { receive_buf = c.receive_buf ++ bs })
              else record c { receive_buf = c.receive_buf ++ bs })
            (up ++ bs)
    by_tests false starts stopped_now = stays
    by_tests true true stopped_now =
        Inv-buffers c up bs (set_state c.conn_state start) (some (signal PacketType.signal_start)) p
          q refl (refl, tt) i
    by_tests true false true =
        Inv-buffers c up bs (set_state c.conn_state ready) c.held_by_reader p q
          (ap (λ h. bodies (held h)) p) i.reader_full i
    by_tests true false false = stays

pub Inv-chops :
    (c : Copier) (up : Bytes) → c.held_by_reader ≡ none → Inv c up → Inv (chop c) (up ++ [])
unfolding chop
Inv-chops c up p i =
    let body = take max_packet_payload_length c.receive_buf in
    let rest = drop max_packet_payload_length c.receive_buf in
    record {
      conserved =
          ap (λ r. bodies c.taken ++ (bodies c.send_chan ++ r))
            (ap (λ r. r ++ rest) (append-nil body)
              ∙ take-append-drop max_packet_payload_length c.receive_buf)
          ∙ (rw p at i.conserved)
          ∙ sym (append-nil up);
      written_eq =
          (let before = i.written_eq in
            omega (
              arith,
              length-append up [],
              length-take max_packet_payload_length c.receive_buf,
              length-drop max_packet_payload_length c.receive_buf,
            ));
      taken_full = i.taken_full;
      chan_full = i.chan_full;
      reader_full = (omega (arith, length-take max_packet_payload_length c.receive_buf), tt);
      ticker_full = i.ticker_full;
      ticker_empty = i.ticker_empty;
      no_panic = i.no_panic;
      on_wire = i.on_wire;
    }

pub Inv-reader_puts :
    (c : Copier) (up : Bytes) (p : PacketInfo)
    → c.held_by_reader ≡ some p
    → Inv c up
    → Inv (put_by_reader c p) (up ++ [])
unfolding put_by_reader
Inv-reader_puts c up p h i =
    let full : AllFull (p ∷ []) = rw h at i.reader_full in
    record {
      conserved =
          ap (λ r. bodies c.taken ++ (r ++ c.receive_buf)) (bodies-append c.send_chan (p ∷ []))
          ∙ ap (λ r. bodies c.taken ++ r)
              (append_assoc (bodies c.send_chan) (bodies (p ∷ [])) c.receive_buf)
          ∙ (rw h at i.conserved)
          ∙ sym (append-nil up);
      written_eq = (let before = i.written_eq in omega (arith, length-append up []));
      taken_full = i.taken_full;
      chan_full = AllFull-append c.send_chan (p ∷ []) i.chan_full full;
      reader_full = tt;
      ticker_full = i.ticker_full;
      ticker_empty = i.ticker_empty;
      no_panic = i.no_panic;
      on_wire = i.on_wire;
    }

pub Inv-ticker_puts :
    (c : Copier) (up : Bytes) (p : PacketInfo)
    → c.held_by_ticker ≡ some p
    → Inv c up
    → Inv (put_by_ticker c p) (up ++ [])
unfolding put_by_ticker
Inv-ticker_puts c up p h i =
    let full : AllFull (p ∷ []) = rw h at i.ticker_full in
    let empty : bodies (p ∷ []) ≡ [] = rw h at i.ticker_empty in
    let same =
      bodies-append c.send_chan (p ∷ [])
      ∙ ap (λ r. bodies c.send_chan ++ r) empty
      ∙ append-nil (bodies c.send_chan) in
    record {
      conserved =
          ap (λ r. bodies c.taken ++ (r ++ (bodies (held c.held_by_reader) ++ c.receive_buf))) same
          ∙ i.conserved
          ∙ sym (append-nil up);
      written_eq = (let before = i.written_eq in omega (arith, length-append up []));
      taken_full = i.taken_full;
      chan_full = AllFull-append c.send_chan (p ∷ []) i.chan_full full;
      reader_full = i.reader_full;
      ticker_full = tt;
      ticker_empty = refl;
      no_panic = i.no_panic;
      on_wire = i.on_wire;
    }
