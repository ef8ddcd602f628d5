-- ===== src/Scramblesuit/Receive.antt =====
-- transports/scramblesuit/conn.go: `readPackets`, which decrypts and checks packets that come in pieces.
pub mod RoundTrip
pub mod Stream
use wfdef.Prelude.{
  ℕ, zero, suc, ◌+◌, ◌-◌, ◌*◌, ◌≡◌, Bool, true, false, not, ◌||◌, Option, none, some, List, [], ◌∷◌,
  ◌++◌, Bytes, length, take, drop, ltb, ◌==◌, bytes_eq, uint16, if◌then◌else◌, Result, ok, err,
}
use wfdef.Drbg.{SeedError, seed_from_bytes}
use wfdef.Scramblesuit.{Crypto, pkt_hdr_length, pkt_payload, max_payload_length}
use wfdef.Scramblesuit.Handshake.{mac_length}

abbrev pub pkt_new_ticket : ℕ
pkt_new_ticket = 2

abbrev pub pkt_prng_seed : ℕ
pkt_prng_seed = 4

abbrev pub pkt_prng_seed_length : ℕ
pkt_prng_seed_length = 32

-- `ticketKeyLength + ticketLength`
abbrev pub raw_ticket_length : ℕ
raw_ticket_length = 32 + 112

-- `ssRxState`; `hdr` is the decrypted header.
pub record RxState : Type 0 where
  pub mac : Option Bytes
  pub hdr : Option Bytes
  pub total_len : ℕ
  pub payload_len : ℕ

abbrev pub cleared : RxState
cleared = record { mac = none; hdr = none; total_len = 0; payload_len = 0 }

-- `rx` is the state of the cipher, `digest` what was written to the MAC since its reset. `len_seed`
-- stands for `lenDist`, and `tickets` are those given to the ticket store.
pub record Receiver (S : Type 0) : Type 0 where
  pub is_server : Bool
  pub rx : S
  pub digest : Bytes
  pub receive_buffer : Bytes
  pub decoded : Bytes
  pub state : RxState
  pub len_seed : Bytes
  pub tickets : List Bytes

-- What a part of a round comes to: it goes on, it breaks the loop, or it is an invalid packet.
pub data Stage {ℓ} (S : Type 0) (A : Type ℓ) : Type ℓ where
  goes : A → Stage S A
  waits : Receiver S → Stage S A
  refuses : Receiver S → Stage S A

infixl 5 ◌>>=◌
abbrev pub ◌>>=◌ {ℓ κ} :
    {S : Type 0} {A : Type ℓ} {B : Type κ} → Stage S A → (A → Stage S B) → Stage S B
goes a >>= f = f a
waits r >>= f = waits r
refuses r >>= f = refuses r

-- `hdr[4]`
abbrev pub flags : Option Bytes → ℕ
flags (some (a ∷ b ∷ c ∷ d ∷ e ∷ bs)) = e
flags _ = 0

module _ {S : Type 0} (k : Crypto S) where
  unfoldable pub take_mac : Receiver S → Option Bytes → Stage S (Receiver S)
  take_mac r (some mac) = goes r
  take_mac r none =
      if ltb (length r.receive_buffer) mac_length
      then waits r
      else goes (record r {
        receive_buffer = drop mac_length r.receive_buffer;
        state = record r.state { mac = some (take mac_length r.receive_buffer) };
      })

  -- The decrypted header, with the state of the cipher behind it.
  abbrev pub with_header : Receiver S → Bytes × S → Stage S (Receiver S)
  with_header r (hdr, rx) =
      let total_len = uint16 hdr in
      let payload_len = uint16 (drop 2 hdr) in
      if ltb total_len payload_len || ltb max_payload_length total_len
      then refuses (record r { rx = rx })
      else goes (record r {
        rx = rx;
        state = record r.state { hdr = some hdr; total_len = total_len; payload_len = payload_len };
      })

  unfoldable pub take_header : Receiver S → Option Bytes → Stage S (Receiver S)
  take_header r (some hdr) = goes r
  take_header r none =
      if ltb (length r.receive_buffer) pkt_hdr_length
      then waits r
      else (let hdr = take pkt_hdr_length r.receive_buffer in
          with_header
            (record r { receive_buffer = drop pkt_hdr_length r.receive_buffer; digest = hdr })
            (k.xor r.rx hdr))

  abbrev pub with_data : Receiver S → Bytes × S → Stage S (Receiver S × Bytes)
  with_data r (data_bytes, rx) = goes (record r { rx = rx }, data_bytes)

  unfoldable pub take_data : Receiver S → Stage S (Receiver S × Bytes)
  take_data r =
      if ltb 0 r.state.total_len
      then (if ltb (length r.receive_buffer) r.state.total_len
          then waits r
          else (let sealed = take r.state.total_len r.receive_buffer in
              with_data
                (record r {
                  receive_buffer = drop r.state.total_len r.receive_buffer;
                  digest = r.digest ++ sealed;
                })
                (k.xor r.rx sealed)))
      else goes (r, [])

  unfoldable pub authenticate : Receiver S → Option Bytes → Stage S (Receiver S)
  authenticate r none = refuses r
  authenticate r (some mac) = if not (bytes_eq (k.mac r.digest) mac) then refuses r else goes r

  abbrev pub reseeded : Receiver S → Result SeedError Bytes → Stage S (Receiver S)
  reseeded r (ok new) = goes (record r { len_seed = new })
  reseeded r (err e) = refuses r

  -- The switch on the flags.
  unfoldable pub dispatch : Receiver S → Bytes → Stage S (Receiver S)
  dispatch r payload =
      if flags r.state.hdr == pkt_payload
      then goes (record r { decoded = r.decoded ++ payload })
      else if flags r.state.hdr == pkt_new_ticket
      then (if r.is_server || not (length payload == raw_ticket_length)
          then refuses r
          else goes (record r { tickets = r.tickets ++ (payload ∷ []) }))
      else if flags r.state.hdr == pkt_prng_seed
      then (if r.is_server || not (length payload == pkt_prng_seed_length)
          then refuses r
          else reseeded r (seed_from_bytes payload))
      else refuses r

  -- Once the data is there.
  abbrev pub finishes : Receiver S × Bytes → Stage S (Receiver S)
  finishes (r, data_bytes) = do
    checked ← authenticate r r.state.mac
    done ← dispatch checked (take checked.state.payload_len data_bytes)
    goes (record done { state = cleared })

  unfoldable pub round : Receiver S → Stage S (Receiver S)
  round r = do
    with_mac ← take_mac r r.state.mac
    with_hdr ← take_header with_mac with_mac.state.hdr
    opened ← take_data with_hdr
    finishes opened

-- The end of `readPackets`, but for the error of the network's read.
pub data Ran (S : Type 0) : Type 0 where
  returns : Receiver S → Ran S
  invalid : Receiver S → Ran S
  out_of_fuel : Ran S

module _ {S : Type 0} (k : Crypto S) where
  abbrev pub after_round : (Receiver S → Ran S) → Stage S (Receiver S) → Ran S
  after_round go_on (goes r) = go_on r
  after_round go_on (waits r) = returns r
  after_round go_on (refuses r) = invalid r

  -- The loop; each round but the last takes a byte of the buffer or clears the state.
  unfoldable pub process : ℕ → Receiver S → Ran S
  process zero r = out_of_fuel
  process (suc fuel) r = elim (ltb 0 (length r.receive_buffer)) [
    | true ↦ after_round (process fuel) (round k r)
    | false ↦ returns r
  ]

  -- `readPackets`, when the network gave `got`. The code reads at most 1448 bytes at a time, and the
  -- model takes any number.
  unfoldable pub read_packets : Receiver S → Bytes → Ran S
  read_packets r got =
      let buffer = r.receive_buffer ++ got in
      process (2 * length buffer + 2) (record r { receive_buffer = buffer })
