-- ===== src/Defconn/Receive/Local.antt =====
-- A switch is local: it leaves the receive buffer alone, and does not look at it. One round of the
-- loop then goes the same way whatever else has arrived.
use wfdef.Prelude.{
  ℕ, ◌<◌, ◌≡◌, ◌≢◌, refl, ap, ◌∙◌, [], ◌∷◌, ◌++◌, Bytes, length, Result, ok, err, arith,
}
use wfdef.Drbg.{Sip}
use wfdef.Framing.{Box, Decoder, FramingError, again, decode}
use wfdef.Framing.Chunks.{decode-again-append, decode-ok-append}
use wfdef.Defconn.Packet.{PacketError, framing, parse_packet}
use wfdef.Defconn.Receive.{
  Link, Handled, goes, panics, Switch, Round, breaks, continues, faults, switch, act,
  dispatch_parsed, dispatch, after_decode, round,
}

module _ {ℓ} {X : Type ℓ} where
  abbrev pub with_buffer : Bytes → Link X → Link X
  with_buffer bs l = record l { receive_buffer = bs }

  -- The link after more bytes have arrived.
  abbrev pub more : Bytes → Link X → Link X
  more ys l = record l { receive_buffer = l.receive_buffer ++ ys }

  abbrev pub handled_buffer : Bytes → Handled X → Handled X
  handled_buffer bs (goes l e) = goes (with_buffer bs l) e
  handled_buffer bs panics = panics

  abbrev pub Keeps : Bytes → Handled X → Type 0
  Keeps bs (goes l e) = l.receive_buffer ≡ bs
  Keeps bs panics = Unit

  pub record IsLocal (sw : Switch X) : Type ℓ where
    pub keeps :
        (l : Link X) (t : ℕ) (payload pkt : Bytes) → Keeps l.receive_buffer (sw l t payload pkt)
    pub ignores :
        (l : Link X) (t : ℕ) (payload pkt bs : Bytes)
        → sw (with_buffer bs l) t payload pkt ≡ handled_buffer bs (sw l t payload pkt)

  pub switch-IsLocal : IsLocal switch
  unfolding switch
  switch-IsLocal = record {
    keeps = λ l t payload pkt. ground arith;
    ignores = λ l t payload pkt bs. ground arith;
  }

  abbrev pub round_more : Bytes → Round X → Round X
  round_more ys (breaks l e) = breaks (more ys l) e
  round_more ys (continues l e) = continues (more ys l) e
  round_more ys faults = faults

  -- What a round that goes on leaves in the buffer.
  abbrev RoundKeeps : Bytes → Round X → Type 0
  RoundKeeps bs (continues l e) = l.receive_buffer ≡ bs
  RoundKeeps bs _ = Unit

  abbrev pub Shrinks : ℕ → Round X → Type 0
  Shrinks n (continues l e) = length l.receive_buffer < n
  Shrinks n _ = Unit

  act-more :
      (bs ys : Bytes) (h : Handled X)
      → Keeps bs h
      → act (handled_buffer (bs ++ ys) h) ≡ round_more ys (act h)
  act-more bs ys (goes l' e) k = rw k
  act-more bs ys panics k = refl

  act-RoundKeeps : (bs : Bytes) (h : Handled X) → Keeps bs h → RoundKeeps bs (act h)
  act-RoundKeeps bs (goes l' e) k = k
  act-RoundKeeps bs panics k = tt

  Shrinks-of_RoundKeeps :
      (bs : Bytes) (n : ℕ) (r : Round X) → RoundKeeps bs r → length bs < n → Shrinks n r
  Shrinks-of_RoundKeeps bs n (continues l e) k h = rw k h
  Shrinks-of_RoundKeeps bs n (breaks l e) k h = tt
  Shrinks-of_RoundKeeps bs n faults k h = tt

  abbrev NotAgain : Round X → Type 0
  NotAgain (breaks l e) = e ≢ framing again
  NotAgain _ = Unit

  act-NotAgain : (h : Handled X) → NotAgain (act h)
  act-NotAgain (goes l e) = tt
  act-NotAgain panics = tt

parse_packet-NotAgain :
    (pkt : Bytes) (e : PacketError) → parse_packet pkt ≡ err e → e ≢ framing again
unfolding parse_packet
parse_packet-NotAgain [] e h a = cc
parse_packet-NotAgain (t ∷ r) e h a = ground arith

module _ {ℓ} {X : Type ℓ} (s : Sip) (b : Box) (sw : Switch X) (local : IsLocal sw)
    (intn : ℕ → ℕ) where
  dispatch_parsed-more :
      (l : Link X) (pkt ys : Bytes) (r : Result PacketError (ℕ × Bytes))
      → (dispatch_parsed s b sw intn (more ys l) pkt r
          ≡ round_more ys (dispatch_parsed s b sw intn l pkt r))
        × RoundKeeps l.receive_buffer (dispatch_parsed s b sw intn l pkt r)
  unfolding dispatch_parsed
  dispatch_parsed-more l pkt ys (err e) = (refl, tt)
  dispatch_parsed-more l pkt ys (ok (t, payload)) =
      let k = local.keeps l t payload pkt in
      (
        ap act (local.ignores l t payload pkt (l.receive_buffer ++ ys))
            ∙ act-more l.receive_buffer ys (sw l t payload pkt) k,
        act-RoundKeeps l.receive_buffer (sw l t payload pkt) k,
      )

  -- A round that goes on has taken bytes off the buffer.
  pub round-Shrinks : (l : Link X) → Shrinks (length l.receive_buffer) (round s b sw intn l)
  unfolding round dispatch
  round-Shrinks l = by_result (decode s b intn l.decoder l.receive_buffer) refl
    where
      by_result :
          (r : Decoder × Bytes × Result FramingError Bytes)
          → decode s b intn l.decoder l.receive_buffer ≡ r
          → Shrinks (length l.receive_buffer) (after_decode s b sw intn l r)
      by_result (d, rest, err e) q = tt
      by_result (d, rest, ok pkt) q =
          let l' = record l { decoder = d; receive_buffer = rest } in
          Shrinks-of_RoundKeeps rest (length l.receive_buffer) (dispatch s b sw intn l' pkt)
            (dispatch_parsed-more l' pkt [] (parse_packet pkt)).1
            (decode-ok-append s b intn l.decoder l.receive_buffer q).0

  dispatch-NotAgain : (l : Link X) (pkt : Bytes) → NotAgain (dispatch s b sw intn l pkt)
  unfolding dispatch
  dispatch-NotAgain l pkt = parsed (parse_packet pkt) refl
    where
      parsed :
          (r : Result PacketError (ℕ × Bytes))
          → parse_packet pkt ≡ r
          → NotAgain (dispatch_parsed s b sw intn l pkt r)
      parsed (err e) q = parse_packet-NotAgain pkt e q
      parsed (ok (t, payload)) q = act-NotAgain (sw l t payload pkt)

  -- How a round goes with more bytes behind those it needs: the same way if it went on or met a
  -- panic, and if it stopped for lack of bytes, as from where it stopped.
  abbrev pub GoesOn : Bytes → Link X → Round X → Type ℓ
  GoesOn ys l (continues l' e) = round s b sw intn (more ys l) ≡ continues (more ys l') e
  GoesOn ys l (breaks l' e) =
      e ≡ framing again → round s b sw intn (more ys l') ≡ round s b sw intn (more ys l)
  GoesOn ys l faults = round s b sw intn (more ys l) ≡ faults

  GoesOn-of_eq :
      (ys : Bytes) (l : Link X) (r : Round X)
      → NotAgain r
      → round s b sw intn (more ys l) ≡ round_more ys r
      → GoesOn ys l r
  GoesOn-of_eq ys l (continues l' e) k q = q
  GoesOn-of_eq ys l (breaks l' e) k q = λ a. absurd (k a)
  GoesOn-of_eq ys l faults k q = q

  pub round-GoesOn : (l : Link X) (ys : Bytes) → GoesOn ys l (round s b sw intn l)
  unfolding round dispatch
  round-GoesOn l ys = by_result (decode s b intn l.decoder l.receive_buffer) refl
    where
      by_result :
          (r : Decoder × Bytes × Result FramingError Bytes)
          → decode s b intn l.decoder l.receive_buffer ≡ r
          → GoesOn ys l (after_decode s b sw intn l r)
      by_result (d, rest, err again) q = λ _.
          ap (after_decode s b sw intn (more ys l))
            (decode-again-append s b intn l.decoder l.receive_buffer ys q)
      by_result (d, rest, err _) q = λ a. cc
      by_result (d, rest, ok pkt) q =
          let l' = record l { decoder = d; receive_buffer = rest } in
          GoesOn-of_eq ys l (dispatch s b sw intn l' pkt) (dispatch-NotAgain l' pkt) (
            ap (after_decode s b sw intn (more ys l))
              ((decode-ok-append s b intn l.decoder l.receive_buffer q).1 ys)
            ∙ (dispatch_parsed-more l' pkt ys (parse_packet pkt)).0)
