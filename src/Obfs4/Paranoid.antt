-- ===== src/Obfs4/Paranoid.antt =====
-- transports/obfs4/obfs4.go: the writes of `Write` in the mode `iatParanoid`, which samples the length
-- of each.
pub mod Sent
use wfdef.Prelude.{
  ℕ, zero, suc, ◌+◌, ◌≤◌, ◌<◌, ◌≡◌, refl, sym, ap, ◌∙◌, Bool, true, false, not, Bool-cases, inl,
  inr, List, [], ◌∷◌, ◌++◌, append-nil, append_assoc, Bytes, length, take, drop, take-append-drop,
  ltb, ◌==◌, if◌then◌else◌, Result, ok, err, arith,
}
use wfdef.Drbg.{Sip}
use wfdef.Framing.{Box, BoxLaws, Encoder, FramingError, maximum_segment_length, encode}
use wfdef.Defconn.Packet.{packet_bytes}
use wfdef.Obfs4.{
  FrameBuf, Outcome, wrote, failed, panicked, and_then, append_frame, make_packet, pad_by,
  pad_burst,
}

-- What was written when the buffer was empty or the samples ran out, with what is left.
pub data Written : Type 0 where
  written : List Bytes → FrameBuf → Written
  gave_up : FramingError → Written
  crashed : Written

abbrev pub then_writes : Bytes → Written → Written
then_writes bs (written ws t) = written (bs ∷ ws) t
then_writes bs (gave_up e) = gave_up e
then_writes bs crashed = crashed

abbrev pub dropped : ℕ → FrameBuf → FrameBuf
dropped n t = record t { frame_buf = drop n t.frame_buf }

module _ (s : Sip) (b : Box) where
  -- A write of `n` bytes, and then the rest; a write of none is a panic.
  abbrev pub writes : ℕ → (FrameBuf → Written) → FrameBuf → Written
  writes n go_on t =
      if n == 0 then crashed else then_writes (take n t.frame_buf) (go_on (dropped n t))

  -- When the padding came out longer than the sample, the next sample is taken.
  abbrev pub after_padding : ℕ → (FrameBuf → Written) → Outcome → Written
  after_padding n go_on (wrote t) = if length t.frame_buf == n then writes n go_on t else go_on t
  after_padding n go_on (failed e) = gave_up e
  after_padding n go_on panicked = crashed

  -- The loop, with the samples that `lenDist` gives.
  unfoldable pub paranoid : List ℕ → FrameBuf → Written
  paranoid [] t = written [] t
  paranoid (n ∷ ns) t =
      let go_on = paranoid ns in
      if not (ltb 0 (length t.frame_buf))
      then written [] t
      else if ltb (length t.frame_buf) n
      then after_padding n go_on (pad_burst s b n t)
      else writes n go_on t
