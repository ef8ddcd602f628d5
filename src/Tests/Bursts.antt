-- ===== src/Tests/Bursts.antt =====
-- The theorems on the padding of bursts at concrete bursts.
use wfdef.Prelude.{ℕ, ◌+◌, refl, [], ◌∷◌, arith}
use wfdef.Obfs4 as Obfs4
use wfdef.Obfs4.Pad.{Grew, pad_burst-Grew, Tail, burst-Tail}
use wfdef.Obfs4.Paranoid.{paranoid}
use wfdef.Obfs4.Paranoid.Sent.{Sent, paranoid-Sent}
use wfdef.Scramblesuit as Scramblesuit
use wfdef.Scramblesuit.Pad as Pads
use wfdef.Tests.{sip, box, box_laws, encoder, tag}

abbrev empty : Obfs4.FrameBuf
empty = record { encoder = encoder; frame_buf = 1 ∷ [] }

pad_burst-Grew_example : Grew 1 1478 (Obfs4.pad_burst sip box 10 empty)
pad_burst-Grew_example = pad_burst-Grew sip box box_laws 10 empty (omega arith)

-- Nine bytes are missing, fewer than a header.
burst-Tail_example : Tail sip box box_laws 100 (Obfs4.burst sip box 100 encoder (104 ∷ 105 ∷ []))
burst-Tail_example = burst-Tail sip box box_laws 100 encoder (104 ∷ 105 ∷ []) (omega arith)

abbrev plain : Scramblesuit.Crypto ℕ
plain = record {
  xor = λ n bs. (bs, n + 1);
  mac = λ bs. tag;
  length-xor = λ n bs. refl;
  length-mac = λ bs. refl;
}

pad_burst-Longer_example :
    Pads.Longer plain 1 1436
      (Scramblesuit.pad_burst plain 10 (record { tx = 0; frame_buf = 1 ∷ [] }))
pad_burst-Longer_example =
    Pads.pad_burst-Longer plain 10 (record { tx = 0; frame_buf = 1 ∷ [] }) (omega arith)

-- A write of a byte empties the buffer.
paranoid-Sent_example : Sent (1 ∷ []) (paranoid sip box (1 ∷ 7 ∷ []) empty)
paranoid-Sent_example =
    paranoid-Sent sip box box_laws (1 ∷ 7 ∷ []) empty
      ((omega arith, omega arith), ((omega arith, omega arith), tt))
