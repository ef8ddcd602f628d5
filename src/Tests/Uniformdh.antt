-- ===== src/Tests/Uniformdh.antt =====
-- The theorem on UniformDH at two private numbers, one even and one odd.
use wfdef.Prelude.{Bytes, refl, [], ◌∷◌, ◌++◌, replicate}
use wfdef.Uniformdh.Agreement.{Agreed, handshake-Agreed}

abbrev even : Bytes
even = replicate 191 7 ++ (6 ∷ [])

abbrev odd : Bytes
odd = replicate 191 9 ++ (5 ∷ [])

handshake-Agreed_example : Agreed even odd
handshake-Agreed_example = handshake-Agreed even odd refl refl
