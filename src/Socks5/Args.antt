-- ===== src/Socks5/Args.antt =====
-- common/socks5/args.go: the parser of the client parameters, `key=value;key=value` with `\` as the
-- escape.
pub mod RoundTrip
use wfdef.Prelude.{
  ℕ, zero, suc, ◌+◌, ◌-◌, Bool, true, false, not, ◌||◌, Option, none, some, List, [], ◌∷◌, ◌++◌,
  Bytes, length, ◌==◌, if◌then◌else◌, Result, ok, err, ◌>>=◌,
}

pub data ArgsError : Type 0 where
  -- the position in the string
  unexpected : ℕ → ArgsError
  underminated_escape : ArgsError
  final_key_with_no_value : ArgsError

-- The variables of the loop. An empty `key` is "no key yet".
pub record Scan {ℓ} (A : Type ℓ) : Type ℓ where
  pub args : A
  pub key : Bytes
  pub acc : Bytes
  pub prev_is_escape : Bool

abbrev pub is_empty : Bytes → Bool
is_empty [] = true
is_empty (b ∷ bs) = false

abbrev pub backslash : ℕ
backslash = 92

abbrev pub equals : ℕ
equals = 61

abbrev pub semicolon : ℕ
semicolon = 59

-- `add` stands for `Args.Add` of goptlib, `empty` for an empty `pt.Args`.
module _ {ℓ} {A : Type ℓ} (add : A → Bytes → Bytes → A) (empty : A) where
  abbrev pub append_char : Scan A → ℕ → Scan A
  append_char s ch = record s { prev_is_escape = false; acc = s.acc ++ (ch ∷ []) }

  -- One round of the loop; `last` tells whether `ch` is the last character.
  unfoldable pub step : Scan A → ℕ → Bool → ℕ → Result ArgsError (Scan A)
  step s idx last ch =
      if ch == backslash
      then (if s.prev_is_escape
          then ok (append_char s ch)
          else ok (record s { prev_is_escape = true }))
      else if ch == equals
      then (if not s.prev_is_escape
          then (if not (is_empty s.key)
              then ok (append_char s ch)
              else if is_empty s.acc
              then err (unexpected idx)
              else ok (record s { key = s.acc; acc = [] }))
          else ok (append_char s ch))
      else if ch == semicolon
      then (if not s.prev_is_escape
          then (if is_empty s.key || last
              then err (unexpected idx)
              else ok (record s { args = add s.args s.key s.acc; key = []; acc = [] }))
          else ok (append_char s ch))
      else if s.prev_is_escape
      then err (unexpected (idx - 1))
      else ok (append_char s ch)

  -- What follows the loop.
  unfoldable pub conclude : Scan A → Result ArgsError A
  conclude s =
      if s.prev_is_escape
      then err underminated_escape
      else if is_empty s.key
      then err final_key_with_no_value
      else ok (add s.args s.key s.acc)

  unfoldable pub scan : Scan A → ℕ → Bytes → Result ArgsError A
  scan s idx [] = conclude s
  scan s idx (ch ∷ rest) = step s idx (is_empty rest) ch >>= (λ s'. scan s' (idx + 1) rest)

  unfoldable pub parse_client_parameters : Bytes → Result ArgsError A
  unfolding scan
  parse_client_parameters [] = ok empty
  parse_client_parameters (ch ∷ rest) =
      scan (record { args = empty; key = []; acc = []; prev_is_escape = false }) 0 (ch ∷ rest)
