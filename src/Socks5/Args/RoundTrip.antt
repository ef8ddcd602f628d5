-- ===== src/Socks5/Args/RoundTrip.antt =====
-- The parameters that a client writes down by the rules of the pluggable transport specification
-- are read back.
use wfdef.Prelude.{
  ℕ, ◌+◌, ◌≡◌, ◌≢◌, refl, sym, ap, ◌∙◌, Bool, true, false, ◌||◌, List, [], ◌∷◌, ◌++◌, append_assoc,
  append-nil, Bytes, ◌==◌, if◌then◌else◌, ok, arith, Bool-cases, inl, inr,
}
use wfdef.Socks5.Args.{
  Scan, backslash, equals, semicolon, is_empty, step, conclude, scan, parse_client_parameters,
}

abbrev pub is_special : ℕ → Bool
is_special ch = ch == backslash || (ch == equals || ch == semicolon)

-- A backslash before each character that has a meaning.
abbrev pub escape : Bytes → Bytes
escape [] = []
escape (ch ∷ s) = if is_special ch then backslash ∷ ch ∷ escape s else ch ∷ escape s

abbrev pub serialize_pair : Bytes × Bytes → Bytes
serialize_pair (key, value) = escape key ++ (equals ∷ escape value)

-- What tor puts in the SOCKS fields.
abbrev pub serialize : List (Bytes × Bytes) → Bytes
serialize [] = []
serialize (p ∷ []) = serialize_pair p
serialize (p ∷ q ∷ ps) = serialize_pair p ++ (semicolon ∷ serialize (q ∷ ps))

abbrev pub HasKeys : List (Bytes × Bytes) → Type 0
HasKeys [] = Unit
HasKeys ((key, value) ∷ ps) = (key ≢ []) × HasKeys ps

module _ {ℓ} {A : Type ℓ} (add : A → Bytes → Bytes → A) (empty : A) where
  abbrev pub add_all : A → List (Bytes × Bytes) → A
  add_all args [] = args
  add_all args ((key, value) ∷ ps) = add_all (add args key value) ps

  abbrev at : A → Bytes → Bytes → Scan A
  at args key acc = record { args = args; key = key; acc = acc; prev_is_escape = false }

  scan_special :
      (args : A) (key acc : Bytes) (idx ch : ℕ) (rest : Bytes)
      → is_special ch ≡ true
      → scan add empty (at args key acc) idx (backslash ∷ ch ∷ rest)
        ≡ scan add empty (at args key (acc ++ (ch ∷ []))) (idx + 1 + 1) rest
  unfolding scan step
  scan_special args key acc idx ch rest h =
      let stepped : step add empty
            (record { args = args; key = key; acc = acc; prev_is_escape = true }) (idx + 1)
            (is_empty rest) ch
          ≡ ok (at args key (acc ++ (ch ∷ []))) =
        ground arith in
      rw stepped refl

  scan_plain :
      (args : A) (key acc : Bytes) (idx ch : ℕ) (rest : Bytes)
      → is_special ch ≡ false
      → scan add empty (at args key acc) idx (ch ∷ rest)
        ≡ scan add empty (at args key (acc ++ (ch ∷ []))) (idx + 1) rest
  unfolding scan step
  scan_plain args key acc idx ch rest h =
      let stepped : step add empty (at args key acc) idx (is_empty rest) ch
          ≡ ok (at args key (acc ++ (ch ∷ []))) =
        ground arith in
      rw stepped refl

  -- Escaped text is taken as it was before the escaping.
  scan-escape :
      (args : A) (key acc text : Bytes) (idx : ℕ) (rest : Bytes)
      → (j : ℕ) × (scan add empty (at args key acc) idx (escape text ++ rest)
          ≡ scan add empty (at args key (acc ++ text)) j rest)
  scan-escape args key acc [] idx rest = (idx, rw (append-nil acc) refl)
  scan-escape args key acc (ch ∷ text) idx rest = elim (Bool-cases (is_special ch)) [
    | inl special ↦
        let ih = scan-escape args key (acc ++ (ch ∷ [])) text (idx + 1 + 1) rest in
        (
          ih.0,
          rw special (
              scan_special args key acc idx ch (escape text ++ rest) special
              ∙ ih.1
              ∙ ap (λ a. scan add empty (at args key a) ih.0 rest)
                  (append_assoc acc (ch ∷ []) text)),
        )
    | inr plain ↦
        let ih = scan-escape args key (acc ++ (ch ∷ [])) text (idx + 1) rest in
        (
          ih.0,
          rw plain (
              scan_plain args key acc idx ch (escape text ++ rest) plain
              ∙ ih.1
              ∙ ap (λ a. scan add empty (at args key a) ih.0 rest)
                  (append_assoc acc (ch ∷ []) text)),
        )
  ]

  scan-equals :
      (args : A) (key : Bytes) (idx : ℕ) (rest : Bytes)
      → key ≢ []
      → scan add empty (at args [] key) idx (equals ∷ rest)
        ≡ scan add empty (at args key []) (idx + 1) rest
  unfolding scan step
  scan-equals args [] idx rest h = absurd (h refl)
  scan-equals args (b ∷ key) idx rest h = refl

  -- The text of a pair, up to what follows the value.
  scan-serialize_pair :
      (args : A) (key value : Bytes) (idx : ℕ) (rest : Bytes)
      → key ≢ []
      → (j : ℕ) × (scan add empty (at args [] []) idx (serialize_pair (key, value) ++ rest)
          ≡ scan add empty (at args key value) j rest)
  scan-serialize_pair args key value idx rest h =
      let first = scan-escape args [] [] key idx (equals ∷ escape value ++ rest) in
      let second = scan-escape args key [] value (first.0 + 1) rest in
      (
        second.0,
        rw (append_assoc (escape key) (equals ∷ escape value) rest)
            (first.1 ∙ scan-equals args key first.0 (escape value ++ rest) h ∙ second.1),
      )

  escape-serialize_pair :
      (key value rest : Bytes) → is_empty (serialize_pair (key, value) ++ rest) ≡ false
  escape-serialize_pair [] value rest = refl
  escape-serialize_pair (ch ∷ key) value rest = elim (Bool-cases (is_special ch)) [
    | inl special ↦ rw special refl
    | inr plain ↦ rw plain refl
  ]

  serialize-cons :
      (p : Bytes × Bytes) (ps : List (Bytes × Bytes)) → is_empty (serialize (p ∷ ps)) ≡ false
  serialize-cons (key, value) [] =
      ap is_empty (sym (append-nil (serialize_pair (key, value))))
      ∙ escape-serialize_pair key value []
  serialize-cons (key, value) (q ∷ ps) =
      escape-serialize_pair key value (semicolon ∷ serialize (q ∷ ps))

  scan_end :
      (args : A) (key value : Bytes) (idx : ℕ)
      → key ≢ []
      → scan add empty (at args key value) idx [] ≡ ok (add args key value)
  unfolding scan conclude
  scan_end args [] value idx h = absurd (h refl)
  scan_end args (b ∷ key) value idx h = refl

  scan-semicolon :
      (args : A) (key value : Bytes) (idx : ℕ) (rest : Bytes)
      → key ≢ []
      → is_empty rest ≡ false
      → scan add empty (at args key value) idx (semicolon ∷ rest)
        ≡ scan add empty (at (add args key value) [] []) (idx + 1) rest
  unfolding scan step
  scan-semicolon args [] value idx rest h r = absurd (h refl)
  scan-semicolon args (b ∷ key) value idx rest h r = rw r refl

  scan-serialize :
      (args : A) (p : Bytes × Bytes) (ps : List (Bytes × Bytes)) (idx : ℕ)
      → HasKeys (p ∷ ps)
      → scan add empty (at args [] []) idx (serialize (p ∷ ps)) ≡ ok (add_all args (p ∷ ps))
  scan-serialize args (key, value) [] idx h =
      let pair = scan-serialize_pair args key value idx [] h.0 in
      ap (scan add empty (at args [] []) idx) (sym (append-nil (serialize_pair (key, value))))
      ∙ pair.1
      ∙ scan_end args key value pair.0 h.0
  scan-serialize args (key, value) (q ∷ ps) idx h =
      let pair = scan-serialize_pair args key value idx (semicolon ∷ serialize (q ∷ ps)) h.0 in
      pair.1
      ∙ scan-semicolon args key value pair.0 (serialize (q ∷ ps)) h.0 (serialize-cons q ps)
      ∙ scan-serialize (add args key value) q ps (pair.0 + 1) h.1

  parse_client_parameters-scan :
      (s : Bytes)
      → is_empty s ≡ false
      → parse_client_parameters add empty s ≡ scan add empty (at empty [] []) 0 s
  unfolding parse_client_parameters
  parse_client_parameters-scan [] h = cc
  parse_client_parameters-scan (ch ∷ rest) h = refl

  -- Every list of pairs with non-empty keys, written down with escapes, is parsed to the arguments
  -- that adding these pairs in their order makes.
  pub parse_client_parameters-serialize :
      (ps : List (Bytes × Bytes))
      → HasKeys ps
      → parse_client_parameters add empty (serialize ps) ≡ ok (add_all empty ps)
  unfolding parse_client_parameters
  parse_client_parameters-serialize [] h = refl
  parse_client_parameters-serialize (p ∷ ps) h =
      parse_client_parameters-scan (serialize (p ∷ ps)) (serialize-cons p ps)
      ∙ scan-serialize empty p ps 0 h
