-- ===== src/Sql/Literals.antt =====
-- How Snowflake reads the literal that a secret's value is written as.
use mathlib.Core.List.{append-nil, append_assoc}
use mendix_for_snowflake.Prelude.{
  ℕ, ◌≡◌, ◌≢◌, refl, ◌∙◌, Option, none, some, [], ◌∷◌, ◌++◌, Text, All, text, Bool-cases, inl, inr,
  arith, true, false, ◌==◌,
}
use mendix_for_snowflake.Sql.{escape, secret_head, is_identifier, create_or_replace_secret}

-- What is read, with one more character before it.
abbrev pub more : ℕ → Option (Text × Text) → Option (Text × Text)
more c none = none
more c (some (value, rest)) = some (c ∷ value, rest)

-- Reading a string literal from behind its opening quote: its value, and what follows the closing
-- quote. A doubled quote and an escaped one stand for a quote.
pub record ReadsLiterals (read : Text → Option (Text × Text)) : Type 0 where
  pub plain : (c : ℕ) (cs : Text) → c ≢ 39 → c ≢ 92 → read (c ∷ cs) ≡ more c (read cs)
  pub doubled : (cs : Text) → read (39 ∷ 39 ∷ cs) ≡ more 39 (read cs)
  pub escaped : (cs : Text) → read (92 ∷ 39 ∷ cs) ≡ more 39 (read cs)
  pub closed : read (39 ∷ []) ≡ some ([], [])
  pub closed_before : (c : ℕ) (cs : Text) → c ≢ 39 → read (39 ∷ c ∷ cs) ≡ some ([], c ∷ cs)

abbrev pub HasNoBackslash : Text → Type 0
HasNoBackslash value = All (λ c. c ≢ 92) value

module _ (read : Text → Option (Text × Text)) (lawful : ReadsLiterals read) where
  -- What the escaped text is read as, before a rest.
  read-escape :
      (value rest : Text) {v r : Text}
      → HasNoBackslash value
      → read rest ≡ some (v, r)
      → read (escape value ++ rest) ≡ some (value ++ v, r)
  unfolding escape
  read-escape [] rest safe h = h
  read-escape (c ∷ cs) rest safe h = elim (Bool-cases (c == 39)) [
    | inl quote ↦
        let e : c ≡ 39 = ground arith in
        rw (quote, lawful.doubled (escape cs ++ rest), read-escape cs rest safe.1 h) (rw e refl)
    | inr other ↦
        let d : c ≢ 39 = λ e. ground arith in
        rw (other, lawful.plain c (escape cs ++ rest) d safe.0, read-escape cs rest safe.1 h) refl
  ]

  abbrev pub quoted : Text → Text
  quoted value = escape value ++ text "'"

  -- A secret whose value has no backslash is written as a literal that Snowflake reads back as just
  -- that value, with nothing behind it.
  pub secret_reads_back :
      (fqn value : Text)
      → is_identifier fqn ≡ true
      → HasNoBackslash value
      → (literal : Text) × (create_or_replace_secret fqn value ≡ some (secret_head fqn ++ literal))
        × (read literal ≡ some (value, []))
  unfolding create_or_replace_secret
  secret_reads_back fqn value named safe = (
    quoted value,
    rw named refl,
    read-escape value (text "'") safe lawful.closed ∙ rw (append-nil value) refl,
  )

  escape-append : (a b : Text) → escape (a ++ b) ≡ escape a ++ escape b
  unfolding escape
  escape-append [] b = refl
  escape-append (c ∷ cs) b = elim (Bool-cases (c == 39)) [
    | inl e ↦ rw (e, escape-append cs b) refl
    | inr e ↦ rw (e, escape-append cs b) refl
  ]

  -- What an escaped quote with a quote behind it is read as.
  read_broken :
      (c : ℕ) (sql : Text)
      → c ≢ 39
      → read (escape (92 ∷ 39 ∷ c ∷ sql) ++ text "'") ≡ some (39 ∷ [], (c ∷ escape sql) ++ text "'")
  unfolding escape
  read_broken c sql other =
      let e : (c == 39) ≡ false = ground arith in
      rw e (
        rw
          (
            lawful.escaped (39 ∷ c ∷ (escape sql ++ text "'")),
            lawful.closed_before c (escape sql ++ text "'") other,
          )
          refl)

  -- Where the first backslash of a value stands right before a quote, and behind the two stands a
  -- further character, which is no quote, the literal ends at that quote: what the value has behind
  -- it is read as SQL.
  pub secret_breaks_out :
      (fqn value : Text) (c : ℕ) (sql : Text)
      → is_identifier fqn ≡ true
      → HasNoBackslash value
      → c ≢ 39
      → (literal : Text) × (create_or_replace_secret fqn (value ++ 92 ∷ 39 ∷ c ∷ sql)
          ≡ some (secret_head fqn ++ literal))
        × (read literal ≡ some (value ++ 39 ∷ [], (c ∷ escape sql) ++ text "'"))
  unfolding create_or_replace_secret
  secret_breaks_out fqn value c sql named safe other = (
    quoted (value ++ 92 ∷ 39 ∷ c ∷ sql),
    rw named refl,
    rw (escape-append value (92 ∷ 39 ∷ c ∷ sql), append_assoc)
        (read-escape value (escape (92 ∷ 39 ∷ c ∷ sql) ++ text "'") safe (read_broken c sql other)),
  )
