-- ===== src/PadParser/Zip/Names.antt =====
-- What the names that are read out of a PAD may hold.
use mendix_for_snowflake.Prelude.{
  leb, ◌&&◌, ℕ, ◌≡◌, subst, true, Option, none, some, List, [], ◌∷◌, Text, Dict, lookup, All,
  Option-cases, Bool-cases, inl, inr, newline_last, ◌⊎◌, arith, ap, ◌∙◌, refl, ◌++◌, map, text,
  to_upper, upper, replace_char, Bool, ◌==◌, ◌||◌, if◌then◌else◌,
}
use mendix_for_snowflake.SpecBuilder.{PadConstant}
use mendix_for_snowflake.PadParser.{
  is_letter, is_word, is_between, rest_of_name, derived_secret_name, is_constant_name,
  build_constants,
}
use mendix_for_snowflake.PadParser.Lines.{parse_defaults, parse_variables}
use mathlib.Core.List.{map-append}
use mendix_for_snowflake.PadParser.Zip.{
  Zip, read, defaults_suffix, variables_suffix, constants_of, parse_from_zip, splitlines,
}

-- An identifier of the statement: capital letters, digits and underscores
abbrev pub is_secret_char : ℕ → Bool
is_secret_char c = (leb b'A' c && leb c b'Z') || (leb b'0' c && leb c b'9') || c == b'_'

-- The character of a secret's name for one of its constant's
abbrev pub as_secret : ℕ → ℕ
as_secret c = if c == b'.' then b'_' else to_upper c

-- An ASCII letter
abbrev pub is_ascii : ℕ → Bool
is_ascii c = (leb b'A' c && leb c b'Z') || (leb b'a' c && leb c b'z')

-- A letter, a digit, an underscore or a dot
abbrev pub is_dotted_char : ℕ → Bool
is_dotted_char c = is_ascii c || (leb b'0' c && leb c b'9') || c == b'_' || c == b'.'

-- A name that begins with a letter and goes on with letters, digits, underscores and dots.
abbrev pub IsDotted : Text → Type 0
IsDotted [] = ⊥
IsDotted (c ∷ cs) = (is_ascii c ≡ true) × All (λ x. is_dotted_char x ≡ true) cs

-- The constant has such a name, the secret is named by it, with capital letters, and with underscores
-- for the dots, and by no other character. Both may end in one newline, which `$` lets end a name.
abbrev pub IsSafe : PadConstant → Type 0
IsSafe c =
    (name end : Text) × (c.name ≡ name ++ end)
    × IsDotted name
    × (c.secret_name ≡ text "MX_CONST_" ++ (map as_secret name ++ end))
    × All (λ x. is_secret_char x ≡ true) (map as_secret name)
    × ((end ≡ []) ⊎ (end ≡ 10 ∷ []))

-- The characters behind the first
abbrev AreDotted : Text → Type 0
AreDotted cs =
    (body end : Text) × (cs ≡ body ++ end)
    × All (λ x. is_dotted_char x ≡ true) body
    × ((end ≡ []) ⊎ (end ≡ 10 ∷ []))

AreDotted-more : (c : ℕ) (cs : Text) → is_dotted_char c ≡ true → AreDotted cs → AreDotted (c ∷ cs)
AreDotted-more c cs h (body, end, e, chars, newline) =
    (c ∷ body, end, ap (λ l. c ∷ l) e, (h, chars), newline)

word_is_dotted : (c : ℕ) → is_word c ≡ true → is_dotted_char c ≡ true
unfolding is_word is_letter is_between
word_is_dotted c h = ground (arith, h)

dot_is_dotted : (c : ℕ) → (c == b'.') ≡ true → is_dotted_char c ≡ true
dot_is_dotted c h = ground (arith, h)

letter_is_ascii : (c : ℕ) → is_letter c ≡ true → is_ascii c ≡ true
unfolding is_letter is_between
letter_is_ascii c h = ground (arith, h)

ascii_is_dotted : (c : ℕ) → is_ascii c ≡ true → is_dotted_char c ≡ true
ascii_is_dotted c h = ground (arith, h)

rest_dotted : (cs : Text) → rest_of_name cs ≡ true → AreDotted cs
unfolding rest_of_name
rest_dotted [] h = ([], [], refl, tt, inl refl)
rest_dotted (c ∷ cs) h = elim (Bool-cases (rest_of_name cs)) [
  | inl rest ↦ elim (Bool-cases (is_word c)) [
    | inl w ↦ AreDotted-more c cs (word_is_dotted c w) (rest_dotted cs rest)
    | inr w ↦ elim (Bool-cases (c == b'.')) [
      | inl d ↦ AreDotted-more c cs (dot_is_dotted c d) (rest_dotted cs rest)
      | inr d ↦ ([], c ∷ cs, refl, tt, inr (newline_last c cs (rw (w, d) at h)))
    ]
  ]
  | inr rest ↦ ([], c ∷ cs, refl, tt, inr (newline_last c cs (ground (arith, h, rest))))
]

secret_char : (c : ℕ) → is_dotted_char c ≡ true → is_secret_char (as_secret c) ≡ true
unfolding to_upper
secret_char c h = ground (arith, h)

secret_chars :
    (cs : Text)
    → All (λ x. is_dotted_char x ≡ true) cs
    → All (λ x. is_secret_char x ≡ true) (map as_secret cs)
unfolding is_word is_letter is_between to_upper
secret_chars [] h = tt
secret_chars (c ∷ cs) (w, h) = (secret_char c w, secret_chars cs h)

secret_end : (end : Text) → (end ≡ []) ⊎ (end ≡ 10 ∷ []) → map as_secret end ≡ end
unfolding to_upper
secret_end end (inl e) = rw e refl
secret_end end (inr e) = rw e refl

secret_of_char : (c : ℕ) → to_upper (if c == b'.' then b'_' else c) ≡ as_secret c
unfolding to_upper
secret_of_char c = ground arith

secret_of : (cs : Text) → upper (replace_char b'.' b'_' cs) ≡ map as_secret cs
unfolding upper replace_char to_upper
secret_of [] = refl
secret_of (c ∷ cs) = cc (secret_of_char c, secret_of cs)

derived_IsSafe :
    (name env_var default : Text)
    → is_constant_name name ≡ true
    → IsSafe (record {
      name = name;
      env_var = env_var;
      default = default;
      secret_name = derived_secret_name name;
    })
unfolding is_constant_name derived_secret_name
derived_IsSafe [] env_var default h = cc h
derived_IsSafe (c ∷ cs) env_var default h =
    let first : is_letter c ≡ true = ground (arith, h) in
    let rest : rest_of_name cs ≡ true = ground (arith, h) in
    let (body, end, e, chars, newline) = rest_dotted cs rest in
    let named : c ∷ cs ≡ (c ∷ body) ++ end = ap (λ l. c ∷ l) e in
    (
      c ∷ body,
      end,
      named,
      (letter_is_ascii c first, chars),
      ap (λ l. text "MX_CONST_" ++ l)
          (secret_of (c ∷ cs)
            ∙ ap (map as_secret) named
            ∙ map-append as_secret (c ∷ body) end
            ∙ ap (λ l. map as_secret (c ∷ body) ++ l) (secret_end end newline)),
      secret_chars (c ∷ body) (ascii_is_dotted c (letter_is_ascii c first), chars),
      newline,
    )

abbrev AllSafe : Option (List PadConstant) → Type 0
AllSafe none = Unit
AllSafe (some cs) = All IsSafe cs

build_constants-AllSafe :
    (defaults env_vars : Dict Text) → AllSafe (build_constants defaults env_vars)
unfolding build_constants
build_constants-AllSafe [] env_vars = tt
build_constants-AllSafe ((name, default) ∷ defaults) env_vars =
    elim (Option-cases (lookup name env_vars)) [
      | inl e ↦ rw (e, build_constants) (build_constants-AllSafe defaults env_vars)
      | inr (env_var, e) ↦ elim (Bool-cases (is_constant_name name)) [
        | inr bad ↦ rw (e, bad, build_constants) tt
        | inl good ↦
            let rest = build_constants-AllSafe defaults env_vars in
            elim (Option-cases (build_constants defaults env_vars)) [
              | inl f ↦ rw (e, good, f, build_constants) tt
              | inr (cs, f) ↦
                  rw (e, good, f, build_constants)
                    (derived_IsSafe name env_var default good, rw f at rest)
            ]
      ]
    ]

constants_of-AllSafe : (d v : Option Text) → AllSafe (constants_of d v)
unfolding constants_of
constants_of-AllSafe none v = tt
constants_of-AllSafe (some d) none = tt
constants_of-AllSafe (some d) (some v) =
    build_constants-AllSafe (parse_defaults (splitlines d) []) (parse_variables (splitlines v) [])

parse_from_zip-AllSafe :
    (decode : List ℕ → Option Text) (zip : Zip) → AllSafe (parse_from_zip decode zip)
unfolding parse_from_zip
parse_from_zip-AllSafe decode zip = elim (Option-cases (read decode defaults_suffix zip 0)) [
  | inl e ↦ rw (e, parse_from_zip) tt
  | inr ((d, total), e) ↦ elim (Option-cases (read decode variables_suffix zip total)) [
    | inl f ↦ rw (e, parse_from_zip) (rw (f, parse_from_zip) tt)
    | inr ((v, end), f) ↦ rw (e, parse_from_zip) (rw (f, parse_from_zip) (constants_of-AllSafe d v))
  ]
]

-- Whatever the archive holds, each constant that is read out of it has a letter and then letters,
-- digits, underscores and dots for its name. The secret that is derived from it is named MX_CONST_ and
-- that name, with capital letters and underscores for its dots, and so by capital letters, digits and
-- underscores only. Both names may end in one newline.
pub zip_constants-IsSafe :
    (decode : List ℕ → Option Text) (zip : Zip) (cs : List PadConstant)
    → parse_from_zip decode zip ≡ some cs
    → All IsSafe cs
zip_constants-IsSafe decode zip cs h = subst AllSafe h (parse_from_zip-AllSafe decode zip)
