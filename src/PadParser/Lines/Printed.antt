-- ===== src/PadParser/Lines/Printed.antt =====
-- Files that are printed from constants are parsed to these constants.
use mathlib.Core.List.{reverse-append, reverse-reverse, reverse-cons}
use mendix_for_snowflake.Prelude.{
  ℕ, ◌≡◌, refl, ◌∙◌, ap, true, false, some, [], ◌∷◌, ◌++◌, map, Text, Dict, merge, insert, text,
  strip, strip_left, is_space, reverse, truthy, Lacks, All, ◌==◌, arith,
}
use mendix_for_snowflake.Activity.{after_prefix}
use mendix_for_snowflake.PadParser.Lines.{
  until, until_full, braced, key_of, unquote, default_of, parse_defaults, variable_of,
  parse_variables,
}

until-append :
    (c : ℕ) (before behind : Text)
    → Lacks c before
    → until c (before ++ c ∷ behind) ≡ some (before, behind)
unfolding until
until-append c [] behind h = let e : (c == c) ≡ true = ground arith in rw (e, until) refl
until-append c (x ∷ before) behind (d, h) =
    let e : (x == c) ≡ false = ground arith in
    rw (e, until) (rw (until-append c before behind h) refl)

until_full-append :
    (c : ℕ) (before behind : Text)
    → truthy before ≡ true
    → Lacks c before
    → until_full c (before ++ c ∷ behind) ≡ some (before, behind)
unfolding until_full
until_full-append c before behind full h =
    rw (until-append c before behind h, until_full) (rw full refl)

-- A text between double quotes, behind which nothing follows.
abbrev pub in_quotes : Text → Text
in_quotes a = 34 ∷ (a ++ 34 ∷ [])

reverse_quotes : (a : Text) → reverse (in_quotes a) ≡ in_quotes (reverse a)
reverse_quotes a = reverse-append (34 ∷ a) (34 ∷ []) ∙ ap (λ t. 34 ∷ t) (reverse-cons 34 a)

strip_left_quotes : (a : Text) → strip_left (in_quotes a) ≡ in_quotes a
unfolding strip_left is_space
strip_left_quotes a = refl

strip_quotes : (a : Text) → strip (in_quotes a) ≡ in_quotes a
unfolding strip
strip_quotes a =
    rw
      (
        strip_left_quotes a,
        reverse_quotes a,
        strip_left_quotes (reverse a),
        reverse_quotes (reverse a),
        reverse-reverse a,
      )
      refl

strip_space : (a : Text) → strip (32 ∷ in_quotes a) ≡ strip (in_quotes a)
unfolding strip strip_left is_space
strip_space a = refl

unquote_quotes : (a : Text) → unquote (in_quotes a) ≡ a
unfolding unquote
unquote_quotes a = rw (reverse-append a (34 ∷ [])) (reverse-reverse a)

-- The line that gives a constant its default.
abbrev pub default_line : Text × Text → Text
default_line (name, value) = 34 ∷ (name ++ 34 ∷ (text " = " ++ in_quotes value))

-- The line that names the environment variable of a constant.
abbrev pub variable_line : Text × Text → Text
variable_line (name, env_var) = 34 ∷ (name ++ 34 ∷ (text " = ${?" ++ (env_var ++ b'}' ∷ [])))

-- A name that can stand between double quotes.
abbrev pub IsKey : Text → Type 0
IsKey name = (truthy name ≡ true) × Lacks 34 name

key_printed :
    (name rest : Text)
    → IsKey name
    → key_of (34 ∷ (name ++ 34 ∷ (text " =" ++ rest))) ≡ some (name, rest)
unfolding key_of after_prefix strip_left is_space
key_printed name rest (full, lacks) =
    rw (until_full-append 34 name (text " =" ++ rest) full lacks, key_of) refl

default_printed :
    (name value : Text) → IsKey name → default_of (default_line (name, value)) ≡ some (name, value)
unfolding default_of
default_printed name value h =
    rw (key_printed name (32 ∷ in_quotes value) h, default_of)
      (rw (strip_space value, strip_quotes value, unquote_quotes value) refl)

variable_printed :
    (name env_var : Text)
    → IsKey name
    → truthy env_var ≡ true
    → Lacks b'}' env_var
    → variable_of (variable_line (name, env_var)) ≡ some (name, env_var)
unfolding variable_of after_prefix strip_left is_space
variable_printed name env_var h full lacks =
    rw (key_printed name (text " ${?" ++ (env_var ++ b'}' ∷ [])) h, variable_of)
      (rw (until_full-append b'}' env_var [] full lacks, braced) refl)

abbrev pub IsVariable : Text × Text → Type 0
IsVariable (name, env_var) = IsKey name × (truthy env_var ≡ true) × Lacks b'}' env_var

defaults_from :
    (d acc : Dict Text)
    → All (λ e. IsKey e.0) d
    → parse_defaults (map default_line d) acc ≡ merge acc d
unfolding parse_defaults merge
defaults_from [] acc h = refl
defaults_from ((name, value) ∷ d) acc (k, h) =
    rw (default_printed name value k, parse_defaults) (defaults_from d (insert name value acc) h)

variables_from :
    (e acc : Dict Text) → All IsVariable e → parse_variables (map variable_line e) acc ≡ merge acc e
unfolding parse_variables merge
variables_from [] acc h = refl
variables_from ((name, env_var) ∷ e) acc ((k, full, lacks), h) =
    rw (variable_printed name env_var k full lacks, parse_variables)
      (variables_from e (insert name env_var acc) h)

-- Files with one line for each constant are parsed to these constants, whatever text a default value
-- is: names are not empty and have no double quote, and variables are not empty and have no closing
-- brace. Of two lines for one name the later counts.
pub printed_files_parse :
    (defaults env_vars : Dict Text)
    → All (λ e. IsKey e.0) defaults
    → All IsVariable env_vars
    → (parse_defaults (map default_line defaults) [] ≡ merge [] defaults)
      × (parse_variables (map variable_line env_vars) [] ≡ merge [] env_vars)
printed_files_parse defaults env_vars h k =
    (defaults_from defaults [] h, variables_from env_vars [] k)
