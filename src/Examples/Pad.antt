-- ===== src/Examples/Pad.antt =====
-- A small PAD.
use mendix_for_snowflake.Prelude.{
  ℕ, ◌≡◌, ◌∙◌, refl, inl, inr, Option, some, List, [], ◌∷◌, Text, Dict, text, map, merge, insert,
  text_eq, lookup, starts_with, ends_with, length, any, ◌≤◌, All, arith, upper, to_upper,
  replace_char,
}
use mendix_for_snowflake.PadParser.{
  Member, build_constants, is_constant_name, rest_of_name, derived_secret_name, is_letter, is_word,
  is_between,
}
use mendix_for_snowflake.PadParser.Lines.Printed.{default_line, variable_line}
use mendix_for_snowflake.PadParser.Zip.{
  is_break, parse_from_zip, defaults_suffix, variables_suffix, Zip,
}
use mendix_for_snowflake.PadParser.Zip.Splitting.{IsLine, unlines}
use mendix_for_snowflake.PadParser.Zip.Names.{IsSafe, zip_constants-IsSafe}
use mendix_for_snowflake.PadParser.Zip.Whole.{
  CountsFor, defaults_file, variables_file, printed_zip_parses,
}

abbrev defaults : Dict Text
defaults = (text "A.Url", text "a \"b\" = c") ∷ (text "A.Free", []) ∷ []

abbrev env_vars : Dict Text
env_vars = (text "A.Url", text "URL") ∷ []

abbrev ascii : List ℕ → Option Text
ascii bytes = some bytes

abbrev defaults_member : Member
defaults_member = record { file_size = 40; content = defaults_file defaults }

abbrev variables_member : Member
variables_member = record { file_size = 40; content = variables_file env_vars }

-- Besides the two files, an older one of the first, and one in a folder below.
abbrev pad : Zip
pad =
    (text "etc/constants/defaults.conf", record { file_size = 1; content = 7 ∷ [] })
    ∷ (text "etc/constants/variables.conf", variables_member)
    ∷ (text "old/etc/constants/variables.conf", record { file_size = 1; content = 7 ∷ [] })
    ∷ (text "etc/constants/defaults.conf", defaults_member)
    ∷ (text "bin/start", record { file_size = 1; content = 7 ∷ [] })
    ∷ []

defaults_plain : All IsLine (map default_line defaults)
unfolding any is_break
defaults_plain = (refl, (refl, tt))

variables_plain : All IsLine (map variable_line env_vars)
unfolding any is_break
variables_plain = (refl, tt)

defaults_count : CountsFor defaults_suffix pad defaults_suffix defaults_member
unfolding ends_with starts_with text_eq
defaults_count = (
  (text "etc/constants/defaults.conf", record { file_size = 1; content = 7 ∷ [] })
      ∷ (text "etc/constants/variables.conf", variables_member)
      ∷ (text "old/etc/constants/variables.conf", record { file_size = 1; content = 7 ∷ [] })
      ∷ [],
  (text "bin/start", record { file_size = 1; content = 7 ∷ [] }) ∷ [],
  refl,
  refl,
  (inr (inl refl), (inl refl, (inl refl, tt))),
  (inl refl, tt),
  (refl, tt),
)

variables_count : CountsFor variables_suffix pad variables_suffix variables_member
unfolding ends_with starts_with text_eq
variables_count = (
  (text "etc/constants/defaults.conf", record { file_size = 1; content = 7 ∷ [] }) ∷ [],
  (text "old/etc/constants/variables.conf", record { file_size = 1; content = 7 ∷ [] })
      ∷ (text "etc/constants/defaults.conf", defaults_member)
      ∷ (text "bin/start", record { file_size = 1; content = 7 ∷ [] })
      ∷ [],
  refl,
  refl,
  (inl refl, tt),
  (inr (inr (omega arith)), (inl refl, (inl refl, tt))),
  (refl, (refl, (refl, tt))),
)

defaults_short : length (defaults_file defaults) ≤ 100
unfolding unlines
defaults_short = omega arith

variables_short : length (variables_file env_vars) ≤ 100
unfolding unlines
variables_short = omega arith

pad_parsed : parse_from_zip ascii pad ≡ build_constants (merge [] defaults) (merge [] env_vars)
pad_parsed =
    printed_zip_parses ascii pad defaults_suffix variables_suffix defaults_member variables_member
      defaults env_vars defaults_count variables_count (omega arith, omega (arith, defaults_short))
      (omega arith, omega (arith, variables_short)) (omega (arith, defaults_short, variables_short))
      refl refl defaults_plain variables_plain ((refl, omega arith), ((refl, omega arith), tt))
      (((refl, omega arith), refl, omega arith), tt)

-- The constant with a variable is found, and the other is not.
constant_found :
    build_constants (merge [] defaults) (merge [] env_vars)
    ≡ some (
        record {
          name = text "A.Url";
          env_var = text "URL";
          default = text "a \"b\" = c";
          secret_name = text "MX_CONST_A_URL";
        }
        ∷ [])
unfolding build_constants merge insert text_eq lookup is_constant_name rest_of_name is_letter
    is_word is_between derived_secret_name upper to_upper replace_char
constant_found = refl

zip_constants-IsSafe_example : All IsSafe (
    record {
      name = text "A.Url";
      env_var = text "URL";
      default = text "a \"b\" = c";
      secret_name = text "MX_CONST_A_URL";
    }
    ∷ [])
zip_constants-IsSafe_example = zip_constants-IsSafe ascii pad _ (pad_parsed ∙ constant_found)
