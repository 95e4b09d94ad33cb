-- ===== src/PadParser/Lines.antt =====
-- The lines of defaults.conf and variables.conf: `_parse_defaults` and `_parse_variables` of
-- Controller/app/pad_parser.py. A file is given as its lines, which hold no line break.
pub mod Printed
use mendix_for_snowflake.Prelude.{
  ℕ, Bool, true, false, ◌&&◌, Option, none, some, List, [], ◌∷◌, Text, Dict, insert, text, strip,
  strip_left, reverse, truthy, ◌==◌, if◌then◌else◌,
}
use mendix_for_snowflake.Activity.{after_prefix}

-- `([^c]*)c`: what stands before the first place of the character, and behind it.
unfoldable pub until : ℕ → Text → Option (Text × Text)
until c [] = none
until c (x ∷ a) = elim (x == c) [
  | true ↦ some ([], a)
  | false ↦ elim (until c a) [ none ↦ none | some (before, behind) ↦ some (x ∷ before, behind) ]
]

-- `([^c]+)c`
unfoldable pub until_full : ℕ → Text → Option (Text × Text)
unfolding until
until_full c a = elim (until c a) [
  | none ↦ none
  | some (before, behind) ↦ if truthy before then some (before, behind) else none
]

-- `\s*=`, and what stands behind
after_equals : Text → Option Text
after_equals a = after_prefix (text "=") (strip_left a)

named_value : Option (Text × Text) → Option (Text × Text)
unfolding after_equals
named_value none = none
named_value (some (name, rest)) = elim (after_equals rest) [ none ↦ none | some v ↦ some (name, v) ]

key_after : Option Text → Option (Text × Text)
unfolding named_value until_full
key_after none = none
key_after (some rest) = named_value (until_full 34 rest)

-- `\s*"([^"]+)"\s*=`: the name, and what stands behind
unfoldable pub key_of : Text → Option (Text × Text)
unfolding key_after
key_of line = key_after (after_prefix (34 ∷ []) (strip_left line))

-- `^"(.*)"$` on a value, and `val[1:-1]`
unquote_end : Text → Text → Text
unquote_end val [] = val
unquote_end val (c ∷ before) = if c == 34 then reverse before else val

unfoldable pub unquote : Text → Text
unfolding unquote_end
unquote [] = []
unquote (c ∷ val) = if c == 34 then unquote_end (c ∷ val) (reverse val) else c ∷ val

unfoldable pub default_of : Text → Option (Text × Text)
unfolding key_of unquote
default_of line = elim (key_of line) [
  | none ↦ none
  | some (name, rest) ↦ some (name, unquote (strip rest))
]

abbrev pub add_entry : Dict Text → Option (Text × Text) → Dict Text
add_entry d none = d
add_entry d (some (name, v)) = insert name v d

-- `_parse_defaults`, with the entries of the lines before
unfoldable pub parse_defaults : List Text → Dict Text → Dict Text
unfolding default_of
parse_defaults [] defaults = defaults
parse_defaults (line ∷ lines) defaults = parse_defaults lines (add_entry defaults (default_of line))

unfoldable pub braced : Text → Option Text → Option (Text × Text)
unfolding until_full
braced name none = none
braced name (some rest) = elim (until_full b'}' rest) [
  | none ↦ none
  | some (env_var, _) ↦ some (name, env_var)
]

unfoldable pub variable_of : Text → Option (Text × Text)
unfolding key_of braced
variable_of line = elim (key_of line) [
  | none ↦ none
  | some (name, rest) ↦ braced name (after_prefix (text "${?") (strip_left rest))
]

-- `_parse_variables`, likewise
unfoldable pub parse_variables : List Text → Dict Text → Dict Text
unfolding variable_of
parse_variables [] env_vars = env_vars
parse_variables (line ∷ lines) env_vars =
    parse_variables lines (add_entry env_vars (variable_of line))
