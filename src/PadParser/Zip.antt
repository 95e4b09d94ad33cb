-- ===== src/PadParser/Zip.antt =====
-- `parse_from_zip` and `parse_user_roles_from_zip` of Controller/app/pad_parser.py. The decoding of
-- UTF-8 and the parser of JSON are parameters.
pub mod Splitting
pub mod Whole
pub mod Names
use mendix_for_snowflake.Prelude.{
  ℕ, Bool, true, false, not, ◌&&◌, ◌||◌, Option, none, some, List, [], ◌∷◌, ◌++◌, map, reverse,
  Text, text, text_eq, truthy, ends_with, filter, length, ltb, leb, ◌==◌, if◌then◌else◌,
}
use mendix_for_snowflake.SpecBuilder.{PadConstant}
use mendix_for_snowflake.PadParser.{Member, read_zip_member, build_constants, collect_user_roles}
use mendix_for_snowflake.PadParser.Lines.{parse_defaults, parse_variables}

-- A character at which `splitlines` parts a text.
unfoldable pub is_break : ℕ → Bool
is_break c = (leb 10 c && leb c 13) || (leb 28 c && leb c 30) || c == 133 || c == 8232 || c == 8233

-- The lines, with the last one so far and whether a carriage return stands just before.
splitlines_from : Bool → Text → Text → List Text
unfolding is_break
splitlines_from cr piece [] = if truthy piece then reverse piece ∷ [] else []
splitlines_from cr piece (x ∷ a) = elim (cr && x == 10) [
  | true ↦ splitlines_from false piece a
  | false ↦ elim (is_break x) [
    | true ↦ reverse piece ∷ splitlines_from (x == 13) [] a
    | false ↦ splitlines_from false (x ∷ piece) a
  ]
]

-- `a.splitlines()`
unfoldable pub splitlines : Text → List Text
unfolding splitlines_from
splitlines a = splitlines_from false [] a

-- A PAD: its members by their names, in the order of the archive.
abbrev pub Zip : Type 0
Zip = List (Text × Member)

abbrev pub namelist : Zip → List Text
namelist zip = map (λ e. e.0) zip

-- `zf.getinfo(name)`: of two members with one name the later counts.
unfoldable pub getinfo : Text → Zip → Option Member
unfolding text_eq
getinfo name [] = none
getinfo name ((n, m) ∷ zip) = elim (getinfo name zip) [
  | some later ↦ some later
  | none ↦ if text_eq n name then some m else none
]

-- `candidates.sort(key=len)` and `candidates[0]`: the first of the shortest
unfoldable pub shortest : Text → List Text → Text
shortest best [] = best
shortest best (n ∷ names) =
    if ltb (length n) (length best) then shortest n names else shortest best names

abbrev pub defaults_suffix : Text
defaults_suffix = text "etc/constants/defaults.conf"

abbrev pub variables_suffix : Text
variables_suffix = text "etc/constants/variables.conf"

-- What the texts of the two files give, `none` where one is missing
unfoldable pub constants_of : Option Text → Option Text → Option (List PadConstant)
unfolding build_constants parse_defaults parse_variables splitlines
constants_of none variables = some []
constants_of (some defaults) none = some []
constants_of (some defaults) (some variables) =
    build_constants (parse_defaults (splitlines defaults) [])
      (parse_variables (splitlines variables) [])

module _ (decode : List ℕ → Option Text) where
  -- One member, decoded, and the new total; `none` where it raises.
  unfoldable pub read_text : Text → Zip → ℕ → Option (Text × ℕ)
  unfolding getinfo read_zip_member
  read_text name zip total_read = elim (getinfo name zip) [
    | none ↦ none
    | some m ↦ elim (read_zip_member m total_read) [
      | none ↦ none
      | some (bytes, total) ↦ elim (decode bytes) [ none ↦ none | some a ↦ some (a, total) ]
    ]
  ]

  read_first : List Text → Zip → ℕ → Option (Option Text × ℕ)
  unfolding shortest read_text
  read_first [] zip total_read = some (none, total_read)
  read_first (c ∷ candidates) zip total_read =
      elim (read_text (shortest c candidates) zip total_read) [
        | none ↦ none
        | some (a, total) ↦ some (some a, total)
      ]

  -- `_read`
  unfoldable pub read : Text → Zip → ℕ → Option (Option Text × ℕ)
  unfolding read_first ends_with filter
  read suffix zip total_read = read_first (filter (ends_with suffix) (namelist zip)) zip total_read

  -- `parse_from_zip`: `none` where it raises.
  unfoldable pub parse_from_zip : Zip → Option (List PadConstant)
  unfolding read constants_of
  parse_from_zip zip = elim (read defaults_suffix zip 0) [
    | none ↦ none
    | some (defaults, total) ↦ elim (read variables_suffix zip total) [
      | none ↦ none
      | some (variables, _) ↦ constants_of defaults variables
    ]
  ]

  -- `parse_from_directory`, on the contents of the two files, `none` where one does not exist
  unfoldable pub parse_from_directory :
      Option (List ℕ) → Option (List ℕ) → Option (List PadConstant)
  unfolding constants_of
  parse_from_directory none variables = some []
  parse_from_directory (some defaults) none = some []
  parse_from_directory (some defaults) (some variables) = elim (decode defaults) [
    | none ↦ none
    | some d ↦ elim (decode variables) [ none ↦ none | some v ↦ constants_of (some d) (some v) ]
  ]

  is_metadata : Text → Bool
  unfolding ends_with text_eq
  is_metadata n =
      text_eq n (text "model/metadata.json") || ends_with (text "/model/metadata.json") n

  -- `parse_user_roles_from_zip`, where the JSON parser gives the values of `Roles`, as
  -- `collect_user_roles` takes them, or raises
  unfoldable pub parse_user_roles_from_zip : (Text → Option (List (Option Text))) → Zip → List Text
  unfolding is_metadata filter read_first collect_user_roles
  parse_user_roles_from_zip load_roles zip =
      elim (read_first (filter is_metadata (namelist zip)) zip 0) [
        | none ↦ []
        | some (none, _) ↦ []
        | some (some metadata, _) ↦ elim (load_roles metadata) [
          | none ↦ []
          | some values ↦ collect_user_roles values []
        ]
      ]
