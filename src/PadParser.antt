-- ===== src/PadParser.antt =====
-- Controller/app/pad_parser.py: what an uploaded PAD may hold. The caps of what is read, and the names
-- of constants and user roles; the children read the lines of its .conf files and find these in it.
pub mod Lines
pub mod Zip
pub mod Safety
use mendix_for_snowflake.Prelude.{
  ℕ, ◌+◌, ◌*◌, Bool, true, false, not, ◌&&◌, ◌||◌, Option, none, some, List, [], ◌∷◌, ◌++◌, map,
  Text, Dict, lookup, contains, text, length, leb, ltb, ◌==◌, upper, replace_char, has_char, strip,
  truthy, all, any, mem, if◌then◌else◌,
}
use mendix_for_snowflake.SpecBuilder.{PadConstant}

abbrev pub pad_zip_member_max_bytes : ℕ
pad_zip_member_max_bytes = 52428800

abbrev pub pad_zip_total_read_max_bytes : ℕ
pad_zip_total_read_max_bytes = 104857600

-- A member of the zip: the size that its header declares, and the bytes that it unpacks to.
pub record Member : Type 0 where
  pub file_size : ℕ
  pub content : List ℕ

-- `_read_zip_member`: the bytes and the new total, or `none` where it raises.
unfoldable pub read_zip_member : Member → ℕ → Option (List ℕ × ℕ)
read_zip_member m total_read =
    if ltb pad_zip_member_max_bytes m.file_size
    then none
    else (if ltb pad_zip_member_max_bytes (length m.content)
        then none
        else (if ltb pad_zip_total_read_max_bytes (total_read + length m.content)
            then none
            else some (m.content, total_read + length m.content)))

-- Members read one after the other, with the running total.
unfoldable pub read_members : List Member → ℕ → Option (List (List ℕ) × ℕ)
unfolding read_zip_member
read_members [] total_read = some ([], total_read)
read_members (m ∷ ms) total_read = elim (read_zip_member m total_read) [
  | none ↦ none
  | some (bytes, total) ↦ elim (read_members ms total) [
    | none ↦ none
    | some (pieces, end) ↦ some (bytes ∷ pieces, end)
  ]
]

unfoldable pub is_between : ℕ → ℕ → ℕ → Bool
is_between lo hi c = leb lo c && leb c hi

unfoldable pub is_letter : ℕ → Bool
unfolding is_between
is_letter c = is_between 65 90 c || is_between 97 122 c

unfoldable pub is_word : ℕ → Bool
unfolding is_between
is_word c = is_letter c || (is_between 48 57 c || c == b'_')

-- `[A-Za-z0-9_.]*$`: `$` also matches before a newline that ends the text.
unfoldable pub rest_of_name : Text → Bool
unfolding is_word
rest_of_name [] = true
rest_of_name (c ∷ cs) =
    let rest = rest_of_name cs in ((is_word c || c == b'.') && rest) || (c == 10 && not (truthy cs))

-- `_CONSTANT_NAME_RE.match`
unfoldable pub is_constant_name : Text → Bool
unfolding is_letter rest_of_name
is_constant_name [] = false
is_constant_name (c ∷ cs) = is_letter c && rest_of_name cs

-- `"MX_CONST_" + name.replace(".", "_").upper()`
unfoldable pub derived_secret_name : Text → Text
derived_secret_name name = text "MX_CONST_" ++ upper (replace_char b'.' b'_' name)

-- `_build_constants`: `none` where a name is no identifier.
unfoldable pub build_constants : Dict Text → Dict Text → Option (List PadConstant)
unfolding is_constant_name derived_secret_name
build_constants [] env_vars = some []
build_constants ((name, default) ∷ defaults) env_vars =
    let rest = build_constants defaults env_vars in
    elim (lookup name env_vars) [
      | none ↦ rest
      | some env_var ↦
          if is_constant_name name
          then (elim rest [
            | none ↦ none
            | some cs ↦ some (
                record {
                  name = name;
                  env_var = env_var;
                  default = default;
                  secret_name = derived_secret_name name;
                }
                ∷ cs)
          ])
          else none
    ]

abbrev pub user_role_name_max : ℕ
user_role_name_max = 200

unfoldable pub is_control : ℕ → Bool
is_control c = ltb c 32 || c == 127

-- `_valid_user_role_name`
unfoldable pub valid_user_role_name : Text → Bool
unfolding is_control
valid_user_role_name name =
    if truthy name && leb (length name) user_role_name_max
    then not (any is_control name) && not (has_char 39 name || has_char 34 name)
    else false

-- `parse_user_roles_from_zip`, on the values of `data["Roles"]`: `none` stands for a value that is no
-- object, or that has no textual `Name`.
unfoldable pub collect_user_roles : List (Option Text) → List Text → List Text
unfolding valid_user_role_name
collect_user_roles [] seen = []
collect_user_roles (none ∷ values) seen = collect_user_roles values seen
collect_user_roles (some raw_name ∷ values) seen =
    let name = strip raw_name in
    let skipped = collect_user_roles values seen in
    let kept = collect_user_roles values (name ∷ seen) in
    if valid_user_role_name name then (if mem name seen then skipped else name ∷ kept) else skipped
