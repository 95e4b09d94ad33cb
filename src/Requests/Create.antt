-- ===== src/Requests/Create.antt =====
-- The validation of `CreateAppRequest` in Controller/app/models.py.
use mendix_for_snowflake.Prelude.{
  Bool, true, false, ◌&&◌, Option, List, [], ◌∷◌, Text, Dict, length, leb, all, keys, is_some,
}
use mendix_for_snowflake.PadParser.{is_letter, is_word, is_constant_name}
use mendix_for_snowflake.Requests.{validate_eai_slots, check_license_pair}

-- A value of a JSON object, as far as `dict[str, str]` tells them apart.
pub data Value : Type 0 where
  string : Text → Value
  other : Value

abbrev pub is_string : Value → Bool
is_string (string a) = true
is_string other = false

-- `^[A-Za-z][A-Za-z0-9_]*$` in a `Field`, where `$` matches at the end only
unfoldable pub is_field_name : Text → Bool
unfolding all
is_field_name [] = false
is_field_name (c ∷ cs) = is_letter c && all is_word cs

-- The body of `POST /apps`, less the tier and the two values that nothing is asked of.
pub record CreateBody : Type 0 where
  pub name : Text
  pub pg_database : Text
  pub constants : Dict Value
  pub owner_role : Text
  pub license_id : Option Text
  pub license_key : Option Text
  pub external_access : List Text

-- The body is valid; otherwise the answer is 422.
unfoldable pub check_create : CreateBody → Bool
unfolding is_field_name
check_create body =
    is_field_name body.name
    && (leb (length body.name) 50
        && (is_field_name body.pg_database
            && (is_field_name body.owner_role
                && (all (λ e. is_string e.1) body.constants
                    && (all is_constant_name (keys body.constants)
                        && (is_some (validate_eai_slots body.external_access)
                            && check_license_pair body.license_id body.license_key))))))
