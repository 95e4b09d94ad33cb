-- ===== src/AdminUi/Register.antt =====
-- The form of Admin UI/app/pages/2_Register.py: what it offers, what it checks, and what it sends.
pub mod Admitted
use mendix_for_snowflake.Prelude.{
  ℕ, Bool, true, false, not, ◌&&◌, ◌||◌, Option, none, some, List, [], ◌∷◌, ◌++◌, map, Text, Dict,
  text, text_eq, truthy, filter, starts_with, ◌==◌, if◌then◌else◌,
}
use mendix_for_snowflake.PadParser.{is_letter, is_word}
use mendix_for_snowflake.Requests.Create.{Value, CreateBody}
use mendix_for_snowflake.SystemRoutes.Signals.{Slot}

-- `_DEFAULT_OWNER_ROLE`
abbrev pub default_owner_role : Text
default_owner_role = text "MENDIX_ADMIN_OPERATOR_ROLE"

-- `_owner_candidates`
unfoldable pub owner_candidates : List Text → List Text
owner_candidates roles =
    filter (λ r. not (text_eq r (text "PUBLIC")) && not (starts_with (text "SNOWFLAKE_") r)) roles

-- The role that is chosen of the candidates, if there are any
unfoldable pub owner_role : List Text → Text → Text
owner_role [] choice = default_owner_role
owner_role (r ∷ rs) choice = choice

-- The keys of the slots that are ticked; one that is not bound cannot be.
unfoldable pub selected_eai_slots : (Text → Bool) → List Slot → List Text
selected_eai_slots ticked slots =
    map (λ slot. slot.key) (filter (λ slot. slot.bound && ticked slot.key) slots)

-- `[A-Za-z0-9_]*$`: `$` also matches before a newline that ends the text.
rest_matches : Text → Bool
rest_matches [] = true
rest_matches (c ∷ cs) =
    let rest = rest_matches cs in (is_word c && rest) || (c == 10 && not (truthy cs))

-- `_NAME_RE.match`
unfoldable pub name_matches : Text → Bool
unfolding rest_matches
name_matches [] = false
name_matches (c ∷ cs) = is_letter c && rest_matches cs

-- What `json.loads` makes of a text.
pub data Parsed : Type 0 where
  object : Dict Value → Parsed
  not_object : Parsed
  invalid : Parsed

pub record Form : Type 0 where
  pub name : Text
  pub pg_database : Text
  pub admin_password : Text
  pub owner : Text
  pub constants_text : Text
  pub license_id : Text
  pub license_key : Text
  pub slots : List Text

pub data FormError : Type 0 where
  bad_name no_database no_password constants_not_object constants_invalid half_license : FormError

abbrev unless : Bool → FormError → List FormError
unless true e = []
unless false e = e ∷ []

-- What is given of a pair of license fields
abbrev both_or_neither : Text → Text → Bool
both_or_neither license_id license_key =
    if truthy license_id then truthy license_key else not (truthy license_key)

abbrev parse_errors : Parsed → List FormError
parse_errors (object constants) = []
parse_errors not_object = constants_not_object ∷ []
parse_errors invalid = constants_invalid ∷ []

abbrev constants_of : Parsed → Dict Value
constants_of (object constants) = constants
constants_of not_object = []
constants_of invalid = []

abbrev given : Bool → Text → Option Text
given true a = some a
given false a = none

module _ (loads : Text → Parsed) where
  -- `json.loads(constants_text or "{}")`
  unfoldable pub parsed_constants : Form → Parsed
  parsed_constants form =
      loads (if truthy form.constants_text then form.constants_text else text "{}")

  unfoldable pub form_errors : Form → List FormError
  unfolding name_matches parsed_constants
  form_errors form =
      unless (name_matches form.name) bad_name
      ++ (unless (truthy form.pg_database) no_database
          ++ (unless (truthy form.admin_password) no_password
              ++ (parse_errors (parsed_constants form)
                  ++ unless (both_or_neither form.license_id form.license_key) half_license)))

  -- `payload`
  unfoldable pub payload : Form → CreateBody
  unfolding parsed_constants
  payload form =
      let licensed = truthy form.license_id && truthy form.license_key in
      record {
        name = form.name;
        pg_database = form.pg_database;
        constants = constants_of (parsed_constants form);
        owner_role = form.owner;
        license_id = given licensed form.license_id;
        license_key = given licensed form.license_key;
        external_access = form.slots;
      }

  -- What `Register` sends, if anything
  unfoldable pub submit : Form → Option CreateBody
  unfolding form_errors payload
  submit form = elim (form_errors form) [ [] ↦ some (payload form) | e ∷ es ↦ none ]
