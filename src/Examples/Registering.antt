-- ===== src/Examples/Registering.antt =====
-- The registration form at a concrete input.
use mendix_for_snowflake.Prelude.{
  ◌≡◌, all, refl, true, false, Bool, none, some, List, [], ◌∷◌, map, Text, text, text_eq, upper,
  filter, starts_with, lookup, inl, In,
}
use mendix_for_snowflake.Auth.{authorize}
use mendix_for_snowflake.PadParser.{is_letter, is_word, is_between}
use mendix_for_snowflake.Requests.Create.{Value, CreateBody, is_field_name, check_create}
use mendix_for_snowflake.Routes.Config.{unbound_slots}
use mendix_for_snowflake.Examples.Site.{platform}
use mendix_for_snowflake.SystemRoutes.Signals.{slot_of, get_external_access_slots}
use mendix_for_snowflake.AdminUi.Register.{
  owner_candidates, owner_role, selected_eai_slots, name_matches, Parsed, Form, parsed_constants,
  form_errors, payload, submit,
}
use mendix_for_snowflake.AdminUi.Register.Admitted.{rest_valid, form_admitted}
use mendix_for_snowflake.Examples.Data.{settings}

abbrev loads : Text → Parsed
loads shown = Parsed.object ((text "Shop.Rate", Value.string (text "2")) ∷ [])

abbrev only_first : Text → Bool
only_first key = text_eq key (text "app_eai_1")

abbrev operator_roles : List Text
operator_roles = text "PUBLIC" ∷ text "Sales" ∷ text "SNOWFLAKE_READER" ∷ []

candidates_told : owner_candidates operator_roles ≡ text "Sales" ∷ []
unfolding owner_candidates filter text_eq starts_with
candidates_told = refl

selected_told :
    selected_eai_slots only_first (get_external_access_slots platform operator_roles)
    ≡ text "app_eai_1" ∷ []
unfolding selected_eai_slots get_external_access_slots slot_of filter lookup text_eq
selected_told = refl

abbrev form : Form
form = record {
  name = text "Shop_2";
  pg_database = text "shop";
  admin_password = text "secret";
  owner = text "Sales";
  constants_text = text "{\"Shop.Rate\": \"2\"}";
  license_id = [];
  license_key = [];
  slots = text "app_eai_1" ∷ [];
}

abbrev body : CreateBody
body = record {
  name = form.name;
  pg_database = form.pg_database;
  constants = (text "Shop.Rate", Value.string (text "2")) ∷ [];
  owner_role = form.owner;
  license_id = none;
  license_key = none;
  external_access = form.slots;
}

form_sent : submit loads form ≡ some body
unfolding submit form_errors payload parsed_constants name_matches is_letter is_word is_between
form_sent = refl

owner_chosen : form.owner ≡ owner_role (owner_candidates operator_roles) (text "Sales")
unfolding owner_role
owner_chosen = rw candidates_told refl

sales_listed : In (text "Sales") (owner_candidates operator_roles)
sales_listed = rw candidates_told (inl refl)

form_admitted_example :
    (check_create body ≡ rest_valid body)
    × (unbound_slots settings body.external_access ≡ [])
    × (authorize settings.privileged (some body.owner_role) (map upper operator_roles) ≡ true)
form_admitted_example =
    form_admitted loads settings platform operator_roles only_first (text "Sales") form body
      form_sent refl (rw selected_told refl) owner_chosen sales_listed refl

-- The constants are checked for strings by the controller only, and so is the length of the name.
abbrev numeric : CreateBody
numeric = record body { constants = (text "Shop.Rate", Value.other) ∷ [] }

numeric_refused : check_create numeric ≡ false
unfolding check_create is_field_name all is_letter is_word is_between
numeric_refused = refl
