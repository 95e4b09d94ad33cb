-- ===== src/Examples/Creation.antt =====
-- A registration on the sample world.
use mendix_for_snowflake.Prelude.{
  ◌≡◌, refl, false, none, [], ◌∷◌, text, text_eq, upper, same_name, distinct, sorted, lookup, keys,
  filter, any,
}
use mendix_for_snowflake.Models.{small}
use mendix_for_snowflake.Registry
use mendix_for_snowflake.Auth.{authorize}
use mendix_for_snowflake.World.{raised, error, pure, attempt, ◌>>=◌, modify, gets, call}
use mendix_for_snowflake.Statements
use mendix_for_snowflake.Routes.Config.{unbound_slots}
use mendix_for_snowflake.Routes.Deploy.{Stage, resolve_staged_pad}
use mendix_for_snowflake.Routes.Service.{teardown_app_objects}
use mendix_for_snowflake.Routes.Create
use mendix_for_snowflake.Routes.Create.{
  CreateRequest, create_app, new_record, masked_constants, put_constants, put_license,
  create_objects, check_free,
}
use mendix_for_snowflake.Routes.Create.Registration.{Registers, create_app-Registers}
use mendix_for_snowflake.Examples.Data.{settings, start_world, smooth, stage, sales}

abbrev depot : CreateRequest
depot = record {
  name = text "Depot";
  pg_database = text "depot";
  resource_tier = small;
  use_caller_rights = false;
  constants = [];
  owner_role = text "sales";
  license_id = none;
  has_license_key = false;
  external_access = text "app_eai_1" ∷ [];
}

create_app-Registers_example :
    let (a, w') = create_app smooth settings depot stage sales start_world in
    Registers stage (new_record settings depot) start_world.registry a w'.registry
create_app-Registers_example = create_app-Registers smooth settings depot stage sales start_world

-- A stage whose directories cannot be read
abbrev unreadable : Stage
unreadable = record stage { listing = λ w name. raised (error (text "Input/output error")) }

-- The registration of an app raises there, and the app is registered.
unreadable_registered :
    let (a, w') = create_app smooth settings depot unreadable sales start_world in
    (a ≡ raised (error (text "Input/output error")))
    × (w'.registry ≡ Registry.create_app (new_record settings depot) start_world.registry)
unfolding masked_constants put_constants put_license create_objects check_free Create.create_app
    Statements.create_app resolve_staged_pad pure attempt ◌>>=◌ modify gets call Statements.get_app
    Registry.get_app unbound_slots authorize text_eq upper same_name distinct sorted lookup keys
    filter any teardown_app_objects
unreadable_registered = (refl, refl)
