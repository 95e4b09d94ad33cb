-- ===== src/Examples/Data.antt =====
-- Sample values: an app, a history, Snowflake answering everything, and Snowflake refusing some calls.
use mendix_for_snowflake.Prelude.{true, Option, none, some, List, [], ◌∷◌, Text, text}
use mendix_for_snowflake.Models.{AppRecord, medium, DeployStatus}
use mendix_for_snowflake.History.{History}
use mendix_for_snowflake.Names.{Settings}
use mendix_for_snowflake.World.{World, Environment, ContainerRow, Call, ok}
use mendix_for_snowflake.Routes.Deploy.{Stage}

abbrev pub settings : Settings
settings = record {
  db_prefix = text "DB.";
  mendix_base_image = text "/repo@sha256:2";
  pg_eai = text "PG_EAI";
  bound_eai_slots = (text "app_eai_1", text "EAI_ONE") ∷ [];
  privileged = text "ACCOUNTADMIN" ∷ [];
  deploy_stage = text "@DB.APP_PUBLIC.MENDIX_DEPLOY_STAGE";
  deploy_stage_mount = text "/mnt/deploy-stage";
  pg_host = text "pg:5432";
  dump_mapping = λ m. text "{}";
}

abbrev pub shop : AppRecord
shop = record {
  name = text "Shop";
  service_name = text "SHOP_SERVICE";
  app_schema = text "MXAPP_SHOP";
  pg_database = text "shop";
  resource_tier = medium;
  use_caller_rights = true;
  constants = (text "Main.Url", text "<HIDDEN>") ∷ [];
  owner_role = text "sales";
  license_id = none;
  user_roles = text "User" ∷ [];
  role_mapping = [];
  status_detail = none;
  failed_operation = none;
  external_access = [];
  platform_image = some (text "/repo@sha256:1");
  platform_update_available = true;
  pad_stage_path = some (text "apps/Shop/a.zip");
  endpoint_url = none;
  last_deploy_status = some DeployStatus.ready;
  last_deployed_at = some 5;
}

abbrev pub no_history : History
no_history = record { rows = []; next_id = 1 }

abbrev pub start_world : World
start_world = record {
  registry = shop ∷ [];
  history = no_history;
  progress = [];
  clock = 100;
  trace = [];
}

abbrev pub ready_row : ContainerRow
ready_row = record {
  container_name = some (text "mendix-app");
  status = some (text "READY");
  message = none;
}

-- Every call succeeds, and every service is up.
abbrev pub smooth : Environment
smooth = record {
  raises = λ w c. none;
  latency = λ w c. 1;
  service_status = λ w service. some (text "RUNNING");
  containers = λ w service. ready_row ∷ [];
  ingress_urls = λ w service. some (text "shop.example.com") ∷ [];
  pg_password = λ w. some (text "pw");
  describe = λ status reason. text "http";
}

-- One PAD is staged for every app.
abbrev pub stage : Stage
stage = record {
  listing =
      λ w name. ok (some (record { file_name = text "a.zip"; mtime = 3; is_regular = true } ∷ []));
  parse_constants = λ w pad. ok [];
  parse_user_roles = λ w pad. text "User" ∷ [];
  is_file = λ w pad. true;
}

abbrev pub sales : List Text
sales = text "SALES" ∷ []

abbrev pub busy_world : World
busy_world = record start_world {
  registry = record shop { last_deploy_status = some DeployStatus.suspending } ∷ [];
}

abbrev refuses_updates : Call → Option Text
refuses_updates (Call.update_apps name fields) = some (text "timeout")
refuses_updates _ = none

-- Every update of a row is refused.
abbrev pub stubborn : Environment
stubborn = record smooth { raises = λ w c. refuses_updates c }
