-- ===== src/Names.antt =====
-- The naming helpers of Controller/app/main.py and Controller/app/snowflake_client.py: everything
-- that an app owns is named after it.
pub mod Access
use mendix_for_snowflake.Prelude.{
  none, some, List, [], ◌∷◌, ◌++◌, Text, Dict, lookup, text, upper, lower, replace_char,
}

-- What the environment of the controller's container fixes: `_DB_PREFIX`, `MENDIX_BASE_IMAGE`,
-- `PG_EAI`, `BOUND_EAI_SLOTS`, `PRIVILEGED_ROLES`, `DEPLOY_STAGE`, `DEPLOY_STAGE_MOUNT`, the host of the bound secret, and
-- `json.dumps` with sorted keys.
pub record Settings : Type 0 where
  pub db_prefix : Text
  pub mendix_base_image : Text
  pub pg_eai : Text
  pub bound_eai_slots : Dict Text
  pub privileged : List Text
  pub deploy_stage : Text
  pub deploy_stage_mount : Text
  pub pg_host : Text
  pub dump_mapping : Dict Text → Text

unfoldable pub service_name : Text → Text
service_name app_name = upper app_name ++ text "_SERVICE"

unfoldable pub app_schema_name : Text → Text
app_schema_name app_name = text "MXAPP_" ++ upper app_name

unfoldable pub pg_username : Text → Text
pg_username app_name = text "app_" ++ (lower app_name ++ text "_role")

unfoldable pub const_secret_name : Text → Text
const_secret_name const_name = text "MX_CONST_" ++ upper (replace_char b'.' b'_' const_name)

unfoldable pub app_access_role_name : Text → Text
app_access_role_name app_name = text "app_" ++ (lower app_name ++ text "_user")

module _ (s : Settings) where
  unfoldable pub schema_fqn : Text → Text
  schema_fqn schema = s.db_prefix ++ schema

  unfoldable pub filestorage_stage : Text → Text
  unfolding schema_fqn
  filestorage_stage app_schema = schema_fqn app_schema ++ text ".FILESTORAGE_STAGE"

  unfoldable pub secret_fqn : Text → Text → Text
  unfolding schema_fqn
  secret_fqn app_schema name = schema_fqn app_schema ++ (text "." ++ upper name)

  unfoldable pub bound_names : List Text → List Text
  bound_names [] = []
  bound_names (slot ∷ slots) =
      let rest = bound_names slots in
      elim (lookup slot s.bound_eai_slots) [ none ↦ rest | some name ↦ name ∷ rest ]

  -- `_compose_eai_names`
  unfoldable pub compose_eai_names : List Text → List Text
  unfolding bound_names
  compose_eai_names slots = s.pg_eai ∷ bound_names slots
