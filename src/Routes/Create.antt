-- ===== src/Routes/Create.antt =====
-- `POST /apps` of Controller/app/main.py: the registration of an app.
pub mod Fresh
pub mod Registration
use mendix_for_snowflake.Prelude.{
  Bool, true, false, not, ◌&&◌, Option, none, some, List, [], ◌∷◌, map, Text, Dict, keys, text,
  text_eq, filter, truthy, truthy?, if◌then◌else◌, is_some,
}
use mendix_for_snowflake.Models.{AppRecord, ResourceTier, DeployStatus, hidden_value}
use mendix_for_snowflake.Registry.{Field}
use mendix_for_snowflake.Auth.{authorize}
use mendix_for_snowflake.Names.{
  Settings, service_name, app_schema_name, pg_username, const_secret_name, app_access_role_name,
  schema_fqn, filestorage_stage, secret_fqn, compose_eai_names,
}
use mendix_for_snowflake.SpecBuilder.{PadConstant, Spec, build_spec}
use mendix_for_snowflake.World.{
  World, Environment, Exec, Exn, http, error, Reason, Call, raise, pure, require, attempt, call,
  gets, ◌>>=◌, ◌>>◌,
}
use mendix_for_snowflake.Statements
use mendix_for_snowflake.Tasks.{Task}
use mendix_for_snowflake.Routes.Config.{refuse, unbound_slots}
use mendix_for_snowflake.Routes.Deploy.{Stage, Prepared, prepare_deploy, resolve_staged_pad}
use mendix_for_snowflake.Routes.Service.{load_pg_password, teardown_app_objects}

-- `CreateAppRequest`, less the two secrets that it carries to Snowflake: the admin's password and the
-- license key, of which only whether it is given matters.
pub record CreateRequest : Type 0 where
  pub name : Text
  pub pg_database : Text
  pub resource_tier : ResourceTier
  pub use_caller_rights : Bool
  pub constants : Dict Text
  pub owner_role : Text
  pub license_id : Option Text
  pub has_license_key : Bool
  pub external_access : List Text

-- The status that is answered, with the task that was added.
pub data Registered : Type 0 where
  not_deployed : Registered
  deploying : Task → Registered

-- `APP_ADMIN_ROLE`
abbrev app_admin_role : Text
app_admin_role = text "app_admin"

-- The constants that have the reserved value.
unfoldable pub masked_constants : Dict Text → List Text
masked_constants cs = keys (filter (λ e. text_eq e.1 hidden_value) cs)

module _ (s : Settings) (req : CreateRequest) where
  -- The record that is stored.
  unfoldable pub new_record : AppRecord
  new_record = record {
    name = req.name;
    service_name = service_name req.name;
    app_schema = app_schema_name req.name;
    pg_database = req.pg_database;
    resource_tier = req.resource_tier;
    use_caller_rights = req.use_caller_rights;
    constants = req.constants;
    owner_role = req.owner_role;
    license_id = req.license_id;
    user_roles = [];
    role_mapping = [];
    status_detail = none;
    failed_operation = none;
    external_access = req.external_access;
    platform_image = some s.mendix_base_image;
    platform_update_available = false;
    pad_stage_path = none;
    endpoint_url = none;
    last_deploy_status = some DeployStatus.not_deployed;
    last_deployed_at = none;
  }

  new_constants : List PadConstant
  new_constants =
      map
        (λ e. record {
          name = e.0;
          env_var = [];
          default = e.1;
          secret_name = const_secret_name e.0;
        })
        req.constants

  unfoldable pub first_spec : Spec
  unfolding new_constants
  first_spec =
      build_spec s req.name (app_schema_name req.name) req.pg_database req.resource_tier
        new_constants req.use_caller_rights req.license_id [] none

module _ (env : Environment) (s : Settings) (req : CreateRequest) where
  unfoldable pub put_secret : Text → Exec (Unit {0})
  put_secret name =
      call env (Call.create_or_replace_secret (secret_fqn s (app_schema_name req.name) name))

  unfoldable pub put_constants : Dict Text → Exec (Unit {0})
  unfolding put_secret
  put_constants [] = pure tt
  put_constants ((name, value) ∷ cs) = put_secret (const_secret_name name) >> put_constants cs

  unfoldable pub put_license : Bool → Exec (Unit {0})
  unfolding put_secret
  put_license true = put_secret (text "MX_LICENSE_KEY")
  put_license false = pure tt

  -- `sf.create_service`, which also grants MONITOR on it
  unfoldable pub create_service : Exec (Unit {0})
  create_service = do
    call env (
        Call.create_service (service_name req.name) (first_spec s req)
          (compose_eai_names s req.external_access))
    call env (Call.grant_monitor (service_name req.name))

  unfoldable pub create_access : Exec (Unit {0})
  create_access = do
    call env (Call.create_app_access_role req.name)
    call env
        (Call.grant_endpoint_to_app_role (service_name req.name) (app_access_role_name req.name))
    call env (Call.grant_endpoint_to_app_role (service_name req.name) app_admin_role)

  -- The objects and the row, as far as nothing raises.
  unfoldable pub create_objects : Exec (Unit {0})
  unfolding put_secret create_service create_access
  create_objects = do
    call env (Call.create_schema (schema_fqn s (app_schema_name req.name)))
    call env (Call.create_stage (filestorage_stage s (app_schema_name req.name)))
    password ← load_pg_password env s
    require (truthy password) (http 409 Reason.no_pg_credentials)
    call env (Call.provision_pg req.pg_database (pg_username req.name))
    put_secret (text "PG_PASS")
    put_secret (text "ADMIN_PASS")
    put_license (truthy? req.license_id && req.has_license_key)
    put_constants req.constants
    create_service
    create_access
    Statements.create_app env (new_record s req)

  -- An exception that is no answer yet becomes a 502.
  abbrev answer_for : Exn → List Text → Exn
  answer_for (http status reason) failures = http status reason
  answer_for (error message) failures = http 502 (Reason.create_failed message failures)

  unfoldable pub roll_back : Exn → Exec (Unit {0})
  roll_back e = do
    failures ←
        teardown_app_objects env s req.name (service_name req.name) (app_schema_name req.name)
          (some req.pg_database)
    raise (answer_for e failures)

  -- A PAD that is already staged is deployed at once; a failure of that is swallowed.
  unfoldable pub deploy_staged : Stage → Option Text → Exec Registered
  deploy_staged stage none = pure not_deployed
  deploy_staged stage (some pad) =
      attempt
        (do
          p ← prepare_deploy env s stage req.name pad
          Statements.update_app env req.name (Field.last_deploy_status DeployStatus.deploying ∷ [])
          pure (
              deploying
                (Task.deploy req.name pad p.app p.pad_constants p.new_constants p.user_roles)))
        (λ e. pure not_deployed)

  unfoldable pub check_free : Option AppRecord → Exec (Unit {0})
  check_free none = pure tt
  check_free (some r) = raise (http 409 (Reason.already_exists req.name))

  -- `create_app`
  unfoldable pub create_app : Stage → List Text → Exec Registered
  create_app stage roles = do
    require (authorize s.privileged (some req.owner_role) roles)
        (http 403 (Reason.owner_role_not_held req.owner_role))
    found ← Statements.get_app env req.name
    check_free found
    refuse (masked_constants req.constants) Reason.new_masked_values
    refuse (unbound_slots s req.external_access) Reason.slots_not_bound
    attempt create_objects roll_back
    pad ← resolve_staged_pad stage req.name
    deploy_staged stage pad
