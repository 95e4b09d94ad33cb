-- ===== src/SpecBuilder.antt =====
-- Controller/app/spec_builder.py: the service specification of an app's container, before it is
-- printed as YAML.
pub mod Values
use mendix_for_snowflake.Prelude.{
  ℕ, Bool, Option, none, some, List, [], ◌∷◌, ◌++◌, map, Text, Dict, text, lower, or_text, truthy?,
  if◌then◌else◌,
}
use mendix_for_snowflake.Models.{ResourceTier, TierResources, resource_tiers}
use mendix_for_snowflake.Names.{Settings, secret_fqn, filestorage_stage, pg_username}

-- `PadConstant` of pad_parser.py
pub record PadConstant : Type 0 where
  pub name : Text
  pub env_var : Text
  pub default : Text
  pub secret_name : Text

pub record SecretEntry : Type 0 where
  pub snowflake_secret : Text
  pub directory_path : Text

pub record Volume : Type 0 where
  pub volume_name : Text
  pub stage : Text
  pub mount_path : Text
  pub owner_id : Option ℕ

pub record Spec : Type 0 where
  pub image : Text
  pub env : Dict Text
  pub secrets : List SecretEntry
  pub port : ℕ
  pub resources : TierResources
  pub volumes : List Volume
  pub execute_as_caller : Bool

module _ (s : Settings) where
  unfoldable pub mount : Text → Text → Text → SecretEntry
  mount app_schema name path = record {
    snowflake_secret = secret_fqn s app_schema name;
    directory_path = text "/secrets/" ++ path;
  }

  unfoldable pub constant_entries : Text → List PadConstant → List SecretEntry
  unfolding mount
  constant_entries app_schema cs =
      map (λ c. mount app_schema c.secret_name (lower c.secret_name)) cs

  license_entries : Text → Option Text → List SecretEntry
  license_entries app_schema license_id =
      if truthy? license_id
      then mount app_schema (text "MX_LICENSE_KEY") (text "mx_license_key") ∷ []
      else []

  unfoldable pub secret_entries : Text → List PadConstant → Option Text → List SecretEntry
  unfolding mount constant_entries license_entries
  secret_entries app_schema constants license_id =
      mount app_schema (text "PG_PASS") (text "pg_pass")
      ∷ mount app_schema (text "ADMIN_PASS") (text "admin_pass")
      ∷ (constant_entries app_schema constants ++ license_entries app_schema license_id)

  pad_path : Text → Option Text → Text
  pad_path app_name pad_relative_path =
      s.deploy_stage_mount
      ++ (text "/" ++ or_text pad_relative_path (text "apps/" ++ (app_name ++ text "/current.zip")))

  abbrev base_env : Text → Text → Option Text → Dict Text
  base_env app_name pg_database pad_relative_path =
      (text "PAD_STAGE_PATH", pad_path app_name pad_relative_path)
      ∷ (text "RUNTIME_PARAMS_DATABASETYPE", text "POSTGRESQL")
      ∷ (text "RUNTIME_PARAMS_DATABASEHOST", s.pg_host)
      ∷ (text "RUNTIME_PARAMS_DATABASENAME", pg_database)
      ∷ (text "RUNTIME_PARAMS_DATABASEUSERNAME", pg_username app_name)
      ∷ (text "RUNTIME_PARAMS_DATABASEUSESSL", text "true")
      ∷ (
        text "RUNTIME_PARAMS_COM_MENDIX_CORE_STORAGESERVICE",
        text "com.mendix.storage.localfilesystem",
      )
      ∷ (text "RUNTIME_PARAMS_UPLOADEDFILESPATH", text "/mnt/filestorage")
      ∷ []

  license_env : Option Text → Dict Text
  license_env license_id =
      if truthy? license_id
      then (text "RUNTIME_LICENSE_ID", or_text license_id (text "")) ∷ []
      else []

  mapping_env : Dict Text → Dict Text
  mapping_env [] = []
  mapping_env (e ∷ mapping) = (text "MX_ROLE_MAPPING", s.dump_mapping (e ∷ mapping)) ∷ []

  volumes_of : Text → List Volume
  volumes_of app_schema =
      record {
        volume_name = text "filestorage";
        stage = text "@" ++ filestorage_stage s app_schema;
        mount_path = text "/mnt/filestorage";
        owner_id = some 999;
      }
      ∷ record {
        volume_name = text "deploy-stage";
        stage = s.deploy_stage;
        mount_path = s.deploy_stage_mount;
        owner_id = none;
      }
      ∷ []

  -- `_build_spec`
  unfoldable pub build_spec :
      Text
      → Text
      → Text
      → ResourceTier
      → List PadConstant
      → Bool
      → Option Text
      → Dict Text
      → Option Text
      → Spec
  unfolding secret_entries pad_path license_env mapping_env volumes_of
  build_spec app_name app_schema pg_database tier constants use_caller_rights license_id mapping
        pad_relative_path =
      record {
        image = s.mendix_base_image;
        env =
            base_env app_name pg_database pad_relative_path
            ++ (license_env license_id ++ mapping_env mapping);
        secrets = secret_entries app_schema constants license_id;
        port = 8080;
        resources = resource_tiers tier;
        volumes = volumes_of app_schema;
        execute_as_caller = use_caller_rights;
      }
