-- ===== src/Models.antt =====
-- Controller/app/models.py: the record of an app and the values that its columns take.
use mendix_for_snowflake.Prelude.{
  ℕ, Bool, true, false, Option, some, List, Text, Dict, text, truthy?,
}

-- `ResourceTier`
pub data ResourceTier : Type 0 where
  small medium large : ResourceTier

pub record TierResources : Type 0 where
  pub cpu_request : Text
  pub cpu_limit : Text
  pub mem_request : Text
  pub mem_limit : Text

-- `RESOURCE_TIERS`
abbrev pub resource_tiers : ResourceTier → TierResources
resource_tiers small = record {
  cpu_request = text "0.25";
  cpu_limit = text "0.5";
  mem_request = text "512M";
  mem_limit = text "1G";
}
resource_tiers medium = record {
  cpu_request = text "0.5";
  cpu_limit = text "1";
  mem_request = text "1G";
  mem_limit = text "2G";
}
resource_tiers large = record {
  cpu_request = text "1";
  cpu_limit = text "2";
  mem_request = text "2G";
  mem_limit = text "4G";
}

-- `HIDDEN_VALUE`, which stands for a constant's value wherever it leaves the controller.
abbrev pub hidden_value : Text
hidden_value = text "<HIDDEN>"

-- `last_deploy_status`: the texts that the controller writes there.
pub data DeployStatus : Type 0 where
  not_deployed deploying suspending resuming suspended ready failed : DeployStatus

-- `op`, the operation that a background task is run for.
pub data Operation : Type 0 where
  deploy constants spec platform_update license role_mapping external_access : Operation
  rollback suspend resume : Operation

-- `status_detail`: the messages that the lifecycle tasks compose.
pub data StatusDetail : Type 0 where
  timed_out : Text → ℕ → StatusDetail
  containers_not_ready : ℕ → Text → StatusDetail
  raised : Text → StatusDetail

-- `AppRecord`, less `created_at`, which only orders the rows.
pub record AppRecord : Type 0 where
  pub name : Text
  pub service_name : Text
  pub app_schema : Text
  pub pg_database : Text
  pub resource_tier : ResourceTier
  pub use_caller_rights : Bool
  pub constants : Dict Text
  pub owner_role : Text
  pub license_id : Option Text
  pub user_roles : List Text
  pub role_mapping : Dict Text
  pub status_detail : Option StatusDetail
  pub failed_operation : Option Operation
  pub external_access : List Text
  pub platform_image : Option Text
  pub platform_update_available : Bool
  pub pad_stage_path : Option Text
  pub endpoint_url : Option Text
  pub last_deploy_status : Option DeployStatus
  pub last_deployed_at : Option ℕ

-- `AppRecord.licensed`
pub licensed : AppRecord → Bool
licensed r = truthy? r.license_id

-- `_TRANSIENT_STATUSES` of main.py
abbrev pub is_transient : Option DeployStatus → Bool
is_transient (some deploying) = true
is_transient (some suspending) = true
is_transient (some resuming) = true
is_transient _ = false
