-- ===== src/Registry.antt =====
-- Controller/app/registry.py: the table of apps. A row is the record that `_row_to_record` reads
-- out of it, and the statements act on the list of rows, in the order of their creation.
pub mod Masking
pub mod Lookup
pub mod Columns
pub mod Matching
pub mod Refinement
use mendix_for_snowflake.Prelude.{
  ℕ, Bool, true, false, Option, none, some, List, [], ◌∷◌, ◌++◌, map, Text, Dict, same_name, filter,
  not, if◌then◌else◌, get_or,
}
use mendix_for_snowflake.Models.{
  ResourceTier, AppRecord, DeployStatus, Operation, StatusDetail, hidden_value,
}

abbrev pub Rows : Type 0
Rows = List AppRecord

-- The columns of `_ALLOWED_UPDATE_COLUMNS` with their values, and any other column.
pub data Field : Type 0 where
  constants : Dict Text → Field
  pad_stage_path endpoint_url license_id platform_image : Option Text → Field
  last_deploy_status : DeployStatus → Field
  last_deployed_at : ℕ → Field
  resource_tier : ResourceTier → Field
  use_caller_rights platform_update_available : Bool → Field
  owner_role : Text → Field
  user_roles external_access : List Text → Field
  role_mapping : Option (Dict Text) → Field
  status_detail : Option StatusDetail → Field
  failed_operation : Option Operation → Field
  other_column : Text → Field

-- `_mask_constants`: keep the keys, drop the values.
unfoldable pub mask_constants : Dict Text → Dict Text
mask_constants cs = map (λ e. (e.0, hidden_value)) cs

-- One `SET` clause. A cleared `role_mapping` is read back as an empty one.
unfoldable pub set_field : Field → AppRecord → AppRecord
set_field (Field.constants v) r = record r { constants = mask_constants v }
set_field (Field.pad_stage_path v) r = record r { pad_stage_path = v }
set_field (Field.endpoint_url v) r = record r { endpoint_url = v }
set_field (Field.license_id v) r = record r { license_id = v }
set_field (Field.platform_image v) r = record r { platform_image = v }
set_field (Field.last_deploy_status v) r = record r { last_deploy_status = some v }
set_field (Field.last_deployed_at v) r = record r { last_deployed_at = some v }
set_field (Field.resource_tier v) r = record r { resource_tier = v }
set_field (Field.use_caller_rights v) r = record r { use_caller_rights = v }
set_field (Field.platform_update_available v) r = record r { platform_update_available = v }
set_field (Field.owner_role v) r = record r { owner_role = v }
set_field (Field.user_roles v) r = record r { user_roles = v }
set_field (Field.external_access v) r = record r { external_access = v }
set_field (Field.role_mapping v) r = record r { role_mapping = get_or v [] }
set_field (Field.status_detail v) r = record r { status_detail = v }
set_field (Field.failed_operation v) r = record r { failed_operation = v }
set_field (Field.other_column _) r = r

unfoldable pub set_fields : List Field → AppRecord → AppRecord
set_fields [] r = r
set_fields (f ∷ fs) r = set_fields fs (set_field f r)

abbrev pub is_allowed : Field → Bool
is_allowed (Field.other_column _) = false
is_allowed _ = true

-- `set(fields.keys()) - _ALLOWED_UPDATE_COLUMNS` is empty.
unfoldable pub all_allowed : List Field → Bool
all_allowed [] = true
all_allowed (f ∷ fs) = if is_allowed f then all_allowed fs else false

-- The `UPDATE` statement.
unfoldable pub update_rows : Text → List Field → Rows → Rows
update_rows name fs [] = []
update_rows name fs (r ∷ rs) =
    (if same_name r.name name then set_fields fs r else r) ∷ update_rows name fs rs

-- `update_app`: `none` where it raises, for a column that may not be updated.
unfoldable pub update_app : Text → List Field → Rows → Option Rows
update_app name [] rows = some rows
update_app name fs rows = if all_allowed fs then some (update_rows name fs rows) else none

-- `create_app`: the columns that the statement leaves out are read back as their defaults.
unfoldable pub create_app : AppRecord → Rows → Rows
create_app r rows =
    rows
    ++ record r {
      constants = mask_constants r.constants;
      user_roles = [];
      role_mapping = [];
      status_detail = none;
      failed_operation = none;
      platform_update_available = false;
      last_deployed_at = none;
    }
      ∷ []

-- `get_app`: the first of the matching rows. The source's `SELECT` has no order; a registration takes
-- a free name only.
unfoldable pub get_app : Text → Rows → Option AppRecord
get_app name [] = none
get_app name (r ∷ rs) = if same_name r.name name then some r else get_app name rs

-- `delete_app`
unfoldable pub delete_app : Text → Rows → Rows
delete_app name rows = filter (λ r. not (same_name r.name name)) rows
