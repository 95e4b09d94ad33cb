-- ===== src/History.antt =====
-- Controller/app/deploy_history.py: what was applied to an app's service, one row an attempt. The
-- table is a list with the newest row first: a row's `id` comes from a sequence and its timestamp
-- from the clock at its insertion, so `ORDER BY ts DESC, id DESC` is the order of the list.
pub mod Window
pub mod Targets
use mendix_for_snowflake.Prelude.{
  ℕ, zero, suc, ◌+◌, ◌==◌, Bool, true, false, Option, none, some, List, [], ◌∷◌, Text, Dict, keys,
  same_name, filter, not, take, sorted, if◌then◌else◌,
}
use mendix_for_snowflake.Models.{AppRecord, ResourceTier, Operation, StatusDetail, DeployStatus}

-- `_KEEP_PER_APP`
abbrev pub keep_per_app : ℕ
keep_per_app = 20

-- `status`: a row is written for a success or a failure.
pub data Outcome : Type 0 where
  ready failed : Outcome

pub record Entry : Type 0 where
  pub id : ℕ
  pub app_name : Text
  pub operation : Operation
  pub pad_stage_path : Option Text
  pub resource_tier : ResourceTier
  pub use_caller_rights : Bool
  pub constant_names : List Text
  pub license_id : Option Text
  pub role_mapping : Dict Text
  pub external_access : List Text
  pub status : Outcome
  pub detail : Option StatusDetail

pub record History : Type 0 where
  pub rows : List Entry
  pub next_id : ℕ

-- The rows of an app, newest first: the `WHERE` and `ORDER BY` of every query.
unfoldable pub rows_for : Text → List Entry → List Entry
rows_for name rows = filter (λ e. same_name e.app_name name) rows

-- The `DELETE` of `_prune` with its `LIMIT`.
unfoldable pub prune_rows : Text → ℕ → List Entry → List Entry
prune_rows name k [] = []
prune_rows name zero (e ∷ es) =
    let rest = prune_rows name zero es in if same_name e.app_name name then rest else e ∷ rest
prune_rows name (suc k) (e ∷ es) =
    e ∷ prune_rows name (if same_name e.app_name name then k else suc k) es

unfoldable pub prune : Text → List Entry → List Entry
prune name rows = prune_rows name keep_per_app rows

-- The row that `record` inserts: the snapshot of an app's record. Of the constants it keeps the
-- names.
unfoldable pub snapshot : ℕ → Text → Operation → AppRecord → Outcome → Option StatusDetail → Entry
snapshot id name op r status detail = record {
  id = id;
  app_name = name;
  operation = op;
  pad_stage_path = r.pad_stage_path;
  resource_tier = r.resource_tier;
  use_caller_rights = r.use_caller_rights;
  constant_names = sorted (keys r.constants);
  license_id = r.license_id;
  role_mapping = r.role_mapping;
  external_access = r.external_access;
  status = status;
  detail = detail;
}

-- The `INSERT` of `record`; `_prune` follows it.
unfoldable pub insert_row :
    Text → Operation → AppRecord → Outcome → Option StatusDetail → History → History
insert_row name op r status detail h = record {
  rows = snapshot h.next_id name op r status detail ∷ h.rows;
  next_id = h.next_id + 1;
}

unfoldable pub record_entry :
    Text → Operation → AppRecord → Outcome → Option StatusDetail → History → History
unfolding insert_row
record_entry name op r status detail h =
    let h' = insert_row name op r status detail h in record h' { rows = prune name h'.rows }

unfoldable pub list_for_app : Text → ℕ → History → List Entry
list_for_app name limit h = take limit (rows_for name h.rows)

abbrev pub is_ready : Outcome → Bool
is_ready ready = true
is_ready failed = false

abbrev pub first : List Entry → Option Entry
first [] = none
first (e ∷ es) = some e

unfoldable pub last_success : Text → History → Option Entry
last_success name h = first (filter (λ e. is_ready e.status) (rows_for name h.rows))

unfoldable pub get_entry : Text → ℕ → History → Option Entry
get_entry name id h = first (filter (λ e. e.id == id) (rows_for name h.rows))

unfoldable pub delete_for_app : Text → History → History
delete_for_app name h = record h { rows = filter (λ e. not (same_name e.app_name name)) h.rows }
