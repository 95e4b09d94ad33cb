-- ===== src/Routes.antt =====
-- The guards that the routes of Controller/app/main.py share, and what a mutating route answers.
pub mod Config
pub mod Create
pub mod Deploy
pub mod Downloads
pub mod Effects
pub mod Read
pub mod Reads
pub mod Service
use mendix_for_snowflake.Prelude.{
  Bool, true, false, not, ◌&&◌, Option, none, some, List, [], ◌∷◌, Text, is_some, if◌then◌else◌,
}
use mendix_for_snowflake.Models.{AppRecord, DeployStatus, is_transient}
use mendix_for_snowflake.Registry.{Field}
use mendix_for_snowflake.Auth.{authorize}
use mendix_for_snowflake.Names.{Settings}
use mendix_for_snowflake.World.{Environment, Exec, http, Reason, raise, pure, require, ◌>>=◌, ◌>>◌}
use mendix_for_snowflake.Statements.{get_app, update_app}
use mendix_for_snowflake.Tasks.{Task}

pub data Warning : Type 0 where
  mapping_unvalidated mapping_inert : Warning

-- `{"status": ..}`, with the background task that was added, if any.
pub data Answer : Type 0 where
  unchanged : Answer
  accepted : DeployStatus → Task → List Warning → Answer

-- The status that a record must not have, where it is transient.
abbrev pub blocking : Bool → Option DeployStatus → Option DeployStatus
blocking false status = none
blocking true none = none
blocking true (some status) = if is_transient (some status) then some status else none

module _ (env : Environment) (s : Settings) where
  unfoldable pub gate : Text → AppRecord → Option DeployStatus → Exec AppRecord
  gate name r none = pure r
  gate name r (some status) = raise (http 409 (Reason.in_progress name status))

  -- The checks of `_record_for_mutation` on the row that was found.
  unfoldable pub checked : Text → List Text → Bool → Option AppRecord → Exec AppRecord
  unfolding gate
  checked name roles block_transient none = raise (http 404 (Reason.app_not_found name))
  checked name roles block_transient (some r) =
      if authorize s.privileged (some r.owner_role) roles
      then gate name r (blocking block_transient r.last_deploy_status)
      else raise (http 403 (Reason.not_authorized name))

  -- `_record_for_mutation`
  unfoldable pub record_for_mutation : Text → List Text → Bool → Exec AppRecord
  record_for_mutation name roles block_transient = do
    found ← get_app env name
    checked name roles block_transient found

  unfoldable pub visible : Text → List Text → Option AppRecord → Exec AppRecord
  visible name roles none = raise (http 404 (Reason.app_not_found name))
  visible name roles (some r) =
      if authorize s.privileged (some r.owner_role) roles
      then pure r
      else raise (http 404 (Reason.app_not_found name))

  -- `_record_for_read`: an app that the caller may not see is answered like a missing one.
  unfoldable pub record_for_read : Text → List Text → Exec AppRecord
  unfolding visible
  record_for_read name roles = do found ← get_app env name; visible name roles found

  -- `_require_pad_deployed`
  unfoldable pub require_pad_deployed : Text → AppRecord → Exec (Unit {0})
  require_pad_deployed name r =
      require (is_some r.pad_stage_path) (http 409 (Reason.no_pad_deployed name))

  -- How every mutating route ends: stamp the transient status and add the task.
  unfoldable pub start : Text → DeployStatus → Task → List Warning → Exec Answer
  start name status task warnings = do
    update_app env name (Field.last_deploy_status status ∷ [])
    pure (accepted status task warnings)
