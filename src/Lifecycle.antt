-- ===== src/Lifecycle.antt =====
-- `_run_lifecycle_task` of Controller/app/main.py, the skeleton of every background task: act on the
-- service, wait for it, and write down how that ended.
pub mod Rules
pub mod Settle
pub mod Frame
use mendix_for_snowflake.Prelude.{
  ℕ, Bool, true, false, Option, none, some, List, [], ◌∷◌, ◌++◌, Text, text, length, take, leb,
  get_or, if◌then◌else◌,
}
use mendix_for_snowflake.Models.{AppRecord, DeployStatus, Operation, StatusDetail}
use mendix_for_snowflake.Registry.{Field}
use mendix_for_snowflake.History.{Outcome}
use mendix_for_snowflake.World.{
  World, Environment, Exec, Exn, http, error, Phase, ok, raised, pure, attempt, finally, modify,
  ◌>>=◌, ◌>>◌,
}
use mendix_for_snowflake.Statements.{set_progress, clear_progress, update_app, record_entry}
use mendix_for_snowflake.Poll.{poll_ready}

-- `_truncate`, at its default limit
abbrev pub truncate_limit : ℕ
truncate_limit = 500

pub truncate : Text → Text
truncate t =
    if leb (length t) truncate_limit then t else take truncate_limit t ++ text "...(truncated)"

module _ (env : Environment) where
  -- `str(exc)`
  abbrev exn_text : Exn → Text
  exn_text (http status reason) = env.describe status reason
  exn_text (error message) = message

  -- `_record_history`: best effort, and nothing for an operation that passes no record.
  pub record_history :
      Text → Operation → Option AppRecord → Outcome → Option StatusDetail → Exec (Unit {0})
  record_history name op none status detail = pure tt
  record_history name op (some r) status detail =
      attempt (record_entry env name op r status detail) (λ _. pure tt)

  abbrev pub failure_fields : Operation → StatusDetail → List Field
  failure_fields op detail =
      Field.last_deploy_status DeployStatus.failed
      ∷ Field.status_detail (some detail)
      ∷ Field.failed_operation (some op)
      ∷ []

  -- A wait out of fuel would count as one that has timed out.
  abbrev verdict_of : Option (Bool × Option StatusDetail) × World → Bool × Option StatusDetail
  verdict_of (none, w) = (false, none)
  verdict_of (some v, w) = v

  module _ (name service : Text) (op : Operation) (target : Text) (timeout_secs : ℕ)
      (record_of : Option AppRecord) where
    wait_ready : Exec (Bool × Option StatusDetail)
    wait_ready w =
        let p =
          poll_ready env service target timeout_secs
            (λ elapsed. set_progress name (Phase.waiting_for target elapsed))
            (λ elapsed. set_progress name (Phase.waiting_for_containers elapsed)) w in
        (ok (verdict_of p), p.1)

    after_wait : Exec (Unit {0}) → Bool × Option StatusDetail → Exec (Unit {0})
    after_wait on_success (true, ready_detail) = do
      on_success
      record_history name op record_of Outcome.ready none
    after_wait on_success (false, ready_detail) = do
      let detail = get_or ready_detail (StatusDetail.timed_out target timeout_secs)
      update_app env name (failure_fields op detail)
      record_history name op record_of Outcome.failed (some detail)

    task_body : Exec (Unit {0}) → Exec (Unit {0}) → Exec (Unit {0})
    task_body action on_success = do
      modify (set_progress name Phase.applying_changes)
      action
      verdict ← wait_ready
      after_wait on_success verdict

    task_failed : Exn → Exec (Unit {0})
    task_failed e = do
      let detail = StatusDetail.raised (truncate (exn_text e))
      attempt (update_app env name (failure_fields op detail)) (λ _. pure tt)
      record_history name op record_of Outcome.failed (some detail)

    -- `_run_lifecycle_task`
    pub run_lifecycle_task : Exec (Unit {0}) → Exec (Unit {0}) → Exec (Unit {0})
    unfolding task_body task_failed
    run_lifecycle_task action on_success =
        finally (attempt (task_body action on_success) task_failed) (clear_progress name)
