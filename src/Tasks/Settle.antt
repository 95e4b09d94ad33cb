-- ===== src/Tasks/Settle.antt =====
-- The status in which a background task leaves its app.
use mendix_for_snowflake.Prelude.{
  ℕ, ◌≡◌, refl, sym, subst, true, Option, none, some, List, [], ◌∷◌, ◌++◌, Text,
}
use mendix_for_snowflake.Models.{AppRecord}
use mendix_for_snowflake.Registry
use mendix_for_snowflake.Registry.{Field, set_field, set_fields}
use mendix_for_snowflake.Names.{Settings}
use mendix_for_snowflake.World.{
  World, Environment, Exec, Result, ok, call, called, ◌>>=◌, outcome_of, resume_with, modify,
}
use mendix_for_snowflake.Statements.{update_app, update_if}
use mendix_for_snowflake.Lifecycle.Rules.{
  Ensures, Keeps-call, Ensures-bind, Ensures-then, bind-of_ok,
}
use mendix_for_snowflake.Lifecycle.Settle.{
  Settled, Settles, UpdatesSucceed, update_app-Ensures, task_settles,
}
use mendix_for_snowflake.Tasks.{
  Task, task_name, run_task, run_deploy, run_rollback, run_update_constants, run_update_spec,
  run_update_external_access, run_update_license, run_delete_license, run_update_role_mapping,
  run_delete_role_mapping, run_suspend, run_resume,
}
use mendix_for_snowflake.Respec.{success_fields, stamp_deploy_success}

-- The columns that a success stamps beside the fixed ones leave the status alone.
abbrev Extra : Field → Type 0
Extra f = (r : AppRecord) → (set_field f r).last_deploy_status ≡ r.last_deploy_status

module _ (env : Environment) (s : Settings) where
  module _ (name service : Text) where
    stamp-Ensures :
        (extra : List Field)
        → ((url : Option Text) (now : ℕ) → Settles env (success_fields env s url now ++ extra))
        → Ensures (Settled env name) (stamp_deploy_success env s name service extra)
    unfolding stamp_deploy_success
    stamp-Ensures extra h =
        Ensures-bind _ _
          (λ url. Ensures-bind _ _ (λ now. update_app-Ensures env name _ _ (h url now)))

    stamp_only-Ensures : Ensures (Settled env name) (stamp_deploy_success env s name service [])
    unfolding set_fields set_field
    stamp_only-Ensures = stamp-Ensures [] (λ url now r. refl)

  -- One allowed column, where Snowflake takes the update.
  abbrev Allowed : Field → Type 0
  Allowed f = Registry.all_allowed (f ∷ []) ≡ true

  update_one_returns :
      (name : Text) (f : Field) (w : World)
      → Allowed f
      → UpdatesSucceed env name
      → (update_app env name (f ∷ []) w).0 ≡ ok tt
  unfolding update_app update_if ◌>>=◌ call modify
  update_one_returns name f w a u = rw (a, update_if) (rw (u w (f ∷ []), outcome_of, resume_with))

  -- A task that persists one column up front.
  persisted_settles :
      (name : Text) (f : Field) (task : Exec (Unit {0})) (w : World)
      → Allowed f
      → UpdatesSucceed env name
      → ((v : World) → Settled env name (task v).1)
      → Settled env name ((update_app env name (f ∷ []) >>= λ _. task) w).1
  persisted_settles name f task w a u h =
      subst (λ (p : Result (Unit {0}) × World). Settled env name p.1)
        (sym (
          bind-of_ok (update_app env name (f ∷ [])) w (λ _. task)
            (update_one_returns name f w a u)))
        (h (update_app env name (f ∷ []) w).1)

  -- Where Snowflake takes the updates of an app's row, every background task of the app leaves it in
  -- a status that is not transient, whatever else raises and however long the service takes.
  pub run_task_settles :
      (t : Task) (w : World)
      → UpdatesSucceed env (task_name t)
      → Settled env (task_name t) (run_task env s t w).1
  unfolding run_task run_deploy run_rollback run_update_constants run_update_spec
      run_update_external_access run_update_license run_delete_license run_update_role_mapping
      run_delete_role_mapping run_suspend run_resume set_fields set_field Registry.all_allowed
      called
  run_task_settles (Task.deploy name pad r cs new roles) w u =
      task_settles env name r.service_name _ _ _ _ _ _ w u
        (stamp-Ensures name r.service_name _ (λ url now q. refl))
  run_task_settles (Task.rollback name r t) w u =
      task_settles env name r.service_name _ _ _ _ _ _ w u
        (stamp-Ensures name r.service_name _ (λ url now q. refl))
  run_task_settles (Task.update_constants name merged r) w u =
      persisted_settles name (Field.constants merged) _ w refl u (λ v.
        task_settles env name r.service_name _ _ _ _ _ _ v u
          (stamp_only-Ensures name r.service_name))
  run_task_settles (Task.update_spec name r tier caller op) w u =
      task_settles env name r.service_name _ _ _ _ _ _ w u
        (update_app-Ensures env name _ _ (λ q. refl))
  run_task_settles (Task.update_external_access name r slots) w u =
      persisted_settles name (Field.external_access slots) _ w refl u (λ v.
        task_settles env name r.service_name _ _ _ _ _ _ v u
          (stamp_only-Ensures name r.service_name))
  run_task_settles (Task.update_license name r id) w u =
      persisted_settles name (Field.license_id (some id)) _ w refl u (λ v.
        task_settles env name r.service_name _ _ _ _ _ _ v u
          (stamp_only-Ensures name r.service_name))
  run_task_settles (Task.delete_license name r) w u =
      persisted_settles name (Field.license_id none) _ w refl u (λ v.
        task_settles env name r.service_name _ _ _ _ _ _ v u (
          Ensures-then _ _ (stamp_only-Ensures name r.service_name)
            (λ _. Keeps-call env _ (λ x h. h))))
  run_task_settles (Task.update_role_mapping name r m) w u =
      persisted_settles name (Field.role_mapping (some m)) _ w refl u (λ v.
        task_settles env name r.service_name _ _ _ _ _ _ v u
          (stamp_only-Ensures name r.service_name))
  run_task_settles (Task.delete_role_mapping name r) w u =
      persisted_settles name (Field.role_mapping none) _ w refl u (λ v.
        task_settles env name r.service_name _ _ _ _ _ _ v u
          (stamp_only-Ensures name r.service_name))
  run_task_settles (Task.suspend name service) w u =
      task_settles env name service _ _ _ _ _ _ w u (update_app-Ensures env name _ _ (λ q. refl))
  run_task_settles (Task.resume name service) w u =
      task_settles env name service _ _ _ _ _ _ w u (update_app-Ensures env name _ _ (λ q. refl))
