-- ===== src/Tasks/Frame.antt =====
-- What a background task writes to the registry.
use mendix_for_snowflake.Prelude.{
  ◌≡◌, refl, ◌∙◌, Bool, true, false, List, [], ◌∷◌, Text, Dict, All, same_name,
}
use mendix_for_snowflake.Models.{AppRecord}
use mendix_for_snowflake.Registry
use mendix_for_snowflake.Registry.{Rows, Field}
use mendix_for_snowflake.Registry.Masking.{IsMasked, update_rows-IsMasked}
use mendix_for_snowflake.Registry.Lookup.{get_app-update_rows}
use mendix_for_snowflake.Names.{Settings}
use mendix_for_snowflake.SpecBuilder.{PadConstant}
use mendix_for_snowflake.World.{World, Environment, Exec, called, ◌>>=◌}
use mendix_for_snowflake.Statements.{update_app}
use mendix_for_snowflake.Lifecycle.Rules.{Keeps-pure, Keeps-bind, Keeps-if}
use mendix_for_snowflake.Lifecycle.Frame.{
  KeptByUpdates, KeepsRows, call-KeepsRows, update_app-KeepsRows, run_lifecycle_task-KeepsRows,
}
use mendix_for_snowflake.Tasks.{
  Task, task_name, run_task, write_constants, run_deploy, run_rollback, run_update_constants,
  run_update_spec, run_update_external_access, run_update_license, run_delete_license,
  run_update_role_mapping, run_delete_role_mapping, run_suspend, run_resume,
}
use mendix_for_snowflake.Respec.{
  stamp_deploy_success, get_service_endpoint, now_of, apply_spec, sync_constant_secrets,
}

module _ (P : Rows → Type 0) (env : Environment) (s : Settings) where
  stamp-KeepsRows :
      (name service : Text) (extra : List Field)
      → KeptByUpdates P name
      → KeepsRows P env (stamp_deploy_success env s name service extra)
  unfolding stamp_deploy_success get_service_endpoint now_of called
  stamp-KeepsRows name service extra k =
      Keeps-bind _ _ (record { at = λ w h. h })
        (λ url.
          Keeps-bind _ _ (record { at = λ w h. h }) (λ now. update_app-KeepsRows P env name _ k))

  sync-KeepsRows :
      (app_schema : Text) (cs : List PadConstant) (vals : Dict Text)
      → KeepsRows P env (sync_constant_secrets env s app_schema cs vals)
  unfolding sync_constant_secrets
  sync-KeepsRows app_schema [] vals = Keeps-pure tt
  sync-KeepsRows app_schema (c ∷ cs) vals =
      let ih = sync-KeepsRows app_schema cs vals in
      Keeps-if _ _ _ ih (Keeps-bind _ _ (call-KeepsRows P env _) (λ _. ih))

  write_constants-KeepsRows :
      (b : Bool) (name : Text) (r : AppRecord) (cs : List PadConstant) (new : Dict Text)
      → KeptByUpdates P name
      → KeepsRows P env (write_constants env s b name r cs new)
  unfolding write_constants
  write_constants-KeepsRows false name r cs new k = Keeps-pure tt
  write_constants-KeepsRows true name r cs new k =
      Keeps-bind _ _ (sync-KeepsRows r.app_schema cs new) (λ _. update_app-KeepsRows P env name _ k)

  -- A task that persists one column and then runs its action, stamping the success.
  persisted-KeepsRows :
      (name : Text) (fs : List Field) (task : Exec (Unit {0}))
      → KeptByUpdates P name
      → KeepsRows P env task
      → KeepsRows P env (update_app env name fs >>= λ _. task)
  persisted-KeepsRows name fs task k kt =
      Keeps-bind _ _ (update_app-KeepsRows P env name fs k) (λ _. kt)

  pub run_task-KeepsRows :
      (t : Task) → KeptByUpdates P (task_name t) → KeepsRows P env (run_task env s t)
  unfolding run_task run_deploy run_rollback run_update_constants run_update_spec
      run_update_external_access run_update_license run_delete_license run_update_role_mapping
      run_delete_role_mapping run_suspend run_resume apply_spec
  run_task-KeepsRows (Task.deploy name pad r cs new roles) k =
      run_lifecycle_task-KeepsRows P env name r.service_name _ _ _ _ k _ _
        (Keeps-bind _ _ (write_constants-KeepsRows _ name r cs new k) (λ _. call-KeepsRows P env _))
        (stamp-KeepsRows name r.service_name _ k)
  run_task-KeepsRows (Task.rollback name r t) k =
      run_lifecycle_task-KeepsRows P env name r.service_name _ _ _ _ k _ _
        (Keeps-bind _ _ (call-KeepsRows P env _) (λ _. call-KeepsRows P env _))
        (stamp-KeepsRows name r.service_name _ k)
  run_task-KeepsRows (Task.update_constants name merged r) k = persisted-KeepsRows name _ _ k (
      run_lifecycle_task-KeepsRows P env name r.service_name _ _ _ _ k _ _ (call-KeepsRows P env _)
        (stamp-KeepsRows name r.service_name _ k))
  run_task-KeepsRows (Task.update_spec name r tier caller op) k =
      run_lifecycle_task-KeepsRows P env name r.service_name _ _ _ _ k _ _ (call-KeepsRows P env _)
        (update_app-KeepsRows P env name _ k)
  run_task-KeepsRows (Task.update_external_access name r slots) k = persisted-KeepsRows name _ _ k (
      run_lifecycle_task-KeepsRows P env name r.service_name _ _ _ _ k _ _ (call-KeepsRows P env _)
        (stamp-KeepsRows name r.service_name _ k))
  run_task-KeepsRows (Task.update_license name r id) k = persisted-KeepsRows name _ _ k (
      run_lifecycle_task-KeepsRows P env name r.service_name _ _ _ _ k _ _ (call-KeepsRows P env _)
        (stamp-KeepsRows name r.service_name _ k))
  run_task-KeepsRows (Task.delete_license name r) k = persisted-KeepsRows name _ _ k (
      run_lifecycle_task-KeepsRows P env name r.service_name _ _ _ _ k _ _ (call-KeepsRows P env _)
        (Keeps-bind _ _ (stamp-KeepsRows name r.service_name _ k) (λ _. call-KeepsRows P env _)))
  run_task-KeepsRows (Task.update_role_mapping name r m) k = persisted-KeepsRows name _ _ k (
      run_lifecycle_task-KeepsRows P env name r.service_name _ _ _ _ k _ _ (call-KeepsRows P env _)
        (stamp-KeepsRows name r.service_name _ k))
  run_task-KeepsRows (Task.delete_role_mapping name r) k = persisted-KeepsRows name _ _ k (
      run_lifecycle_task-KeepsRows P env name r.service_name _ _ _ _ k _ _ (call-KeepsRows P env _)
        (stamp-KeepsRows name r.service_name _ k))
  run_task-KeepsRows (Task.suspend name service) k =
      run_lifecycle_task-KeepsRows P env name service _ _ _ _ k _ _ (call-KeepsRows P env _)
        (update_app-KeepsRows P env name _ k)
  run_task-KeepsRows (Task.resume name service) k =
      run_lifecycle_task-KeepsRows P env name service _ _ _ _ k _ _ (call-KeepsRows P env _)
        (update_app-KeepsRows P env name _ k)

-- A background task leaves the row of every other app as it was, whatever raises.
pub run_task_frame :
    (env : Environment) (s : Settings) (t : Task) (other : Text) (w : World)
    → same_name (task_name t) other ≡ false
    → Registry.get_app other (run_task env s t w).1.registry ≡ Registry.get_app other w.registry
run_task_frame env s t other w ne =
    (run_task-KeepsRows (λ rows. Registry.get_app other rows ≡ Registry.get_app other w.registry)
        env s t (λ fs rows h. get_app-update_rows (task_name t) other fs rows ∙ rw ne h)).at
      w refl

-- Where the constants column holds no value of a constant in any row, no background task puts one into
-- it, whatever raises. The texts of errors, which other columns hold, are not part of this.
pub run_task-IsMasked :
    (env : Environment) (s : Settings) (t : Task) (w : World)
    → All IsMasked w.registry
    → All IsMasked (run_task env s t w).1.registry
run_task-IsMasked env s t w h =
    (run_task-KeepsRows (All IsMasked) env s t (update_rows-IsMasked (task_name t))).at w h
