-- ===== src/Tasks/Stuck.antt =====
-- The tasks that write a column before the lifecycle skeleton takes over their exceptions.
use mendix_for_snowflake.Prelude.{◌≡◌, refl, subst, true, Option, none, some, [], ◌∷◌, Text}
use mendix_for_snowflake.Registry
use mendix_for_snowflake.Registry.{Field}
use mendix_for_snowflake.Names.{Settings}
use mendix_for_snowflake.World.{
  World, Environment, Exec, raised, error, Call, call, called, ◌>>=◌, outcome_of, resume_with,
}
use mendix_for_snowflake.Statements.{update_app, update_if}
use mendix_for_snowflake.Tasks.{
  Task, task_name, run_task, run_update_constants, run_update_external_access, run_update_license,
  run_delete_license, run_update_role_mapping, run_delete_role_mapping,
}

-- The column that a task writes first, outside the skeleton.
abbrev pub first_column : Task → Option Field
first_column (Task.update_constants _ merged _) = some (Field.constants merged)
first_column (Task.update_external_access _ _ slots) = some (Field.external_access slots)
first_column (Task.update_license _ _ id) = some (Field.license_id (some id))
first_column (Task.delete_license _ _) = some (Field.license_id none)
first_column (Task.update_role_mapping _ _ m) = some (Field.role_mapping (some m))
first_column (Task.delete_role_mapping _ _) = some (Field.role_mapping none)
first_column _ = none

module _ (env : Environment) (s : Settings) where
  first_update_raises :
      (name : Text) (f : Field) (task : Exec (Unit {0})) (m : Text) (w : World)
      → Registry.all_allowed (f ∷ []) ≡ true
      → env.raises w (Call.update_apps name (f ∷ [])) ≡ some m
      → (update_app env name (f ∷ []) >>= λ _. task) w
        ≡ (raised (error m), called env (Call.update_apps name (f ∷ [])) w)
  unfolding update_app update_if ◌>>=◌ call
  first_update_raises name f task m w a e = rw (a, update_if) (rw (e, outcome_of, resume_with) refl)

  -- What the task does, by its first column.
  abbrev pub Stuck : Task → Option Field → World → Text → Type 0
  Stuck t none w m = Unit
  Stuck t (some f) w m =
      env.raises w (Call.update_apps (task_name t) (f ∷ [])) ≡ some m
      → run_task env s t w
        ≡ (raised (error m), called env (Call.update_apps (task_name t) (f ∷ [])) w)

  Stuck-at_first : (t : Task) (w : World) (m : Text) → Stuck t (first_column t) w m
  unfolding run_task run_update_constants run_update_external_access run_update_license
      run_delete_license run_update_role_mapping run_delete_role_mapping Registry.all_allowed
  Stuck-at_first (Task.update_constants name merged r) w m =
      first_update_raises name (Field.constants merged) _ m w refl
  Stuck-at_first (Task.update_external_access name r slots) w m =
      first_update_raises name (Field.external_access slots) _ m w refl
  Stuck-at_first (Task.update_license name r id) w m =
      first_update_raises name (Field.license_id (some id)) _ m w refl
  Stuck-at_first (Task.delete_license name r) w m =
      first_update_raises name (Field.license_id none) _ m w refl
  Stuck-at_first (Task.update_role_mapping name r mapping) w m =
      first_update_raises name (Field.role_mapping (some mapping)) _ m w refl
  Stuck-at_first (Task.delete_role_mapping name r) w m =
      first_update_raises name (Field.role_mapping none) _ m w refl
  Stuck-at_first (Task.deploy _ _ _ _ _ _) w m = tt
  Stuck-at_first (Task.rollback _ _ _) w m = tt
  Stuck-at_first (Task.update_spec _ _ _ _ _) w m = tt
  Stuck-at_first (Task.suspend _ _) w m = tt
  Stuck-at_first (Task.resume _ _) w m = tt

  -- Where a task's first column cannot be written, the task raises and does nothing else: the table
  -- of apps is as it was, the transient status of the app included.
  pub first_column_stuck :
      (t : Task) (f : Field) (m : Text) (w : World)
      → first_column t ≡ some f
      → env.raises w (Call.update_apps (task_name t) (f ∷ [])) ≡ some m
      → run_task env s t w
        ≡ (raised (error m), called env (Call.update_apps (task_name t) (f ∷ [])) w)
  first_column_stuck t f m w h e = subst (λ o. Stuck t o w m) h (Stuck-at_first t w m) e
