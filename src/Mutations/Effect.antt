-- ===== src/Mutations/Effect.antt =====
-- What a mutating route does to the table of apps.
use mendix_for_snowflake.Prelude.{◌≡◌, refl, true, Option, none, some, List, [], ◌∷◌, Text, Dict}
use mendix_for_snowflake.Models.{AppRecord, DeployStatus, is_transient}
use mendix_for_snowflake.Registry
use mendix_for_snowflake.Registry.{Rows, Field}
use mendix_for_snowflake.Names.{Settings}
use mendix_for_snowflake.World.{
  World, Environment, Exec, Exn, Result, ok, raised, Call, call, called, pure, raise, modify,
  resume_with, outcome_of, ◌>>=◌,
}
use mendix_for_snowflake.Statements
use mendix_for_snowflake.Statements.{update_if}
use mendix_for_snowflake.Tasks.{Task, task_name}
use mendix_for_snowflake.Routes.{Answer, Warning, unchanged, accepted, record_for_mutation, start}
use mendix_for_snowflake.Routes.Effects.{Reads, Reads-call, Acts, Acts-bind}
use mendix_for_snowflake.Routes.Config.{
  apply_constants, update_constants, update_spec, apply_platform_update, update_external_access,
  update_license, delete_license, update_role_mapping, delete_role_mapping,
}
use mendix_for_snowflake.Routes.Deploy.{Stage, deploy_pad, trigger_deploy, rollback_app}
use mendix_for_snowflake.Routes.Service.{suspend_app, resume_app}
use mendix_for_snowflake.Mutations.{Mutation, run_mutation}
use mendix_for_snowflake.Routes.Reads.{
  Reads-require, Reads-refuse, Reads-record_for_mutation, Reads-require_pad, Reads-write_secrets,
  Reads-prepare_deploy, Reads-resolve_staged_pad, Reads-rollback_target, Reads-require_pad_file,
}

-- The registry after a mutating route, by its answer.
abbrev pub Effect : Text → Rows → Result Answer → Rows → Type 0
Effect name rows (ok unchanged) rows' = rows' ≡ rows
Effect name rows (raised e) rows' = rows' ≡ rows
Effect name rows (ok (accepted status task warnings)) rows' =
    (task_name task ≡ name)
    × (is_transient (some status) ≡ true)
    × (rows' ≡ Registry.update_rows name (Field.last_deploy_status status ∷ []) rows)

abbrev HasEffect : Text → Exec Answer → Type 0
HasEffect name m = Acts (Effect name) m

module _ (env : Environment) (s : Settings) (name : Text) where
  HasEffect-raise : (e : Exn) → HasEffect name (raise e)
  unfolding raise
  HasEffect-raise e = record { at = λ w. refl }

  HasEffect-unchanged : HasEffect name (pure unchanged)
  unfolding pure
  HasEffect-unchanged = record { at = λ w. refl }

  HasEffect-bind :
      {A : Type 0} (m : Exec A) (f : A → Exec Answer)
      → Reads m
      → ((a : A) → HasEffect name (f a))
      → HasEffect name (m >>= f)
  HasEffect-bind m f r h = Acts-bind (Effect name) m f (λ rows e. refl) r h

  start-Effect :
      (o : Option Text) (status : DeployStatus) (task : Task) (warnings : List Warning) (w : World)
      → env.raises w (Call.update_apps name (Field.last_deploy_status status ∷ [])) ≡ o
      → task_name task ≡ name
      → is_transient (some status) ≡ true
      → let (r, w') = start env s name status task warnings w in
        Effect name w.registry r w'.registry
  unfolding start Statements.update_app update_if Registry.all_allowed ◌>>=◌ call called modify pure
  start-Effect none status task warnings w e n t =
      rw (e, outcome_of, resume_with, Effect) (n, t, refl)
  start-Effect (some m) status task warnings w e n t = rw (e, outcome_of, resume_with, Effect)

  HasEffect-start :
      (status : DeployStatus) (task : Task) (warnings : List Warning)
      → task_name task ≡ name
      → is_transient (some status) ≡ true
      → HasEffect name (start env s name status task warnings)
  HasEffect-start status task warnings n t = record {
    at = λ w. start-Effect _ status task warnings w refl n t;
  }

  -- A route that passes the guard and then a check.
  guarded :
      (roles : List Text) (body : AppRecord → Exec Answer)
      → ((r : AppRecord) → HasEffect name (body r))
      → HasEffect name (record_for_mutation env s name roles true >>= body)
  guarded roles body h = HasEffect-bind _ _ (Reads-record_for_mutation env s name roles true) h

  apply_constants-HasEffect :
      (r : AppRecord) (given changed : Dict Text)
      → HasEffect name (apply_constants env s name r given changed)
  unfolding apply_constants
  apply_constants-HasEffect r given [] = HasEffect-unchanged
  apply_constants-HasEffect r given (c ∷ cs) =
      HasEffect-bind _ _ (Reads-require_pad env s name r) (λ _.
        HasEffect-bind _ _ (Reads-write_secrets env s name r (c ∷ cs))
          (λ _. HasEffect-start _ _ _ refl refl))

  module _ (stage : Stage) (roles : List Text) where
    deploy_pad-HasEffect : (pad : Option Text) → HasEffect name (deploy_pad env s stage name pad)
    unfolding deploy_pad
    deploy_pad-HasEffect none = HasEffect-raise _
    deploy_pad-HasEffect (some pad) =
        HasEffect-bind _ _ (Reads-prepare_deploy env s name stage pad)
          (λ p. HasEffect-start _ _ _ refl refl)

    run_mutation-HasEffect : (m : Mutation) → HasEffect name (run_mutation env s stage name roles m)
    unfolding run_mutation trigger_deploy rollback_app update_constants update_spec
        apply_platform_update update_external_access update_license delete_license
        update_role_mapping delete_role_mapping suspend_app resume_app
    run_mutation-HasEffect Mutation.trigger_deploy = guarded roles _ (λ r.
        HasEffect-bind _ _ (Reads-resolve_staged_pad env s name stage)
          (λ pad. deploy_pad-HasEffect pad))
    run_mutation-HasEffect Mutation.apply_platform_update = guarded roles _ (λ r.
        HasEffect-bind _ _ (Reads-require env s name _ _) (λ _.
          HasEffect-bind _ _ (Reads-require_pad env s name r)
            (λ _. HasEffect-start _ _ _ refl refl)))
    run_mutation-HasEffect Mutation.delete_license = guarded roles _ (λ r.
        HasEffect-bind _ _ (Reads-require_pad env s name r) (λ _. HasEffect-start _ _ _ refl refl))
    run_mutation-HasEffect Mutation.delete_role_mapping = guarded roles _ (λ r.
        HasEffect-bind _ _ (Reads-require_pad env s name r) (λ _. HasEffect-start _ _ _ refl refl))
    run_mutation-HasEffect Mutation.suspend_app =
        guarded roles _ (λ r. HasEffect-start _ _ _ refl refl)
    run_mutation-HasEffect Mutation.resume_app =
        guarded roles _ (λ r. HasEffect-start _ _ _ refl refl)
    run_mutation-HasEffect (Mutation.rollback_app id) = guarded roles _ (λ r.
        HasEffect-bind _ _ (Reads-rollback_target env s name stage id) (λ t.
          HasEffect-bind _ _ (Reads-require env s name _ _) (λ _.
            HasEffect-bind _ _ (Reads-require_pad_file env s name stage t.pad_stage_path)
              (λ _. HasEffect-start _ _ _ refl refl))))
    run_mutation-HasEffect (Mutation.update_constants given) = guarded roles _ (λ r.
        HasEffect-bind _ _ (Reads-refuse env s name _ _) (λ _. apply_constants-HasEffect r given _))
    run_mutation-HasEffect (Mutation.update_role_mapping m) = guarded roles _ (λ r.
        HasEffect-bind _ _ (Reads-require_pad env s name r) (λ _.
          HasEffect-bind _ _ (Reads-refuse env s name _ _) (λ _. HasEffect-start _ _ _ refl refl)))
    run_mutation-HasEffect (Mutation.update_spec tier caller) = guarded roles _ (λ r.
        HasEffect-bind _ _ (Reads-require_pad env s name r) (λ _.
          HasEffect-bind _ _ (Reads-require env s name _ _) (λ _. HasEffect-start _ _ _ refl refl)))
    run_mutation-HasEffect (Mutation.update_external_access slots) = guarded roles _ (λ r.
        HasEffect-bind _ _ (Reads-refuse env s name _ _) (λ _. HasEffect-start _ _ _ refl refl))
    run_mutation-HasEffect (Mutation.update_license id) = guarded roles _ (λ r.
        HasEffect-bind _ _ (Reads-require_pad env s name r)
          (λ _. HasEffect-bind _ _ (Reads-call env _) (λ _. HasEffect-start _ _ _ refl refl)))

    -- A mutating route adds a task for its own app exactly where it stamps that app's row, and with
    -- a transient status; in every other case, errors included, it leaves the table of apps alone.
    pub run_mutation-Effect :
        (m : Mutation) (w : World)
        → let (r, w') = run_mutation env s stage name roles m w in
          Effect name w.registry r w'.registry
    run_mutation-Effect m w = (run_mutation-HasEffect m).at w
