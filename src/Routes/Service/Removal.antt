-- ===== src/Routes/Service/Removal.antt =====
-- What the deletion of an app does to the table of apps.
use mendix_for_snowflake.Prelude.{
  ◌≡◌, refl, ◌∙◌, false, Option, Option-cases, inl, inr, none, some, List, [], ◌∷◌, Text,
}
use mendix_for_snowflake.Registry
use mendix_for_snowflake.Registry.{Rows}
use mendix_for_snowflake.Names.{Settings}
use mendix_for_snowflake.World.{
  World, Environment, Exec, Result, ok, raised, Call, call, called, raise, modify, resume_with,
  outcome_of, ◌>>=◌,
}
use mendix_for_snowflake.Statements
use mendix_for_snowflake.Lifecycle.Rules.{Keeps-pure, Keeps-bind, Keeps-attempt, Keeps-modify}
use mendix_for_snowflake.Poll.Frame
use mendix_for_snowflake.Routes.Effects.{Reads, Reads-call, Acts, Acts-bind}
use mendix_for_snowflake.Routes.Reads.{Reads-record_for_mutation}
use mendix_for_snowflake.Routes.Service.{
  cleanup_step, deprovision_step, load_pg_password, teardown_app_objects, wait_suspended,
  finish_delete, delete_app,
}

-- The registry after a deletion, by its answer.
abbrev pub Removed : Text → Rows → Result (Unit {0}) → Rows → Type 0
Removed name rows (ok _) rows' = rows' ≡ Registry.delete_app name rows
Removed name rows (raised e) rows' = rows' ≡ rows

abbrev Removes : Text → Exec (Unit {0}) → Type 0
Removes name m = Acts (Removed name) m

module _ (env : Environment) (s : Settings) (name : Text) where
  Reads-cleanup : (step : Text) (m : Exec (Unit {0})) → Reads m → Reads (cleanup_step env s step m)
  unfolding cleanup_step
  Reads-cleanup step m k rows =
      Keeps-attempt _ _ (Keeps-bind _ _ (k rows) (λ _. Keeps-pure _)) (λ _. Keeps-pure _)

  pub Reads-load : Reads (load_pg_password env s)
  unfolding load_pg_password raise
  Reads-load rows = record {
    at = λ w h. elim (Option-cases (env.pg_password w)) [
      | inl e ↦ rw (e, load_pg_password) h
      | inr (p, e) ↦ rw (e, load_pg_password) h
    ];
  }

  Reads-deprovision : (o : Option Text) → Reads (deprovision_step env s name o)
  unfolding deprovision_step
  Reads-deprovision none rows = Keeps-pure _
  Reads-deprovision (some db) rows =
      Reads-cleanup _ _
        (λ rs.
          Keeps-bind _ _ (Reads-load rs)
            (λ _. Keeps-attempt _ _ (Reads-call env _ rs) (λ _. Keeps-pure _)))
        rows

  Reads-delete_history : Reads (Statements.delete_for_app env name)
  unfolding Statements.delete_for_app
  Reads-delete_history rows =
      Keeps-bind _ _ (Reads-call env _ rows) (λ _. Keeps-modify _ (λ w h. h))

  pub Reads-teardown :
      (service app_schema : Text) (db : Option Text)
      → Reads (teardown_app_objects env s name service app_schema db)
  unfolding teardown_app_objects
  Reads-teardown service app_schema db rows =
      Keeps-bind _ _ (Reads-cleanup _ _ (Reads-call env _) rows) (λ _.
        Keeps-bind _ _ (Reads-cleanup _ _ (Reads-call env _) rows) (λ _.
          Keeps-bind _ _ (Reads-cleanup _ _ (Reads-call env _) rows) (λ _.
            Keeps-bind _ _ (Reads-cleanup _ _ Reads-delete_history rows)
              (λ _. Keeps-bind _ _ (Reads-deprovision db rows) (λ _. Keeps-pure _)))))

  Reads-wait : (service : Text) → Reads (wait_suspended env s service)
  unfolding wait_suspended
  Reads-wait service rows = record {
    at = λ w h. Frame.registry-poll_status env service _ _ _ w (λ n v. refl) ∙ h;
  }

  Removed-delete_app :
      (o : Option Text) (w : World)
      → env.raises w (Call.delete_app name) ≡ o
      → let (r, w') = Statements.delete_app env name w in Removed name w.registry r w'.registry
  unfolding Statements.delete_app ◌>>=◌ call called modify
  Removed-delete_app none w e = rw (e, outcome_of, resume_with, Removed) refl
  Removed-delete_app (some m) w e = rw (e, outcome_of, resume_with, Removed) refl

  Removes-finish : (failures : List Text) → Removes name (finish_delete env s name failures)
  unfolding finish_delete raise
  Removes-finish [] = record { at = λ w. Removed-delete_app _ w refl }
  Removes-finish (f ∷ fs) = record { at = λ w. refl }

  Removes-bind :
      {A : Type 0} (m : Exec A) (f : A → Exec (Unit {0}))
      → Reads m
      → ((a : A) → Removes name (f a))
      → Removes name (m >>= f)
  Removes-bind m f r h = Acts-bind (Removed name) m f (λ rows e. refl) r h

  -- A deletion that answers without an error has removed the app's row, and one that raises, at any
  -- of its steps, has left the table of apps as it was.
  pub delete_app_removes :
      (roles : List Text) (w : World)
      → let (r, w') = delete_app env s name roles w in Removed name w.registry r w'.registry
  unfolding delete_app
  delete_app_removes roles w =
      (Removes-bind _ _ (Reads-record_for_mutation env s name roles false) (λ r.
          Removes-bind _ _
            (λ rows.
              Keeps-attempt _ _
                (Keeps-bind _ _ (Reads-call env _ rows) (λ _. Reads-wait r.service_name rows))
                (λ _. Keeps-pure _))
            (λ _.
              Removes-bind _ _ (Reads-teardown r.service_name r.app_schema (some r.pg_database))
                (λ failures. Removes-finish failures)))).at
        w
