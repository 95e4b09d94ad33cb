-- ===== src/Routes/Create/Registration.antt =====
-- What a registration does to the table of apps.
use mendix_for_snowflake.Prelude.{
  ◌≡◌, ◌⊎◌, inl, inr, ◌∙◌, refl, subst, Bool, true, false, Option, none, some, List, [], ◌∷◌, Text,
  Dict,
}
use mendix_for_snowflake.Models.{AppRecord, DeployStatus}
use mendix_for_snowflake.Registry
use mendix_for_snowflake.Registry.{Rows, Field}
use mendix_for_snowflake.Names.{Settings}
use mendix_for_snowflake.World.{
  World, Environment, Exec, Exn, handle, Result, ok, raised, Call, call, called, pure, raise,
  modify, attempt, resume_with, outcome_of, ◌>>=◌,
}
use mendix_for_snowflake.Statements
use mendix_for_snowflake.Statements.{update_if}
use mendix_for_snowflake.Lifecycle.Rules.{Keeps-pure, Keeps-raise, Keeps-bind}
use mendix_for_snowflake.Tasks.{Task, task_name}
use mendix_for_snowflake.Routes.Effects.{Reads, Reads-call, Acts, Acts-bind, Acts-attempt}
use mendix_for_snowflake.Routes.Deploy.{
  Stage, StagedFile, pad_listed, pad_among, prepare_deploy, resolve_staged_pad,
}
use mendix_for_snowflake.Routes.Service.Removal.{Reads-load, Reads-teardown}
use mendix_for_snowflake.Routes.Reads.{
  Reads-require, Reads-refuse, Reads-get_app, Reads-prepare_deploy,
}
use mendix_for_snowflake.Routes.Create.{
  CreateRequest, Registered, not_deployed, deploying, new_record, put_secret, put_constants,
  put_license, create_service, create_access, create_objects, roll_back, deploy_staged, check_free,
  create_app,
}

-- The table after the objects are created, or not.
abbrev Created : AppRecord → Rows → Result (Unit {0}) → Rows → Type 0
Created r rows (ok _) rows' = rows' ≡ Registry.create_app r rows
Created r rows (raised e) rows' = rows' ≡ rows

-- The table after a staged PAD is taken up, or not.
abbrev Started : Text → Rows → Result Registered → Rows → Type 0
Started name rows (ok not_deployed) rows' = rows' ≡ rows
Started name rows (raised e) rows' = rows' ≡ rows
Started name rows (ok (deploying task)) rows' =
    (task_name task ≡ name)
    × (rows'
        ≡ Registry.update_rows name (Field.last_deploy_status DeployStatus.deploying ∷ []) rows)

-- The directory of the app on the stage, or the time of a file in it, cannot be read.
abbrev pub IsUnreadable : Stage → Text → Exn → Type 0
IsUnreadable stage name e = (w : World) × (stage.listing w name ≡ raised e)

-- The same, for what raises only where that directory cannot be read.
abbrev Done : Stage → Text → Rows → Result Registered → Rows → Type 0
Done stage name rows (ok a) rows' = Started name rows (ok a) rows'
Done stage name rows (raised e) rows' = (rows' ≡ rows) × IsUnreadable stage name e

-- The table after a registration: with the new row, which is stamped where a task was added; and as
-- before where it raised, or with the new row where the staged PADs could not be read.
abbrev pub Registers : Stage → AppRecord → Rows → Result Registered → Rows → Type 0
Registers stage r rows (ok a) rows' = Started r.name (Registry.create_app r rows) (ok a) rows'
Registers stage r rows (raised e) rows' =
    (rows' ≡ rows) ⊎ ((rows' ≡ Registry.create_app r rows) × IsUnreadable stage r.name e)

module _ (env : Environment) (s : Settings) (req : CreateRequest) where
  abbrev row : AppRecord
  row = new_record s req

  Reads-put_secret : (name : Text) → Reads (put_secret env s req name)
  unfolding put_secret
  Reads-put_secret name = Reads-call env _

  Reads-put_constants : (cs : Dict Text) → Reads (put_constants env s req cs)
  unfolding put_constants
  Reads-put_constants [] rows = Keeps-pure tt
  Reads-put_constants (c ∷ cs) rows =
      Keeps-bind _ _ (Reads-put_secret _ rows) (λ _. Reads-put_constants cs rows)

  Reads-put_license : (b : Bool) → Reads (put_license env s req b)
  unfolding put_license
  Reads-put_license true rows = Reads-put_secret _ rows
  Reads-put_license false rows = Keeps-pure tt

  Reads-create_service : Reads (create_service env s req)
  unfolding create_service
  Reads-create_service rows = Keeps-bind _ _ (Reads-call env _ rows) (λ _. Reads-call env _ rows)

  Reads-create_access : Reads (create_access env s req)
  unfolding create_access
  Reads-create_access rows =
      Keeps-bind _ _ (Reads-call env _ rows)
        (λ _. Keeps-bind _ _ (Reads-call env _ rows) (λ _. Reads-call env _ rows))

  inserted :
      (o : Option Text) (w : World)
      → env.raises w (Call.insert_app req.name) ≡ o
      → let (r, w') = Statements.create_app env row w in Created row w.registry r w'.registry
  unfolding Statements.create_app new_record ◌>>=◌ call called modify
  inserted none w e = rw (e, outcome_of, resume_with, Created) refl
  inserted (some m) w e = rw (e, outcome_of, resume_with, Created) refl

  Created-bind :
      {A : Type 0} (m : Exec A) (f : A → Exec (Unit {0}))
      → Reads m
      → ((a : A) → Acts (Created row) (f a))
      → Acts (Created row) (m >>= f)
  Created-bind m f r h = Acts-bind (Created row) m f (λ rows e. refl) r h

  create_objects-Acts : Acts (Created row) (create_objects env s req)
  unfolding create_objects
  create_objects-Acts = Created-bind _ _ (Reads-call env _) (λ _.
      Created-bind _ _ (Reads-call env _) (λ _.
        Created-bind _ _ (Reads-load env s row.name) (λ password.
          Created-bind _ _ (Reads-require env s row.name _ _) (λ _.
            Created-bind _ _ (Reads-call env _) (λ _. Created-bind _ _ (Reads-put_secret _) (λ _.
              Created-bind _ _ (Reads-put_secret _) (λ _.
                Created-bind _ _ (Reads-put_license _) (λ _.
                  Created-bind _ _ (Reads-put_constants _) (λ _.
                    Created-bind _ _ Reads-create_service (λ _.
                      Created-bind _ _ Reads-create_access
                        (λ _. record { at = λ w. inserted _ w refl })))))))))))

  roll_back-Acts : (e : Exn) → Acts (Created row) (roll_back env s req e)
  unfolding roll_back raise
  roll_back-Acts e =
      Created-bind _ _ (Reads-teardown env s req.name _ _ _) (λ fs. record { at = λ w. refl })

  objects-Acts : Acts (Created row) (attempt (create_objects env s req) (roll_back env s req))
  objects-Acts =
      Acts-attempt (Created row) _ _ (λ rows rows' e h. h) create_objects-Acts roll_back-Acts

  Started-bind :
      {A : Type 0} (m : Exec A) (f : A → Exec Registered)
      → Reads m
      → ((a : A) → Acts (Started req.name) (f a))
      → Acts (Started req.name) (m >>= f)
  Started-bind m f r h = Acts-bind (Started req.name) m f (λ rows e. refl) r h

  stamped :
      (o : Option Text) (task : Task) (w : World)
      → task_name task ≡ req.name
      → env.raises w
          (Call.update_apps req.name (Field.last_deploy_status DeployStatus.deploying ∷ []))
        ≡ o
      → let (r, w') =
          (Statements.update_app env req.name (Field.last_deploy_status DeployStatus.deploying ∷ [])
              >>= λ _. pure (deploying task))
            w in
        Started req.name w.registry r w'.registry
  unfolding Statements.update_app update_if Registry.all_allowed ◌>>=◌ call called modify pure
  stamped none task w n e = rw (e, outcome_of, resume_with, Started) (n, refl)
  stamped (some m) task w n e = rw (e, outcome_of, resume_with, Started) refl

  Done-of_handle :
      (stage : Stage) (r : Result Registered) (rows : Rows) (w : World)
      → Started req.name rows r w.registry
      → (let (a, w') = handle (λ e. pure not_deployed) r w in
          Done stage req.name rows a w'.registry)
  unfolding pure
  Done-of_handle stage (ok not_deployed) rows w h = h
  Done-of_handle stage (ok (deploying task)) rows w h = h
  Done-of_handle stage (raised e) rows w h = h

  deploy_staged-Acts :
      (stage : Stage) (pad : Option Text)
      → Acts (Done stage req.name) (deploy_staged env s req stage pad)
  unfolding deploy_staged pure attempt
  deploy_staged-Acts stage none = record { at = λ w. refl }
  deploy_staged-Acts stage (some pad) =
      let started =
        Started-bind (prepare_deploy env s stage req.name pad) _
          (Reads-prepare_deploy env s req.name stage pad)
          (λ p. record { at = λ w. stamped _ _ w refl refl }) in
      record { at = λ w. Done-of_handle stage _ w.registry _ (started.at w) }

  registered_of_Done :
      (stage : Stage) (a : Result Registered) (rows rows1 rows' : Rows)
      → Done stage req.name rows1 a rows'
      → rows1 ≡ Registry.create_app row rows
      → Registers stage row rows a rows'
  unfolding new_record
  registered_of_Done stage (ok a) rows rows1 rows' h e =
      subst (λ x. Started req.name x (ok a) rows') e h
  registered_of_Done stage (raised x) rows rows1 rows' (same, h) e = inr (same ∙ e, h)

  registered_of_resume :
      (stage : Stage) (f : Unit {0} → Exec Registered) (r : Result (Unit {0})) (rows : Rows)
      (w : World)
      → Created row rows r w.registry
      → Acts (Done stage req.name) (f tt)
      → (let (a, w') = resume_with f r w in Registers stage row rows a w'.registry)
  registered_of_resume stage f (raised e) rows w h k = inl h
  registered_of_resume stage f (ok _) rows w h k =
      registered_of_Done stage (f tt w).0 rows w.registry (f tt w).1.registry (k.at w) h

  Registers-bind :
      {A : Type 0} (stage : Stage) (m : Exec A) (f : A → Exec Registered)
      → Reads m
      → ((a : A) → Acts (Registers stage row) (f a))
      → Acts (Registers stage row) (m >>= f)
  Registers-bind stage m f r h = Acts-bind (Registers stage row) m f (λ rows e. inl refl) r h

  Reads-check_free : (o : Option AppRecord) → Reads (check_free env s req o)
  unfolding check_free
  Reads-check_free none rows = Keeps-pure tt
  Reads-check_free (some r) rows = Keeps-raise _

  Done-listed :
      (stage : Stage) (listed : Result (Option (List StagedFile))) (w : World)
      → stage.listing w req.name ≡ listed
      → let (a, w') =
          (resolve_staged_pad stage req.name >>= λ pad. deploy_staged env s req stage pad) w in
        Done stage req.name w.registry a w'.registry
  unfolding resolve_staged_pad pad_listed ◌>>=◌
  Done-listed stage (ok fs) w e =
      rw (e, pad_listed) ((deploy_staged-Acts stage (pad_among req.name fs)).at w)
  Done-listed stage (raised x) w e = rw (e, pad_listed) (refl, (w, e))

  registered_tail :
      (stage : Stage)
      → Acts (Registers stage row) (
          attempt (create_objects env s req) (roll_back env s req) >>= λ _.
          resolve_staged_pad stage req.name >>= λ pad. deploy_staged env s req stage pad)
  unfolding ◌>>=◌
  registered_tail stage = record {
    at = λ w.
        registered_of_resume stage _ _ w.registry _ (objects-Acts.at w)
          (record { at = λ v. Done-listed stage (stage.listing v req.name) v refl });
  }

  -- A registration that answers has added the app's row, and has stamped it as deploying exactly if
  -- it added the task of a deploy. One that raises has left the table of apps as it was, at any of
  -- its steps but one: where it raises because the directory of the app's staged PADs cannot be read,
  -- the new row is there.
  pub create_app-Registers :
      (stage : Stage) (roles : List Text) (w : World)
      → let (a, w') = create_app env s req stage roles w in
        Registers stage (new_record s req) w.registry a w'.registry
  unfolding create_app
  create_app-Registers stage roles w =
      (Registers-bind stage _ _ (Reads-require env s req.name _ _) (λ _.
          Registers-bind stage _ _ (Reads-get_app env s req.name) (λ found.
            Registers-bind stage _ _ (Reads-check_free found) (λ _.
              Registers-bind stage _ _ (Reads-refuse env s req.name _ _) (λ _.
                Registers-bind stage _ _ (Reads-refuse env s req.name _ _)
                  (λ _. registered_tail stage)))))).at
        w
