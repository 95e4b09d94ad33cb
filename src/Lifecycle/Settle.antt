-- ===== src/Lifecycle/Settle.antt =====
-- What a background task leaves behind when it ends.
use mendix_for_snowflake.Prelude.{
  ℕ, ◌≡◌, refl, sym, subst, Bool, true, false, Option, none, some, List, ◌∷◌, Text, lookup,
  lookup-erase, upper, text_eq_refl, same_name_refl,
}
use mendix_for_snowflake.Models.{AppRecord, Operation, StatusDetail, is_transient}
use mendix_for_snowflake.Registry
use mendix_for_snowflake.Registry.{Rows, Field, set_field, set_fields}
use mendix_for_snowflake.Registry.Lookup.{set_found, get_app-update_rows}
use mendix_for_snowflake.History.{Outcome}
use mendix_for_snowflake.World.{
  World, Environment, Exec, Exn, pure, finally, ◌>>=◌, Result, ok, raised, attempt, Call, call,
  called, modify, resume_with, outcome_of,
}
use mendix_for_snowflake.Statements.{clear_progress, update_if, update_app, record_entry}
use mendix_for_snowflake.Lifecycle.{
  record_history, failure_fields, after_wait, truncate, exn_text, task_body, task_failed,
  run_lifecycle_task,
}
use mendix_for_snowflake.Lifecycle.Rules.{
  Keeps, Ensures, Returns, attempt-Returns, bind-Returns, attempt-of_ok, attempt-of_raised,
  bind-of_ok, Keeps-bind, Keeps-call, Keeps-modify, Keeps-pure, Keeps-attempt, Ensures-bind,
  Ensures-then, Ensures-raise, Ensures-modify,
}

module _ (env : Environment) where
  record_history-Returns :
      (name : Text) (op : Operation) (r : Option AppRecord) (status : Outcome)
      (detail : Option StatusDetail)
      → Returns (record_history env name op r status detail)
  unfolding record_history pure
  record_history-Returns name op none status detail w = refl
  record_history-Returns name op (some r) status detail w =
      attempt-Returns _ (λ _. pure tt) (λ e w'. refl) w

  module _ (name service : Text) (op : Operation) (target : Text) (timeout_secs : ℕ)
      (record_of : Option AppRecord) where
    task_failed-Returns :
        (e : Exn) → Returns (task_failed env name service op target timeout_secs record_of e)
    unfolding task_failed pure
    task_failed-Returns e =
        bind-Returns _ _ (attempt-Returns _ (λ _. pure tt) (λ x w. refl))
          (record_history-Returns name op record_of _ _)

    -- Whatever its action and its completion do, and whatever raises in it, `_run_lifecycle_task`
    -- returns, and leaves no progress behind for its app. What a task does before it calls this is
    -- not part of it.
    pub task_returns :
        (action on_success : Exec (Unit {0})) (w : World)
        → let (r, w') =
            run_lifecycle_task env name service op target timeout_secs record_of action on_success
              w in
          (r ≡ ok tt) × (lookup (upper name) w'.progress ≡ none)
    unfolding run_lifecycle_task finally clear_progress
    task_returns action on_success w =
        (attempt-Returns _ _ task_failed-Returns w, rw lookup-erase (rw text_eq_refl))

  -- The app's row, if it has one, is not in a transient status.
  abbrev pub SettledRows : Text → Rows → Type 0
  SettledRows name rows =
      (r : AppRecord)
      → Registry.get_app name rows ≡ some r
      → is_transient r.last_deploy_status ≡ false

  abbrev pub Settled : Text → World → Type 0
  Settled name w = SettledRows name w.registry

  -- Snowflake takes the updates of the app's row.
  abbrev pub UpdatesSucceed : Text → Type 0
  UpdatesSucceed name =
      (w : World) (fs : List Field) → env.raises w (Call.update_apps name fs) ≡ none

  record_entry-Keeps :
      (P : Rows → Type 0) (name : Text) (op : Operation) (r : AppRecord) (status : Outcome)
      (detail : Option StatusDetail)
      → Keeps (λ w. P w.registry) (record_entry env name op r status detail)
  unfolding record_entry called
  record_entry-Keeps P name op r status detail = Keeps-bind _ _ (Keeps-call env _ (λ w h. h)) (λ _.
      Keeps-bind _ _ (Keeps-modify _ (λ w h. h))
        (λ _. Keeps-bind _ _ (Keeps-call env _ (λ w h. h)) (λ _. Keeps-modify _ (λ w h. h))))

  pub record_history-Keeps :
      (P : Rows → Type 0) (name : Text) (op : Operation) (r : Option AppRecord) (status : Outcome)
      (detail : Option StatusDetail)
      → Keeps (λ w. P w.registry) (record_history env name op r status detail)
  unfolding record_history
  record_history-Keeps P name op none status detail = Keeps-pure tt
  record_history-Keeps P name op (some r) status detail =
      Keeps-attempt _ _ (record_entry-Keeps P name op r status detail) (λ e. Keeps-pure tt)

  -- The fields that an update sets leave no transient status.
  abbrev pub Settles : List Field → Type 0
  Settles fs = (r : AppRecord) → is_transient (set_fields fs r).last_deploy_status ≡ false

  set_found_settled :
      (fs : List Field) (o : Option AppRecord) (r : AppRecord)
      → Settles fs
      → set_found fs o ≡ some r
      → is_transient r.last_deploy_status ≡ false
  set_found_settled fs none r s e = cc
  set_found_settled fs (some q) r s e =
      let same : set_fields fs q ≡ r = cc in
      subst (λ x. is_transient x.last_deploy_status ≡ false) same (s q)

  updated_settled :
      (name : Text) (fs : List Field) (rows : Rows) (r : AppRecord)
      → Settles fs
      → Registry.get_app name (Registry.update_rows name fs rows) ≡ some r
      → is_transient r.last_deploy_status ≡ false
  updated_settled name fs rows r s e =
      set_found_settled fs (Registry.get_app name rows) r s
        (rw (get_app-update_rows, same_name_refl) at e)

  update_if-Ensures :
      (b : Bool) (name : Text) (fs : List Field)
      → Settles fs
      → Ensures (Settled name) (update_if env b name fs)
  unfolding update_if
  update_if-Ensures false name fs s = Ensures-raise _
  update_if-Ensures true name fs s =
      Ensures-bind _ _ (λ _. Ensures-modify _ (λ w r. updated_settled name fs w.registry r s))

  -- An update that is allowed, sets some field and leaves no transient status, settles the app.
  pub update_app-Ensures :
      (name : Text) (f : Field) (fs : List Field)
      → Settles (f ∷ fs)
      → Ensures (Settled name) (update_app env name (f ∷ fs))
  unfolding update_app
  update_app-Ensures name f fs s = update_if-Ensures _ name (f ∷ fs) s

  failure_fields-Settles :
      (op : Operation) (detail : StatusDetail) → Settles (failure_fields env op detail)
  unfolding set_fields set_field
  failure_fields-Settles op detail r = refl

  update_app_returns :
      (name : Text) (op : Operation) (detail : StatusDetail) (w : World)
      → UpdatesSucceed name
      → (update_app env name (failure_fields env op detail) w).0 ≡ ok tt
  unfolding update_app update_if Registry.all_allowed ◌>>=◌ call modify
  update_app_returns name op detail w u =
      rw (u w (failure_fields env op detail), outcome_of, resume_with)

  attempt-Settled :
      (name : Text) (m : Exec (Unit {0})) (handler : Exn → Exec (Unit {0})) (w : World)
      → Ensures (Settled name) m
      → ((e : Exn) (v : World) → Settled name (handler e v).1)
      → (r : Result (Unit {0})) → (m w).0 ≡ r
      → Settled name (attempt m handler w).1
  attempt-Settled name m handler w em eh (ok a) e = rw (attempt-of_ok m w handler e) (em.at w a e)
  attempt-Settled name m handler w em eh (raised x) e =
      rw (attempt-of_raised m w handler e) (eh x (m w).1)

  module _ (name service : Text) (op : Operation) (target : Text) (timeout_secs : ℕ)
      (record_of : Option AppRecord) where
    after_wait-Ensures :
        (on_success : Exec (Unit {0})) (v : Bool × Option StatusDetail)
        → Ensures (Settled name) on_success
        → Ensures
            (Settled name)
            (after_wait env name service op target timeout_secs record_of on_success v)
    unfolding after_wait
    after_wait-Ensures on_success (true, d) os =
        Ensures-then _ _ os (λ _. record_history-Keeps (SettledRows name) name op record_of _ _)
    after_wait-Ensures on_success (false, d) os =
        Ensures-then _ _ (update_app-Ensures name _ _ (failure_fields-Settles op _))
          (λ _. record_history-Keeps (SettledRows name) name op record_of _ _)

    task_body-Ensures :
        (action on_success : Exec (Unit {0}))
        → Ensures (Settled name) on_success
        → Ensures
            (Settled name)
            (task_body env name service op target timeout_secs record_of action on_success)
    unfolding task_body
    task_body-Ensures action on_success os =
        Ensures-bind _ _
          (λ _. Ensures-bind _ _ (λ _. Ensures-bind _ _ (λ v. after_wait-Ensures on_success v os)))

    task_failed-Settled :
        (e : Exn) (w : World)
        → UpdatesSucceed name
        → Settled name (task_failed env name service op target timeout_secs record_of e w).1
    unfolding task_failed pure
    task_failed-Settled e w u =
        let detail = StatusDetail.raised (truncate (exn_text env e)) in
        let m = attempt (update_app env name (failure_fields env op detail)) (λ _. pure tt) in
        let n = record_history env name op record_of Outcome.failed (some detail) in
        let written =
          (update_app-Ensures name _ _ (failure_fields-Settles op detail)).at w tt
            (update_app_returns name op detail w u) in
        subst (λ (p : Result (Unit {0}) × World). Settled name p.1)
          (sym (bind-of_ok m w (λ _. n) (attempt-Returns _ (λ _. pure tt) (λ x v. refl) w)))
          ((record_history-Keeps (SettledRows name) name op record_of Outcome.failed
              (some detail)).at
            (m w).1
            (subst (Settled name)
              (sym (attempt-of_ok _ w (λ _. pure tt) (update_app_returns name op detail w u)))
              written))

    -- Where Snowflake takes the updates of the app's row, and the completion, if it returns, leaves
    -- no transient status, a task leaves none, whatever the action does and however it ends.
    pub task_settles :
        (action on_success : Exec (Unit {0})) (w : World)
        → UpdatesSucceed name
        → Ensures (Settled name) on_success
        → Settled name
            (run_lifecycle_task env name service op target timeout_secs record_of action on_success
              w).1
    unfolding run_lifecycle_task finally clear_progress
    task_settles action on_success w u os =
        attempt-Settled name _ _ w (task_body-Ensures action on_success os)
          (λ e v. task_failed-Settled e v u) _ refl
