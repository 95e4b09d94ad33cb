-- ===== src/Lifecycle/Frame.antt =====
-- What the lifecycle skeleton writes to the registry.
use mendix_for_snowflake.Prelude.{
  ℕ, refl, sym, subst, Bool, true, false, Option, List, [], ◌∷◌, Text,
}
use mendix_for_snowflake.Models.{AppRecord, Operation, StatusDetail}
use mendix_for_snowflake.Registry
use mendix_for_snowflake.Registry.{Rows, Field}
use mendix_for_snowflake.World.{Environment, Exec, Exn, Call, call, called}
use mendix_for_snowflake.Statements.{update_app, update_if, set_progress, clear_progress}
use mendix_for_snowflake.Poll.Frame.{registry-poll_ready}
use mendix_for_snowflake.Lifecycle.{
  run_lifecycle_task, task_body, task_failed, after_wait, wait_ready,
}
use mendix_for_snowflake.Lifecycle.Rules.{
  Keeps, Keeps-pure, Keeps-raise, Keeps-call, Keeps-bind, Keeps-modify, Keeps-attempt,
  Keeps-finally,
}
use mendix_for_snowflake.Lifecycle.Settle.{record_history-Keeps}

-- A property of the rows that the updates of one app keep.
abbrev pub KeptByUpdates : (Rows → Type 0) → Text → Type 0
KeptByUpdates P name =
    (fs : List Field) (rows : Rows) → P rows → P (Registry.update_rows name fs rows)

module _ (P : Rows → Type 0) (env : Environment) where
  abbrev pub KeepsRows : {A : Type 0} → Exec A → Type 0
  KeepsRows m = Keeps (λ w. P w.registry) m

  pub call-KeepsRows : (c : Call) → KeepsRows (call env c)
  unfolding called
  call-KeepsRows c = Keeps-call env c (λ w h. h)

  update_if-KeepsRows :
      (b : Bool) (name : Text) (fs : List Field)
      → KeptByUpdates P name
      → KeepsRows (update_if env b name fs)
  unfolding update_if
  update_if-KeepsRows false name fs k = Keeps-raise _
  update_if-KeepsRows true name fs k =
      Keeps-bind _ _ (call-KeepsRows _) (λ _. Keeps-modify _ (λ w h. k fs w.registry h))

  pub update_app-KeepsRows :
      (name : Text) (fs : List Field) → KeptByUpdates P name → KeepsRows (update_app env name fs)
  unfolding update_app
  update_app-KeepsRows name [] k = Keeps-pure tt
  update_app-KeepsRows name (f ∷ fs) k = update_if-KeepsRows _ name (f ∷ fs) k

  module _ (name service : Text) (op : Operation) (target : Text) (timeout_secs : ℕ)
      (record_of : Option AppRecord) (k : KeptByUpdates P name) where
    wait_ready-KeepsRows :
        Keeps (λ w. P w.registry) (wait_ready env name service op target timeout_secs record_of)
    unfolding wait_ready set_progress
    wait_ready-KeepsRows = record {
      at = λ w h.
          subst P
            (sym (
              registry-poll_ready env service target timeout_secs _ _ w (λ n v. refl)
                (λ n v. refl)))
            h;
    }

    after_wait-KeepsRows :
        (on_success : Exec (Unit {0})) (v : Bool × Option StatusDetail)
        → KeepsRows on_success
        → KeepsRows (after_wait env name service op target timeout_secs record_of on_success v)
    unfolding after_wait
    after_wait-KeepsRows on_success (true, d) ks =
        Keeps-bind _ _ ks (λ _. record_history-Keeps env P name op record_of _ _)
    after_wait-KeepsRows on_success (false, d) ks =
        Keeps-bind _ _ (update_app-KeepsRows name _ k)
          (λ _. record_history-Keeps env P name op record_of _ _)

    task_failed-KeepsRows :
        (e : Exn) → KeepsRows (task_failed env name service op target timeout_secs record_of e)
    unfolding task_failed
    task_failed-KeepsRows e =
        Keeps-bind _ _ (Keeps-attempt _ _ (update_app-KeepsRows name _ k) (λ _. Keeps-pure tt))
          (λ _. record_history-Keeps env P name op record_of _ _)

    -- A task keeps what its app's updates, its action and its completion keep.
    pub run_lifecycle_task-KeepsRows :
        (action on_success : Exec (Unit {0}))
        → KeepsRows action
        → KeepsRows on_success
        → KeepsRows
            (run_lifecycle_task env name service op target timeout_secs record_of action on_success)
    unfolding run_lifecycle_task task_body set_progress clear_progress
    run_lifecycle_task-KeepsRows action on_success ka ks =
        Keeps-finally _ _
          (Keeps-attempt _ _
            (Keeps-bind _ _ (Keeps-modify _ (λ w h. h)) (λ _. Keeps-bind _ _ ka (λ _.
              Keeps-bind _ _ wait_ready-KeepsRows (λ v. after_wait-KeepsRows on_success v ks))))
            task_failed-KeepsRows)
          (λ w h. h)
