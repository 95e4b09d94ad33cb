-- ===== src/Mutations/Guard.antt =====
-- What the shared guard lets through, and what it answers otherwise, for every mutating route.
use mendix_for_snowflake.Prelude.{
  ◌≡◌, refl, ◌∙◌, sym, subst, true, false, Option, none, some, List, Text, if◌then◌else◌,
  Bool-cases, inl, inr, arith,
}
use mendix_for_snowflake.Models.{AppRecord, DeployStatus, is_transient}
use mendix_for_snowflake.Registry
use mendix_for_snowflake.Auth.{authorize}
use mendix_for_snowflake.Names.{Settings}
use mendix_for_snowflake.World.{
  World, Environment, Exec, Exn, Result, ok, raised, Call, Reason, http, call, called, pure, raise,
  gets, resume_with, outcome_of, ◌>>=◌,
}
use mendix_for_snowflake.Statements
use mendix_for_snowflake.Routes.{Answer, record_for_mutation, checked, gate, blocking}
use mendix_for_snowflake.Routes.Config.{
  update_constants, update_spec, apply_platform_update, update_external_access, update_license,
  delete_license, update_role_mapping, delete_role_mapping,
}
use mendix_for_snowflake.Routes.Deploy.{Stage, trigger_deploy, rollback_app}
use mendix_for_snowflake.Routes.Service.{suspend_app, resume_app}
use mendix_for_snowflake.Mutations.{Mutation, run_mutation}

-- What a bind returned came from what its first action returned.
pub of_resume :
    {A B : Type 0} (f : A → Exec B) (r : Result A) (w : World) (b : B)
    → (resume_with f r w).0 ≡ ok b
    → (a : A) × (r ≡ ok a) × ((f a w).0 ≡ ok b)
of_resume f (ok a) w b h = (a, refl, h)
of_resume f (raised e) w b h = cc

module _ (env : Environment) (s : Settings) (name : Text) (roles : List Text) where
  -- The row that the request is about lets the caller change it.
  abbrev pub Admits : World → AppRecord → Type 0
  Admits w r =
      (Registry.get_app name w.registry ≡ some r)
      × (authorize s.privileged (some r.owner_role) roles ≡ true)
      × (is_transient r.last_deploy_status ≡ false)

  gate_ok :
      (r q : AppRecord) (o : Option DeployStatus) (w : World)
      → (gate env s name r (blocking true o) w).0 ≡ ok q
      → is_transient o ≡ false
  unfolding gate raise
  gate_ok r q none w h = refl
  gate_ok r q (some status) w h = elim (Bool-cases (is_transient (some status))) [
    | inl e ↦ let refused = rw e at h in cc
    | inr e ↦ e
  ]

  checked_ok :
      (found : Option AppRecord) (w : World) (q : AppRecord)
      → (checked env s name roles true found w).0 ≡ ok q
      → (r : AppRecord) × (found ≡ some r)
        × (authorize s.privileged (some r.owner_role) roles ≡ true)
        × (is_transient r.last_deploy_status ≡ false)
  unfolding checked raise
  checked_ok none w q h = cc
  checked_ok (some r) w q h = elim (Bool-cases (authorize s.privileged (some r.owner_role) roles)) [
    | inl e ↦ (r, refl, e, gate_ok r q r.last_deploy_status w (rw e at h))
    | inr e ↦ let refused = rw e at h in cc
  ]

  pub get_app_ok :
      (w : World) (found : Option AppRecord)
      → (Statements.get_app env name w).0 ≡ ok found
      → Registry.get_app name w.registry ≡ found
  unfolding Statements.get_app ◌>>=◌ call called gets
  get_app_ok w found h =
      let (_, _, e) = of_resume (λ _. gets (λ v. Registry.get_app name v.registry)) _ _ found h in
      cc

  guarded-Admits :
      (body : AppRecord → Exec Answer) (w : World) (a : Answer)
      → ((record_for_mutation env s name roles true >>= body) w).0 ≡ ok a
      → (r : AppRecord) × Admits w r
  unfolding ◌>>=◌ record_for_mutation
  guarded-Admits body w a h =
      let (q, passed, _) = of_resume body _ _ a h in
      let (found, got, rest) =
        of_resume (checked env s name roles true) (Statements.get_app env name w).0 _ q passed in
      let (r, e, allowed, settled) = checked_ok found _ q rest in
      (r, (get_app_ok w found got ∙ e, allowed, settled))

  -- The error that the guard answers for a row, if it refuses the request.
  abbrev pub refusal : Option AppRecord → Option Exn
  refusal none = some (http 404 (Reason.app_not_found name))
  refusal (some r) =
      if authorize s.privileged (some r.owner_role) roles
      then (elim (blocking true r.last_deploy_status) [
        | none ↦ none
        | some status ↦ some (http 409 (Reason.in_progress name status))
      ])
      else some (http 403 (Reason.not_authorized name))

  checked_refused :
      (found : Option AppRecord) (e : Exn) (w : World)
      → refusal found ≡ some e
      → checked env s name roles true found w ≡ (raised e, w)
  unfolding checked gate raise pure
  checked_refused none e w h = ground arith
  checked_refused (some r) e w h = ground arith

  guarded_refused :
      (body : AppRecord → Exec Answer) (e : Exn) (w : World)
      → env.raises w Call.select_apps ≡ none
      → refusal (Registry.get_app name w.registry) ≡ some e
      → (record_for_mutation env s name roles true >>= body) w
        ≡ (raised e, called env Call.select_apps w)
  unfolding ◌>>=◌ record_for_mutation Statements.get_app call called gets
  guarded_refused body e w up h =
      rw (up, outcome_of, resume_with)
        (rw (checked_refused (Registry.get_app name w.registry) e (called env Call.select_apps w) h)
          refl)

  module _ (stage : Stage) where
    -- Every mutating route passes the guard first.
    guard_first :
        (m : Mutation)
        → (body : AppRecord → Exec Answer) × (run_mutation env s stage name roles m
            ≡ (record_for_mutation env s name roles true >>= body))
    unfolding run_mutation trigger_deploy rollback_app update_constants update_spec
        apply_platform_update update_external_access update_license delete_license
        update_role_mapping delete_role_mapping suspend_app resume_app
    guard_first Mutation.trigger_deploy = (_, refl)
    guard_first Mutation.apply_platform_update = (_, refl)
    guard_first Mutation.delete_license = (_, refl)
    guard_first Mutation.delete_role_mapping = (_, refl)
    guard_first Mutation.suspend_app = (_, refl)
    guard_first Mutation.resume_app = (_, refl)
    guard_first (Mutation.rollback_app id) = (_, refl)
    guard_first (Mutation.update_constants given) = (_, refl)
    guard_first (Mutation.update_role_mapping mapping) = (_, refl)
    guard_first (Mutation.update_spec tier caller) = (_, refl)
    guard_first (Mutation.update_external_access slots) = (_, refl)
    guard_first (Mutation.update_license id) = (_, refl)

    -- A mutating route that answers without an error found the app's row, for a caller that is
    -- authorized for it, and not in a transient status.
    pub run_mutation-Admits :
        (m : Mutation) (w : World) (a : Answer)
        → (run_mutation env s stage name roles m w).0 ≡ ok a
        → (r : AppRecord) × Admits w r
    run_mutation-Admits m w a h =
        let (body, e) = guard_first m in
        guarded-Admits body w a (subst (λ (x : Exec Answer). (x w).0 ≡ ok a) e h)

    -- Where the table of apps can be read, every mutating route answers 404 for a missing app, 403
    -- for a caller that is not authorized and 409 for an app in a transient status; and then it
    -- makes no other call and changes no state.
    pub run_mutation_refused :
        (m : Mutation) (e : Exn) (w : World)
        → env.raises w Call.select_apps ≡ none
        → refusal (Registry.get_app name w.registry) ≡ some e
        → run_mutation env s stage name roles m w ≡ (raised e, called env Call.select_apps w)
    run_mutation_refused m e w up h =
        let (body, same) = guard_first m in
        subst (λ (x : Exec Answer). x w ≡ (raised e, called env Call.select_apps w)) (sym same)
          (guarded_refused body e w up h)
