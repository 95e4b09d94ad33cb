-- ===== src/AdminUi/Apps/Buttons.antt =====
-- The buttons of the apps page, and the guard of the routes behind them.
use mendix_for_snowflake.Prelude.{
  ◌≡◌, refl, Bool, true, false, ◌||◌, Option, none, some, List, Text, text, text_eq, mem,
  Bool-cases, inl, inr,
}
use mendix_for_snowflake.Models.{AppRecord, DeployStatus, is_transient}
use mendix_for_snowflake.Names.{Settings}
use mendix_for_snowflake.Auth.{authorize}
use mendix_for_snowflake.World.{World, Environment, ok, pure}
use mendix_for_snowflake.Routes.{blocking, checked, gate}
use mendix_for_snowflake.AdminUi.Apps.{
  Button, redeploy, suspend, resume, platform_update, save_constants, save_role_mapping,
  remove_license, remove_role_mapping, save_license, apply_spec, apply_external_access, roll_back,
  delete, status_text, transient, is_busy, is_disabled,
}

-- The page's list of transient statuses is the controller's.
busy_transient : (r : AppRecord) → is_busy r ≡ is_transient r.last_deploy_status
unfolding is_busy status_text mem text_eq
busy_transient r = busy_status r.last_deploy_status
  where
    busy_status :
        (o : Option DeployStatus)
        → mem (elim o [ none ↦ text "(none)" | some s ↦ status_text s ]) transient ≡ is_transient o
    busy_status none = refl
    busy_status (some DeployStatus.not_deployed) = refl
    busy_status (some DeployStatus.deploying) = refl
    busy_status (some DeployStatus.suspending) = refl
    busy_status (some DeployStatus.resuming) = refl
    busy_status (some DeployStatus.suspended) = refl
    busy_status (some DeployStatus.ready) = refl
    busy_status (some DeployStatus.failed) = refl

-- Every button but the deletion.
abbrev pub IsGuarded : Button → Type 0
IsGuarded (delete typed) = ⊥
IsGuarded _ = Unit

or_true : (b : Bool) → (b || true) ≡ true
or_true true = refl
or_true false = refl

busy_disables :
    (r : AppRecord) (svc_status : Text) (b : Button)
    → IsGuarded b
    → is_busy r ≡ true
    → is_disabled r svc_status b ≡ true
unfolding is_disabled
busy_disables r svc_status redeploy g h = h
busy_disables r svc_status suspend g h = rw h (or_true _)
busy_disables r svc_status resume g h = rw h (or_true _)
busy_disables r svc_status platform_update g h = h
busy_disables r svc_status (save_constants changed) g h = rw h refl
busy_disables r svc_status (save_role_mapping changed) g h = rw h refl
busy_disables r svc_status (remove_license confirmed) g h = rw h refl
busy_disables r svc_status (remove_role_mapping confirmed) g h = rw h refl
busy_disables r svc_status (save_license i k) g h = rw h refl
busy_disables r svc_status (apply_spec typed) g h = rw h (or_true _)
busy_disables r svc_status (apply_external_access typed) g h = rw h (or_true _)
busy_disables r svc_status (roll_back typed) g h = rw h (or_true _)
busy_disables r svc_status (delete typed) g h = absurd g

unblocked : (o : Option DeployStatus) → is_transient o ≡ false → blocking true o ≡ none
unblocked none h = refl
unblocked (some s) h = rw h refl

-- A button other than the deletion that is enabled for an app leads to a route that does not turn the
-- caller away for an operation in progress, as long as the app is as it was shown: the guard of the
-- route lets an authorized caller through.
pub enabled_is_admitted :
    (env : Environment) (s : Settings) (name : Text) (roles : List Text) (w : World) (r : AppRecord)
    (svc_status : Text) (b : Button)
    → IsGuarded b
    → authorize s.privileged (some r.owner_role) roles ≡ true
    → is_disabled r svc_status b ≡ false
    → checked env s name roles true (some r) w ≡ (ok r, w)
unfolding checked gate pure
enabled_is_admitted env s name roles w r svc_status b g a h = elim (Bool-cases (is_busy r)) [
  | inl t ↦ cc (h, busy_disables r svc_status b g t)
  | inr f ↦ rw (a, unblocked r.last_deploy_status (rw (busy_transient r) at f)) refl
]
