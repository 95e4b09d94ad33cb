-- ===== src/Activity/Audit.antt =====
-- How the audit log records the mutating routes.
use mendix_for_snowflake.Prelude.{
  ℕ, ◌≡◌, refl, ◌∙◌, false, Option, none, some, [], ◌∷◌, ◌++◌, Text, text, text_eq, has_char, any,
  ◌==◌, Bool-cases, inl, inr,
}
use mendix_for_snowflake.Mutations.{Mutation}
use mendix_for_snowflake.Activity.{
  Action, cut, after_prefix, ends_as, first_match, app_action, path_action, derive_action,
  suffix_of, path_of,
}

-- What is recorded of each route.
abbrev pub recorded : Text → Mutation → Action × Option Text
recorded name Mutation.trigger_deploy = (Action.deploy, some name)
recorded name Mutation.apply_platform_update = (Action.unknown, none)
recorded name Mutation.delete_license = (Action.update_license, some name)
recorded name Mutation.delete_role_mapping = (Action.update_role_mapping, some name)
recorded name Mutation.suspend_app = (Action.suspend, some name)
recorded name Mutation.resume_app = (Action.resume, some name)
recorded name (Mutation.rollback_app _) = (Action.unknown, none)
recorded name (Mutation.update_constants _) = (Action.update_constants, some name)
recorded name (Mutation.update_role_mapping _) = (Action.update_role_mapping, some name)
recorded name (Mutation.update_spec _ _) = (Action.update_spec, some name)
recorded name (Mutation.update_external_access _) = (Action.update_external_access, some name)
recorded name (Mutation.update_license _) = (Action.update_license, some name)

pub cut-append :
    (name rest : Text) → has_char 47 name ≡ false → cut (name ++ 47 ∷ rest) ≡ (name, some rest)
unfolding cut has_char any
cut-append [] rest h = refl
cut-append (c ∷ name) rest h = elim (Bool-cases (c == 47)) [
  | inl e ↦ let bad = rw e at h in cc
  | inr e ↦ rw e (rw (cut-append name rest (rw e at h)) refl)
]

suffix_recorded :
    (c : ℕ) (name : Text) (m : Mutation)
    → app_action (c ∷ name, some (suffix_of m)) ≡ recorded (c ∷ name) m
unfolding app_action first_match ends_as text_eq
suffix_recorded c name Mutation.trigger_deploy = refl
suffix_recorded c name Mutation.apply_platform_update = refl
suffix_recorded c name Mutation.delete_license = refl
suffix_recorded c name Mutation.delete_role_mapping = refl
suffix_recorded c name Mutation.suspend_app = refl
suffix_recorded c name Mutation.resume_app = refl
suffix_recorded c name (Mutation.rollback_app _) = refl
suffix_recorded c name (Mutation.update_constants _) = refl
suffix_recorded c name (Mutation.update_role_mapping _) = refl
suffix_recorded c name (Mutation.update_spec _ _) = refl
suffix_recorded c name (Mutation.update_external_access _) = refl
suffix_recorded c name (Mutation.update_license _) = refl

no_creation :
    (method name : Text) (m : Mutation)
    → derive_action method (path_of name m) ≡ app_action (cut (name ++ (text "/" ++ suffix_of m)))
unfolding derive_action path_action after_prefix text_eq
no_creation method name m = elim (Bool-cases (text_eq method (text "POST"))) [
  | inl e ↦ rw e refl
  | inr e ↦ rw e refl
]

-- The audit log records each mutating route of an app by its action and the app's name, for every
-- non-empty name without a slash, but for a rollback and a platform update: these are "unknown", and
-- of no app.
pub derive_action_audits :
    (method : Text) (c : ℕ) (name : Text) (m : Mutation)
    → has_char 47 (c ∷ name) ≡ false
    → derive_action method (path_of (c ∷ name) m) ≡ recorded (c ∷ name) m
derive_action_audits method c name m h =
    no_creation method (c ∷ name) m
    ∙ (rw (cut-append (c ∷ name) (suffix_of m) h) (suffix_recorded c name m))
