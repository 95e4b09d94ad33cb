-- ===== src/Activity.antt =====
-- Controller/app/activity.py: what the audit log calls a request.
pub mod Audit
pub mod Log
use mendix_for_snowflake.Prelude.{
  ℕ, Bool, true, false, ◌&&◌, ◌||◌, Option, none, some, List, [], ◌∷◌, ◌++◌, Text, Dict, lookup,
  text, text_eq, truthy, ◌==◌, if◌then◌else◌,
}
use mendix_for_snowflake.Mutations.{Mutation}

pub data Action : Type 0 where
  create deploy suspend resume update_constants update_spec update_license : Action
  update_role_mapping update_external_access delete resize_compute_pool : Action
  acknowledge_egress set_egress_alert_config unknown : Action

-- The text before the first slash, and what is behind it.
unfoldable pub cut : Text → Text × Option Text
cut [] = ([], none)
cut (c ∷ cs) = let (piece, rest) = cut cs in if c == 47 then ([], some cs) else (c ∷ piece, rest)

unfoldable pub after_prefix : Text → Text → Option Text
after_prefix [] a = some a
after_prefix (p ∷ ps) [] = none
after_prefix (p ∷ ps) (c ∷ cs) = if p == c then after_prefix ps cs else none

-- `literal$`, which also takes a newline at the end
unfoldable pub ends_as : Text → Text → Bool
ends_as literal a = text_eq a literal || text_eq a (literal ++ text "\n")

unfoldable pub first_match : Text → Dict Action → Option Action
unfolding ends_as
first_match a [] = none
first_match a ((literal, action) ∷ ps) =
    let rest = first_match a ps in if ends_as literal a then some action else rest

-- `_ACTION_PATTERNS` of the form `^/apps/([^/]+)/..$`, by what stands behind the name
abbrev pub app_patterns : Dict Action
app_patterns =
    (text "trigger-deploy", Action.deploy)
    ∷ (text "suspend", Action.suspend)
    ∷ (text "resume", Action.resume)
    ∷ (text "constants", Action.update_constants)
    ∷ (text "spec", Action.update_spec)
    ∷ (text "license", Action.update_license)
    ∷ (text "role-mapping", Action.update_role_mapping)
    ∷ (text "external-access", Action.update_external_access)
    ∷ []

-- `_ACTION_PATTERNS` without a name
abbrev pub system_patterns : Dict Action
system_patterns =
    (text "/system/compute-pool", Action.resize_compute_pool)
    ∷ (text "/system/egress-ack", Action.acknowledge_egress)
    ∷ (text "/system/egress-alert-config", Action.set_egress_alert_config)
    ∷ []

abbrev pub named : Text → Option Action → Action × Option Text
named name none = (Action.unknown, none)
named name (some action) = (action, some name)

-- The patterns with a name, on what stands behind `/apps/`.
unfoldable pub app_action : Text × Option Text → Action × Option Text
unfolding first_match
app_action ([], rest) = (Action.unknown, none)
app_action (c ∷ name, none) = (Action.delete, some (c ∷ name))
app_action (c ∷ name, some suffix) = named (c ∷ name) (first_match suffix app_patterns)

abbrev system_action : Option Action → Action × Option Text
system_action none = (Action.unknown, none)
system_action (some action) = (action, none)

unfoldable pub path_action : Text → Option Text → Action × Option Text
unfolding app_action
path_action path (some rest) = app_action (cut rest)
path_action path none = system_action (first_match path system_patterns)

-- `derive_action`
unfoldable pub derive_action : Text → Text → Action × Option Text
unfolding path_action
derive_action method path =
    if text_eq method (text "POST") && text_eq path (text "/apps")
    then (Action.create, none)
    else path_action path (after_prefix (text "/apps/") path)

-- The path of a mutating route, behind the name of the app.
abbrev pub suffix_of : Mutation → Text
suffix_of Mutation.trigger_deploy = text "trigger-deploy"
suffix_of Mutation.apply_platform_update = text "platform-update"
suffix_of Mutation.delete_license = text "license"
suffix_of Mutation.delete_role_mapping = text "role-mapping"
suffix_of Mutation.suspend_app = text "suspend"
suffix_of Mutation.resume_app = text "resume"
suffix_of (Mutation.rollback_app _) = text "rollback"
suffix_of (Mutation.update_constants _) = text "constants"
suffix_of (Mutation.update_role_mapping _) = text "role-mapping"
suffix_of (Mutation.update_spec _ _) = text "spec"
suffix_of (Mutation.update_external_access _) = text "external-access"
suffix_of (Mutation.update_license _) = text "license"

abbrev pub path_of : Text → Mutation → Text
path_of name m = text "/apps/" ++ (name ++ (text "/" ++ suffix_of m))
