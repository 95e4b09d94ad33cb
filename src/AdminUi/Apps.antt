-- ===== src/AdminUi/Apps.antt =====
-- The decisions of Admin UI/app/pages/1_Apps.py: what it shows of an app, which buttons it enables, and
-- what it prefills. The widgets are Streamlit's; their values are inputs.
pub mod Buttons
pub mod Diffs
pub mod Prefill
pub mod Targets
use mendix_for_snowflake.Prelude.{
  ℕ, suc, ◌+◌, Bool, true, false, not, ◌&&◌, ◌||◌, Option, none, some, is_some, List, [], ◌∷◌, ◌++◌,
  Text, Dict, lookup, keys, merge, text, text_eq, or_text, truthy, truthy?, upper, mem, map, filter,
  any, sorted, distinct, if◌then◌else◌,
}
use mendix_for_snowflake.Models.{AppRecord, DeployStatus}
use mendix_for_snowflake.World.{ContainerRow}
use mendix_for_snowflake.History.{Entry, is_ready, first}
use mendix_for_snowflake.Routes.Read.{Health}

-- `last_deploy_status`, as the controller writes it
unfoldable pub status_text : DeployStatus → Text
status_text DeployStatus.not_deployed = text "NOT_DEPLOYED"
status_text DeployStatus.deploying = text "DEPLOYING"
status_text DeployStatus.suspending = text "SUSPENDING"
status_text DeployStatus.resuming = text "RESUMING"
status_text DeployStatus.suspended = text "SUSPENDED"
status_text DeployStatus.ready = text "READY"
status_text DeployStatus.failed = text "FAILED"

-- `_TRANSIENT`
abbrev pub transient : List Text
transient = text "DEPLOYING" ∷ text "SUSPENDING" ∷ text "RESUMING" ∷ []

-- `record.get("last_deploy_status") or "(none)"`
unfoldable pub deploy_status : AppRecord → Text
unfolding status_text
deploy_status r = elim r.last_deploy_status [ none ↦ text "(none)" | some s ↦ status_text s ]

unfoldable pub is_busy : AppRecord → Bool
unfolding deploy_status
is_busy r = mem (deploy_status r) transient

-- `_STATUS_ICON`
abbrev pub status_icon : Dict Text
status_icon =
    (text "RUNNING", text "🟢")
    ∷ (text "READY", text "🟢")
    ∷ (text "SUSPENDED", text "⚪")
    ∷ (text "NOT_DEPLOYED", text "⚪")
    ∷ (text "PENDING", text "🟡")
    ∷ (text "DEPLOYING", text "🟡")
    ∷ (text "SUSPENDING", text "🟡")
    ∷ (text "RESUMING", text "🟡")
    ∷ (text "FAILED", text "🔴")
    ∷ (text "INTERNAL_ERROR", text "🔴")
    ∷ (text "DELETING", text "🔴")
    ∷ []

-- `_status_badge`
unfoldable pub status_badge : Option Text → Text
status_badge status =
    if truthy? status
    then (elim (lookup (upper (or_text status [])) status_icon) [
      | none ↦ or_text status []
      | some icon ↦ icon ++ (text " " ++ or_text status [])
    ])
    else []

unfoldable pub is_errored : ContainerRow → Bool
is_errored c =
    not (mem (upper (or_text c.status [])) (text "READY" ∷ text "RUNNING" ∷ text "PENDING" ∷ []))

-- `_health_badge`
unfoldable pub health_badge : Option Health → Text
unfolding is_errored
health_badge none = []
health_badge (some h) =
    if h.is_ready
    then text "🟢 Healthy"
    else (if any is_errored h.containers
        then text "🔴 Container error"
        else (if text_eq (upper (or_text h.service_status [])) (text "RUNNING")
            then text "🟡 Starting"
            else []))

-- The lines of one constant, where `dumps` is `json.dumps`
unfoldable pub diff_of : (Text → Text) → Text → Option Text → Option Text → List Text
diff_of dumps k none none = []
diff_of dumps k (some v) none = (text "- " ++ (k ++ (text ": " ++ dumps v))) ∷ []
diff_of dumps k none (some w) = (text "+ " ++ (k ++ (text ": " ++ dumps w))) ∷ []
diff_of dumps k (some v) (some w) =
    if text_eq v w
    then []
    else (text "- " ++ (k ++ (text ": " ++ dumps v)))
      ∷ (text "+ " ++ (k ++ (text ": " ++ dumps w)))
      ∷ []

unfoldable pub diff_keys : (Text → Text) → Dict Text → Dict Text → List Text → List Text
unfolding diff_of
diff_keys dumps old new [] = []
diff_keys dumps old new (k ∷ ks) =
    diff_of dumps k (lookup k old) (lookup k new) ++ diff_keys dumps old new ks

-- `_diff_constants`
unfoldable pub diff_constants : (Text → Text) → Dict Text → Dict Text → List Text
unfolding diff_keys
diff_constants dumps old new = diff_keys dumps old new (sorted (distinct (keys old ++ keys new)))

-- `{**{m: "" for m in missing}, **current}`
unfoldable pub prefilled : List Text → Dict Text → Dict Text
prefilled missing current = merge (map (λ m. (m, text "")) missing) current

-- The buttons of the detail panel, with what the operator has entered beside each: whether the typed
-- name confirms, whether a box is ticked, whether there is anything to save.
pub data Button : Type 0 where
  redeploy suspend resume platform_update : Button
  save_constants save_role_mapping : Bool → Button
  remove_license remove_role_mapping : Bool → Button
  save_license : Text → Text → Button
  apply_spec apply_external_access roll_back delete : Text → Button

-- `save_disabled`, and likewise `mapping_save_disabled`
unfoldable pub save_disabled : AppRecord → Bool → Bool
unfolding is_busy
save_disabled r changed = is_busy r || not changed

unfoldable pub license_disabled : AppRecord → Text → Text → Bool
unfolding is_busy
license_disabled r license_id license_key =
    is_busy r || (not (truthy license_id) || not (truthy license_key))

-- A removal, of the license or of the role mapping
unfoldable pub removal_disabled : AppRecord → Bool → Bool
unfolding is_busy
removal_disabled r confirmed = is_busy r || not confirmed

-- An action that is confirmed by typing the app's name
unfoldable pub typed_disabled : AppRecord → Text → Bool
unfolding is_busy
typed_disabled r typed = not (text_eq typed r.name) || is_busy r

-- `disabled=` of a button, where the service's status is given
unfoldable pub is_disabled : AppRecord → Text → Button → Bool
unfolding is_busy save_disabled license_disabled removal_disabled typed_disabled
is_disabled r svc_status redeploy = is_busy r
is_disabled r svc_status suspend = text_eq svc_status (text "SUSPENDED") || is_busy r
is_disabled r svc_status resume = text_eq svc_status (text "RUNNING") || is_busy r
is_disabled r svc_status (delete typed) = not (text_eq typed r.name)
is_disabled r svc_status platform_update = is_busy r
is_disabled r svc_status (save_constants changed) = save_disabled r changed
is_disabled r svc_status (save_license license_id license_key) =
    license_disabled r license_id license_key
is_disabled r svc_status (remove_license confirmed) = removal_disabled r confirmed
is_disabled r svc_status (save_role_mapping changed) = save_disabled r changed
is_disabled r svc_status (remove_role_mapping confirmed) = removal_disabled r confirmed
is_disabled r svc_status (apply_spec typed) = typed_disabled r typed
is_disabled r svc_status (apply_external_access typed) = typed_disabled r typed
is_disabled r svc_status (roll_back typed) = typed_disabled r typed

-- The newest READY row of what `list_history` answers
unfoldable pub rollback_target : List Entry → Option Entry
rollback_target history = first (filter (λ h. is_ready h.status) history)

-- A row of the results of a bulk action: the name, and the error where it was rejected.
abbrev pub BulkResult : Type 0
BulkResult = Text × Option Text

-- `_run_bulk`, where `fn` is the call for one app, with the exception's text
unfoldable pub run_bulk : (Text → Option Text) → List Text → List BulkResult
run_bulk fn names = map (λ n. (n, fn n)) names

-- `flagged_names` of `_bulk_panel`
unfoldable pub flagged_names : List AppRecord → List Text → List Text
flagged_names apps names =
    map (λ a. a.name)
      (filter (λ a. a.platform_update_available) (filter (λ a. mem a.name names) apps))
