-- ===== src/AdminUi/Calls/Audited.antt =====
-- What the audit log records of the UI's calls.
use mendix_for_snowflake.Prelude.{
  ◌≡◌, ◌≢◌, true, false, Option, none, some, [], ◌∷◌, Text, has_char, ℕ, List, ltb, if◌then◌else◌,
}
use mendix_for_snowflake.Activity.{Action, derive_action}
use mendix_for_snowflake.Auth.{Request}
use mendix_for_snowflake.Activity.Log.{is_mutation, Hop, Row, accepted, rejected}
use mendix_for_snowflake.AdminUi.Calls.{Call, route_of}

-- What is recorded of each call that the middleware logs, and of no other.
abbrev pub recorded : Call → Option (Action × Option Text)
recorded Call.create_app = some (Action.create, none)
recorded Call.update_compute_pool = some (Action.resize_compute_pool, none)
recorded Call.ack_egress = some (Action.acknowledge_egress, none)
recorded Call.set_egress_alert_config = some (Action.set_egress_alert_config, none)
recorded (Call.trigger_deploy name) = some (Action.deploy, some name)
recorded (Call.update_constants name) = some (Action.update_constants, some name)
recorded (Call.update_spec name) = some (Action.update_spec, some name)
recorded (Call.update_license name) = some (Action.update_license, some name)
recorded (Call.delete_license name) = some (Action.update_license, some name)
recorded (Call.update_role_mapping name) = some (Action.update_role_mapping, some name)
recorded (Call.delete_role_mapping name) = some (Action.update_role_mapping, some name)
recorded (Call.update_external_access name) = some (Action.update_external_access, some name)
recorded (Call.suspend name) = some (Action.suspend, some name)
recorded (Call.resume name) = some (Action.resume, some name)
recorded (Call.delete_app name) = some (Action.delete, some name)
recorded (Call.rollback name) = some (Action.unknown, none)
recorded (Call.apply_platform_update name) = some (Action.unknown, none)
recorded (Call.start_log_download name) = some (Action.unknown, none)
recorded (Call.start_system_log_download target) = some (Action.unknown, none)
recorded _ = none

-- What the middleware logs of a request.
abbrev pub logged : Text × Text → Option (Action × Option Text)
logged (method, path) = elim (is_mutation method) [
  | true ↦ some (derive_action method path)
  | false ↦ none
]

-- The app that a call names, if any, has a name that is not empty and has no slash.
abbrev pub IsName : Text → Type 0
IsName name = (name ≢ []) × (has_char 47 name ≡ false)

abbrev pub NamesApp : Call → Type 0
NamesApp (Call.trigger_deploy name) = IsName name
NamesApp (Call.update_constants name) = IsName name
NamesApp (Call.update_spec name) = IsName name
NamesApp (Call.update_license name) = IsName name
NamesApp (Call.delete_license name) = IsName name
NamesApp (Call.update_role_mapping name) = IsName name
NamesApp (Call.delete_role_mapping name) = IsName name
NamesApp (Call.update_external_access name) = IsName name
NamesApp (Call.suspend name) = IsName name
NamesApp (Call.resume name) = IsName name
NamesApp (Call.delete_app name) = IsName name
NamesApp (Call.rollback name) = IsName name
NamesApp (Call.apply_platform_update name) = IsName name
NamesApp (Call.start_log_download name) = IsName name
NamesApp _ = Unit

-- A request of the UI, which names its operator
abbrev pub hop_of : Request → Call → Hop
hop_of request call = record {
  request = request;
  method = (route_of call).0;
  path = (route_of call).1;
}

-- The row of what is recorded of a call
abbrev pub audit_row : Text → Call → ℕ → Action × Option Text → Row
audit_row operator call status (action, app_name) = record {
  operator = operator;
  action = action;
  app_name = app_name;
  path = (route_of call).1;
  method = (route_of call).0;
  status = status;
  result = if ltb status 400 then accepted else rejected status;
}

-- The log with what is recorded of a call
abbrev pub with_record : Text → Call → ℕ → Option (Action × Option Text) → List Row → List Row
with_record operator call status none log = log
with_record operator call status (some told) log = audit_row operator call status told ∷ log
