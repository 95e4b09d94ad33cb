-- ===== src/AdminUi/Calls.antt =====
-- The methods of `ControllerClient` in Admin UI/app/controller_client.py, by the method and the path of
-- the request that each sends.
pub mod Audited
use mendix_for_snowflake.Prelude.{◌++◌, Text, text}

pub data Call : Type 0 where
  list_apps create_app list_activity get_compute_pool get_external_access_slots : Call
  get_pg_info update_compute_pool get_egress_status ack_egress set_egress_alert_config : Call
  get_egress_warning : Call
  get_app get_progress get_health get_logs start_log_download trigger_deploy list_history :
      Text → Call
  rollback update_constants update_spec apply_platform_update update_license : Text → Call
  delete_license update_role_mapping delete_role_mapping suspend resume delete_app : Text → Call
  update_external_access get_system_logs start_system_log_download : Text → Call
  get_log_download get_system_log_download : Text → Text → Call

-- `f"/apps/{name}{suffix}"`
abbrev pub app_path : Text → Text → Text
app_path name suffix = text "/apps/" ++ (name ++ suffix)

abbrev pub system_path : Text → Text → Text
system_path target suffix = text "/system/logs/" ++ (target ++ suffix)

abbrev get_ : Text → Text × Text
get_ path = (text "GET", path)

abbrev post : Text → Text × Text
post path = (text "POST", path)

abbrev put : Text → Text × Text
put path = (text "PUT", path)

abbrev remove : Text → Text × Text
remove path = (text "DELETE", path)

unfoldable pub route_of : Call → Text × Text
route_of list_apps = get_ (text "/apps")
route_of (get_app name) = get_ (app_path name (text ""))
route_of (get_progress name) = get_ (app_path name (text "/progress"))
route_of (get_health name) = get_ (app_path name (text "/health"))
route_of create_app = post (text "/apps")
route_of (get_logs name) = get_ (app_path name (text "/logs"))
route_of (get_system_logs target) = get_ (system_path target (text ""))
route_of (start_log_download name) = post (app_path name (text "/logs/download"))
route_of (get_log_download name job_id) = get_ (app_path name (text "/logs/download/" ++ job_id))
route_of (start_system_log_download target) = post (system_path target (text "/download"))
route_of (get_system_log_download target job_id) =
    get_ (system_path target (text "/download/" ++ job_id))
route_of (trigger_deploy name) = post (app_path name (text "/trigger-deploy"))
route_of (list_history name) = get_ (app_path name (text "/history"))
route_of (rollback name) = post (app_path name (text "/rollback"))
route_of (update_constants name) = put (app_path name (text "/constants"))
route_of (update_spec name) = put (app_path name (text "/spec"))
route_of (apply_platform_update name) = post (app_path name (text "/platform-update"))
route_of (update_license name) = put (app_path name (text "/license"))
route_of (delete_license name) = remove (app_path name (text "/license"))
route_of (update_role_mapping name) = put (app_path name (text "/role-mapping"))
route_of (delete_role_mapping name) = remove (app_path name (text "/role-mapping"))
route_of list_activity = get_ (text "/activity")
route_of (suspend name) = post (app_path name (text "/suspend"))
route_of (resume name) = post (app_path name (text "/resume"))
route_of (delete_app name) = remove (app_path name (text ""))
route_of get_compute_pool = get_ (text "/system/compute-pool")
route_of get_external_access_slots = get_ (text "/system/external-access")
route_of (update_external_access name) = put (app_path name (text "/external-access"))
route_of get_pg_info = get_ (text "/system/pg-info")
route_of update_compute_pool = (text "PATCH", text "/system/compute-pool")
route_of get_egress_status = get_ (text "/system/egress-status")
route_of ack_egress = post (text "/system/egress-ack")
route_of set_egress_alert_config = post (text "/system/egress-alert-config")
route_of get_egress_warning = get_ (text "/system/egress-warning")
