-- ===== src/SystemRoutes/Guards.antt =====
-- What a caller without a privileged role gets from the /system routes.
use mendix_for_snowflake.Prelude.{◌≡◌, refl, false, none, List, [], ◌∷◌, Text, Dict, All, map}
use mendix_for_snowflake.Requests.{eai_slot_keys}
use mendix_for_snowflake.SystemRoutes.{
  Platform, Site, Request, system_logs, start_download, poll_download, show_pool, pg_info,
  update_pool, egress_status, egress_ack, egress_alert_config, Refusal, restricted, logs_restricted,
  refused, is_privileged,
}
use mendix_for_snowflake.SystemRoutes.Handlers.{
  serve, get_system_logs, start_system_log_download, get_system_log_download, get_compute_pool,
  get_pg_info, update_compute_pool, get_egress_status, acknowledge_egress, set_egress_alert_config,
}
use mendix_for_snowflake.SystemRoutes.Signals.{slot_of, get_external_access_slots}

abbrev pub refusal_of : Request → Refusal
refusal_of (system_logs _ _) = logs_restricted
refusal_of (start_download _ _ _) = logs_restricted
refusal_of (poll_download _ _) = logs_restricted
refusal_of _ = restricted

slots_unnamed :
    (bound : Dict Text) (keys : List Text)
    → All (λ slot. slot.integration_name ≡ none) (map (slot_of false bound) keys)
unfolding slot_of
slots_unnamed bound [] = tt
slots_unnamed bound (key ∷ keys) = (refl, slots_unnamed bound keys)

module _ (p : Platform) (roles : List Text) where
  refused_by :
      (request : Request) (site : Site)
      → is_privileged p roles ≡ false
      → serve p request roles site ≡ (refused 403 (refusal_of request), site)
  unfolding serve
  refused_by (system_logs target lines) site h = rw (h, get_system_logs) refl
  refused_by (start_download now job_id target) site h = rw (h, start_system_log_download) refl
  refused_by (poll_download target job_id) site h = rw (h, get_system_log_download) refl
  refused_by show_pool site h = rw (h, get_compute_pool) refl
  refused_by pg_info site h = rw (h, get_pg_info) refl
  refused_by (update_pool a b c) site h = rw (h, update_compute_pool) refl
  refused_by (egress_status now) site h = rw (h, get_egress_status) refl
  refused_by (egress_ack through_date) site h = rw (h, acknowledge_egress) refl
  refused_by (egress_alert_config a b) site h = rw (h, set_egress_alert_config) refl

  -- A caller without a privileged role is answered 403 by each restricted route of the system, which
  -- then changes nothing, and is shown the slots of external access without the names of their
  -- integrations.
  pub system_routes_guarded :
      (request : Request) (site : Site)
      → is_privileged p roles ≡ false
      → (serve p request roles site ≡ (refused 403 (refusal_of request), site))
        × All (λ slot. slot.integration_name ≡ none) (get_external_access_slots p roles)
  unfolding get_external_access_slots
  system_routes_guarded request site h =
      (refused_by request site h, rw h (slots_unnamed p.bound_eai_slots eai_slot_keys))
