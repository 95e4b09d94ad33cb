-- ===== src/SystemRoutes/Handlers.antt =====
-- The routes of Controller/app/main.py on /system that only privileged roles may use.
use mendix_for_snowflake.Prelude.{
  ℕ, ◌||◌, Option, none, some, is_some, List, [], ◌∷◌, Text, lookup, strip, or_text, or_none,
  rpartition, get_or, if◌then◌else◌,
}
use mendix_for_snowflake.World.{Result, ok, raised}
use mendix_for_snowflake.LogJobs
use mendix_for_snowflake.LogJobs.{Job, JobStatus}
use mendix_for_snowflake.Sql
use mendix_for_snowflake.SystemRoutes.{
  restricted, logs_restricted, no_field_given, job_not_found, pool_not_found, unknown_service,
  logs_failed, pool_failed, Reply, answered, refused, crashed, Pool, Site, Platform, is_privileged,
  Request, system_logs, start_download, poll_download, show_pool, pg_info, update_pool,
  egress_status, egress_ack, egress_alert_config, days_until, Body, logs, download_started,
  download, pool, pg, egress, acknowledged, alert_config, Run, refuse, system_key, first_pool,
  some_recipients,
}

module _ (p : Platform) where
  served_logs : Text → Result Text → Reply Body
  served_logs target (ok out) = answered (logs out)
  served_logs target (raised e) = refused 502 (logs_failed target e)

  read_system_logs : Text → ℕ → Option (Text × Text) → Run
  unfolding served_logs
  read_system_logs target lines none site = (refused 404 (unknown_service target), site)
  read_system_logs target lines (some (service_name, container)) site =
      (served_logs target (p.service_logs service_name container lines), site)

  -- `get_system_logs`
  unfoldable pub get_system_logs : Text → ℕ → List Text → Run
  unfolding read_system_logs
  get_system_logs target lines roles =
      if is_privileged p roles
      then read_system_logs target lines (lookup target p.services)
      else refuse 403 logs_restricted

  -- `start_system_log_download`
  unfoldable pub start_system_log_download : ℕ → Text → Text → List Text → Run
  unfolding system_key
  start_system_log_download now job_id target roles site =
      if is_privileged p roles
      then (elim (lookup target p.services) [
        | none ↦ (refused 404 (unknown_service target), site)
        | some _ ↦ (
          answered (download_started job_id),
          record site {
            jobs = LogJobs.start_log_download now job_id (system_key target) site.jobs;
          },
        )
      ])
      else (refused 403 logs_restricted, site)

  found_job : Option Job → Reply Body
  found_job none = refused 404 job_not_found
  found_job (some job) = answered (download job)

  -- `get_system_log_download`
  unfoldable pub get_system_log_download : Text → Text → List Text → Run
  unfolding found_job system_key
  get_system_log_download target job_id roles site =
      if is_privileged p roles
      then (if is_some (lookup target p.services)
          then (found_job (LogJobs.get_log_job job_id (system_key target) site.jobs), site)
          else (refused 404 (unknown_service target), site))
      else (refused 403 logs_restricted, site)

  shown_pool : Result (List Pool) → Reply Body
  shown_pool (raised e) = crashed e
  shown_pool (ok []) = refused 404 pool_not_found
  shown_pool (ok (row ∷ rows)) = answered (pool (some row))

  -- `get_compute_pool`
  unfoldable pub get_compute_pool : List Text → Run
  unfolding shown_pool
  get_compute_pool roles site =
      if is_privileged p roles
      then (shown_pool (p.pools site), site)
      else (refused 403 restricted, site)

  split_host : Result Text → Reply Body
  split_host (raised e) = crashed e
  split_host (ok host_port) =
      let (host, port) = rpartition b':' host_port in
      answered (pg (or_text (some host) host_port) (or_none (some port)))

  -- `get_pg_info`
  unfoldable pub get_pg_info : List Text → Run
  unfolding split_host
  get_pg_info roles site =
      if is_privileged p roles then (split_host p.pg_host, site) else (refused 403 restricted, site)

  after_alter : Site → Result (List Pool) → Reply Body
  after_alter site (raised e) = refused 502 (pool_failed e)
  after_alter site (ok rows) = answered (pool (first_pool rows))

  -- The two calls under the handler: a statement, and the pool as it is then.
  resize : Text → Site → Result (Unit {0}) → Reply Body × Site
  unfolding after_alter first_pool
  resize sql site (raised e) = (refused 502 (pool_failed e), record site { sent = sql ∷ site.sent })
  resize sql site (ok _) =
      let altered = record site { sent = sql ∷ site.sent } in
      (after_alter altered (p.pools altered), altered)

  unfoldable pub send_alter : Option Text → Run
  unfolding resize
  send_alter none site = (after_alter site (p.pools site), site)
  send_alter (some sql) site = resize sql site (p.alter_pool sql)

  -- `update_compute_pool`
  unfoldable pub update_compute_pool : Option ℕ → Option ℕ → Option ℕ → List Text → Run
  unfolding send_alter
  update_compute_pool min_nodes max_nodes auto_suspend_secs roles site =
      if is_privileged p roles
      then (if is_some min_nodes || (is_some max_nodes || is_some auto_suspend_secs)
          then send_alter
              (Sql.alter_compute_pool p.compute_pool min_nodes max_nodes auto_suspend_secs) site
          else (refused 400 no_field_given, site))
      else (refused 403 restricted, site)

  -- `get_egress_status`
  unfoldable pub get_egress_status : ℕ → List Text → Run
  unfolding days_until
  get_egress_status now roles site =
      if is_privileged p roles
      then (
        answered (
            egress (record {
              min_expiry = site.store.min_expiry_at;
              days_remaining = days_until now site.store.min_expiry_at;
              ranges = site.store.ranges;
              acknowledged_through = site.store.ack_through;
              alert_integration = site.store.alert_integration;
              alert_recipients = get_or site.store.recipients [];
            })),
        site,
      )
      else (refused 403 restricted, site)

  -- `acknowledge_egress`
  unfoldable pub acknowledge_egress : ℕ → List Text → Run
  acknowledge_egress through_date roles site =
      if is_privileged p roles
      then (
        answered (acknowledged through_date),
        record site { store = record site.store { ack_through = some through_date } },
      )
      else (refused 403 restricted, site)

  -- `set_egress_alert_config`
  unfoldable pub set_egress_alert_config : Text → List Text → List Text → Run
  unfolding some_recipients
  set_egress_alert_config integration_name recipients roles site =
      let integration = or_none (some (strip integration_name)) in
      if is_privileged p roles
      then (
        answered (alert_config integration recipients),
        record site {
          store = record site.store {
            alert_integration = integration;
            recipients = some_recipients recipients;
          };
        },
      )
      else (refused 403 restricted, site)

  -- The routes that only privileged roles may use.
  unfoldable pub serve : Request → List Text → Run
  unfolding get_system_logs start_system_log_download get_system_log_download get_compute_pool
      get_pg_info update_compute_pool get_egress_status acknowledge_egress set_egress_alert_config
  serve (system_logs target lines) roles = get_system_logs target lines roles
  serve (start_download now job_id target) roles = start_system_log_download now job_id target roles
  serve (poll_download target job_id) roles = get_system_log_download target job_id roles
  serve show_pool roles = get_compute_pool roles
  serve pg_info roles = get_pg_info roles
  serve (update_pool min_nodes max_nodes auto_suspend_secs) roles =
      update_compute_pool min_nodes max_nodes auto_suspend_secs roles
  serve (egress_status now) roles = get_egress_status now roles
  serve (egress_ack through_date) roles = acknowledge_egress through_date roles
  serve (egress_alert_config integration_name recipients) roles =
      set_egress_alert_config integration_name recipients roles
