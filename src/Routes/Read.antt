-- ===== src/Routes/Read.antt =====
-- The routes of Controller/app/main.py that only read: the listing, one app, its health, progress,
-- history and logs.
pub mod Hidden
use mendix_for_snowflake.Prelude.{
  ℕ, upper, Bool, true, false, ◌&&◌, not, Option, none, some, List, [], ◌∷◌, Text, Dict, lookup,
  text, text_eq, opt_eq, has_char, truthy, get_or, if◌then◌else◌,
}
use mendix_for_snowflake.Models.{AppRecord}
use mendix_for_snowflake.Registry.{Rows, Field}
use mendix_for_snowflake.Auth.{authorize}
use mendix_for_snowflake.History
use mendix_for_snowflake.History.{Entry}
use mendix_for_snowflake.Names.{Settings}
use mendix_for_snowflake.World.{
  World, Environment, Exec, ContainerRow, Call, Phase, Reason, Result, ok, raised, http, raise,
  call, gets, called, pure, ◌>>=◌, ◌>>◌,
}
use mendix_for_snowflake.Statements.{list_apps, update_app}
use mendix_for_snowflake.Poll.{show_service_status, show_service_containers, containers_all_ready}
use mendix_for_snowflake.Respec.{get_service_endpoint}
use mendix_for_snowflake.Routes.{record_for_read}

-- `_endpoint_is_real`
unfoldable pub endpoint_is_real : Option Text → Bool
endpoint_is_real none = false
endpoint_is_real (some url) = truthy url && (not (has_char b' ' url) && has_char b'.' url)

-- An app in a listing, with the status of its service.
pub record Listed : Type 0 where
  pub app : AppRecord
  pub service_status : Option Text

-- `health`
pub record Health : Type 0 where
  pub service_status : Option Text
  pub containers : List ContainerRow
  pub is_ready : Bool

module _ (env : Environment) (s : Settings) where
  heal : AppRecord → Option Text → Exec (Option Text)
  heal a none = pure none
  heal a (some []) = pure none
  heal a (some (c ∷ url)) = do
    update_app env a.name (Field.endpoint_url (some (c ∷ url)) ∷ [])
    pure (some (c ∷ url))

  -- `_effective_endpoint`
  unfoldable pub effective_endpoint : AppRecord → Option Text → Exec (Option Text)
  unfolding heal
  effective_endpoint a svc_status =
      if endpoint_is_real a.endpoint_url
      then pure a.endpoint_url
      else (if opt_eq svc_status (some (text "RUNNING"))
          then get_service_endpoint env s a.service_name >>= heal a
          else pure none)

  abbrev pub row_of : AppRecord → Option Text → Option Text → Listed
  row_of a svc_status url = record {
    app = record a { endpoint_url = url };
    service_status = svc_status;
  }

  -- One app, before the others.
  unfoldable pub list_one : AppRecord → Option Text → Exec (List Listed) → Exec (List Listed)
  list_one a svc_status rest = effective_endpoint a svc_status >>= λ url.
      rest >>= λ others. pure (row_of a svc_status url ∷ others)

  unfoldable pub list_each : List Text → Dict Text → Rows → Exec (List Listed)
  unfolding list_one
  list_each roles statuses [] = pure []
  list_each roles statuses (a ∷ rows) =
      let rest = list_each roles statuses rows in
      if authorize s.privileged (some a.owner_role) roles
      then list_one a (lookup a.service_name statuses) rest
      else rest

  -- `sf.show_all_service_statuses`, `none` where it raises
  unfoldable pub show_statuses : (World → Option (Dict Text)) → Exec (Dict Text)
  show_statuses statuses w = (ok (get_or (statuses w) []), called env Call.show_services w)

  -- `GET /apps`
  unfoldable pub list_visible : (World → Option (Dict Text)) → List Text → Exec (List Listed)
  unfolding list_each show_statuses
  list_visible statuses roles = do
    rows ← list_apps env
    found ← show_statuses statuses
    list_each roles found rows

  -- `GET /apps/{name}/health`
  unfoldable pub app_health : Text → List Text → Exec Health
  app_health name roles = do
    r ← record_for_read env s name roles
    svc_status ← (λ w. let (x, w') = show_service_status env r.service_name w in (ok x, w'))
    rows ← (λ w. let (x, w') = show_service_containers env r.service_name w in (ok x, w'))
    pure (record {
      service_status = svc_status;
      containers = rows;
      is_ready = containers_all_ready rows;
    })

  -- `GET /apps/{name}`
  unfoldable pub get_app : Text → List Text → Exec Listed
  get_app name roles = do
    r ← record_for_read env s name roles
    svc_status ← (λ w. let (x, w') = show_service_status env r.service_name w in (ok x, w'))
    url ← effective_endpoint r svc_status
    pure (row_of r svc_status url)

  -- `GET /apps/{name}/progress`
  unfoldable pub get_app_progress : Text → List Text → Exec (Option Phase)
  get_app_progress name roles = do
    record_for_read env s name roles
    gets (λ w. lookup (upper name) w.progress)

  -- `GET /apps/{name}/history`
  unfoldable pub get_app_history : Text → ℕ → List Text → Exec (List Entry)
  get_app_history name limit roles = do
    record_for_read env s name roles
    call env (Call.select_history name)
    gets (λ w. History.list_for_app name limit w.history)

  served_logs : Text → Result Text → Exec Text
  served_logs name (ok logs) = pure logs
  served_logs name (raised e) = raise (http 502 (Reason.logs_unreadable name))

  -- `GET /apps/{name}/logs`, where `read` is `get_service_logs` of a service, for the container
  -- mendix-app
  unfoldable pub get_logs : (World → Text → ℕ → Result Text) → Text → ℕ → List Text → Exec Text
  unfolding served_logs
  get_logs read name lines roles = do
    r ← record_for_read env s name roles
    out ← gets (λ w. read w r.service_name lines)
    served_logs name out
