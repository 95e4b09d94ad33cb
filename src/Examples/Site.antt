-- ===== src/Examples/Site.antt =====
-- The routes of the system, the audit log and the table of apps at concrete inputs.
use mendix_for_snowflake.Prelude.{
  ℕ, ◌≡◌, arith, refl, true, false, Option, none, some, List, [], ◌∷◌, Text, text, All, any, mem,
  text_eq, upper, map,
}
use mendix_for_snowflake.Registry.{Field}
use mendix_for_snowflake.Registry.Columns.{view}
use mendix_for_snowflake.Registry.Matching.{matching}
use mendix_for_snowflake.Registry.Refinement.{
  Statement, create, update, delete, run_all, meaning_all, nothing, AllTakeFree, listed, found_view,
  registry_refines,
}
use mendix_for_snowflake.EgressWatch.{Store, Faults, maybe_send_alert}
use mendix_for_snowflake.World.{ok}
use mendix_for_snowflake.SystemRoutes.{
  Platform, Site, egress_ack, refused, restricted, is_privileged,
}
use mendix_for_snowflake.SystemRoutes.Handlers.{serve}
use mendix_for_snowflake.SystemRoutes.Signals.{get_external_access_slots, get_egress_warning}
use mendix_for_snowflake.SystemRoutes.Guards.{system_routes_guarded}
use mendix_for_snowflake.SystemRoutes.Egress.{
  after_ack, expiring, watch_of, acknowledgement_silences,
}
use mendix_for_snowflake.Activity.{Action}
use mendix_for_snowflake.Activity.Log
use mendix_for_snowflake.Activity.Log.{Row, Hop, row_for, is_mutation, list_activity}
use mendix_for_snowflake.Activity.Log.Trust.{IsOwn, list_activity_scoped}
use mendix_for_snowflake.Examples.Data.{settings, shop}

abbrev store : Store
store = record {
  min_expiry_at = some 950400;
  ranges = 950400 ∷ [];
  alert_integration = some (text "MAILER");
  recipients = some (text "ops@example.com" ∷ []);
  ack_through = none;
  last_alert_sent = none;
}

abbrev site : Site
site = record { store = store; jobs = []; sent = [] }

abbrev pub platform : Platform
platform = record {
  privileged = settings.privileged;
  compute_pool = text "POOL";
  services = (text "controller", (text "MENDIX_DEPLOY_CONTROLLER", text "controller")) ∷ [];
  bound_eai_slots = settings.bound_eai_slots;
  pg_host = ok (text "pg:5432");
  service_logs = λ service_name container lines. ok [];
  pools = λ s. ok [];
  alter_pool = λ sql. ok tt;
}

abbrev hr : List Text
hr = text "HR" ∷ []

abbrev admins : List Text
admins = text "ACCOUNTADMIN" ∷ []

hr_unprivileged : is_privileged platform hr ≡ false
unfolding is_privileged any mem text_eq
hr_unprivileged = refl

admins_privileged : is_privileged platform admins ≡ true
unfolding is_privileged any mem text_eq
admins_privileged = refl

system_routes_guarded_example :
    (serve platform (egress_ack 11) hr site ≡ (refused 403 restricted, site))
    × All (λ slot. slot.integration_name ≡ none) (get_external_access_slots platform hr)
system_routes_guarded_example =
    system_routes_guarded platform hr (egress_ack 11) site hr_unprivileged

abbrev no_faults : Faults
no_faults = record {
  set_expiry = false;
  set_ranges = false;
  get_config = false;
  send_email = false;
  set_last_sent = false;
}

-- The expiry on day 11 is acknowledged, and one on day 12 is not.
acknowledgement_silences_example :
    ((get_egress_warning 900000 (expiring (some 950400) (after_ack platform admins site 11))).0
      ≡ false)
    × ((maybe_send_alert no_faults 900000
          (some 950400)
          (watch_of (after_ack platform admins site 11) [])).sent
        ≡ [])
    × ((get_egress_warning 900000 (expiring (some 1036800) (after_ack platform admins site 11))).0
        ≡ true)
acknowledgement_silences_example =
    acknowledgement_silences platform admins site 11 950400 1036800 900000 no_faults []
      admins_privileged (omega arith) (omega arith) (omega arith)

-- A request with a caller's token that claims another operator.
abbrev suspension : Hop
suspension = record {
  request = record {
    caller_token = some (text "token");
    operator = some (text "SOMEONE");
    operator_roles = none;
    internal_auth = none;
  };
  method = text "POST";
  path = text "/apps/Shop/suspend";
}

abbrev digest : Text → Text
digest token = token

abbrev session : ℕ → Text → Option (Option Text × List Text)
session now token = some (some (text "MALLORY"), [])

abbrev other_suspension : Hop
other_suspension = record suspension {
  request = record {
    caller_token = none;
    operator = some (text "SOMEONE");
    operator_roles = some (text "HR");
    internal_auth = some (text "guess");
  };
}

abbrev log : List Row
log =
    record {
      operator = text "ALICE";
      action = Action.suspend;
      app_name = some (text "Shop");
      path = text "/apps/Shop/suspend";
      method = text "POST";
      status = 200;
      result = Log.accepted;
    }
    ∷ []

abbrev sales : List Text
sales = text "SALES" ∷ []

sales_unprivileged : any (λ r. mem r settings.privileged) sales ≡ false
unfolding any mem text_eq
sales_unprivileged = refl

list_activity_scoped_example :
    All
      (IsOwn settings.privileged sales (shop ∷ []))
      (list_activity settings.privileged none none 100 sales (shop ∷ []) log)
list_activity_scoped_example =
    list_activity_scoped settings.privileged sales none none 100 (shop ∷ []) log sales_unprivileged

-- A registration, an update by another spelling of the name, and a deletion of another app.
abbrev statements : List Statement
statements =
    create shop
    ∷ update (text "SHOP") (Field.owner_role (text "hr") ∷ [])
    ∷ delete (text "other")
    ∷ []

statements_free : AllTakeFree statements nothing
statements_free = (refl, (tt, (tt, tt)))

registry_refines_example :
    let rows = run_all statements [] in
    (map view (matching (text "sHOP") rows)
      ≡ listed (meaning_all statements nothing (upper (text "sHOP"))))
    × (found_view (text "sHOP") rows ≡ meaning_all statements nothing (upper (text "sHOP")))
registry_refines_example = registry_refines statements (text "sHOP") statements_free
