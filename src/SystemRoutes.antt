-- ===== src/SystemRoutes.antt =====
-- The /system routes of Controller/app/main.py, and the downloads of an app's logs: what they answer
-- and what they change. They share a state of their own, beside that of the apps.
pub mod Guards
pub mod Handlers
pub mod Signals
pub mod Egress
pub mod PgInfo
use mendix_for_snowflake.Prelude.{
  ℕ, ◌+◌, ◌-◌, ◌/◌, Bool, true, false, not, ◌&&◌, ◌||◌, Option, none, some, is_some, List, [], ◌∷◌,
  ◌++◌, Text, Dict, lookup, text, strip, truthy, mem, any, or_text, or_none, has_char, leb, ltb,
  upper, rpartition, get_or, map, if◌then◌else◌,
}
use mendix_for_snowflake.World.{Result, ok, raised, error, Exn}
use mendix_for_snowflake.LogJobs
use mendix_for_snowflake.LogJobs.{Job, JobStatus}
use mendix_for_snowflake.EgressWatch.{Store, day_secs, day_of, is_acknowledged}
use mendix_for_snowflake.Requests.{eai_slot_keys}
use mendix_for_snowflake.Sql

-- The `detail` of a refusal.
pub data Refusal : Type 0 where
  restricted logs_restricted no_field_given job_not_found pool_not_found : Refusal
  unknown_service : Text → Refusal
  logs_failed : Text → Exn → Refusal
  pool_failed : Exn → Refusal

-- An answer, an `HTTPException`, or an exception that is not handled.
pub data Reply {ℓ} (A : Type ℓ) : Type ℓ where
  answered : A → Reply A
  refused : ℕ → Refusal → Reply A
  crashed : Exn → Reply A

-- A row of SHOW COMPUTE POOLS, by the columns that `get_compute_pool` takes from it.
pub record Pool : Type 0 where
  pub name : Option Text
  pub state : Option Text
  pub min_nodes : Option ℕ
  pub max_nodes : Option ℕ
  pub instance_family : Option Text
  pub auto_suspend_secs : Option ℕ
  pub num_services : Option ℕ

-- The settings, the downloads of logs, and the ALTER COMPUTE POOL statements sent, the newest first.
pub record Site : Type 0 where
  pub store : Store
  pub jobs : Dict Job
  pub sent : List Text

-- `PRIVILEGED_ROLES`, `COMPUTE_POOL`, `SYSTEM_SERVICES`, `BOUND_EAI_SLOTS`, what `_pg_host` answers,
-- and what Snowflake answers.
pub record Platform : Type 0 where
  pub privileged : List Text
  pub compute_pool : Text
  pub services : Dict (Text × Text)
  pub bound_eai_slots : Dict Text
  pub pg_host : Result Text
  pub service_logs : Text → Text → ℕ → Result Text
  pub pools : Site → Result (List Pool)
  pub alter_pool : Text → Result (Unit {0})

-- `bool(roles & PRIVILEGED_ROLES)`
unfoldable pub is_privileged : Platform → List Text → Bool
is_privileged p roles = any (λ r. mem r p.privileged) roles

-- A request on /system, with what the server adds to it: its time, and the id of a new download.
pub data Request : Type 0 where
  system_logs : Text → ℕ → Request
  start_download : ℕ → Text → Text → Request
  poll_download : Text → Text → Request
  show_pool pg_info : Request
  update_pool : Option ℕ → Option ℕ → Option ℕ → Request
  egress_status : ℕ → Request
  egress_ack : ℕ → Request
  egress_alert_config : Text → List Text → Request

-- The whole days until a time, rounded down: some are left, or it has passed.
pub data Days : Type 0 where
  left overdue : ℕ → Days

-- `days_remaining`
unfoldable pub days_remaining : ℕ → ℕ → Days
days_remaining now expiry =
    if leb now expiry
    then left ((expiry - now) / day_secs)
    else overdue ((now - expiry + (day_secs - 1)) / day_secs)

unfoldable pub days_until : ℕ → Option ℕ → Option Days
unfolding days_remaining
days_until now none = none
days_until now (some expiry) = some (days_remaining now expiry)

pub record EgressStatus : Type 0 where
  pub min_expiry : Option ℕ
  pub days_remaining : Option Days
  pub ranges : List ℕ
  pub acknowledged_through : Option ℕ
  pub alert_integration : Option Text
  pub alert_recipients : List Text

pub data Body : Type 0 where
  logs : Text → Body
  download_started : Text → Body
  download : Job → Body
  pool : Option Pool → Body
  pg : Text → Option Text → Body
  egress : EgressStatus → Body
  acknowledged : ℕ → Body
  alert_config : Option Text → List Text → Body

abbrev pub Run : Type 0
Run = Site → Reply Body × Site

abbrev pub refuse : ℕ → Refusal → Run
refuse status why site = (refused status why, site)

-- The key that a download of a system log is kept under.
unfoldable pub system_key : Text → Text
system_key target = text "system:" ++ target

-- The first row, `none` where there is no pool of the name.
unfoldable pub first_pool : List Pool → Option Pool
first_pool [] = none
first_pool (row ∷ rows) = some row

-- `recipients or None`
unfoldable pub some_recipients : List Text → Option (List Text)
some_recipients [] = none
some_recipients (r ∷ rs) = some (r ∷ rs)
