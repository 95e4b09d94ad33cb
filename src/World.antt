-- ===== src/World.antt =====
-- The controller's state and its calls to Snowflake. An action runs on the state and returns, or
-- raises, beside the state that it leaves: what was written before an exception stays written.
use mendix_for_snowflake.Prelude.{
  Bool, true, false, ℕ, ◌+◌, Option, none, some, List, ◌∷◌, Text, Dict,
}
use mendix_for_snowflake.Models.{DeployStatus}
use mendix_for_snowflake.Registry.{Rows, Field}
use mendix_for_snowflake.History.{History}
use mendix_for_snowflake.SpecBuilder.{Spec}

-- `detail` of an `HTTPException`: the messages, with what they name.
pub data Reason : Type 0 where
  app_not_found not_authorized already_exists no_pad_deployed no_pad_staged : Text → Reason
  in_progress : Text → DeployStatus → Reason
  owner_role_not_held : Text → Reason
  masked_values new_masked_values missing_values slots_not_bound unknown_userroles :
      List Text → Reason
  no_fields_given no_platform_update no_successful_deployment already_running : Reason
  entry_not_found entry_not_ready : ℕ → Reason
  pad_not_on_stage : Option Text → Reason
  no_pg_credentials : Reason
  logs_unreadable : Text → Reason
  create_failed : Text → List Text → Reason
  cleanup_failed : List Text → Reason

pub data Exn : Type 0 where
  http : ℕ → Reason → Exn
  error : Text → Exn

pub data Result {ℓ} (A : Type ℓ) : Type ℓ where
  ok : A → Result A
  raised : Exn → Result A

-- The calls of snowflake_client.py and pg_admin.py, and the statements of registry.py and
-- deploy_history.py.
pub data Call : Type 0 where
  select_apps : Call
  insert_app delete_app : Text → Call
  update_apps : Text → List Field → Call
  select_history insert_history prune_history delete_history : Text → Call
  create_schema create_stage drop_schema_cascade : Text → Call
  create_or_replace_secret drop_secret : Text → Call
  create_service : Text → Spec → List Text → Call
  alter_service_spec : Text → Spec → Call
  grant_monitor : Text → Call
  set_service_external_access : Text → List Text → Call
  suspend_service resume_service drop_service : Text → Call
  create_app_access_role drop_app_access_role : Text → Call
  grant_endpoint_to_app_role : Text → Text → Call
  describe_service show_containers show_endpoints : Text → Call
  show_services : Call
  provision_pg deprovision_pg : Text → Text → Call

-- What the progress module shows.
pub data Phase : Type 0 where
  applying_changes : Phase
  waiting_for : Text → ℕ → Phase
  waiting_for_containers : ℕ → Phase

-- `trace` holds the calls made, the newest first; `clock` is `time.time()` in seconds.
pub record World : Type 0 where
  pub registry : Rows
  pub history : History
  pub progress : Dict Phase
  pub clock : ℕ
  pub trace : List Call

pub record ContainerRow : Type 0 where
  pub container_name : Option Text
  pub status : Option Text
  pub message : Option Text

-- Snowflake: the message of the exception that a call raises, how long it takes, and what it
-- answers. Every answer may depend on all that happened before.
pub record Environment : Type 0 where
  pub raises : World → Call → Option Text
  pub latency : World → Call → ℕ
  pub service_status : World → Text → Option Text
  pub containers : World → Text → List ContainerRow
  pub ingress_urls : World → Text → List (Option Text)
  -- The bootstrap password of the bound secret; `none` where reading it raises.
  pub pg_password : World → Option Text
  pub describe : ℕ → Reason → Text

abbrev pub Exec {ℓ} : Type ℓ → Type ℓ
Exec A = World → Result A × World

module _ {ℓ} {A : Type ℓ} where
  unfoldable pub pure : A → Exec A
  pure a w = (ok a, w)

  unfoldable pub raise : Exn → Exec A
  raise e w = (raised e, w)

  -- `except Exception as exc: handler(exc)`
  abbrev pub handle : (Exn → Exec A) → Result A → World → Result A × World
  handle handler (ok a) w = (ok a, w)
  handle handler (raised e) w = handler e w

  unfoldable pub attempt : Exec A → (Exn → Exec A) → Exec A
  attempt m handler w = let (r, w') = m w in handle handler r w'

  -- `finally`, for a block that cannot raise
  unfoldable pub finally : Exec A → (World → World) → Exec A
  finally m f w = let (r, w') = m w in (r, f w')

module _ {ℓ κ} {A : Type ℓ} {B : Type κ} where
  abbrev pub resume_with : (A → Exec B) → Result A → World → Result B × World
  resume_with f (ok a) w = f a w
  resume_with f (raised e) w = (raised e, w)

  infixl 5 ◌>>=◌ ◌>>◌
  unfoldable pub ◌>>=◌ : Exec A → (A → Exec B) → Exec B
  ◌>>=◌ m f w = let (r, w') = m w in resume_with f r w'

  abbrev pub ◌>>◌ : Exec A → Exec B → Exec B
  m >> n = m >>= λ _. n

-- `if not b: raise e`
abbrev pub require : Bool → Exn → Exec (Unit {0})
require true e = pure tt
require false e = raise e

unfoldable pub modify : (World → World) → Exec (Unit {0})
modify f w = (ok tt, f w)

unfoldable pub gets {ℓ} : {A : Type ℓ} → (World → A) → Exec A
gets f w = (ok (f w), w)

-- The clock and the trace after a call.
unfoldable pub called : Environment → Call → World → World
called env c w = record w { clock = w.clock + env.latency w c; trace = c ∷ w.trace }

abbrev pub outcome_of : Option Text → Result (Unit {0})
outcome_of none = ok tt
outcome_of (some message) = raised (error message)

unfoldable pub call : Environment → Call → Exec (Unit {0})
unfolding called
call env c w = (outcome_of (env.raises w c), called env c w)
