-- ===== src/Routes/Service.antt =====
-- The routes that suspend, resume and delete an app.
pub mod Removal
use mendix_for_snowflake.Prelude.{true, false, Option, none, some, List, [], ◌∷◌, ◌++◌, Text, text}
use mendix_for_snowflake.Models.{DeployStatus}
use mendix_for_snowflake.Names.{Settings, schema_fqn, pg_username}
use mendix_for_snowflake.World.{
  Environment, Exec, http, error, Reason, Call, ok, raise, pure, attempt, call, ◌>>=◌, ◌>>◌,
}
use mendix_for_snowflake.Statements
use mendix_for_snowflake.Poll.{poll_status}
use mendix_for_snowflake.Tasks.{Task}
use mendix_for_snowflake.Routes.{Answer, record_for_mutation, start}

module _ (env : Environment) (s : Settings) where
  -- `POST /apps/{name}/suspend`
  unfoldable pub suspend_app : Text → List Text → Exec Answer
  suspend_app name roles = do
    r ← record_for_mutation env s name roles true
    start env s name DeployStatus.suspending (Task.suspend name r.service_name) []

  -- `POST /apps/{name}/resume`
  unfoldable pub resume_app : Text → List Text → Exec Answer
  resume_app name roles = do
    r ← record_for_mutation env s name roles true
    start env s name DeployStatus.resuming (Task.resume name r.service_name) []

  -- One step of a teardown: its name, if it raised.
  unfoldable pub cleanup_step : Text → Exec (Unit {0}) → Exec (List Text)
  cleanup_step step run = attempt (run >> pure []) (λ _. pure (step ∷ []))

  unfoldable pub load_pg_password : Exec Text
  load_pg_password w = elim (env.pg_password w) [
    | none ↦ raise (error (text "pg_secret must be JSON with \"host\" and \"password\" keys")) w
    | some password ↦ (ok password, w)
  ]

  -- `pg_admin.deprovision_app` swallows its own failures; reading the credentials may raise.
  unfoldable pub deprovision_step : Text → Option Text → Exec (List Text)
  unfolding load_pg_password
  deprovision_step name none = pure []
  deprovision_step name (some pg_database) = cleanup_step (text "deprovision postgres") (do
    load_pg_password
    attempt (call env (Call.deprovision_pg pg_database (pg_username name))) (λ _. pure tt))

  -- `_teardown_app_objects`: the names of the steps that raised.
  unfoldable pub teardown_app_objects : Text → Text → Text → Option Text → Exec (List Text)
  unfolding deprovision_step
  teardown_app_objects name service app_schema pg_database = do
    f1 ← cleanup_step (text "drop service") (call env (Call.drop_service service))
    f2 ← cleanup_step (text "drop application role") (call env (Call.drop_app_access_role name))
    f3 ←
        cleanup_step (text "drop schema")
          (call env (Call.drop_schema_cascade (schema_fqn s app_schema)))
    f4 ← cleanup_step (text "delete deploy history") (Statements.delete_for_app env name)
    f5 ← deprovision_step name pg_database
    pure (f1 ++ (f2 ++ (f3 ++ (f4 ++ f5))))

  unfoldable pub wait_suspended : Text → Exec (Unit {0})
  wait_suspended service w =
      let (r, w') = poll_status env service (text "SUSPENDED") 60 (λ n v. v) w in (ok tt, w')

  unfoldable pub finish_delete : Text → List Text → Exec (Unit {0})
  finish_delete name [] = Statements.delete_app env name
  finish_delete name (f ∷ fs) = raise (http 502 (Reason.cleanup_failed (f ∷ fs)))

  -- `DELETE /apps/{name}`
  unfoldable pub delete_app : Text → List Text → Exec (Unit {0})
  unfolding wait_suspended finish_delete
  delete_app name roles = do
    r ← record_for_mutation env s name roles false
    attempt (call env (Call.suspend_service r.service_name) >> wait_suspended r.service_name)
        (λ _. pure tt)
    failures ← teardown_app_objects name r.service_name r.app_schema (some r.pg_database)
    finish_delete name failures
