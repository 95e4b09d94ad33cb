-- ===== src/Mutations.antt =====
-- The routes of Controller/app/main.py that add a lifecycle task to an app, as one dispatch.
pub mod Effect
pub mod Guard
use mendix_for_snowflake.Prelude.{ℕ, Bool, Option, List, Text, Dict}
use mendix_for_snowflake.Models.{ResourceTier}
use mendix_for_snowflake.Names.{Settings}
use mendix_for_snowflake.World.{Environment, Exec}
use mendix_for_snowflake.Routes.{Answer}
use mendix_for_snowflake.Routes.Config
use mendix_for_snowflake.Routes.Deploy
use mendix_for_snowflake.Routes.Deploy.{Stage}
use mendix_for_snowflake.Routes.Service

-- A request to change an app, with its body.
pub data Mutation : Type 0 where
  trigger_deploy apply_platform_update delete_license delete_role_mapping : Mutation
  suspend_app resume_app : Mutation
  rollback_app : Option ℕ → Mutation
  update_constants update_role_mapping : Dict Text → Mutation
  update_spec : Option ResourceTier → Option Bool → Mutation
  update_external_access : List Text → Mutation
  update_license : Text → Mutation

module _ (env : Environment) (s : Settings) (stage : Stage) (name : Text) (roles : List Text) where
  unfoldable pub run_mutation : Mutation → Exec Answer
  run_mutation Mutation.trigger_deploy = Deploy.trigger_deploy env s stage name roles
  run_mutation Mutation.apply_platform_update = Config.apply_platform_update env s name roles
  run_mutation Mutation.delete_license = Config.delete_license env s name roles
  run_mutation Mutation.delete_role_mapping = Config.delete_role_mapping env s name roles
  run_mutation Mutation.suspend_app = Service.suspend_app env s name roles
  run_mutation Mutation.resume_app = Service.resume_app env s name roles
  run_mutation (Mutation.rollback_app id) = Deploy.rollback_app env s stage name id roles
  run_mutation (Mutation.update_constants given) = Config.update_constants env s name given roles
  run_mutation (Mutation.update_role_mapping m) = Config.update_role_mapping env s name m roles
  run_mutation (Mutation.update_spec tier caller) = Config.update_spec env s name tier caller roles
  run_mutation (Mutation.update_external_access slots) =
      Config.update_external_access env s name slots roles
  run_mutation (Mutation.update_license id) = Config.update_license env s name id roles
