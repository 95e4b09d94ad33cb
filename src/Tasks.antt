-- ===== src/Tasks.antt =====
-- The background tasks of Controller/app/main.py: each rebuilds the service's specification, or acts
-- on the service, inside the lifecycle skeleton.
pub mod Settle
pub mod Frame
pub mod Stuck
use mendix_for_snowflake.Prelude.{
  ℕ, Bool, true, false, not, ◌&&◌, ◌||◌, Option, none, some, List, [], ◌∷◌, ◌++◌, map, Text, Dict,
  lookup, text, text_eq, opt_eq, truthy, any, get_or, has_char, starts_with, if◌then◌else◌,
}
use mendix_for_snowflake.Models.{AppRecord, ResourceTier, DeployStatus, Operation, hidden_value}
use mendix_for_snowflake.Registry.{Field}
use mendix_for_snowflake.History.{Entry}
use mendix_for_snowflake.Names.{Settings, secret_fqn, const_secret_name, compose_eai_names}
use mendix_for_snowflake.SpecBuilder.{PadConstant, Spec, build_spec}
use mendix_for_snowflake.World.{World, Environment, Exec, Call, ok, pure, call, called, ◌>>=◌, ◌>>◌}
use mendix_for_snowflake.Statements.{update_app}
use mendix_for_snowflake.Lifecycle.{run_lifecycle_task}
use mendix_for_snowflake.Respec.{
  constants_from_dict, is_ingress_host, with_scheme, first_endpoint, constants_changed, Config,
  config_of, get_service_endpoint, sync_constant_secrets, success_fields, now_of,
  stamp_deploy_success, spec_from, apply_spec, running,
}

module _ (env : Environment) (s : Settings) where
  write_constants : Bool → Text → AppRecord → List PadConstant → Dict Text → Exec (Unit {0})
  write_constants false name r pad_constants new_constants = pure tt
  write_constants true name r pad_constants new_constants = do
    sync_constant_secrets env s r.app_schema pad_constants new_constants
    update_app env name (Field.constants new_constants ∷ [])

  -- `_run_deploy`
  pub run_deploy :
      Text → Text → AppRecord → List PadConstant → Dict Text → List Text → Exec (Unit {0})
  unfolding apply_spec write_constants
  run_deploy name pad r pad_constants new_constants user_roles =
      running env s name r Operation.deploy
        (record r { constants = new_constants; pad_stage_path = some pad })
        (do
          write_constants (constants_changed pad_constants new_constants r.constants) name r
              pad_constants new_constants
          apply_spec env s name r (constants_from_dict new_constants)
              (let c = config_of r in record c { pad = some pad }))
        (stamp_deploy_success env s name r.service_name (
          Field.constants new_constants
          ∷ Field.pad_stage_path (some pad)
          ∷ Field.user_roles user_roles
          ∷ []))

  -- `target["role_mapping"] or None`
  abbrev mapping_or_none : Dict Text → Option (Dict Text)
  mapping_or_none [] = none
  mapping_or_none (e ∷ m) = some (e ∷ m)

  -- `_run_rollback`
  pub run_rollback : Text → AppRecord → Entry → Exec (Unit {0})
  unfolding apply_spec
  run_rollback name r t =
      running env s name r Operation.rollback
        (record r {
          resource_tier = t.resource_tier;
          use_caller_rights = t.use_caller_rights;
          license_id = t.license_id;
          role_mapping = t.role_mapping;
          pad_stage_path = t.pad_stage_path;
          external_access = t.external_access;
        })
        (do
          apply_spec env s name r (constants_from_dict r.constants) (record {
            tier = t.resource_tier;
            caller_rights = t.use_caller_rights;
            license = t.license_id;
            mapping = t.role_mapping;
            pad = t.pad_stage_path;
          })
          call env (
              Call.set_service_external_access r.service_name
                (compose_eai_names s t.external_access)))
        (stamp_deploy_success env s name r.service_name (
          Field.resource_tier t.resource_tier
          ∷ Field.use_caller_rights t.use_caller_rights
          ∷ Field.license_id t.license_id
          ∷ Field.role_mapping (mapping_or_none t.role_mapping)
          ∷ Field.pad_stage_path t.pad_stage_path
          ∷ Field.external_access t.external_access
          ∷ []))

  -- `_run_update_constants`
  pub run_update_constants : Text → Dict Text → AppRecord → Exec (Unit {0})
  unfolding apply_spec
  run_update_constants name merged r = do
    update_app env name (Field.constants merged ∷ [])
    running env s name r Operation.constants (record r { constants = merged })
        (apply_spec env s name r (constants_from_dict merged) (config_of r))
        (stamp_deploy_success env s name r.service_name [])

  -- `_run_update_spec`
  pub run_update_spec : Text → AppRecord → ResourceTier → Bool → Operation → Exec (Unit {0})
  unfolding apply_spec
  run_update_spec name r new_tier new_caller op =
      running env s name r op
        (record r { resource_tier = new_tier; use_caller_rights = new_caller })
        (apply_spec env s name r (constants_from_dict r.constants)
          (let c = config_of r in record c { tier = new_tier; caller_rights = new_caller }))
        (update_app env name (
          Field.resource_tier new_tier
          ∷ Field.use_caller_rights new_caller
          ∷ Field.last_deploy_status DeployStatus.ready
          ∷ Field.status_detail none
          ∷ Field.failed_operation none
          ∷ Field.platform_image (some s.mendix_base_image)
          ∷ Field.platform_update_available false
          ∷ []))

  -- `_run_update_external_access`
  pub run_update_external_access : Text → AppRecord → List Text → Exec (Unit {0})
  run_update_external_access name r slots = do
    update_app env name (Field.external_access slots ∷ [])
    running env s name r Operation.external_access (record r { external_access = slots })
        (call env (Call.set_service_external_access r.service_name (compose_eai_names s slots)))
        (stamp_deploy_success env s name r.service_name [])

  -- `_run_update_license`
  pub run_update_license : Text → AppRecord → Text → Exec (Unit {0})
  unfolding apply_spec
  run_update_license name r license_id = do
    update_app env name (Field.license_id (some license_id) ∷ [])
    running env s name r Operation.license (record r { license_id = some license_id })
        (apply_spec env s name r (constants_from_dict r.constants)
          (let c = config_of r in record c { license = some license_id }))
        (stamp_deploy_success env s name r.service_name [])

  -- `_run_delete_license`
  pub run_delete_license : Text → AppRecord → Exec (Unit {0})
  unfolding apply_spec
  run_delete_license name r = do
    update_app env name (Field.license_id none ∷ [])
    running env s name r Operation.license (record r { license_id = none })
        (apply_spec env s name r (constants_from_dict r.constants)
          (let c = config_of r in record c { license = none }))
        (stamp_deploy_success env s name r.service_name []
          >> call env (Call.drop_secret (secret_fqn s r.app_schema (text "MX_LICENSE_KEY"))))

  -- `_run_update_role_mapping`
  pub run_update_role_mapping : Text → AppRecord → Dict Text → Exec (Unit {0})
  unfolding apply_spec
  run_update_role_mapping name r mapping = do
    update_app env name (Field.role_mapping (some mapping) ∷ [])
    running env s name r Operation.role_mapping (record r { role_mapping = mapping })
        (apply_spec env s name r (constants_from_dict r.constants)
          (let c = config_of r in record c { mapping = mapping }))
        (stamp_deploy_success env s name r.service_name [])

  -- `_run_delete_role_mapping`
  pub run_delete_role_mapping : Text → AppRecord → Exec (Unit {0})
  unfolding apply_spec
  run_delete_role_mapping name r = do
    update_app env name (Field.role_mapping none ∷ [])
    running env s name r Operation.role_mapping (record r { role_mapping = [] })
        (apply_spec env s name r (constants_from_dict r.constants)
          (let c = config_of r in record c { mapping = [] }))
        (stamp_deploy_success env s name r.service_name [])

  abbrev settled_fields : DeployStatus → List Field
  settled_fields status =
      Field.last_deploy_status status ∷ Field.status_detail none ∷ Field.failed_operation none ∷ []

  -- `_run_suspend`
  pub run_suspend : Text → Text → Exec (Unit {0})
  run_suspend name service =
      run_lifecycle_task env name service Operation.suspend (text "SUSPENDED") 120 none
        (call env (Call.suspend_service service))
        (update_app env name (settled_fields DeployStatus.suspended))

  -- `_run_resume`
  pub run_resume : Text → Text → Exec (Unit {0})
  run_resume name service =
      run_lifecycle_task env name service Operation.resume (text "RUNNING") 300 none
        (call env (Call.resume_service service))
        (update_app env name (settled_fields DeployStatus.ready))

-- What `background_tasks.add_task` is given.
pub data Task : Type 0 where
  deploy : Text → Text → AppRecord → List PadConstant → Dict Text → List Text → Task
  rollback : Text → AppRecord → Entry → Task
  update_constants : Text → Dict Text → AppRecord → Task
  update_spec : Text → AppRecord → ResourceTier → Bool → Operation → Task
  update_external_access : Text → AppRecord → List Text → Task
  update_license : Text → AppRecord → Text → Task
  delete_license : Text → AppRecord → Task
  update_role_mapping : Text → AppRecord → Dict Text → Task
  delete_role_mapping : Text → AppRecord → Task
  suspend resume : Text → Text → Task

abbrev pub task_name : Task → Text
task_name (Task.deploy name _ _ _ _ _) = name
task_name (Task.rollback name _ _) = name
task_name (Task.update_constants name _ _) = name
task_name (Task.update_spec name _ _ _ _) = name
task_name (Task.update_external_access name _ _) = name
task_name (Task.update_license name _ _) = name
task_name (Task.delete_license name _) = name
task_name (Task.update_role_mapping name _ _) = name
task_name (Task.delete_role_mapping name _) = name
task_name (Task.suspend name _) = name
task_name (Task.resume name _) = name

module _ (env : Environment) (s : Settings) where
  pub run_task : Task → Exec (Unit {0})
  run_task (Task.deploy name pad r cs new roles) = run_deploy env s name pad r cs new roles
  run_task (Task.rollback name r t) = run_rollback env s name r t
  run_task (Task.update_constants name merged r) = run_update_constants env s name merged r
  run_task (Task.update_spec name r tier caller op) = run_update_spec env s name r tier caller op
  run_task (Task.update_external_access name r slots) =
      run_update_external_access env s name r slots
  run_task (Task.update_license name r id) = run_update_license env s name r id
  run_task (Task.delete_license name r) = run_delete_license env s name r
  run_task (Task.update_role_mapping name r m) = run_update_role_mapping env s name r m
  run_task (Task.delete_role_mapping name r) = run_delete_role_mapping env s name r
  run_task (Task.suspend name service) = run_suspend env s name service
  run_task (Task.resume name service) = run_resume env s name service
