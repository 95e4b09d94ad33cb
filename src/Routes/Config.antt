-- ===== src/Routes/Config.antt =====
-- The routes that change an app's configuration.
use mendix_for_snowflake.Prelude.{
  Bool, true, not, ◌&&◌, ◌||◌, Option, List, [], ◌∷◌, Text, Dict, contains, keys, values, merge,
  text, text_eq, filter, mem, sorted, distinct, is_some, get_or, if◌then◌else◌,
}
use mendix_for_snowflake.Models.{AppRecord, ResourceTier, DeployStatus, Operation, hidden_value}
use mendix_for_snowflake.Names.{Settings, secret_fqn, const_secret_name}
use mendix_for_snowflake.World.{
  Environment, Exec, http, Reason, Call, raise, pure, require, call, ◌>>=◌, ◌>>◌,
}
use mendix_for_snowflake.Tasks.{Task}
use mendix_for_snowflake.Routes.{
  Answer, Warning, unchanged, record_for_mutation, require_pad_deployed, start,
}

-- Raise, if any item is at fault.
abbrev pub refuse : List Text → (List Text → Reason) → Exec (Unit {0})
refuse [] reason = pure tt
refuse (x ∷ xs) reason = raise (http 422 (reason (x ∷ xs)))

-- The new constants whose value is the sentinel.
unknown_masked : Dict Text → Dict Text → List Text
unknown_masked stored given =
    keys (filter (λ e. text_eq e.1 hidden_value && not (contains e.0 stored)) given)

-- The constants that are given a value.
changed_constants : Dict Text → Dict Text
changed_constants given = filter (λ e. not (text_eq e.1 hidden_value)) given

-- The requested slots that are not bound.
unfoldable pub unbound_slots : Settings → List Text → List Text
unbound_slots s slots = sorted (filter (λ slot. not (contains slot s.bound_eai_slots)) slots)

-- The mapping's targets that the deployed PAD does not declare.
unknown_userroles : AppRecord → Dict Text → List Text
unknown_userroles r mapping = elim r.user_roles [
  | [] ↦ []
  | u ∷ us ↦ sorted (distinct (filter (λ v. not (mem v (u ∷ us))) (values mapping)))
]

mapping_warnings : AppRecord → List Warning
mapping_warnings r =
    let inert = if r.use_caller_rights then [] else Warning.mapping_inert ∷ [] in
    elim r.user_roles [ [] ↦ Warning.mapping_unvalidated ∷ inert | u ∷ us ↦ inert ]

module _ (env : Environment) (s : Settings) where
  unfoldable pub write_secrets : AppRecord → Dict Text → Exec (Unit {0})
  write_secrets r [] = pure tt
  write_secrets r ((name, value) ∷ cs) =
      call env (Call.create_or_replace_secret (secret_fqn s r.app_schema (const_secret_name name)))
      >> write_secrets r cs

  unfoldable pub apply_constants : Text → AppRecord → Dict Text → Dict Text → Exec Answer
  apply_constants name r given [] = pure unchanged
  apply_constants name r given (c ∷ cs) = do
    require_pad_deployed env s name r
    write_secrets r (c ∷ cs)
    start env s name DeployStatus.deploying (Task.update_constants name (merge r.constants given) r)
        []

  -- `PUT /apps/{name}/constants`
  unfoldable pub update_constants : Text → Dict Text → List Text → Exec Answer
  unfolding apply_constants unknown_masked changed_constants write_secrets
  update_constants name given roles = do
    r ← record_for_mutation env s name roles true
    refuse (unknown_masked r.constants given) Reason.new_masked_values
    apply_constants name r given (changed_constants given)

  -- `PUT /apps/{name}/spec`
  unfoldable pub update_spec : Text → Option ResourceTier → Option Bool → List Text → Exec Answer
  update_spec name tier caller roles = do
    r ← record_for_mutation env s name roles true
    require_pad_deployed env s name r
    require (is_some tier || is_some caller) (http 400 Reason.no_fields_given)
    start env s name DeployStatus.deploying
        (Task.update_spec name r (get_or tier r.resource_tier) (get_or caller r.use_caller_rights)
          Operation.spec)
        []

  -- `POST /apps/{name}/platform-update`
  unfoldable pub apply_platform_update : Text → List Text → Exec Answer
  apply_platform_update name roles = do
    r ← record_for_mutation env s name roles true
    require r.platform_update_available (http 409 Reason.no_platform_update)
    require_pad_deployed env s name r
    start env s name DeployStatus.deploying
        (Task.update_spec name r r.resource_tier r.use_caller_rights Operation.platform_update) []

  -- `PUT /apps/{name}/external-access`
  unfoldable pub update_external_access : Text → List Text → List Text → Exec Answer
  update_external_access name slots roles = do
    r ← record_for_mutation env s name roles true
    refuse (unbound_slots s slots) Reason.slots_not_bound
    start env s name DeployStatus.deploying (Task.update_external_access name r slots) []

  -- `PUT /apps/{name}/license`
  unfoldable pub update_license : Text → Text → List Text → Exec Answer
  update_license name license_id roles = do
    r ← record_for_mutation env s name roles true
    require_pad_deployed env s name r
    call env (Call.create_or_replace_secret (secret_fqn s r.app_schema (text "MX_LICENSE_KEY")))
    start env s name DeployStatus.deploying (Task.update_license name r license_id) []

  -- `DELETE /apps/{name}/license`
  unfoldable pub delete_license : Text → List Text → Exec Answer
  delete_license name roles = do
    r ← record_for_mutation env s name roles true
    require_pad_deployed env s name r
    start env s name DeployStatus.deploying (Task.delete_license name r) []

  -- `PUT /apps/{name}/role-mapping`
  unfoldable pub update_role_mapping : Text → Dict Text → List Text → Exec Answer
  unfolding unknown_userroles mapping_warnings
  update_role_mapping name mapping roles = do
    r ← record_for_mutation env s name roles true
    require_pad_deployed env s name r
    refuse (unknown_userroles r mapping) Reason.unknown_userroles
    start env s name DeployStatus.deploying (Task.update_role_mapping name r mapping)
        (mapping_warnings r)

  -- `DELETE /apps/{name}/role-mapping`
  unfoldable pub delete_role_mapping : Text → List Text → Exec Answer
  delete_role_mapping name roles = do
    r ← record_for_mutation env s name roles true
    require_pad_deployed env s name r
    start env s name DeployStatus.deploying (Task.delete_role_mapping name r) []
