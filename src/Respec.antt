-- ===== src/Respec.antt =====
-- What the background tasks of Controller/app/main.py share: building the specification of an app's
-- service, applying it, and stamping a success.
use mendix_for_snowflake.Prelude.{
  ℕ, Bool, false, not, ◌&&◌, Option, none, some, List, [], ◌∷◌, ◌++◌, map, Text, Dict, lookup, text,
  text_eq, opt_eq, truthy, any, get_or, has_char, starts_with, if◌then◌else◌,
}
use mendix_for_snowflake.Models.{AppRecord, ResourceTier, DeployStatus, Operation, hidden_value}
use mendix_for_snowflake.Registry.{Field}
use mendix_for_snowflake.Names.{Settings, secret_fqn, const_secret_name}
use mendix_for_snowflake.SpecBuilder.{PadConstant, Spec, build_spec}
use mendix_for_snowflake.World.{Environment, Exec, Call, ok, pure, call, called, ◌>>=◌, ◌>>◌}
use mendix_for_snowflake.Statements.{update_app}
use mendix_for_snowflake.Lifecycle.{run_lifecycle_task}

-- `_constants_from_dict`
unfoldable pub constants_from_dict : Dict Text → List PadConstant
constants_from_dict d =
    map
      (λ e. record { name = e.0; env_var = []; default = e.1; secret_name = const_secret_name e.0 })
      d

-- `url and "." in url and " " not in url`
unfoldable pub is_ingress_host : Text → Bool
is_ingress_host url = truthy url && (has_char b'.' url && not (has_char b' ' url))

abbrev pub with_scheme : Text → Text
with_scheme url = if starts_with (text "https://") url then url else text "https://" ++ url

unfoldable pub first_endpoint : List (Option Text) → Option Text
unfolding is_ingress_host
first_endpoint [] = none
first_endpoint (none ∷ urls) = first_endpoint urls
first_endpoint (some url ∷ urls) =
    if is_ingress_host url then some (with_scheme url) else first_endpoint urls

-- Did a constant of the PAD change against the stored ones?
unfoldable pub constants_changed : List PadConstant → Dict Text → Dict Text → Bool
constants_changed cs new_constants stored =
    any (λ c. not (opt_eq (lookup c.name new_constants) (lookup c.name stored))) cs

-- The configuration that a task builds the specification from.
pub record Config : Type 0 where
  pub tier : ResourceTier
  pub caller_rights : Bool
  pub license : Option Text
  pub mapping : Dict Text
  pub pad : Option Text

-- The record's own configuration.
unfoldable pub config_of : AppRecord → Config
config_of r = record {
  tier = r.resource_tier;
  caller_rights = r.use_caller_rights;
  license = r.license_id;
  mapping = r.role_mapping;
  pad = r.pad_stage_path;
}

module _ (env : Environment) (s : Settings) where
  -- `sf.get_service_endpoint`, which swallows its errors
  unfoldable pub get_service_endpoint : Text → Exec (Option Text)
  unfolding first_endpoint
  get_service_endpoint service w =
      (ok (first_endpoint (env.ingress_urls w service)), called env (Call.show_endpoints service) w)

  -- `_sync_constant_secrets`: a masked value keeps the existing secret.
  unfoldable pub sync_constant_secrets : Text → List PadConstant → Dict Text → Exec (Unit {0})
  sync_constant_secrets app_schema [] vals = pure tt
  sync_constant_secrets app_schema (c ∷ cs) vals =
      let rest = sync_constant_secrets app_schema cs vals in
      if text_eq (get_or (lookup c.name vals) c.default) hidden_value
      then rest
      else call env (Call.create_or_replace_secret (secret_fqn s app_schema c.secret_name)) >> rest

  abbrev pub success_fields : Option Text → ℕ → List Field
  success_fields url now =
      Field.endpoint_url url
      ∷ Field.last_deploy_status DeployStatus.ready
      ∷ Field.last_deployed_at now
      ∷ Field.status_detail none
      ∷ Field.failed_operation none
      ∷ Field.platform_image (some s.mendix_base_image)
      ∷ Field.platform_update_available false
      ∷ []

  unfoldable pub now_of : Exec ℕ
  now_of w = (ok w.clock, w)

  -- `_stamp_deploy_success`
  unfoldable pub stamp_deploy_success : Text → Text → List Field → Exec (Unit {0})
  unfolding get_service_endpoint now_of
  stamp_deploy_success name service extra = do
    url ← get_service_endpoint service
    now ← now_of
    update_app env name (success_fields url now ++ extra)

  unfoldable pub spec_from : Text → AppRecord → List PadConstant → Config → Spec
  spec_from name r constants c =
      build_spec s name r.app_schema r.pg_database c.tier constants c.caller_rights c.license
        c.mapping c.pad

  -- Build the specification and apply it.
  unfoldable pub apply_spec : Text → AppRecord → List PadConstant → Config → Exec (Unit {0})
  unfolding spec_from
  apply_spec name r constants c =
      call env (Call.alter_service_spec r.service_name (spec_from name r constants c))

  -- A task that ends with the service running.
  abbrev pub running :
      Text → AppRecord → Operation → AppRecord → Exec (Unit {0}) → Exec (Unit {0}) → Exec (Unit {0})
  running name r op history_record action on_success =
      run_lifecycle_task env name r.service_name op (text "RUNNING") 300 (some history_record)
        action on_success
