-- ===== src/Routes/Deploy.antt =====
-- The routes that deploy a PAD or go back to a recorded configuration.
use mendix_for_snowflake.Prelude.{
  ℕ, Bool, true, false, not, ◌&&◌, ◌||◌, ◌==◌, Option, none, some, List, [], ◌∷◌, ◌++◌, map, Text,
  Dict, lookup, insert, contains, length, text, text_eq, text_le, opt_eq, ends_with, lower, filter,
  all, truthy, ltb, if◌then◌else◌,
}
use mendix_for_snowflake.Models.{AppRecord, ResourceTier, DeployStatus}
use mendix_for_snowflake.History.{Entry, Outcome}
use mendix_for_snowflake.SpecBuilder.{PadConstant}
use mendix_for_snowflake.Names.{Settings}
use mendix_for_snowflake.World.{
  World, Environment, Exec, Result, ok, raised, http, Reason, raise, pure, require, gets, ◌>>=◌,
  ◌>>◌,
}
use mendix_for_snowflake.Statements.{get_app, last_success, get_entry}
use mendix_for_snowflake.Tasks.{Task}
use mendix_for_snowflake.Routes.{Answer, record_for_mutation, start}
use mendix_for_snowflake.Routes.Config.{refuse}

-- A file of a directory on the stage.
pub record StagedFile : Type 0 where
  pub file_name : Text
  pub mtime : ℕ
  pub is_regular : Bool

-- The stage that is mounted into the controller: the files under apps/<name>/, none where there is
-- no such directory, and raised where it or the time of a file cannot be read; what the parser of
-- PADs makes of a file, and which paths are files.
pub record Stage : Type 0 where
  pub listing : World → Text → Result (Option (List StagedFile))
  pub parse_constants : World → Text → Result (List PadConstant)
  pub parse_user_roles : World → Text → List Text
  pub is_file : World → Text → Bool

unfoldable pub is_zip : StagedFile → Bool
is_zip f = ends_with (text ".zip") (lower f.file_name) && f.is_regular

-- The order of `key=lambda z: (os.path.getmtime(z), z)`, of files in one directory
unfoldable pub is_newer : StagedFile → StagedFile → Bool
is_newer f g = ltb f.mtime g.mtime || (f.mtime == g.mtime && not (text_le g.file_name f.file_name))

newest : StagedFile → List StagedFile → StagedFile
newest best [] = best
newest best (f ∷ fs) = newest (if is_newer best f then f else best) fs

newest_zip : List StagedFile → Option StagedFile
unfolding newest
newest_zip [] = none
newest_zip (f ∷ fs) = some (newest f fs)

-- The choice of `_resolve_staged_pad` among the files of a directory
unfoldable pub staged_pad : List StagedFile → Option StagedFile
unfolding newest_zip is_zip
staged_pad fs = newest_zip (filter is_zip fs)

-- The path of a staged file, relative to the mount
abbrev pad_path_of : Text → StagedFile → Text
pad_path_of name f = text "apps/" ++ (name ++ (text "/" ++ f.file_name))

unfoldable pub pad_among : Text → Option (List StagedFile) → Option Text
unfolding staged_pad
pad_among name none = none
pad_among name (some fs) = elim (staged_pad fs) [ none ↦ none | some f ↦ some (pad_path_of name f) ]

unfoldable pub pad_listed : Text → Result (Option (List StagedFile)) → Result (Option Text)
unfolding pad_among
pad_listed name (ok listed) = ok (pad_among name listed)
pad_listed name (raised e) = raised e

-- `_resolve_staged_pad`
unfoldable pub resolve_staged_pad : Stage → Text → Exec (Option Text)
unfolding pad_listed
resolve_staged_pad stage name w = (pad_listed name (stage.listing w name), w)

-- The PAD's constants that have neither a stored value nor a default
unfoldable pub missing_constants : List PadConstant → Dict Text → List Text
missing_constants cs stored =
    map (λ c. c.name) (filter (λ c. not (contains c.name stored) && not (truthy c.default)) cs)

-- The stored constants, with the defaults of the new ones
unfoldable pub add_defaults : Dict Text → List PadConstant → Dict Text
add_defaults constants [] = constants
add_defaults constants (c ∷ cs) =
    add_defaults
      (if contains c.name constants then constants else insert c.name c.default constants) cs

tier_eq : ResourceTier → ResourceTier → Bool
tier_eq ResourceTier.small ResourceTier.small = true
tier_eq ResourceTier.medium ResourceTier.medium = true
tier_eq ResourceTier.large ResourceTier.large = true
tier_eq _ _ = false

bool_eq : Bool → Bool → Bool
bool_eq true b = b
bool_eq false b = not b

-- Dicts are equal whatever the order of their keys.
dict_eq : Dict Text → Dict Text → Bool
dict_eq d e = length d == length e && all (λ x. opt_eq (lookup x.0 e) (some x.1)) d

list_eq : List Text → List Text → Bool
list_eq [] [] = true
list_eq (x ∷ xs) (y ∷ ys) = text_eq x y && list_eq xs ys
list_eq _ _ = false

-- `_rollback_config(record) == _rollback_config(target)`
unfoldable pub same_config : AppRecord → Entry → Bool
unfolding tier_eq bool_eq dict_eq list_eq
same_config r t =
    opt_eq r.pad_stage_path t.pad_stage_path
    && tier_eq r.resource_tier t.resource_tier
    && bool_eq r.use_caller_rights t.use_caller_rights
    && opt_eq r.license_id t.license_id
    && dict_eq r.role_mapping t.role_mapping
    && list_eq r.external_access t.external_access

abbrev is_ready_status : Option DeployStatus → Bool
is_ready_status (some DeployStatus.ready) = true
is_ready_status _ = false

-- What `_prepare_deploy` returns
pub record Prepared : Type 0 where
  pub app : AppRecord
  pub pad_constants : List PadConstant
  pub new_constants : Dict Text
  pub user_roles : List Text

module _ (env : Environment) (s : Settings) (stage : Stage) where
  unfoldable pub prepare_from : Text → AppRecord → List PadConstant → Exec Prepared
  prepare_from pad r cs = do
    refuse (missing_constants cs r.constants) Reason.missing_values
    roles ← gets (λ w. stage.parse_user_roles w pad)
    pure (record {
      app = r;
      pad_constants = cs;
      new_constants = add_defaults r.constants cs;
      user_roles = roles;
    })

  unfoldable pub prepare_found : Text → Text → Option AppRecord → Exec Prepared
  unfolding prepare_from
  prepare_found name pad none = raise (http 404 (Reason.app_not_found name))
  prepare_found name pad (some r) = do
    cs ← (λ w. (stage.parse_constants w pad, w))
    prepare_from pad r cs

  -- `_prepare_deploy`
  unfoldable pub prepare_deploy : Text → Text → Exec Prepared
  unfolding prepare_found
  prepare_deploy name pad = do found ← get_app env name; prepare_found name pad found

  unfoldable pub deploy_pad : Text → Option Text → Exec Answer
  deploy_pad name none = raise (http 400 (Reason.no_pad_staged name))
  deploy_pad name (some pad) = do
    p ← prepare_deploy name pad
    start env s name DeployStatus.deploying
        (Task.deploy name pad p.app p.pad_constants p.new_constants p.user_roles) []

  -- `POST /apps/{name}/trigger-deploy`
  unfoldable pub trigger_deploy : Text → List Text → Exec Answer
  unfolding deploy_pad
  trigger_deploy name roles = do
    record_for_mutation env s name roles true
    pad ← resolve_staged_pad stage name
    deploy_pad name pad

  unfoldable pub entry_of_status : ℕ → Entry → Outcome → Exec Entry
  entry_of_status id t Outcome.ready = pure t
  entry_of_status id t Outcome.failed = raise (http 409 (Reason.entry_not_ready id))

  unfoldable pub entry_by_id : ℕ → Option Entry → Exec Entry
  unfolding entry_of_status
  entry_by_id id none = raise (http 404 (Reason.entry_not_found id))
  entry_by_id id (some t) = entry_of_status id t t.status

  unfoldable pub latest_entry : Option Entry → Exec Entry
  latest_entry none = raise (http 404 Reason.no_successful_deployment)
  latest_entry (some t) = pure t

  unfoldable pub rollback_target : Text → Option ℕ → Exec Entry
  unfolding entry_by_id latest_entry
  rollback_target name none = do found ← last_success env name; latest_entry found
  rollback_target name (some id) = do found ← get_entry env name id; entry_by_id id found

  unfoldable pub require_pad_file : Option Text → Exec (Unit {0})
  require_pad_file none = raise (http 409 (Reason.pad_not_on_stage none))
  require_pad_file (some pad) = do
    there ← gets (λ w. stage.is_file w pad)
    require (truthy pad && there) (http 409 (Reason.pad_not_on_stage (some pad)))

  -- `POST /apps/{name}/rollback`
  unfoldable pub rollback_app : Text → Option ℕ → List Text → Exec Answer
  unfolding rollback_target require_pad_file
  rollback_app name entry_id roles = do
    r ← record_for_mutation env s name roles true
    t ← rollback_target name entry_id
    require (not (is_ready_status r.last_deploy_status && same_config r t))
        (http 409 Reason.already_running)
    require_pad_file t.pad_stage_path
    start env s name DeployStatus.deploying (Task.rollback name r t) []
