-- ===== src/Routes/Reads.antt =====
-- Which actions of the routes only read the table of apps.
use mendix_for_snowflake.Prelude.{
  ℕ, Bool, true, false, Option, none, some, List, [], ◌∷◌, Text, Dict,
}
use mendix_for_snowflake.Models.{AppRecord, DeployStatus}
use mendix_for_snowflake.History.{Entry, Outcome}
use mendix_for_snowflake.Names.{Settings}
use mendix_for_snowflake.SpecBuilder.{PadConstant}
use mendix_for_snowflake.World.{Environment, Exn, Reason, require}
use mendix_for_snowflake.Statements
use mendix_for_snowflake.Statements.{update_if}
use mendix_for_snowflake.Lifecycle.Rules.{Keeps-pure, Keeps-raise, Keeps-gets, Keeps-bind, Keeps-if}
use mendix_for_snowflake.Routes.{record_for_mutation, checked, gate, require_pad_deployed}
use mendix_for_snowflake.Routes.Effects.{Reads, Reads-call}
use mendix_for_snowflake.Routes.Config.{refuse, write_secrets}
use mendix_for_snowflake.Routes.Deploy.{
  resolve_staged_pad, Stage, prepare_from, prepare_found, latest_entry, entry_of_status,
  entry_by_id, rollback_target, require_pad_file, prepare_deploy,
}

module _ (env : Environment) (s : Settings) (name : Text) where
  pub Reads-require : (b : Bool) (e : Exn) → Reads (require b e)
  Reads-require true e rows = Keeps-pure tt
  Reads-require false e rows = Keeps-raise e

  pub Reads-refuse : (xs : List Text) (reason : List Text → Reason) → Reads (refuse xs reason)
  Reads-refuse [] reason rows = Keeps-pure tt
  Reads-refuse (x ∷ xs) reason rows = Keeps-raise _

  pub Reads-get_app : Reads (Statements.get_app env name)
  unfolding Statements.get_app
  Reads-get_app rows = Keeps-bind _ _ (Reads-call env _ rows) (λ _. Keeps-gets _)

  pub Reads-resolve_staged_pad : (stage : Stage) → Reads (resolve_staged_pad stage name)
  unfolding resolve_staged_pad
  Reads-resolve_staged_pad stage rows = record { at = λ w h. h }

  pub Reads-gate : (r : AppRecord) (o : Option DeployStatus) → Reads (gate env s name r o)
  unfolding gate
  Reads-gate r none rows = Keeps-pure r
  Reads-gate r (some status) rows = Keeps-raise _

  pub Reads-checked :
      (roles : List Text) (block : Bool) (o : Option AppRecord)
      → Reads (checked env s name roles block o)
  unfolding checked
  Reads-checked roles block none rows = Keeps-raise _
  Reads-checked roles block (some r) rows = Keeps-if _ _ _ (Reads-gate r _ rows) (Keeps-raise _)

  pub Reads-record_for_mutation :
      (roles : List Text) (block : Bool) → Reads (record_for_mutation env s name roles block)
  unfolding record_for_mutation
  Reads-record_for_mutation roles block rows =
      Keeps-bind _ _ (Reads-get_app rows) (λ o. Reads-checked roles block o rows)

  pub Reads-require_pad : (r : AppRecord) → Reads (require_pad_deployed env s name r)
  unfolding require_pad_deployed
  Reads-require_pad r = Reads-require _ _

  pub Reads-write_secrets : (r : AppRecord) (cs : Dict Text) → Reads (write_secrets env s r cs)
  unfolding write_secrets
  Reads-write_secrets r [] rows = Keeps-pure tt
  Reads-write_secrets r (c ∷ cs) rows =
      Keeps-bind _ _ (Reads-call env _ rows) (λ _. Reads-write_secrets r cs rows)

  module _ (stage : Stage) where
    pub Reads-prepare_from :
        (pad : Text) (r : AppRecord) (cs : List PadConstant)
        → Reads (prepare_from env s stage pad r cs)
    unfolding prepare_from
    Reads-prepare_from pad r cs rows =
        Keeps-bind _ _ (Reads-refuse _ _ rows)
          (λ _. Keeps-bind _ _ (Keeps-gets _) (λ us. Keeps-pure _))

    pub Reads-prepare_found :
        (pad : Text) (o : Option AppRecord) → Reads (prepare_found env s stage name pad o)
    unfolding prepare_found
    Reads-prepare_found pad none rows = Keeps-raise _
    Reads-prepare_found pad (some r) rows =
        Keeps-bind _ _ (record { at = λ w h. h }) (λ cs. Reads-prepare_from pad r cs rows)

    pub Reads-prepare_deploy : (pad : Text) → Reads (prepare_deploy env s stage name pad)
    unfolding prepare_deploy
    Reads-prepare_deploy pad rows =
        Keeps-bind _ _ (Reads-get_app rows) (λ o. Reads-prepare_found pad o rows)

    pub Reads-latest : (o : Option Entry) → Reads (latest_entry env s stage o)
    unfolding latest_entry
    Reads-latest none rows = Keeps-raise _
    Reads-latest (some t) rows = Keeps-pure t

    pub Reads-by_status :
        (id : ℕ) (t : Entry) (status : Outcome) → Reads (entry_of_status env s stage id t status)
    unfolding entry_of_status
    Reads-by_status id t Outcome.ready rows = Keeps-pure t
    Reads-by_status id t Outcome.failed rows = Keeps-raise _

    pub Reads-by_id : (id : ℕ) (o : Option Entry) → Reads (entry_by_id env s stage id o)
    unfolding entry_by_id
    Reads-by_id id none rows = Keeps-raise _
    Reads-by_id id (some t) rows = Reads-by_status id t t.status rows

    pub Reads-rollback_target : (id : Option ℕ) → Reads (rollback_target env s stage name id)
    unfolding rollback_target Statements.last_success Statements.get_entry
    Reads-rollback_target none rows =
        Keeps-bind _ _ (Keeps-bind _ _ (Reads-call env _ rows) (λ _. Keeps-gets _))
          (λ o. Reads-latest o rows)
    Reads-rollback_target (some id) rows =
        Keeps-bind _ _ (Keeps-bind _ _ (Reads-call env _ rows) (λ _. Keeps-gets _))
          (λ o. Reads-by_id id o rows)

    pub Reads-require_pad_file : (o : Option Text) → Reads (require_pad_file env s stage o)
    unfolding require_pad_file
    Reads-require_pad_file none rows = Keeps-raise _
    Reads-require_pad_file (some pad) rows =
        Keeps-bind _ _ (Keeps-gets _) (λ there. Reads-require _ _ rows)
