-- ===== src/Examples/Mutations.antt =====
-- Requests to change the sample app, and the tasks that they leave behind.
use mendix_for_snowflake.Prelude.{
  ◌≡◌, refl, false, some, [], ◌∷◌, text, upper, same_name, text_eq, any, mem, Bool-cases, inl, inr,
  arith,
}
use mendix_for_snowflake.Models.{AppRecord, DeployStatus, is_transient}
use mendix_for_snowflake.Registry
use mendix_for_snowflake.Registry.{Field, set_fields, set_field}
use mendix_for_snowflake.Auth.{authorize}
use mendix_for_snowflake.World.{
  raised, error, http, Reason, Call, call, called, pure, raise, gets, modify, ◌>>=◌,
}
use mendix_for_snowflake.Statements
use mendix_for_snowflake.Statements.{update_if}
use mendix_for_snowflake.Tasks.{Task, run_task}
use mendix_for_snowflake.Tasks.Stuck.{first_column_stuck}
use mendix_for_snowflake.Routes.{record_for_mutation, checked, gate, start}
use mendix_for_snowflake.Routes.Service.{delete_app, suspend_app, finish_delete}
use mendix_for_snowflake.Routes.Service.Removal.{Removed, delete_app_removes}
use mendix_for_snowflake.Mutations.{Mutation, run_mutation}
use mendix_for_snowflake.Mutations.Effect.{Effect, run_mutation-Effect}
use mendix_for_snowflake.Mutations.Guard.{Admits, run_mutation-Admits, run_mutation_refused}
use mendix_for_snowflake.System.{
  System, request, delete, respond, Reach, here, later, AllBalanced, count_pending,
}
use mendix_for_snowflake.System.Exclusive.{Reach-balanced, quiescent_settled}
use mendix_for_snowflake.Examples.Data.{
  settings, shop, start_world, smooth, stage, sales, busy_world, stubborn,
}

run_mutation-Effect_example :
    let (r, w') =
      run_mutation smooth settings stage (text "shop") sales Mutation.suspend_app start_world in
    Effect (text "shop") start_world.registry r w'.registry
run_mutation-Effect_example =
    run_mutation-Effect smooth settings (text "shop") stage sales Mutation.suspend_app start_world

run_mutation-Admits_example :
    (r : AppRecord) × Admits smooth settings (text "shop") sales start_world r
unfolding run_mutation suspend_app record_for_mutation Statements.get_app ◌>>=◌ call called pure
    gets checked gate authorize any mem upper text_eq same_name start Statements.update_app
    update_if modify Registry.all_allowed Registry.update_rows Registry.get_app set_fields set_field
run_mutation-Admits_example =
    run_mutation-Admits smooth settings (text "shop") sales stage Mutation.suspend_app start_world _
      refl

run_mutation_refused_example :
    run_mutation smooth settings stage (text "shop") sales Mutation.trigger_deploy busy_world ≡ (
      raised (http 409 (Reason.in_progress (text "shop") DeployStatus.suspending)),
      called smooth Call.select_apps busy_world,
    )
unfolding Registry.get_app same_name text_eq upper authorize any mem
run_mutation_refused_example =
    run_mutation_refused smooth settings (text "shop") sales stage Mutation.trigger_deploy _
      busy_world refl refl

delete_app_removes_example :
    let (r, w') = delete_app smooth settings (text "SHOP") sales start_world in
    Removed (text "SHOP") start_world.registry r w'.registry
delete_app_removes_example = delete_app_removes smooth settings (text "SHOP") sales start_world

first_column_stuck_example :
    run_task stubborn settings (Task.update_license (text "Shop") shop (text "LIC")) busy_world ≡ (
      raised (error (text "timeout")),
      called stubborn
          (Call.update_apps (text "Shop") (Field.license_id (some (text "LIC")) ∷ []))
          busy_world,
    )
first_column_stuck_example =
    first_column_stuck stubborn settings (Task.update_license (text "Shop") shop (text "LIC")) _ _
      busy_world refl refl

abbrev at_rest : System
at_rest = record { world = start_world; pending = [] }

at_rest_balanced : AllBalanced start_world.registry []
unfolding Registry.get_app count_pending
at_rest_balanced n = elim (Bool-cases (same_name (text "Shop") n)) [
  | inl e ↦ rw e refl
  | inr e ↦ rw e (omega arith)
]

abbrev suspension : Task
suspension = Task.suspend (text "shop") (text "SHOP_SERVICE")

-- The sample app is asked to suspend, and the task is still pending.
asked :
    Reach smooth settings at_rest
      (respond smooth settings stage (text "shop") sales Mutation.suspend_app at_rest)
asked = later here (request stage (text "shop") sales Mutation.suspend_app at_rest)

Reach-balanced_example :
    let sys = respond smooth settings stage (text "shop") sales Mutation.suspend_app at_rest in
    AllBalanced sys.world.registry sys.pending
Reach-balanced_example =
    Reach-balanced smooth settings (λ n w fs. refl) at_rest _ at_rest_balanced asked

quiescent_settled_example : is_transient (some DeployStatus.ready) ≡ false
unfolding respond run_mutation suspend_app record_for_mutation Statements.get_app ◌>>=◌ call called
    pure gets checked gate authorize any mem upper text_eq same_name start Statements.update_app
    update_if modify Registry.all_allowed Registry.update_rows Registry.get_app set_fields set_field
    delete_app finish_delete raise
quiescent_settled_example =
    quiescent_settled smooth settings (λ n w fs. refl) at_rest _ (text "SHOP") shop at_rest_balanced
      (later here (delete (text "Other") sales start_world [])) refl refl
