-- ===== src/System.antt =====
-- The controller of Controller/app/main.py in time: requests arrive in any order, and the background
-- tasks that they added run at any later moment.
pub mod Exclusive
use mendix_for_snowflake.Prelude.{
  ℕ, suc, ◌≤◌, ◌≡◌, Bool, true, false, Option, none, some, List, [], ◌∷◌, ◌++◌, Text, same_name,
  if◌then◌else◌,
}
use mendix_for_snowflake.Models.{AppRecord, is_transient}
use mendix_for_snowflake.Registry
use mendix_for_snowflake.Registry.{Rows}
use mendix_for_snowflake.Names.{Settings}
use mendix_for_snowflake.World.{World, Environment, Result, ok, raised}
use mendix_for_snowflake.Tasks.{Task, task_name, run_task}
use mendix_for_snowflake.Routes.{Answer, unchanged, accepted}
use mendix_for_snowflake.Routes.Deploy.{Stage}
use mendix_for_snowflake.Routes.Service.{delete_app}
use mendix_for_snowflake.Mutations.{Mutation, run_mutation}

-- `pending` holds the tasks that were added and have not ended.
pub record System : Type 0 where
  pub world : World
  pub pending : List Task

-- The pending tasks after an answer.
abbrev pub added : Result Answer → List Task → List Task
added (ok (accepted status task warnings)) ts = task ∷ ts
added _ ts = ts

module _ (env : Environment) (s : Settings) where
  unfoldable pub respond : Stage → Text → List Text → Mutation → System → System
  respond stage name roles m sys =
      let (r, w') = run_mutation env s stage name roles m sys.world in
      record { world = w'; pending = added r sys.pending }

  -- What happens next: a request to change an app, a request to delete one, or a task that runs to
  -- its end.
  pub data Step : System → System → Type 0 where
    request :
        (stage : Stage) (name : Text) (roles : List Text) (m : Mutation) (sys : System)
        → Step sys (respond stage name roles m sys)
    delete :
        (name : Text) (roles : List Text) (w : World) (ts : List Task)
        → Step
            (record { world = w; pending = ts })
            (record { world = (delete_app env s name roles w).1; pending = ts })
    finish :
        (before : List Task) (t : Task) (after : List Task) (w : World)
        → Step
            (record { world = w; pending = before ++ t ∷ after })
            (record { world = (run_task env s t w).1; pending = before ++ after })

  pub data Reach (first : System) : System → Type 0 where
    here : Reach first first
    later : {a b : System} → Reach first a → Step a b → Reach first b

-- The tasks of an app that are pending.
unfoldable pub count_pending : Text → List Task → ℕ
count_pending n [] = 0
count_pending n (t ∷ ts) =
    let rest = count_pending n ts in if same_name (task_name t) n then suc rest else rest

-- The pending tasks that a row stands for: one where it is transient, none where it is not; and at
-- most one where there is no row.
abbrev pub Balanced : Option AppRecord → ℕ → Type 0
Balanced none k = k ≤ 1
Balanced (some r) k = k ≡ (if is_transient r.last_deploy_status then 1 else 0)

abbrev pub AllBalanced : Rows → List Task → Type 0
AllBalanced rows ts = (n : Text) → Balanced (Registry.get_app n rows) (count_pending n ts)
