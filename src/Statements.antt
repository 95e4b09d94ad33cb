-- ===== src/Statements.antt =====
-- The statements of registry.py, deploy_history.py and progress.py as actions on the controller's
-- state: each may raise, and then has changed nothing.
use mendix_for_snowflake.Prelude.{
  Option, List, [], ℕ, Text, upper, insert, erase, Bool, true, false, text,
}
use mendix_for_snowflake.Models.{AppRecord, Operation, StatusDetail}
use mendix_for_snowflake.Registry
use mendix_for_snowflake.Registry.{Rows, Field}
use mendix_for_snowflake.History
use mendix_for_snowflake.History.{Outcome, Entry}
use mendix_for_snowflake.World.{
  World, Environment, Exec, Call, Phase, error, call, modify, gets, raise, pure, ◌>>◌,
}

-- `progress.set_progress`
unfoldable pub set_progress : Text → Phase → World → World
set_progress name phase w = record w { progress = insert (upper name) phase w.progress }

-- `progress.clear_progress`
unfoldable pub clear_progress : Text → World → World
clear_progress name w = record w { progress = erase (upper name) w.progress }

module _ (env : Environment) where
  unfoldable pub get_app : Text → Exec (Option AppRecord)
  get_app name = do call env Call.select_apps; gets (λ w. Registry.get_app name w.registry)

  unfoldable pub list_apps : Exec Rows
  list_apps = do call env Call.select_apps; gets (λ w. w.registry)

  -- A column that may not be updated raises before any statement is run; no fields run none.
  unfoldable pub update_if : Bool → Text → List Field → Exec (Unit {0})
  update_if false name fs = raise (error (text "Invalid column(s) in update_app"))
  update_if true name fs = do
    call env (Call.update_apps name fs)
    modify (λ w. record w { registry = Registry.update_rows name fs w.registry })

  unfoldable pub update_app : Text → List Field → Exec (Unit {0})
  unfolding update_if
  update_app name [] = pure tt
  update_app name fs = update_if (Registry.all_allowed fs) name fs

  unfoldable pub create_app : AppRecord → Exec (Unit {0})
  create_app r = do
    call env (Call.insert_app r.name)
    modify (λ w. record w { registry = Registry.create_app r w.registry })

  unfoldable pub delete_app : Text → Exec (Unit {0})
  delete_app name = do
    call env (Call.delete_app name)
    modify (λ w. record w { registry = Registry.delete_app name w.registry })

  -- `deploy_history.record`: the insert, then the prune.
  unfoldable pub record_entry :
      Text → Operation → AppRecord → Outcome → Option StatusDetail → Exec (Unit {0})
  record_entry name op r status detail = do
    call env (Call.insert_history name)
    modify (λ w. record w { history = History.insert_row name op r status detail w.history })
    call env (Call.prune_history name)
    modify
        (λ w. record w { history = record w.history { rows = History.prune name w.history.rows } })

  unfoldable pub delete_for_app : Text → Exec (Unit {0})
  delete_for_app name = do
    call env (Call.delete_history name)
    modify (λ w. record w { history = History.delete_for_app name w.history })

  unfoldable pub last_success : Text → Exec (Option Entry)
  last_success name = do
    call env (Call.select_history name)
    gets (λ w. History.last_success name w.history)

  unfoldable pub get_entry : Text → ℕ → Exec (Option Entry)
  get_entry name id = do
    call env (Call.select_history name)
    gets (λ w. History.get_entry name id w.history)
