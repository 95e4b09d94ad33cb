-- ===== src/Examples/History.antt =====
-- A short history of one app.
use mendix_for_snowflake.Prelude.{
  ◌≡◌, refl, true, none, some, [], ◌∷◌, Text, text, same_name, if◌then◌else◌, arith, replicate,
  filter, text_eq, upper,
}
use mendix_for_snowflake.Models.{Operation, StatusDetail}
use mendix_for_snowflake.Registry
use mendix_for_snowflake.Registry.{Field}
use mendix_for_snowflake.Registry.Lookup.{set_found, get_app-update_rows}
use mendix_for_snowflake.History.{
  History, ready, rows_for, record_entry, last_success, get_entry, snapshot,
}
use mendix_for_snowflake.History.Window.{entry}
use mendix_for_snowflake.History.Targets.{
  Attempt, record_failures, last_success-record_entry, failures_forget_success, get_entry_scoped,
}
use mendix_for_snowflake.Examples.Data.{shop, no_history}

abbrev name : Text
name = text "shop"

abbrev deployed : History
deployed = record {
  rows = entry name Operation.deploy shop ready none no_history ∷ [];
  next_id = 2;
}

last_success-record_entry_example :
    last_success name (record_entry name Operation.spec shop ready none deployed)
    ≡ some (entry name Operation.spec shop ready none deployed)
last_success-record_entry_example = last_success-record_entry name Operation.spec shop none deployed

abbrev attempt : Attempt
attempt = record {
  operation = Operation.spec;
  record_of = shop;
  detail = some (StatusDetail.raised (text "no"));
}

failures_forget_success_example :
    last_success name (record_failures name (replicate 20 attempt) deployed) ≡ none
failures_forget_success_example =
    failures_forget_success name (replicate 20 attempt) deployed (omega arith)

deployed_before :
    last_success name deployed ≡ some (entry name Operation.deploy shop ready none no_history)
unfolding last_success snapshot filter rows_for same_name text_eq upper
deployed_before = refl

found : get_entry name 1 deployed ≡ some (entry name Operation.deploy shop ready none no_history)
unfolding get_entry snapshot filter rows_for same_name text_eq upper
found = refl

get_entry_scoped_example :
    (same_name (entry name Operation.deploy shop ready none no_history).app_name name ≡ true)
    × ((entry name Operation.deploy shop ready none no_history).id ≡ 1)
get_entry_scoped_example = get_entry_scoped name 1 deployed found

get_app-update_rows_example :
    Registry.get_app
      (text "SHOP")
      (Registry.update_rows name (Field.owner_role (text "ops") ∷ []) (shop ∷ []))
    ≡ (if same_name name (text "SHOP")
        then set_found
            (Field.owner_role (text "ops") ∷ [])
            (Registry.get_app (text "SHOP") (shop ∷ []))
        else Registry.get_app (text "SHOP") (shop ∷ []))
get_app-update_rows_example =
    get_app-update_rows name (text "SHOP") (Field.owner_role (text "ops") ∷ []) (shop ∷ [])
