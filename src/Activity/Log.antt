-- ===== src/Activity/Log.antt =====
-- The audit log itself: `insert` and `query` of Controller/app/activity.py, and the middleware and the
-- route of Controller/app/main.py that write and read it. The newest row stands first.
pub mod Trust
use mendix_for_snowflake.Prelude.{
  ℕ, ◌&&◌, ◌||◌, Bool, true, false, Option, none, some, List, [], ◌∷◌, Text, text, text_eq, truthy,
  truthy?, is_text, or_text, any, mem, filter, take, ltb, map, if◌then◌else◌,
}
use mendix_for_snowflake.Models.{AppRecord}
use mendix_for_snowflake.Registry.{Rows}
use mendix_for_snowflake.Auth.{Request, CallerIdentity, IdentityCache, resolve_caller, authorize}
use mendix_for_snowflake.Activity.{Action, derive_action}

pub data Outcome : Type 0 where
  accepted : Outcome
  rejected : ℕ → Outcome

-- A row of MENDIX_ACTIVITY, with its detail.
pub record Row : Type 0 where
  pub operator : Text
  pub action : Action
  pub app_name : Option Text
  pub path : Text
  pub method : Text
  pub status : ℕ
  pub result : Outcome

-- A request to the middleware: its headers, its method and its path.
pub record Hop : Type 0 where
  pub request : Request
  pub method : Text
  pub path : Text

-- `request.method in ("POST", "PUT", "PATCH", "DELETE")`
unfoldable pub is_mutation : Text → Bool
is_mutation method = mem method (text "POST" ∷ text "PUT" ∷ text "PATCH" ∷ text "DELETE" ∷ [])

-- `"accepted" if status < 400 else f"rejected ({status})"`
unfoldable pub outcome_of : ℕ → Outcome
outcome_of status = if ltb status 400 then accepted else rejected status

-- The operator that is logged: the header, or the resolved user.
unfoldable pub logged_operator : Option Text → Option Text → Text
logged_operator header user =
    if truthy? header then or_text header [] else or_text user (text "<anonymous>")

unfoldable pub row_for : Text → Hop → ℕ → Row
unfolding outcome_of
row_for operator hop status =
    let (action, app_name) = derive_action hop.method hop.path in
    record {
      operator = operator;
      action = action;
      app_name = app_name;
      path = hop.path;
      method = hop.method;
      status = status;
      result = outcome_of status;
    }

-- `activity.insert`, whose exceptions the middleware swallows
unfoldable pub insert : Bool → Row → List Row → List Row
insert fails row log = if fails then log else row ∷ log

module _ (digest : Text → Text) (query_session : ℕ → Text → Option (Option Text × List Text)) where
  -- `log_operator`. The status is what `call_next` returns, `none` where it raises: then so does the
  -- middleware.
  unfoldable pub log_operator :
      Option Text → IdentityCache → ℕ → Hop → Option ℕ → Bool → List Row → Option ℕ × List Row
  unfolding is_mutation logged_operator row_for insert
  log_operator secret cache now hop none insert_fails log = (none, log)
  log_operator secret cache now hop (some status) insert_fails log =
      let caller = (resolve_caller digest query_session secret cache now hop.request).0 in
      let operator = logged_operator hop.request.operator caller.user in
      if is_mutation hop.method
      then (some status, insert insert_fails (row_for operator hop status) log)
      else (some status, log)

-- A clause of `where`, which is left out where its value is empty.
unfoldable pub passes : Option Text → Option Text → Bool
passes wanted value =
    if truthy? wanted then (elim value [ none ↦ false | some v ↦ is_text wanted v ]) else true

-- `activity.query`
unfoldable pub query : Option Text → Option Text → ℕ → List Row → List Row
unfolding passes
query app operator limit log =
    take limit (filter (λ r. passes app r.app_name && passes operator (some r.operator)) log)

-- `r.get("app_name") in visible`
unfoldable pub is_visible : List Text → Row → Bool
is_visible names r = elim r.app_name [ none ↦ false | some name ↦ mem name names ]

unfoldable pub owned_names : List Text → List Text → Rows → List Text
owned_names privileged roles rows =
    map (λ a. a.name) (filter (λ a. authorize privileged (some a.owner_role) roles) rows)

-- `list_activity`
unfoldable pub list_activity :
    List Text → Option Text → Option Text → ℕ → List Text → Rows → List Row → List Row
unfolding query is_visible owned_names
list_activity privileged app operator limit roles rows log =
    let found = query app operator limit log in
    if any (λ r. mem r privileged) roles
    then found
    else filter (is_visible (owned_names privileged roles rows)) found
