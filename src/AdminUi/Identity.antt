-- ===== src/AdminUi/Identity.antt =====
-- Admin UI/app/auth.py, and the headers that Admin UI/app/controller_client.py sends: who the operator
-- is, and what the controller is told. Streamlit's headers and the caller's session are inputs.
pub mod Forwarding
use mendix_for_snowflake.Prelude.{
  Bool, true, false, Option, none, some, List, [], ◌∷◌, Text, text, truthy?, or_text, or_none,
  upper, join, any, mem, map,
}
use mendix_for_snowflake.Auth.{Request, privileged_roles}

-- `current_operator`: the header of the ingress, `none` where reading the headers raises.
unfoldable pub current_operator : Option (Option Text) → Text
current_operator none = text "<anonymous>"
current_operator (some header) = or_text header (text "<anonymous>")

-- What the caller's session answers: the roles of its one row, or an exception.
pub data Answer : Type 0 where
  roles : List Text → Answer
  raised : Text → Answer

resolved : Answer → Option (List Text) × Option Text
resolved (roles rs) = (some (map upper rs), none)
resolved (raised e) = (none, some e)

-- `list_operator_roles`: the roles, or the exception that it raises. Without a caller token there is
-- no session, and no role.
unfoldable pub list_operator_roles : Option Text → Answer → Option (List Text) × Option Text
unfolding resolved
list_operator_roles caller_token answer = elim (truthy? caller_token) [
  | true ↦ resolved answer
  | false ↦ (some [], none)
]

-- `st.session_state`, by the keys operator_roles and operator_roles_error
pub record SessionState : Type 0 where
  pub operator_roles : Option (List Text)
  pub operator_roles_error : Option Text

store : Option (List Text) × Option Text → SessionState
store (none, e) = record { operator_roles = some []; operator_roles_error = e }
store (some rs, e) = record { operator_roles = some rs; operator_roles_error = none }

-- `operator_roles`: the session state behind it. The first resolution is kept, a failed one too.
unfoldable pub resolve_operator_roles : Option Text → Answer → SessionState → SessionState
unfolding list_operator_roles store
resolve_operator_roles caller_token answer session = elim session.operator_roles [
  | some _ ↦ session
  | none ↦ store (list_operator_roles caller_token answer)
]

-- `is_privileged_operator`, by the environment's PRIVILEGED_ROLES
unfoldable pub is_privileged_operator : Option Text → List Text → Bool
is_privileged_operator env operator_roles = any (λ r. mem r (privileged_roles env)) operator_roles

-- `",".join(roles)`, where there are any
unfoldable pub roles_header : List Text → Option Text
roles_header [] = none
roles_header (r ∷ rs) = some (join (b',' ∷ []) (r ∷ rs))

-- The headers of every request of a `ControllerClient`. The hop is inside the app, so it carries no
-- caller token; `internal_token` is the environment's INTERNAL_AUTH_TOKEN.
unfoldable pub client_request : Option Text → Text → List Text → Request
unfolding roles_header
client_request internal_token operator operator_roles = record {
  caller_token = none;
  operator = some operator;
  operator_roles = roles_header operator_roles;
  internal_auth = or_none internal_token;
}
