-- ===== src/Client.antt =====
-- Controller/app/snowflake_client.py: the one shared connection, and the settings in internal_config.
-- The lock makes `execute_sql` one step; the connector and the session token are the server's.
pub mod Retry
pub mod Config
use mendix_for_snowflake.Prelude.{
  ℕ, Bool, true, false, ◌&&◌, ◌||◌, Option, none, some, List, [], ◌∷◌, Text, Dict, lookup, insert,
  erase, text, lower, starts_with, ◌==◌, any, if◌then◌else◌,
}

-- An exception of the connector.
pub record Failure : Type 0 where
  pub errno : Option ℕ
  pub is_connection_error : Bool
  pub message : Text

-- `part in a`
unfoldable pub has_text : Text → Text → Bool
has_text part [] = starts_with part []
has_text part (c ∷ cs) = starts_with part (c ∷ cs) || has_text part cs

-- `_REAUTH_ERRNOS`
abbrev pub reauth_errnos : List ℕ
reauth_errnos = 390114 ∷ 390111 ∷ 390195 ∷ []

-- `_is_recoverable`
unfoldable pub is_recoverable : Failure → Bool
unfolding has_text
is_recoverable e =
    (elim e.errno [ none ↦ false | some n ↦ any (λ k. k == n) reauth_errnos ])
    || (e.is_connection_error || has_text (text "token has expired") (lower e.message))

pub data Reply {ℓ} (A : Type ℓ) : Type ℓ where
  answered : A → Reply A
  failed : Failure → Reply A

-- `_conn`, by the token it was opened with, and the statements sent, the newest first.
pub record Session : Type 0 where
  pub conn : Option Text
  pub sent : List (Text × Text)

-- What the mounted token file, the connector and Snowflake answer, which may depend on the past.
pub record Server (Row : Type 0) : Type 0 where
  pub token : Session → Text
  pub is_closed : Session → Bool
  pub connect : Session → Option Failure
  pub run : Session → Reply (List Row)

module _ {Row : Type 0} (server : Server Row) where
  unfoldable pub open_connection : Session → Reply Text × Session
  open_connection c = elim (server.connect c) [
    | some e ↦ (failed e, c)
    | none ↦ (answered (server.token c), record c { conn = some (server.token c) })
  ]

  -- `get_connection`
  unfoldable pub get_connection : Session → Reply Text × Session
  unfolding open_connection
  get_connection c = elim c.conn [
    | none ↦ open_connection c
    | some t ↦ if server.is_closed c then open_connection c else (answered t, c)
  ]

  run_on : Text → Reply Text × Session → Reply (List Row) × Session
  run_on sql (failed e, c) = (failed e, c)
  run_on sql (answered t, c) = let c' = record c { sent = (t, sql) ∷ c.sent } in (server.run c', c')

  -- A connection, and the statement on it.
  unfoldable pub try_once : Text → Session → Reply (List Row) × Session
  unfolding run_on get_connection
  try_once sql c = run_on sql (get_connection c)

  -- The `except` of the first attempt.
  unfoldable pub retry : Text → Reply (List Row) × Session → Reply (List Row) × Session
  unfolding try_once
  retry sql (answered rows, c) = (answered rows, c)
  retry sql (failed e, c) =
      let dropped = record c { conn = none } in
      if is_recoverable e then try_once sql dropped else (failed e, dropped)

  -- `execute_sql`
  unfoldable pub execute_sql : Text → Session → Reply (List Row) × Session
  unfolding retry
  execute_sql sql c = retry sql (try_once sql c)

-- `get_config`
unfoldable pub get_config : Text → Dict Text → Option Text
get_config key config = lookup key config

-- `set_config`: no value deletes the key.
unfoldable pub set_config : Text → Option Text → Dict Text → Dict Text
set_config key none config = erase key config
set_config key (some value) config = insert key value config
