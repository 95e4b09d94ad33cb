-- ===== src/PgAdmin.antt =====
-- Controller/app/pg_admin.py: an app's role and database in Postgres. The server is a parameter; each
-- statement commits by itself, or raises and changes nothing.
pub mod Steps
pub mod Isolation
use mendix_for_snowflake.Prelude.{
  Bool, true, false, not, Option, none, some, Text, text, text_eq, rpartition?, if◌then◌else◌,
}

pub data Statement : Type 0 where
  create_role alter_role_login create_database revoke_connect_from_public : Text → Statement
  grant_connect : Text → Text → Statement
  grant_schema : Text → Statement
  terminate_backends drop_database drop_role : Text → Statement

-- `_BOOTSTRAP_USER`, the role of every connection here, and the owner of every database
abbrev pub bootstrap_user : Text
bootstrap_user = text "application"

-- A server, with what the statements test and what decides who may connect: the PUBLIC privilege of a
-- database, its grants, its owner, and which roles one role acts as, itself or by membership.
pub record Postgres : Type 1 where
  pub State : Type 0
  pub reachable : Text → State → Bool
  pub role_exists : Text → State → Bool
  pub db_exists : Text → State → Bool
  pub run : Statement → State → Option State
  pub public_may : Text → State → Bool
  pub granted : Text → Text → State → Bool
  pub owner : Text → State → Option Text
  pub acts_as : Text → Text → State → Bool

-- `_parse_host_port`: `none` is the default port, and `int` of a given one is left to the caller.
unfoldable pub parse_host_port : Text → Text × Option Text
parse_host_port host_port = elim (rpartition? b':' host_port) [
  | none ↦ (host_port, none)
  | some (host, port) ↦ (host, some port)
]

module _ (pg : Postgres) where
  -- Did it return, and the state that it leaves.
  abbrev pub Action : Type 0
  Action = pg.State → Bool × pg.State

  abbrev pub resume : Action → Bool × pg.State → Bool × pg.State
  resume n (true, s) = n s
  resume n (false, s) = (false, s)

  infixr 5 ◌then◌
  unfoldable pub ◌then◌ : Action → Action → Action
  (m then n) s = resume n (m s)

  abbrev pub reply : pg.State → Option pg.State → Bool × pg.State
  reply s none = (false, s)
  reply s (some s') = (true, s')

  -- `cur.execute`
  unfoldable pub execute : Statement → Action
  execute st s = reply s (pg.run st s)

  -- `_connect`
  unfoldable pub connect : Text → Action
  connect dbname s = (pg.reachable dbname s, s)

  unfoldable pub unless : (pg.State → Bool) → Action → Action
  unless test m s = if test s then (true, s) else m s

  -- `provision_app`
  unfoldable pub provision_app : Text → Text → Action
  provision_app pg_database pg_username =
      connect (text "postgres")
      then unless (pg.role_exists pg_username) (execute (create_role pg_username))
      then execute (alter_role_login pg_username)
      then unless (pg.db_exists pg_database) (execute (create_database pg_database))
      then execute (revoke_connect_from_public pg_database)
      then execute (grant_connect pg_database pg_username)
      then connect pg_database
      then execute (grant_schema pg_username)

  -- A statement whose failure is logged and swallowed.
  unfoldable pub tolerate : Statement → Action
  unfolding execute
  tolerate st s = (true, (execute st s).1)

  -- `deprovision_app`
  unfoldable pub deprovision_app : Text → Text → Action
  unfolding connect tolerate
  deprovision_app pg_database pg_username s =
      if pg.reachable (text "postgres") s
      then (tolerate (terminate_backends pg_database)
            then tolerate (drop_database pg_database)
            then tolerate (drop_role pg_username))
          s
      else (true, s)
