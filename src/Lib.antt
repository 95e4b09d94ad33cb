-- ===== src/Lib.antt =====
-- The deployment controller of Mendix for Snowflake (Controller/app) and the logic of its admin UI
-- (Admin UI/app), as functions and as a system of steps.
--
-- The controller is one FastAPI process inside a Snowflake Native App. It keeps a table of apps
-- (registry.py) and a table of deploys (deploy_history.py) in Snowflake, and in memory the progress
-- of the running tasks, a cache of callers, the store of log downloads and the shared connection. A
-- request is resolved to a caller (auth.py), passes a guard over the app's row, stamps the row with
-- a transient status and adds a background task. The task builds the specification of the app's
-- service (spec_builder.py), applies it through snowflake_client.py, waits for the service, and
-- stamps how that ended. The PAD that a deploy starts is read by pad_parser.py. A middleware
-- writes every mutating request into an audit log (activity.py). The admin UI is a Streamlit app
-- that forwards its operator's roles and calls the controller's routes.
--
-- Files and code:
--   Prelude      Python's str (a list of code points), dict (an association list in insertion order) and
--                list, with numbers as the native naturals.
--   Models       models.py: AppRecord, the tiers, the statuses and the operations.
--   Registry     registry.py: one function per statement, on the list of rows. A column is a constructor
--                of Field, and `_row_to_record` is the identity on what the columns hold.
--   History      deploy_history.py: the rows newest first, which is the order of
--                `started_at DESC, id DESC`, since ids and times grow together.
--   Auth         auth.py: resolve_caller with its cache, and authorize.
--   Names        The naming helpers and _compose_eai_names of main.py.
--   SpecBuilder  spec_builder.py, up to the printing as YAML.
--   PadParser    pad_parser.py: the size caps, the constants, the user roles; Lines reads the lines of the
--                two .conf files, and Zip finds these in the PAD.
--   Sql          The texts of the statements of snowflake_client.py, with its guards.
--   Client       snowflake_client.py: the connection with its one retry, and the settings.
--   World        The state of the controller and the actions on it: an action returns or raises, beside
--                the state that it leaves. Every call of Snowflake and Postgres is a constructor of Call.
--   Statements   The statements of Registry and History as actions, and progress.py.
--   Poll         _poll_status, _poll_ready and the readiness of containers of main.py.
--   Lifecycle    _run_lifecycle_task, _record_history and _truncate of main.py.
--   Respec       What those tasks share: applying a specification, and _stamp_deploy_success.
--   Tasks        The eleven functions _run_* of main.py that are added as background tasks.
--   Routes       The routes of main.py: the guards, then Config, Deploy, Service, Create, Read and
--                Downloads.
--   Mutations    The twelve routes that add a task to an app, as one dispatch.
--   System       Requests, deletions and ends of tasks as the steps of a relation.
--   Platform     _refresh_platform_staleness of main.py.
--   Requests     The validators of models.py.
--   Activity     derive_action of activity.py; Log is the log itself, with log_operator and list_activity of
--                main.py.
--   SystemRoutes The routes of main.py under /system: Handlers are those for privileged roles, Signals
--                those for everybody.
--   PgAdmin      pg_admin.py: the statements on a Postgres server.
--   LogJobs      log_jobs.py.
--   EgressWatch  egress_watch.py.
--   AdminUi      Identity is auth.py of the UI and the headers of controller_client.py, Calls and Errors
--                are the rest of that; Apps, Register, Logs and Infrastructure are what these pages decide,
--                with log_status.py in Logs; Setup has setup_checks.py and a helper of data.py.
--   Compliance   notice_path and extract_notices of compliance/build_evidence.py, on the members of an
--                archive; Paths has the functions of Python's posixpath that these use. Inventory is
--                inventory of the same file, less its CSV.
--   Examples     Concrete inputs and tests.
--
-- Where a module has children, they hold its theorems, by what these are about (Poll.Bounds,
-- Lifecycle.Settle, Mutations.Guard). Lifecycle.Rules, Routes.Effects and Routes.Reads are the
-- rules for actions that the proofs about routes and tasks share.
--
-- The surroundings are parameters. An Environment says, for each state and call, whether the call
-- raises, how long it takes and what the queries answer; nothing is assumed of it but what a
-- theorem states. The hypothesis that Snowflake takes the updates of a row is UpdatesSucceed. A
-- Stage is the mounted stage, which may not be readable, with what the parser makes of a file, a Server is the connector, a
-- Postgres is the database server with what it documents of its statements as hypotheses, and the
-- digest and the session of auth.py, which answers by the time and the token, are functions, and so are the digest of a notice, the JSON
-- parsers, and the decoding of UTF-8. A Platform answers the system routes. How
-- Snowflake reads a string literal is a function, with what it documents as hypotheses
-- (ReadsLiterals). Settings holds the variables of the container.
--
-- Bounds and fuel: the two loops of Poll run on fuel, one more than the timeout in seconds. Each
-- round sleeps ten seconds, so the deadline passes before the fuel ends, whatever the calls take.
-- The chase of links in an archive runs on fuel, one more than its members, each of which it visits
-- at most once.
-- Ages, sizes and times are unbounded naturals, as Python's integers are; clocks count whole
-- seconds.
--
-- Simplifications: upper and lower act on ASCII letters, as the patterns of models.py leave no
-- others in a name. The texts of statuses and messages are constructors. ISO texts of the egress
-- watch are the times they parse to, and their days are those in UTC. A presented internal token that
-- is not ASCII, for which the comparison of auth.py raises, resolves to nobody. Of several rows of one
-- name get_app takes the first, where the SELECT has no order; there are several only where two
-- registrations interleave between the check of the name and the insertion. A task is one step of System, and so is a request: the guard
-- of main.py reads the row and stamps it in two statements, and requests that interleave between
-- these are not told apart. A registration, and a restart, which would lose the pending tasks, are
-- not steps.
--
-- Not modelled: the printing of YAML, the lifespan and the environment's reading in main.py, the
-- drawing of the Streamlit pages and those pages that only draw, branding, the Java and JavaScript
-- modules, the installer's SQL, and of the compliance scripts all but the notices and the inventory,
-- of which the errors of the file system are left out: pure input and output, other languages, or left
-- for later. Paths of the UI's requests are not percent-encoded, since names are identifiers.
pub mod System
pub mod SystemRoutes
pub mod Sql
pub mod PgAdmin
pub mod Respec
pub mod Platform
pub mod Activity
pub mod Requests
pub mod EgressWatch
pub mod Client
pub mod PadParser
pub mod LogJobs
pub mod Prelude
pub mod AdminUi
pub mod Auth
pub mod Models
pub mod Registry
pub mod History
pub mod Names
pub mod SpecBuilder
pub mod World
pub mod Statements
pub mod Poll
pub mod Lifecycle
pub mod Tasks
pub mod Routes
pub mod Mutations
pub mod Compliance
pub mod Examples
