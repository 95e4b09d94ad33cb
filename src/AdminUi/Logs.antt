-- ===== src/AdminUi/Logs.antt =====
-- Admin UI/app/pages/3_Logs.py, and log_status.py: the sources that the page offers, what it makes of a
-- fetch that failed, and the state of a download. A call of the controller is a parameter.
pub mod Sources
pub mod Polling
use mendix_for_snowflake.Prelude.{
  ℕ, Bool, true, false, not, ◌&&◌, ◌||◌, Option, none, some, List, [], ◌∷◌, ◌++◌, map, Text, text,
  text_eq, or_text, ltb, decimal, ◌==◌, if◌then◌else◌,
}
use mendix_for_snowflake.LogJobs.{JobStatus}
use mendix_for_snowflake.AdminUi.Errors.{ControllerError}

pub data Kind : Type 0 where
  system app : Kind

-- A source: its label, its kind and its key.
abbrev pub Source : Type 0
Source = Text × Kind × Text

-- `_SYSTEM_SOURCES`
unfoldable pub system_sources : List Source
system_sources =
    (text "🛠 Controller (system)", Kind.system, text "controller")
    ∷ (text "🛠 Admin UI (system)", Kind.system, text "admin-ui")
    ∷ []

abbrev pub app_source : Text → Source
app_source name = (name, Kind.app, name)

-- `sources`
unfoldable pub sources : Bool → List Text → List Source
unfolding system_sources
sources privileged names = (if privileged then system_sources else []) ++ map app_source names

-- `next((s[1], s[2]) for s in sources if s[0] == selected_label)`
unfoldable pub select : Text → List Source → Option (Kind × Text)
unfolding text_eq
select label [] = none
select label ((shown, kind, key) ∷ rest) =
    if text_eq shown label then some (kind, key) else select label rest

-- `LARGE_LINES_THRESHOLD`
abbrev pub large_lines_threshold : ℕ
large_lines_threshold = 500

pub data Severity : Type 0 where
  info warning : Severity

large_or_transient : ℕ → Severity × Text
unfolding decimal
large_or_transient lines =
    if ltb large_lines_threshold lines
    then (
      warning,
      text "Log fetch failed, most likely because "
          ++ (decimal lines
              ++ text
                  " lines took longer than the request timeout window allows. The app itself keeps running - try a smaller number of lines."),
    )
    else (info, text "Log fetch failed transiently; retrying...")

-- `classify_log_fetch_failure`
unfoldable pub classify_log_fetch_failure : Option Text → ℕ → Severity × Text
unfolding large_or_transient text_eq
classify_log_fetch_failure none lines = large_or_transient lines
classify_log_fetch_failure (some status) lines = elim (text_eq status (text "RUNNING")) [
  | true ↦ large_or_transient lines
  | false ↦ (info, text "Container is restarting (status: " ++ (status ++ text "); retrying..."))
]

-- The first app with the name, as the list of apps gives its status
status_of : Text → List (Text × Option Text) → Option Text
unfolding text_eq
status_of key [] = none
status_of key ((name, status) ∷ apps) = if text_eq name key then status else status_of key apps

-- `_selected_service_status`, where the list of apps may fail
unfoldable pub selected_service_status :
    Kind → Text → Option (List (Text × Option Text)) → Option Text
unfolding status_of
selected_service_status system key listed = none
selected_service_status app key none = none
selected_service_status app key (some apps) = status_of key apps

-- What a view of the logs shows.
pub data View : Type 0 where
  no_output : View
  output : Text → View
  told : Severity → Text → View
  refused : ControllerError → View

-- What a fetch of the logs answers.
pub data Fetched : Type 0 where
  logs : Text → Fetched
  failed : ControllerError → Fetched

-- `_log_view`, without its scrolling
unfoldable pub log_view : Kind → Text → ℕ → Option (List (Text × Option Text)) → Fetched → View
unfolding classify_log_fetch_failure selected_service_status
log_view kind key lines listed (logs []) = no_output
log_view kind key lines listed (logs (c ∷ cs)) = output (c ∷ cs)
log_view kind key lines listed (failed e) =
    if e.status_code == 502
    then (let shown = classify_log_fetch_failure (selected_service_status kind key listed) lines in
        told shown.0 shown.1)
    else refused e

-- A download, as the page keeps it.
pub record Download : Type 0 where
  pub job_id : Text
  pub status : JobStatus
  pub logs : Option Text
  pub error : Option Text

-- What a poll answers.
pub data Answer : Type 0 where
  answered : JobStatus → Option Text → Option Text → Answer
  not_answered : ControllerError → Answer

-- The download that a click starts
unfoldable pub started : Text → Download
started job_id = record { job_id = job_id; status = JobStatus.pending; logs = none; error = none }

pub data Shown : Type 0 where
  nothing preparing : Shown
  download_failed : Option Text → Shown
  offered : Text → Text → Text → Shown
  check_failed : ControllerError → Shown

unfoldable pub show_job : Text → Download → Shown
show_job key job = elim job.status [
  | JobStatus.pending ↦ preparing
  | JobStatus.failed ↦ download_failed job.error
  | JobStatus.ready ↦
      offered (or_text job.logs []) (key ++ text "-logs.txt") (text "download-btn-" ++ job.job_id)
]

abbrev pub is_terminal : JobStatus → Bool
is_terminal JobStatus.pending = false
is_terminal JobStatus.ready = true
is_terminal JobStatus.failed = true

-- What a tick leaves: the download, the id that it asked the controller for, and what it shows.
pub record Tick : Type 0 where
  pub state : Download
  pub asked : Option Text
  pub shown : Shown

-- `_download_status`, once a download was started; the answer is read only where the controller is
-- asked.
unfoldable pub download_status : Text → Answer → Download → Tick
unfolding show_job
download_status key answer state = elim (is_terminal state.status) [
  | true ↦ record { state = state; asked = none; shown = show_job key state }
  | false ↦ elim answer [
    | not_answered e ↦ record { state = state; asked = some state.job_id; shown = check_failed e }
    | answered status found error ↦
        let job : Download = record {
          job_id = state.job_id;
          status = status;
          logs = found;
          error = error;
        } in
        record { state = job; asked = some state.job_id; shown = show_job key job }
  ]
]

-- The ticks of the page, one after another
unfoldable pub ticks : Text → List Answer → Download → List Tick
unfolding download_status
ticks key [] state = []
ticks key (answer ∷ answers) state =
    let tick = download_status key answer state in tick ∷ ticks key answers tick.state
