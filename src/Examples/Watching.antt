-- ===== src/Examples/Watching.antt =====
-- The page of the logs at concrete inputs.
use mendix_for_snowflake.Prelude.{
  ◌≡◌, refl, true, none, some, List, [], ◌∷◌, Text, text, text_eq, decimal, all, All,
}
use mendix_for_snowflake.LogJobs.{JobStatus}
use mendix_for_snowflake.PadParser.{is_letter, is_word, is_between}
use mendix_for_snowflake.Requests.Create.{is_field_name}
use mendix_for_snowflake.AdminUi.Errors.{ControllerError, end}
use mendix_for_snowflake.AdminUi.Logs.{
  Kind, system_sources, sources, select, Severity, View, Fetched, classify_log_fetch_failure,
  selected_service_status, log_view, Answer, Download,
}

abbrev gateway : ControllerError
gateway = record { status_code = 502; body = end }

abbrev names : List Text
names = text "Shop" ∷ text "Desk" ∷ []

names_valid : All (λ n. is_field_name n ≡ true) names
unfolding is_field_name all is_letter is_word is_between
names_valid = (refl, (refl, tt))

controller_selected :
    select (text "🛠 Controller (system)") (sources true names)
    ≡ some (Kind.system, text "controller")
unfolding select sources system_sources text_eq
controller_selected = refl

abbrev waited : List Answer
waited = Answer.answered JobStatus.pending none none ∷ Answer.not_answered gateway ∷ []

abbrev more : List Answer
more = Answer.not_answered gateway ∷ []

abbrev finished : Download
finished = record {
  job_id = text "j1";
  status = JobStatus.ready;
  logs = some (text "up");
  error = none;
}

-- A slow fetch of a running app, and an app that restarts.
views_told : (classify_log_fetch_failure (some (text "RUNNING")) 501).0 ≡ Severity.warning
unfolding classify_log_fetch_failure text_eq decimal
views_told = refl

restart_told :
    log_view Kind.app
      (text "Shop")
      200
      (some ((text "Shop", some (text "PENDING")) ∷ []))
      (Fetched.failed gateway)
    ≡ View.told Severity.info (text "Container is restarting (status: PENDING); retrying...")
unfolding log_view classify_log_fetch_failure selected_service_status text_eq
restart_told = refl
