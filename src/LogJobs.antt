-- ===== src/LogJobs.antt =====
-- Controller/app/log_jobs.py: the store of log downloads, keyed by the job's id. The lock makes each
-- function one step; `uuid4` hands out the ids, which are given here.
pub mod Scope
use mendix_for_snowflake.Prelude.{
  ℕ, ◌+◌, Bool, true, false, not, Option, none, some, List, [], ◌∷◌, Text, Dict, lookup, insert,
  text_eq, filter, ltb, if◌then◌else◌,
}

-- `_LOG_JOB_TTL_SECS`
abbrev pub log_job_ttl_secs : ℕ
log_job_ttl_secs = 1800

pub data JobStatus : Type 0 where
  pending ready failed : JobStatus

pub record Job : Type 0 where
  pub job_key : Text
  pub status : JobStatus
  pub logs : Option Text
  pub error : Option Text
  pub finished_at : Option ℕ

-- `job["finished_at"] is not None and now - job["finished_at"] > _LOG_JOB_TTL_SECS`
unfoldable pub is_stale : ℕ → Job → Bool
is_stale now job = elim job.finished_at [
  | none ↦ false
  | some finished ↦ ltb (finished + log_job_ttl_secs) now
]

-- `_prune_log_jobs`
unfoldable pub prune_log_jobs : ℕ → Dict Job → Dict Job
unfolding is_stale
prune_log_jobs now jobs = filter (λ e. not (is_stale now e.1)) jobs

abbrev pub new_job : Text → Job
new_job job_key = record {
  job_key = job_key;
  status = pending;
  logs = none;
  error = none;
  finished_at = none;
}

-- `_start_log_download`, which then adds the download as a background task
unfoldable pub start_log_download : ℕ → Text → Text → Dict Job → Dict Job
unfolding prune_log_jobs
start_log_download now job_id job_key jobs =
    insert job_id (new_job job_key) (prune_log_jobs now jobs)

-- What the download ends with: the logs, or the exception's text.
pub data Download : Type 0 where
  got : Text → Download
  raised : Text → Download

unfoldable pub finish_job : ℕ → Download → Job → Job
finish_job now (got logs) job = record job {
  status = ready;
  logs = some logs;
  error = none;
  finished_at = some now;
}
finish_job now (raised e) job = record job {
  status = failed;
  logs = none;
  error = some e;
  finished_at = some now;
}

-- `_run_log_download`: `none` where the job is missing, since the store then raises a `KeyError` in
-- the handler too.
unfoldable pub run_log_download : ℕ → Text → Download → Dict Job → Option (Dict Job)
unfolding finish_job
run_log_download now job_id outcome jobs = elim (lookup job_id jobs) [
  | none ↦ none
  | some job ↦ some (insert job_id (finish_job now outcome job) jobs)
]

-- `_get_log_job`: `none` where it answers 404.
unfoldable pub get_log_job : Text → Text → Dict Job → Option Job
get_log_job job_id job_key jobs = elim (lookup job_id jobs) [
  | none ↦ none
  | some job ↦ if text_eq job.job_key job_key then some job else none
]

-- What happens to the store between two looks at it.
pub data Event : Type 0 where
  start : ℕ → Text → Text → Event
  run : ℕ → Text → Download → Event

abbrev pub event_id : Event → Text
event_id (start now job_id job_key) = job_id
event_id (run now job_id outcome) = job_id

unfoldable pub after_event : Event → Dict Job → Dict Job
unfolding start_log_download run_log_download
after_event (start now job_id job_key) jobs = start_log_download now job_id job_key jobs
after_event (run now job_id outcome) jobs = elim (run_log_download now job_id outcome jobs) [
  | none ↦ jobs
  | some jobs' ↦ jobs'
]

unfoldable pub after_events : List Event → Dict Job → Dict Job
unfolding after_event
after_events [] jobs = jobs
after_events (e ∷ es) jobs = after_events es (after_event e jobs)
