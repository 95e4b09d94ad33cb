-- ===== src/LogJobs/Scope.antt =====
-- Who sees a log download, and what becomes of one that runs.
use mendix_for_snowflake.Prelude.{
  ℕ, ◌≡◌, refl, false, none, some, List, [], ◌∷◌, Text, Dict, lookup, insert, lookup-insert, All,
  text_eq, text_eq_iff, text_eq_refl, filter, if◌then◌else◌, arith, Option-cases, inl, inr,
}
use mendix_for_snowflake.LogJobs.{
  new_job, Event, event_id, after_event, after_events, Job, Download, got, raised, is_stale,
  prune_log_jobs, start_log_download, finish_job, run_log_download, get_log_job,
}

-- A job that is answered is stored under the id and belongs to the caller's key.
pub get_log_job_scoped :
    (job_id job_key : Text) (jobs : Dict Job) (job : Job)
    → get_log_job job_id job_key jobs ≡ some job
    → (lookup job_id jobs ≡ some job) × (job.job_key ≡ job_key)
unfolding get_log_job
get_log_job_scoped job_id job_key jobs job h = elim (Option-cases (lookup job_id jobs)) [
  | inl e ↦ let bad = rw (e, get_log_job) at h in cc
  | inr (q, e) ↦ ground (arith, e, rw (e, get_log_job) at h, text_eq_iff q.job_key job_key)
]

-- A job that runs survives every prune.
lookup-prune_log_jobs :
    (now : ℕ) (job_id : Text) (jobs : Dict Job) (job : Job)
    → job.finished_at ≡ none
    → lookup job_id jobs ≡ some job
    → lookup job_id (prune_log_jobs now jobs) ≡ some job
unfolding prune_log_jobs filter lookup is_stale
lookup-prune_log_jobs now job_id [] job f h = cc
lookup-prune_log_jobs now job_id (e ∷ jobs) job f h =
    ground (arith, lookup-prune_log_jobs now job_id jobs job f)

lookup-after_event :
    (e : Event) (job_id : Text) (jobs : Dict Job) (job : Job)
    → text_eq (event_id e) job_id ≡ false
    → job.finished_at ≡ none
    → lookup job_id jobs ≡ some job
    → lookup job_id (after_event e jobs) ≡ some job
unfolding after_event start_log_download run_log_download
lookup-after_event (Event.start now id key) job_id jobs job ne f h =
    rw lookup-insert (rw ne (lookup-prune_log_jobs now job_id jobs job f h))
lookup-after_event (Event.run now id outcome) job_id jobs job ne f h =
    elim (Option-cases (lookup id jobs)) [
      | inl e ↦ rw (e, after_event, run_log_download) h
      | inr (q, e) ↦ rw (e, after_event, run_log_download) (rw lookup-insert (rw ne h))
    ]

lookup-after_events :
    (es : List Event) (job_id : Text) (jobs : Dict Job) (job : Job)
    → All (λ e. text_eq (event_id e) job_id ≡ false) es
    → job.finished_at ≡ none
    → lookup job_id jobs ≡ some job
    → lookup job_id (after_events es jobs) ≡ some job
unfolding after_events
lookup-after_events [] job_id jobs job ne f h = h
lookup-after_events (e ∷ es) job_id jobs job (ne, nes) f h =
    lookup-after_events es job_id (after_event e jobs) job nes f
      (lookup-after_event e job_id jobs job ne f h)

started_job :
    (now : ℕ) (job_id job_key : Text) (jobs : Dict Job)
    → lookup job_id (start_log_download now job_id job_key jobs) ≡ some (new_job job_key)
unfolding start_log_download
started_job now job_id job_key jobs = rw lookup-insert (rw text_eq_refl refl)

served :
    (later : ℕ) (job_id job_key other : Text) (outcome : Download) (jobs : Dict Job)
    → get_log_job job_id other (insert job_id (finish_job later outcome (new_job job_key)) jobs)
      ≡ (if text_eq job_key other then some (finish_job later outcome (new_job job_key)) else none)
unfolding get_log_job finish_job
served later job_id job_key other (got logs) jobs =
    rw (lookup-insert job_id job_id, get_log_job) (rw text_eq_refl refl)
served later job_id job_key other (raised e) jobs =
    rw (lookup-insert job_id job_id, get_log_job) (rw text_eq_refl refl)

-- However many other downloads start and end in between, a download that was started ends, and its
-- outcome is then answered to the key that started it, and 404 to every other key.
pub download_served :
    (es : List Event) (now later : ℕ) (job_id job_key other : Text) (outcome : Download)
    (jobs : Dict Job)
    → All (λ e. text_eq (event_id e) job_id ≡ false) es
    → (jobs' : Dict Job) × (run_log_download later job_id outcome
          (after_events es (start_log_download now job_id job_key jobs))
        ≡ some jobs')
      × (get_log_job job_id other jobs' ≡ (
          if text_eq job_key other
          then some (finish_job later outcome (new_job job_key))
          else none))
unfolding run_log_download
download_served es now later job_id job_key other outcome jobs ne =
    let there =
      lookup-after_events es job_id (start_log_download now job_id job_key jobs) (new_job job_key)
        ne refl (started_job now job_id job_key jobs) in
    (
      insert job_id (finish_job later outcome (new_job job_key))
          (after_events es (start_log_download now job_id job_key jobs)),
      rw (there, run_log_download) refl,
      served later job_id job_key other outcome _,
    )
