-- ===== src/Routes/Downloads/Keys.antt =====
-- Whose downloads a caller can poll.
use mendix_for_snowflake.Prelude.{
  ◌≡◌, ◌≢◌, refl, some, List, [], ◌∷◌, Text, Dict, upper, to_upper, lookup, text_eq, text_eq_iff,
  Bool-cases, Option-cases, inl, inr, arith, ap, sym, ◌∙◌,
}
use mendix_for_snowflake.Names.{Settings}
use mendix_for_snowflake.World.{World, Environment, Result, ok, raised}
use mendix_for_snowflake.Models.{AppRecord}
use mendix_for_snowflake.LogJobs
use mendix_for_snowflake.LogJobs.{Job}
use mendix_for_snowflake.Routes.Downloads.{answer_poll, get_log_download}
use mendix_for_snowflake.Routes.{record_for_read}
use mendix_for_snowflake.SystemRoutes.{system_key}

-- What is polled, where anything is, is a job in the store, of this key.
found_key :
    (job_id key : Text) (jobs : Dict Job) (job : Job)
    → LogJobs.get_log_job job_id key jobs ≡ some job
    → (lookup job_id jobs ≡ some job) × (job.job_key ≡ key)
unfolding LogJobs.get_log_job
found_key job_id key jobs job h = elim (Option-cases (lookup job_id jobs)) [
  | inl e ↦ cc (rw (e, LogJobs.get_log_job) at h)
  | inr (j, e) ↦ elim (Bool-cases (text_eq j.job_key key)) [
    | inl t ↦
        let same : j ≡ job = cc (rw (e, t, LogJobs.get_log_job) at h) in
        (e ∙ ap some same, rw (← same) ((text_eq_iff j.job_key key).0 t))
    | inr f ↦ cc (rw (e, f, LogJobs.get_log_job) at h)
  ]
]

first_upper : (name : Text) (cs : Text) → upper name ≢ b's' ∷ cs
unfolding upper to_upper
first_upper [] cs h = cc
first_upper (c ∷ name) cs h = ground (arith, h)

module _ (env : Environment) (s : Settings) where
  polled :
      (name job_id : Text) (seen : Result AppRecord × World) (jobs : Dict Job) (job : Job)
      → (answer_poll name job_id jobs seen).0 ≡ ok (some job)
      → ((r : AppRecord) × (seen.0 ≡ ok r))
        × (LogJobs.get_log_job job_id (upper name) jobs ≡ some job)
  unfolding answer_poll
  polled name job_id (ok r, w) jobs job h = ((r, refl), cc h)
  polled name job_id (raised e, w) jobs job h = cc h

  -- A caller who polls the download of an app's logs may see the app, and gets the stored job of that
  -- id, which is the app's and none of a system service.
  pub get_log_download-key :
      (name job_id : Text) (roles : List Text) (w : World) (jobs : Dict Job) {job : Job}
      → (get_log_download env s name job_id roles w jobs).0 ≡ ok (some job)
      → ((r : AppRecord) × ((record_for_read env s name roles w).0 ≡ ok r))
        × (lookup job_id jobs ≡ some job)
        × (job.job_key ≡ upper name)
        × ((target : Text) → job.job_key ≢ system_key target)
  unfolding get_log_download system_key
  get_log_download-key name job_id roles w jobs {job} h =
      let (seen, found) = polled name job_id (record_for_read env s name roles w) jobs job h in
      let (stored, keyed) = found_key job_id (upper name) jobs job found in
      (seen, stored, keyed, λ target e. first_upper name _ (sym keyed ∙ e))
