-- ===== src/AdminUi/Logs/Polling.antt =====
-- How long the page polls a download, and what it shows then.
use mendix_for_snowflake.Prelude.{
  ◌≡◌, refl, ap, true, Option, none, some, List, [], ◌∷◌, ◌++◌, Text, length, replicate, All,
}
use mendix_for_snowflake.LogJobs.{JobStatus}
use mendix_for_snowflake.AdminUi.Logs.{
  Download, Answer, started, show_job, is_terminal, Tick, download_status, ticks,
}

-- The answer does not end the download.
abbrev pub IsWaiting : Answer → Type 0
IsWaiting (Answer.answered status logs error) = status ≡ JobStatus.pending
IsWaiting (Answer.not_answered e) = Unit

-- The controller was asked for the download, which has not ended.
abbrev pub Asks : Text → Tick → Type 0
Asks job_id tick = (tick.asked ≡ some job_id) × (tick.state.status ≡ JobStatus.pending)

module _ (key : Text) where
  -- A tick of a download that has ended
  abbrev pub at_rest : Option Text → Download → Tick
  at_rest asked job = record { state = job; asked = asked; shown = show_job key job }

  ticks-at_rest :
      (job : Download) (answers : List Answer)
      → is_terminal job.status ≡ true
      → ticks key answers job ≡ replicate (length answers) (at_rest none job)
  unfolding ticks download_status
  ticks-at_rest job [] h = refl
  ticks-at_rest job (a ∷ answers) h =
      rw (h, download_status) (ap (λ t. at_rest none job ∷ t) (ticks-at_rest job answers h))

  ticks-Asks :
      (job : Download) (before : List Answer)
      → job.status ≡ JobStatus.pending
      → All IsWaiting before
      → All (Asks job.job_id) (ticks key before job)
  unfolding ticks download_status
  ticks-Asks job [] p waiting = tt
  ticks-Asks job (Answer.answered status logs error ∷ before) p (w, waiting) =
      rw (p, download_status)
        (
          (refl, w),
          ticks-Asks (record { job_id = job.job_id; status = status; logs = logs; error = error })
              before w waiting,
        )
  ticks-Asks job (Answer.not_answered e ∷ before) p (w, waiting) =
      rw (p, download_status) ((refl, p), ticks-Asks job before p waiting)

  ticks-append :
      (job : Download) (before after : List Answer) (last : JobStatus) (found failure : Option Text)
      → job.status ≡ JobStatus.pending
      → is_terminal last ≡ true
      → All IsWaiting before
      → let end : Download = record {
        job_id = job.job_id;
        status = last;
        logs = found;
        error = failure;
      } in
        ticks key (before ++ Answer.answered last found failure ∷ after) job
        ≡ ticks key before job
          ++ at_rest (some job.job_id) end ∷ replicate (length after) (at_rest none end)
  unfolding ticks download_status
  ticks-append job [] after last found failure p ended waiting =
      rw (p, download_status)
        (rw
          (ticks-at_rest
            (record { job_id = job.job_id; status = last; logs = found; error = failure }) after
            ended)
          refl)
  ticks-append job (Answer.answered status logs error ∷ before) after last found failure p ended
        (w, waiting) =
      rw (p, download_status)
        (rw
          (ticks-append
            (record { job_id = job.job_id; status = status; logs = logs; error = error }) before
            after last found failure w ended waiting)
          refl)
  ticks-append job (Answer.not_answered e ∷ before) after last found failure p ended (w, waiting) =
      rw (p, download_status)
        (rw (ticks-append job before after last found failure p ended waiting) refl)

-- Until a poll answers that a download has ended, each tick of the page asks the controller for that
-- download, by the id that its start gave, through answers that it is pending and through errors. The
-- tick that learns of the end shows it, and every tick from then on asks nothing and shows the same.
pub download_settles :
    (key job_id : Text) (before after : List Answer) (status : JobStatus) (logs error : Option Text)
    → All IsWaiting before
    → is_terminal status ≡ true
    → let end : Download = record {
      job_id = job_id;
      status = status;
      logs = logs;
      error = error;
    } in
      All (Asks job_id) (ticks key before (started job_id))
      × (ticks key (before ++ Answer.answered status logs error ∷ after) (started job_id)
          ≡ ticks key before (started job_id)
            ++ at_rest key (some job_id) end ∷ replicate (length after) (at_rest key none end))
unfolding started
download_settles key job_id before after status logs error waiting ended = (
  ticks-Asks key (started job_id) before refl waiting,
  ticks-append key (started job_id) before after status logs error refl ended waiting,
)
