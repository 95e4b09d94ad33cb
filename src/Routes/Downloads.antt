-- ===== src/Routes/Downloads.antt =====
-- The routes of Controller/app/main.py that start and poll the download of an app's logs.
pub mod Keys
use mendix_for_snowflake.Prelude.{ℕ, Option, none, some, List, Text, Dict, upper, text}
use mendix_for_snowflake.Models.{AppRecord}
use mendix_for_snowflake.Names.{Settings}
use mendix_for_snowflake.World.{World, Environment, Result, ok, raised}
use mendix_for_snowflake.Routes.{record_for_read}
use mendix_for_snowflake.LogJobs
use mendix_for_snowflake.LogJobs.{Job}

-- An answer; `none` stands for the 404 of a job that is not found.
abbrev pub Polled : Type 0
Polled = Option Job

-- Behind the read guard
answer_start :
    ℕ → Text → Text → Dict Job → Result AppRecord × World → Result Text × (World × Dict Job)
answer_start now job_id name jobs (ok _, w) =
    (ok job_id, (w, LogJobs.start_log_download now job_id (upper name) jobs))
answer_start now job_id name jobs (raised e, w) = (raised e, (w, jobs))

unfoldable pub answer_poll :
    Text → Text → Dict Job → Result AppRecord × World → Result Polled × World
answer_poll name job_id jobs (ok _, w) = (ok (LogJobs.get_log_job job_id (upper name) jobs), w)
answer_poll name job_id jobs (raised e, w) = (raised e, w)

module _ (env : Environment) (s : Settings) where
  -- `start_log_download`: the id of the new job, and the jobs
  unfoldable pub start_log_download :
      ℕ → Text → Text → List Text → World → Dict Job → Result Text × (World × Dict Job)
  unfolding answer_start
  start_log_download now job_id name roles w jobs =
      answer_start now job_id name jobs (record_for_read env s name roles w)

  -- `get_log_download`
  unfoldable pub get_log_download :
      Text → Text → List Text → World → Dict Job → Result Polled × World
  unfolding answer_poll
  get_log_download name job_id roles w jobs =
      answer_poll name job_id jobs (record_for_read env s name roles w)
