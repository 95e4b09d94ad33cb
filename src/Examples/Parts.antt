-- ===== src/Examples/Parts.antt =====
-- The other parts at concrete inputs.
use mendix_for_snowflake.Prelude.{
  ℕ, suc, ◌≤◌, ◌≡◌, refl, true, false, Option, none, some, List, [], ◌∷◌, Text, Dict, text, text_eq,
  length, leb, if◌then◌else◌,
}
use mendix_for_snowflake.SpecBuilder.{PadConstant}
use mendix_for_snowflake.LogJobs.{
  Job, got, new_job, start_log_download, run_log_download, get_log_job, finish_job, after_events,
  Event,
}
use mendix_for_snowflake.LogJobs.Scope.{download_served}
use mendix_for_snowflake.PadParser.{Member}
use mendix_for_snowflake.Client.{Session, Server, failed, answered}
use mendix_for_snowflake.EgressWatch.{
  Watch, Faults, Pass, parse_ranges, min_expiry, run_iteration, run_passes, maybe_send_alert,
  persist, addressees, is_due, is_far, is_acknowledged, is_today, send,
}
use mendix_for_snowflake.EgressWatch.Alerts.{one_alert_a_day}

abbrev key_before : Dict Text
key_before = (text "Main.Key", text "old") ∷ []

abbrev key_after : Dict Text
key_after = (text "Main.Key", text "new") ∷ []

abbrev download : Event
download = Event.start 10 (text "j2") (text "app:Other")

download_served_example :
    (jobs' : Dict Job) × (run_log_download 20
        (text "j1")
        (got (text "log"))
        (after_events (download ∷ []) (start_log_download 5 (text "j1") (text "app:Shop") []))
      ≡ some jobs')
    × (get_log_job (text "j1") (text "app:Shop") jobs' ≡ (
        if text_eq (text "app:Shop") (text "app:Shop")
        then some (finish_job 20 (got (text "log")) (new_job (text "app:Shop")))
        else none))
unfolding text_eq
download_served_example =
    download_served (download ∷ []) 5 20 (text "j1") (text "app:Shop") (text "app:Shop")
      (got (text "log")) [] (refl, tt)

abbrev conf : Member
conf = record { file_size = 2; content = 65 ∷ 66 ∷ [] }

abbrev defaults : Dict Text
defaults = (text "Main.Url", text "http") ∷ (text "Main.Old", text "x") ∷ []

abbrev env_vars : Dict Text
env_vars = (text "Main.Url", text "MX_URL") ∷ []

abbrev url_constant : PadConstant
url_constant = record {
  name = text "Main.Url";
  env_var = text "MX_URL";
  default = text "http";
  secret_name = text "MX_CONST_MAIN_URL";
}

abbrev metadata : List (Option Text)
metadata = some (text " User ") ∷ none ∷ some (text "User") ∷ some (text "O'Brien") ∷ []

abbrev no_session : Session
no_session = record { conn = none; sent = [] }

-- The first statement fails with an expired token.
abbrev expiring : Server ℕ
expiring = record {
  token = λ c. text "t";
  is_closed = λ c. false;
  connect = λ c. none;
  run = λ c. elim (leb (length c.sent) 1) [
    | true ↦ failed (record { errno = some 390114; is_connection_error = false; message = [] })
    | false ↦ answered (7 ∷ [])
  ];
}

abbrev no_faults : Faults
no_faults = record {
  set_expiry = false;
  set_ranges = false;
  get_config = false;
  send_email = false;
  set_last_sent = false;
}

abbrev watch : Watch
watch = record {
  store = record {
    min_expiry_at = some 900000;
    ranges = 900000 ∷ [];
    alert_integration = some (text "MAIL");
    recipients = some (text "a@b.c" ∷ []);
    ack_through = none;
    last_alert_sent = none;
  };
  sent = [];
}

abbrev morning : Pass
morning = record { now = 86500; raw = some (some 900000) ∷ none ∷ []; faults = no_faults }

one_alert_a_day_example :
    length (run_passes (morning ∷ morning ∷ []) watch).sent ≤ suc (length watch.sent)
one_alert_a_day_example =
    one_alert_a_day (morning ∷ morning ∷ []) 1 watch ((refl, refl), ((refl, refl), tt))

-- Two passes on one day do send the email, once.
two_passes :
    (run_passes (morning ∷ morning ∷ []) watch).sent
    ≡ record { integration = text "MAIL"; recipients = text "a@b.c" ∷ []; expires_at = 900000 } ∷ []
unfolding run_passes run_iteration parse_ranges min_expiry maybe_send_alert persist addressees
    is_due is_far is_acknowledged is_today send
two_passes = refl
