-- ===== src/EgressWatch.antt =====
-- Controller/app/egress_watch.py: the daily watch over the egress ranges. Times are seconds since the
-- epoch, and a day is their quotient by the seconds of a day; an ISO text is the time it parses to.
pub mod Alerts
use mendix_for_snowflake.Prelude.{
  ℕ, ◌+◌, ◌-◌, ◌*◌, ◌/◌, Bool, true, false, not, ◌&&◌, Option, none, some, List, [], ◌∷◌, ◌++◌,
  Text, leb, ltb, ◌==◌, if◌then◌else◌,
}

abbrev pub day_secs : ℕ
day_secs = 86400

-- `ALERT_THRESHOLD_DAYS`
abbrev pub alert_threshold_days : ℕ
alert_threshold_days = 30

-- `.date()`
abbrev pub day_of : ℕ → ℕ
day_of t = t / day_secs

-- An entry of the fetched list: `none` if it is no object; then its `expires`, `none` if it is
-- missing or does not parse.
abbrev pub RawRange : Type 0
RawRange = Option (Option ℕ)

-- `parse_ranges`, down to the expiry of each range
unfoldable pub parse_ranges : List RawRange → List ℕ
parse_ranges [] = []
parse_ranges (none ∷ raw) = parse_ranges raw
parse_ranges (some none ∷ raw) = parse_ranges raw
parse_ranges (some (some expires) ∷ raw) = expires ∷ parse_ranges raw

-- `min_expiry`
unfoldable pub min_expiry : List ℕ → Option ℕ
min_expiry [] = none
min_expiry (t ∷ ts) =
    let rest = min_expiry ts in
    elim rest [ none ↦ some t | some m ↦ some (if leb t m then t else m) ]

-- `remaining > ALERT_THRESHOLD_DAYS`, for `days_remaining`: the whole days, rounded down, until the
-- expiry, which are negative once it has passed.
unfoldable pub is_far : ℕ → ℕ → Bool
is_far now expiry =
    if leb now expiry then ltb alert_threshold_days ((expiry - now) / day_secs) else false

-- `is_acknowledged`, where `ack_through` is a day. The day of the expiry is the one in UTC, which the
-- stored texts are in; the source takes it in the offset of the text.
unfoldable pub is_acknowledged : ℕ → Option ℕ → Bool
is_acknowledged expiry none = false
is_acknowledged expiry (some ack_through) = leb (day_of expiry) ack_through

-- The keys of internal_config that the watch reads and writes. `recipients` is `none` where the
-- stored text is missing or no list.
pub record Store : Type 0 where
  pub min_expiry_at : Option ℕ
  pub ranges : List ℕ
  pub alert_integration : Option Text
  pub recipients : Option (List Text)
  pub ack_through : Option ℕ
  pub last_alert_sent : Option ℕ

-- An email, by the integration and the expiry that it warns of.
pub record Email : Type 0 where
  pub integration : Text
  pub recipients : List Text
  pub expires_at : ℕ

pub record Watch : Type 0 where
  pub store : Store
  pub sent : List Email

-- Which of the calls raise: the fetch, either write of the ranges, the email, and the write of the
-- day it was sent. `get_egress_ip_ranges` answers an empty list where its query raises.
pub record Faults : Type 0 where
  pub set_expiry : Bool
  pub set_ranges : Bool
  pub get_config : Bool
  pub send_email : Bool
  pub set_last_sent : Bool

-- `integration` and a non-empty list of recipients are configured.
unfoldable pub addressees : Store → Option (Text × List Text)
addressees s = elim s.alert_integration [
  | none ↦ none
  | some [] ↦ none
  | some (c ∷ cs) ↦ elim s.recipients [
    | none ↦ none
    | some [] ↦ none
    | some (r ∷ rs) ↦ some (c ∷ cs, r ∷ rs)
  ]
]

unfoldable pub is_today : ℕ → Option ℕ → Bool
is_today now none = false
is_today now (some day) = day == day_of now

-- Is there anything to warn of now?
unfoldable pub is_due : ℕ → ℕ → Store → Bool
unfolding is_far is_acknowledged is_today
is_due now expiry s =
    not (is_far now expiry)
    && (not (is_acknowledged expiry s.ack_through) && not (is_today now s.last_alert_sent))

unfoldable pub send : Faults → ℕ → ℕ → Text × List Text → Watch → Watch
send f now expiry (integration, recipients) w =
    let mailed = record w {
      sent =
          record { integration = integration; recipients = recipients; expires_at = expiry }
          ∷ w.sent;
    } in
    if f.send_email
    then w
    else (if f.set_last_sent
        then mailed
        else record mailed { store = record w.store { last_alert_sent = some (day_of now) } })

-- `_maybe_send_alert`, whose exceptions `run_iteration` swallows
unfoldable pub maybe_send_alert : Faults → ℕ → Option ℕ → Watch → Watch
unfolding addressees is_due send
maybe_send_alert f now none w = w
maybe_send_alert f now (some expiry) w = if f.get_config then w else elim (addressees w.store) [
  | none ↦ w
  | some to ↦ if is_due now expiry w.store then send f now expiry to w else w
]

-- The two writes: the second is skipped where the first raises.
unfoldable pub persist : Faults → Option ℕ → List ℕ → Watch → Watch
persist f expiry parsed w =
    if f.set_expiry
    then w
    else (if f.set_ranges
        then record w { store = record w.store { min_expiry_at = expiry } }
        else record w { store = record w.store { min_expiry_at = expiry; ranges = parsed } })

-- `run_iteration`
unfoldable pub run_iteration : Faults → ℕ → List RawRange → Watch → Watch
unfolding maybe_send_alert persist parse_ranges min_expiry
run_iteration f now raw w =
    let parsed = parse_ranges raw in
    let expiry = min_expiry parsed in maybe_send_alert f now expiry (persist f expiry parsed w)

-- One pass of `run_loop`: its time, what it fetches, and which calls raise.
pub record Pass : Type 0 where
  pub now : ℕ
  pub raw : List RawRange
  pub faults : Faults

unfoldable pub run_passes : List Pass → Watch → Watch
unfolding run_iteration
run_passes [] w = w
run_passes (p ∷ ps) w = run_passes ps (run_iteration p.faults p.now p.raw w)
