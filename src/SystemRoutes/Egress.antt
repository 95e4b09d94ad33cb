-- ===== src/SystemRoutes/Egress.antt =====
-- The banner of the pages and the email of the daily watch, before and after an acknowledgement.
use mendix_for_snowflake.Prelude.{
  ℕ, ◌+◌, ◌*◌, ◌≤◌, ◌<◌, ◌≡◌, refl, Bool, true, false, not, ◌&&◌, Option, some, List, ◌∷◌, Text,
  Bool-cases, Option-cases, inl, inr, arith,
}
use mendix_for_snowflake.EgressWatch.{
  Store, Watch, Faults, Email, day_secs, day_of, is_acknowledged, is_far, is_today, is_due,
  addressees, send, maybe_send_alert,
}
use mendix_for_snowflake.SystemRoutes.{Platform, Site, is_privileged, days_remaining}
use mendix_for_snowflake.SystemRoutes.Handlers.{acknowledge_egress}
use mendix_for_snowflake.SystemRoutes.Signals.{get_egress_warning, is_near, warning_threshold_days}

-- The state of the watch over these settings.
abbrev pub watch_of : Store → List Email → Watch
watch_of store sent = record { store = store; sent = sent }

abbrev pub expiring : Option ℕ → Store → Store
expiring expiry store = record store { min_expiry_at = expiry }

-- No email is sent where the expiry is acknowledged.
silent :
    (f : Faults) (now expiry : ℕ) (store : Store) (sent : List Email)
    → is_acknowledged expiry store.ack_through ≡ true
    → (maybe_send_alert f now (some expiry) (watch_of store sent)).sent ≡ sent
unfolding maybe_send_alert is_due
silent f now expiry store sent h = elim (Bool-cases f.get_config) [
  | inl t ↦ rw t refl
  | inr t ↦ elim (Option-cases (addressees store)) [
    | inl e ↦ rw (t, e, maybe_send_alert) refl
    | inr (to, e) ↦ elim (Bool-cases (is_far now expiry)) [
      | inl far ↦ rw (t, e, maybe_send_alert) (rw (far, is_due) refl)
      | inr near ↦ rw (t, e, maybe_send_alert) (rw (near, h, is_due) refl)
    ]
  ]
]

near_in_time :
    (now later : ℕ)
    → later < now + warning_threshold_days * day_secs
    → is_near (days_remaining now later) ≡ true
unfolding is_near days_remaining
near_in_time now later h = ground (arith, h)

covers : (expiry day : ℕ) → day_of expiry ≤ day → is_acknowledged expiry (some day) ≡ true
unfolding is_acknowledged
covers expiry day h = ground (arith, h)

misses : (expiry day : ℕ) → day < day_of expiry → is_acknowledged expiry (some day) ≡ false
unfolding is_acknowledged
misses expiry day h = ground (arith, h)

and_false : (b : Bool) → (b && false) ≡ false
and_false true = refl
and_false false = refl

and_parts : (a b : Bool) → (a && not b) ≡ true → (a ≡ true) × (b ≡ false)
and_parts true true h = cc h
and_parts true false h = (refl, refl)
and_parts false b h = cc h

module _ (p : Platform) (roles : List Text) (site : Site) where
  abbrev pub after_ack : ℕ → Store
  after_ack through_date = (acknowledge_egress p through_date roles site).1.store

  acked :
      (through_date : ℕ)
      → is_privileged p roles ≡ true
      → after_ack through_date ≡ record site.store { ack_through = some through_date }
  unfolding acknowledge_egress
  acked through_date h = rw (h, after_ack) refl

  -- Once an operator has acknowledged the rotation through a day, the banner is off, and no email is
  -- sent, for every expiry up to that day. For an expiry of a later day, the banner is on again as
  -- soon as that is less than 14 days away.
  pub acknowledgement_silences :
      (through_date expiry later now : ℕ) (f : Faults) (sent : List Email)
      → is_privileged p roles ≡ true
      → day_of expiry ≤ through_date
      → through_date < day_of later
      → later < now + warning_threshold_days * day_secs
      → ((get_egress_warning now (expiring (some expiry) (after_ack through_date))).0 ≡ false)
        × ((maybe_send_alert f now (some expiry) (watch_of (after_ack through_date) sent)).sent
            ≡ sent)
        × ((get_egress_warning now (expiring (some later) (after_ack through_date))).0 ≡ true)
  unfolding get_egress_warning
  acknowledgement_silences through_date expiry later now f sent h covered beyond soon = (
    rw (acked through_date h, get_egress_warning, covers expiry through_date covered) (and_false _),
    rw (acked through_date h) (
        silent f now expiry (record site.store { ack_through = some through_date }) sent
          (covers expiry through_date covered)),
    rw
        (
          acked through_date h,
          get_egress_warning,
          misses later through_date beyond,
          near_in_time now later soon,
        )
        refl,
  )

near_not_far :
    (now expiry : ℕ) → is_near (days_remaining now expiry) ≡ true → is_far now expiry ≡ false
unfolding is_near days_remaining is_far
near_not_far now expiry h = ground (arith, h)

mailed :
    (f : Faults) (now expiry : ℕ) (to : Text × List Text) (w : Watch)
    → f.send_email ≡ false
    → (send f now expiry to w).sent
      ≡ record { integration = to.0; recipients = to.1; expires_at = expiry } ∷ w.sent
unfolding send
mailed f now expiry (integration, recipients) w h = elim (Bool-cases f.set_last_sent) [
  | inl t ↦ rw (h, t, send) refl
  | inr t ↦ rw (h, t, send) refl
]

-- Where the banner is on, a pass of the watch that finds no email sent today sends one, to the
-- configured addressees, unless a call fails.
pub banner_implies_alert :
    (now expiry : ℕ) (store : Store) (sent : List Email) (f : Faults) (to : Text × List Text)
    → (get_egress_warning now store).0 ≡ true
    → store.min_expiry_at ≡ some expiry
    → addressees store ≡ some to
    → is_today now store.last_alert_sent ≡ false
    → f.get_config ≡ false
    → f.send_email ≡ false
    → (maybe_send_alert f now (some expiry) (watch_of store sent)).sent
      ≡ record { integration = to.0; recipients = to.1; expires_at = expiry } ∷ sent
unfolding get_egress_warning maybe_send_alert is_due
banner_implies_alert now expiry store sent f (integration, recipients) warn stored named fresh reads
      mails =
    let (near, unseen) =
      and_parts (is_near (days_remaining now expiry)) (is_acknowledged expiry store.ack_through)
        (rw stored at warn) in
    rw (reads, named, maybe_send_alert)
      (rw (near_not_far now expiry near, unseen, fresh, is_due)
        (mailed f now expiry (integration, recipients) (watch_of store sent) mails))
