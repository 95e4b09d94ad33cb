-- ===== src/EgressWatch/Alerts.antt =====
-- When the watch warns, and what it stores.
use mendix_for_snowflake.Prelude.{
  ℕ, suc, ◌≤◌, ◌≡◌, ◌≢◌, ◌⊎◌, refl, ◌∙◌, ap, subst, true, false, Option, none, some, List, [], ◌∷◌,
  Text, length, leb, ==_iff, All, if◌then◌else◌, arith, Bool-cases, Option-cases, inl, inr,
}
use mendix_for_snowflake.EgressWatch.{
  day_of, RawRange, parse_ranges, min_expiry, is_due, is_today, Store, Watch, Faults, addressees,
  send, maybe_send_alert, persist, run_iteration, Pass, run_passes,
}

-- The time is one of the list's, and none of them is before it.
abbrev pub IsLeast : ℕ → List ℕ → Type 0
IsLeast m [] = ⊥
IsLeast m (t ∷ ts) = (m ≤ t) × ((m ≡ t) ⊎ IsLeast m ts) × All (λ u. m ≤ u) ts

persist-kept :
    (f : Faults) (expiry : Option ℕ) (parsed : List ℕ) (w : Watch)
    → let w' = persist f expiry parsed w in
      (w'.sent ≡ w.sent)
      × (w'.store.last_alert_sent ≡ w.store.last_alert_sent)
      × (w'.store.ack_through ≡ w.store.ack_through)
unfolding persist
persist-kept f expiry parsed w = elim (Bool-cases f.set_expiry) [
  | inl a ↦ rw (a, persist) (refl, refl, refl)
  | inr a ↦ elim (Bool-cases f.set_ranges) [
    | inl b ↦ rw (a, b, persist) (refl, refl, refl)
    | inr b ↦ rw (a, b, persist) (refl, refl, refl)
  ]
]

-- Nothing was sent, or one email, which was due and is written down.
abbrev pub AtMostOne : ℕ → Watch → Watch → Type 0
AtMostOne day w w' =
    ((w'.sent ≡ w.sent) × (w'.store.last_alert_sent ≡ w.store.last_alert_sent))
    ⊎ ((length w'.sent ≡ suc (length w.sent))
        × (w'.store.last_alert_sent ≡ some day)
        × (w.store.last_alert_sent ≢ some day))

not_today : (now : ℕ) (o : Option ℕ) → is_today now o ≡ false → o ≢ some (day_of now)
unfolding is_today
not_today now none h e = cc
not_today now (some d) h e =
    let same : d ≡ day_of now = cc in
    let yes = ==_iff d (day_of now) in ground (arith, h, same, yes)

sent_one :
    (f : Faults) (now expiry : ℕ) (to : Text × List Text) (w : Watch)
    → f.set_last_sent ≡ false
    → is_today now w.store.last_alert_sent ≡ false
    → AtMostOne (day_of now) w (send f now expiry to w)
unfolding send
sent_one f now expiry to w kept new = elim (Bool-cases f.send_email) [
  | inl a ↦ rw (a, send) (inl (refl, refl))
  | inr a ↦ rw (a, kept, send) (inr (refl, refl, not_today now _ new))
]

due_today :
    (now expiry : ℕ) (s : Store)
    → is_due now expiry s ≡ true
    → is_today now s.last_alert_sent ≡ false
unfolding is_due
due_today now expiry s h = ground (arith, h)

alert_one :
    (f : Faults) (now : ℕ) (expiry : Option ℕ) (w : Watch)
    → f.set_last_sent ≡ false
    → AtMostOne (day_of now) w (maybe_send_alert f now expiry w)
unfolding maybe_send_alert
alert_one f now none w kept = inl (refl, refl)
alert_one f now (some expiry) w kept = elim (Bool-cases f.get_config) [
  | inl a ↦ rw (a, maybe_send_alert) (inl (refl, refl))
  | inr a ↦ elim (Option-cases (addressees w.store)) [
    | inl b ↦ rw (a, b, maybe_send_alert) (inl (refl, refl))
    | inr (to, b) ↦ elim (Bool-cases (is_due now expiry w.store)) [
      | inr c ↦ rw (a, b, c, maybe_send_alert) (inl (refl, refl))
      | inl c ↦
          rw (a, b, c, maybe_send_alert)
            (sent_one f now expiry to w kept (due_today now expiry w.store c))
    ]
  ]
]

iteration_one :
    (f : Faults) (now : ℕ) (raw : List RawRange) (w : Watch)
    → f.set_last_sent ≡ false
    → AtMostOne (day_of now) w (run_iteration f now raw w)
unfolding run_iteration
iteration_one f now raw w kept =
    let parsed = parse_ranges raw in
    let v = persist f (min_expiry parsed) parsed w in
    let (same_sent, same_last, _) = persist-kept f (min_expiry parsed) parsed w in
    elim (alert_one f now (min_expiry parsed) v kept) [
      | inl (a, b) ↦ inl (a ∙ same_sent, b ∙ same_last)
      | inr (a, b, c) ↦ inr (rw same_sent at a, b, rw same_last at c)
    ]

-- The passes of one day, with the day of each email written down.
abbrev pub InDay : ℕ → Pass → Type 0
InDay day p = (day_of p.now ≡ day) × (p.faults.set_last_sent ≡ false)

quiet_passes :
    (ps : List Pass) (day : ℕ) (w : Watch)
    → All (InDay day) ps
    → w.store.last_alert_sent ≡ some day
    → (run_passes ps w).sent ≡ w.sent
unfolding run_passes
quiet_passes [] day w h last = refl
quiet_passes (p ∷ ps) day w ((same, kept), h) last =
    elim (iteration_one p.faults p.now p.raw w kept) [
      | inl (a, b) ↦ quiet_passes ps day _ h (b ∙ last) ∙ a
      | inr (a, b, c) ↦ absurd (c (last ∙ cc same))
    ]

-- However often the watch runs in a day, restarts included, it sends at most one email in it, where
-- the day of an email can be written down.
pub one_alert_a_day :
    (ps : List Pass) (day : ℕ) (w : Watch)
    → All (InDay day) ps
    → length (run_passes ps w).sent ≤ suc (length w.sent)
unfolding run_passes
one_alert_a_day [] day w h = omega arith
one_alert_a_day (p ∷ ps) day w ((same, kept), h) =
    let w' = run_iteration p.faults p.now p.raw w in
    elim (iteration_one p.faults p.now p.raw w kept) [
      | inl (a, b) ↦
          subst (λ xs. length (run_passes ps w').sent ≤ suc (length xs)) a
            (one_alert_a_day ps day w' h)
      | inr (a, b, c) ↦
          let rest = quiet_passes ps day w' h (b ∙ cc same) in omega (arith, ap length rest, a)
    ]

lower-All : (t m : ℕ) (ts : List ℕ) → t ≤ m → All (λ u. m ≤ u) ts → All (λ u. t ≤ u) ts
lower-All t m [] le h = tt
lower-All t m (u ∷ us) le (a, h) = (omega (arith, le, a), lower-All t m us le h)

All-of_least : (m : ℕ) (ts : List ℕ) → IsLeast m ts → All (λ u. m ≤ u) ts
All-of_least m [] h = tt
All-of_least m (t ∷ ts) (a, _, h) = (a, h)

no_expiry : (ts : List ℕ) → min_expiry ts ≡ none → ts ≡ []
unfolding min_expiry
no_expiry [] h = refl
no_expiry (t ∷ ts) h = elim (Option-cases (min_expiry ts)) [
  | inl e ↦ let bad = rw (e, min_expiry) at h in cc
  | inr (k, e) ↦ let bad = rw (e, min_expiry) at h in cc
]

-- The expiry that is stored is one of those that were read, and none of them is earlier.
pub min_expiry-IsLeast : (ts : List ℕ) (m : ℕ) → min_expiry ts ≡ some m → IsLeast m ts
unfolding min_expiry
min_expiry-IsLeast [] m h = cc
min_expiry-IsLeast (t ∷ ts) m h = elim (Option-cases (min_expiry ts)) [
  | inl e ↦
      let same : some t ≡ some m = rw (e, min_expiry) at h in
      let this : t ≡ m = cc in
      rw (no_expiry ts e) (omega (arith, this), inl (omega (arith, this)), tt)
  | inr (k, e) ↦
      let ih = min_expiry-IsLeast ts k e in
      let same : some (if leb t k then t else k) ≡ some m = rw (e, min_expiry) at h in
      elim (Bool-cases (leb t k)) [
        | inl le ↦
            let this : t ≡ m = cc in
            let below : m ≤ k = ground (arith, le, this) in
            (
              omega (arith, this),
              inl (omega (arith, this)),
              lower-All m k ts below (All-of_least k ts ih),
            )
        | inr gt ↦
            let this : k ≡ m = cc in
            let below : m ≤ t = ground (arith, gt, this) in
            let least = subst (λ x. IsLeast x ts) this ih in
            (below, inr least, All-of_least m ts least)
      ]
]

-- An iteration that reads no range clears the stored expiry, where that can be written, and warns of
-- nothing.
pub empty_fetch_forgets :
    (f : Faults) (now : ℕ) (raw : List RawRange) (w : Watch)
    → parse_ranges raw ≡ []
    → let w' = run_iteration f now raw w in
      (w'.sent ≡ w.sent) × (f.set_expiry ≡ false → w'.store.min_expiry_at ≡ none)
unfolding run_iteration maybe_send_alert min_expiry
empty_fetch_forgets f now raw w none_read = rw none_read (
  (persist-kept f none [] w).0,
  λ up. elim (Bool-cases f.set_ranges) [
    | inl b ↦ rw (up, b, persist) refl
    | inr b ↦ rw (up, b, persist) refl
  ],
)
