-- ===== src/Platform/Current.antt =====
-- What the refresh writes.
use mendix_for_snowflake.Prelude.{
  ℕ, ◌≢◌, ap, ◌⊎◌, true, some, text_eq, text_eq_iff, Option-cases, ◌≡◌, refl, ◌∙◌, sym, subst, Bool,
  false, List, [], ◌∷◌, ◌++◌, map, All, none, Text, same_name, same_name_iff, same_name_refl,
  if◌then◌else◌, Bool-cases, inl, inr, arith,
}
use mendix_for_snowflake.Models.{AppRecord}
use mendix_for_snowflake.Registry
use mendix_for_snowflake.Registry.{Rows, Field, set_field, set_fields}
use mendix_for_snowflake.Registry.Lookup.{name-set_fields}
use mendix_for_snowflake.Names.{Settings}
use mendix_for_snowflake.World.{
  World, Environment, Exec, ok, Call, call, called, pure, modify, gets, outcome_of, resume_with,
  ◌>>=◌,
}
use mendix_for_snowflake.Statements.{list_apps, update_app, update_if}
use mendix_for_snowflake.Lifecycle.Settle.{UpdatesSucceed}
use mendix_for_snowflake.Platform.{
  is_platform_stale, is_outdated, refresh_rows, refresh_platform_staleness,
}

same_name_sym : (a b : Text) → same_name a b ≡ false → same_name b a ≡ false
same_name_sym a b h = ground (arith, h, same_name_iff a b, same_name_iff b a)

-- No row of the list has the name.
abbrev IsAbsent : Text → Rows → Type 0
IsAbsent n rows = All (λ q. same_name q.name n ≡ false) rows

-- No two rows have one name, in any case of its letters.
abbrev pub AreDistinct : Rows → Type 0
AreDistinct [] = Unit
AreDistinct (r ∷ rows) = IsAbsent r.name rows × AreDistinct rows

update_rows-IsAbsent :
    (n : Text) (fs : List Field) (rows : Rows)
    → IsAbsent n rows
    → Registry.update_rows n fs rows ≡ rows
unfolding Registry.update_rows
update_rows-IsAbsent n fs [] h = refl
update_rows-IsAbsent n fs (r ∷ rows) (a, h) = rw a (cc (update_rows-IsAbsent n fs rows h))

-- An update of the one row with the name.
update_rows-here :
    (r : AppRecord) (fs : List Field) (before after : Rows)
    → IsAbsent r.name before
    → IsAbsent r.name after
    → Registry.update_rows r.name fs (before ++ r ∷ after) ≡ before ++ set_fields fs r ∷ after
unfolding Registry.update_rows
update_rows-here r fs [] after hb ha =
    rw same_name_refl (cc (update_rows-IsAbsent r.name fs after ha))
update_rows-here r fs (q ∷ before) after (a, hb) ha =
    rw a (cc (update_rows-here r fs before after hb ha))

append_one : (xs ys : Rows) (r : AppRecord) → (xs ++ r ∷ []) ++ ys ≡ xs ++ r ∷ ys
append_one [] ys r = refl
append_one (x ∷ xs) ys r = cc (append_one xs ys r)

All-append_one :
    (P : AppRecord → Type 0) (xs : Rows) (r : AppRecord) → All P xs → P r → All P (xs ++ r ∷ [])
All-append_one P [] r h p = (p, tt)
All-append_one P (x ∷ xs) r (a, h) p = (a, All-append_one P xs r h p)

-- Each row of the first list is absent, by its name, from the second.
abbrev AreApart : Rows → Rows → Type 0
AreApart done todo = All (λ q. IsAbsent q.name todo) done

IsAbsent-of_AreApart :
    (done todo : Rows) (r : AppRecord) → AreApart done (r ∷ todo) → IsAbsent r.name done
IsAbsent-of_AreApart [] todo r h = tt
IsAbsent-of_AreApart (q ∷ done) todo r ((a, _), h) =
    (same_name_sym r.name q.name a, IsAbsent-of_AreApart done todo r h)

AreApart-tail : (done todo : Rows) (r : AppRecord) → AreApart done (r ∷ todo) → AreApart done todo
AreApart-tail [] todo r h = tt
AreApart-tail (q ∷ done) todo r ((_, a), h) = (a, AreApart-tail done todo r h)

module _ (env : Environment) (s : Settings) where
  -- The app was deployed with another image than the controller's, or before images were recorded.
  abbrev pub RunsOther : AppRecord → Type 0
  RunsOther r =
      ((image : Text) × (r.platform_image ≡ some image) × (image ≢ s.mendix_base_image))
      ⊎ ((r.platform_image ≡ none) × (t : ℕ) × (r.last_deployed_at ≡ some t))

  -- The app was deployed with the controller's image, or never.
  abbrev pub IsUpToDate : AppRecord → Type 0
  IsUpToDate r =
      (r.platform_image ≡ some s.mendix_base_image)
      ⊎ ((r.platform_image ≡ none) × (r.last_deployed_at ≡ none))

  -- The stored flag tells the two apart.
  abbrev pub IsCurrent : AppRecord → Type 0
  IsCurrent r =
      ((r.platform_update_available ≡ true) × RunsOther r)
      ⊎ ((r.platform_update_available ≡ false) × IsUpToDate r)

  staleness :
      (r : AppRecord)
      → ((is_platform_stale env s r ≡ true) × RunsOther r)
        ⊎ ((is_platform_stale env s r ≡ false) × IsUpToDate r)
  unfolding is_platform_stale
  staleness r = elim (Option-cases r.platform_image) [
    | inl e ↦ elim (Option-cases r.last_deployed_at) [
      | inl f ↦ inr (rw (e, f) refl, inr (e, f))
      | inr (t, f) ↦ inl (rw (e, f) refl, inr (e, t, f))
    ]
    | inr (image, e) ↦ elim (Bool-cases (text_eq image s.mendix_base_image)) [
      | inl x ↦
          inr (
            rw (e, x) refl,
            inl (e ∙ ap (λ i. some i) ((text_eq_iff image s.mendix_base_image).0 x)),
          )
      | inr x ↦ inl (
        rw (e, x) refl,
        inl (image, e, λ same. cc ((text_eq_iff image s.mendix_base_image).1 same, x)),
      )
    ]
  ]

  -- A row but for its flag
  abbrev pub without_flag : AppRecord → AppRecord
  without_flag r = record r { platform_update_available = false }

  -- A row with its flag as it should be.
  unfoldable pub corrected : AppRecord → AppRecord
  corrected r =
      let stale = is_platform_stale env s r in
      if is_outdated env s stale r.platform_update_available
      then set_fields (Field.platform_update_available stale ∷ []) r
      else r

  name-corrected : (r : AppRecord) → (corrected r).name ≡ r.name
  unfolding corrected
  name-corrected r =
      elim (Bool-cases
        (is_outdated env s (is_platform_stale env s r) r.platform_update_available)) [
          | inl e ↦ rw e (name-set_fields _ r)
          | inr e ↦ rw e refl
        ]

  flag_right : (stale flag : Bool) → is_outdated env s stale flag ≡ false → flag ≡ stale
  flag_right stale flag h = ground (arith, h)

  flag-corrected :
      (r : AppRecord) → (corrected r).platform_update_available ≡ is_platform_stale env s r
  unfolding corrected is_platform_stale set_fields set_field
  flag-corrected r =
      elim (Bool-cases
        (is_outdated env s (is_platform_stale env s r) r.platform_update_available)) [
          | inl e ↦ rw e refl
          | inr e ↦ rw e (flag_right (is_platform_stale env s r) r.platform_update_available e)
        ]

  RunsOther-corrected : (r : AppRecord) → RunsOther r → RunsOther (corrected r)
  unfolding corrected set_fields set_field
  RunsOther-corrected r h =
      elim (Bool-cases
        (is_outdated env s (is_platform_stale env s r) r.platform_update_available)) [
          | inl e ↦ rw e h
          | inr e ↦ rw e h
        ]

  IsUpToDate-corrected : (r : AppRecord) → IsUpToDate r → IsUpToDate (corrected r)
  unfolding corrected set_fields set_field
  IsUpToDate-corrected r h =
      elim (Bool-cases
        (is_outdated env s (is_platform_stale env s r) r.platform_update_available)) [
          | inl e ↦ rw e h
          | inr e ↦ rw e h
        ]

  corrected-IsCurrent : (r : AppRecord) → IsCurrent (corrected r)
  corrected-IsCurrent r = elim (staleness r) [
    | inl (e, h) ↦ inl (flag-corrected r ∙ e, RunsOther-corrected r h)
    | inr (e, h) ↦ inr (flag-corrected r ∙ e, IsUpToDate-corrected r h)
  ]

  without_flag-corrected :
      (rows : Rows) → map without_flag (map corrected rows) ≡ map without_flag rows
  unfolding corrected set_fields set_field
  without_flag-corrected [] = refl
  without_flag-corrected (r ∷ rows) =
      let rest = without_flag-corrected rows in
      elim (Bool-cases
        (is_outdated env s (is_platform_stale env s r) r.platform_update_available)) [
          | inl e ↦ rw e (ap (λ l. without_flag r ∷ l) rest)
          | inr e ↦ rw e (ap (λ l. without_flag r ∷ l) rest)
        ]

  corrected-All : (rows : Rows) → All IsCurrent (map corrected rows)
  corrected-All [] = tt
  corrected-All (r ∷ rows) = (corrected-IsCurrent r, corrected-All rows)

  -- Snowflake takes the updates of all rows.
  abbrev pub AllUpdatesSucceed : Type 0
  AllUpdatesSucceed = (n : Text) → UpdatesSucceed env n

  abbrev stamp : AppRecord → List Field
  stamp r = Field.platform_update_available (is_platform_stale env s r) ∷ []

  -- An update that Snowflake takes, and what comes after.
  updated :
      (up : AllUpdatesSucceed) (r : AppRecord) (m : Exec (Unit {0})) (w : World)
      → (update_app env r.name (stamp r) >>= λ _. m) w
        ≡ m (
            let v = called env (Call.update_apps r.name (stamp r)) w in
            record v { registry = Registry.update_rows r.name (stamp r) w.registry })
  unfolding update_app update_if Registry.all_allowed ◌>>=◌ call called modify
  updated up r m w = rw (up r.name w (stamp r), outcome_of, resume_with) refl

  refreshed :
      (up : AllUpdatesSucceed) (done todo : Rows) (w : World)
      → w.registry ≡ done ++ todo
      → AreApart done todo
      → AreDistinct todo
      → (refresh_rows env s todo w).0 ≡ ok tt
        × ((refresh_rows env s todo w).1.registry ≡ done ++ map corrected todo)
  unfolding refresh_rows corrected pure called
  refreshed up done [] w e apart distinct = (refl, e)
  refreshed up done (r ∷ todo) w e apart (away, distinct) =
      let next : (x : AppRecord) (v : World)
          → v.registry ≡ done ++ x ∷ todo
          → x.name ≡ r.name
          → ((refresh_rows env s todo v).0 ≡ ok tt)
            × ((refresh_rows env s todo v).1.registry ≡ done ++ x ∷ map corrected todo) =
        λ x v f n.
          let (a, b) =
            refreshed up (done ++ x ∷ []) todo v (f ∙ sym (append_one done todo x))
              (All-append_one (λ q. IsAbsent q.name todo) done x (AreApart-tail done todo r apart)
                (subst (λ m. IsAbsent m todo) (sym n) away))
              distinct in
          (a, b ∙ append_one done (map corrected todo) x) in
      elim (Bool-cases
        (is_outdated env s (is_platform_stale env s r) r.platform_update_available)) [
          | inl x ↦ rw x (
              rw (updated up r (refresh_rows env s todo) w) (
                next (set_fields (stamp r) r) _
                  (rw e (
                    update_rows-here r (stamp r) done todo (IsAbsent-of_AreApart done todo r apart)
                      away))
                  (name-set_fields (stamp r) r)))
          | inr x ↦ rw x (next r w e refl)
        ]

  -- Where Snowflake answers, and no two apps have one name in any case of its letters, the refresh
  -- returns, and leaves every app's row as it was but for its flag. The flag is then set exactly for
  -- the apps that run another image than the controller's: those deployed with another, and those
  -- deployed with none recorded.
  pub refresh-IsCurrent :
      (w : World)
      → AllUpdatesSucceed
      → env.raises w Call.select_apps ≡ none
      → AreDistinct w.registry
      → let (r, w') = refresh_platform_staleness env s w in
        (r ≡ ok tt)
        × (map without_flag w'.registry ≡ map without_flag w.registry)
        × All IsCurrent w'.registry
  unfolding refresh_platform_staleness list_apps ◌>>=◌ call called gets
  refresh-IsCurrent w up select distinct =
      let (a, b) = refreshed up [] w.registry (called env Call.select_apps w) refl tt distinct in
      rw (select, outcome_of, resume_with)
        (
          a,
          ap (map without_flag) b ∙ without_flag-corrected w.registry,
          subst (λ rows. All IsCurrent rows) (sym b) (corrected-All w.registry),
        )
