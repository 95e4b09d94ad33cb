-- ===== src/Activity/Log/Trust.antt =====
-- Whom the audit log names, and who may read it.
use mendix_for_snowflake.Prelude.{
  ℕ, ◌≡◌, true, false, Option, some, List, [], ◌∷◌, Text, any, mem, filter, All, In, mem→In, ◌⊎◌,
  Bool-cases, Option-cases, inl, inr,
}
use mendix_for_snowflake.Registry.{Rows}
use mendix_for_snowflake.Auth.{authorize}
use mendix_for_snowflake.Activity.Log.{Row, is_visible, owned_names, list_activity, query}

module _ (privileged roles : List Text) where
  -- An app of this name is registered, and the caller may act on it.
  abbrev pub IsOwned : Text → Rows → Type 0
  IsOwned name [] = ⊥
  IsOwned name (a ∷ rows) =
      ((a.name ≡ name) × (authorize privileged (some a.owner_role) roles ≡ true))
      ⊎ IsOwned name rows

  owned_names-IsOwned :
      (name : Text) (rows : Rows) → In name (owned_names privileged roles rows) → IsOwned name rows
  unfolding owned_names filter
  owned_names-IsOwned name [] h = h
  owned_names-IsOwned name (a ∷ rows) h =
      elim (Bool-cases (authorize privileged (some a.owner_role) roles)) [
        | inl t ↦ elim (rw (t, owned_names) at h) [
          | inl e ↦ inl (e, t)
          | inr later ↦ inr (owned_names-IsOwned name rows later)
        ]
        | inr f ↦ inr (owned_names-IsOwned name rows (rw (f, owned_names) at h))
      ]

  -- The row names an app on which the caller may act.
  abbrev pub IsOwn : Rows → Row → Type 0
  IsOwn rows r = (name : Text) × (r.app_name ≡ some name) × IsOwned name rows

  visible_IsOwn :
      (rows : Rows) (r : Row)
      → is_visible (owned_names privileged roles rows) r ≡ true
      → IsOwn rows r
  unfolding is_visible
  visible_IsOwn rows r h = elim (Option-cases r.app_name) [
    | inl e ↦ cc (rw (e, is_visible) at h)
    | inr (name, e) ↦ (
      name,
      e,
      owned_names-IsOwned name rows
          (mem→In name (owned_names privileged roles rows) (rw (e, is_visible) at h)),
    )
  ]

  shown_IsOwn :
      (rows : Rows) (found : List Row)
      → All (IsOwn rows) (filter (is_visible (owned_names privileged roles rows)) found)
  unfolding filter
  shown_IsOwn rows [] = tt
  shown_IsOwn rows (r ∷ found) =
      elim (Bool-cases (is_visible (owned_names privileged roles rows) r)) [
        | inl t ↦ rw t (visible_IsOwn rows r t, shown_IsOwn rows found)
        | inr f ↦ rw f (shown_IsOwn rows found)
      ]

  -- A caller without a privileged role sees, of the audit log, rows of apps only on which the caller
  -- may act, whatever is asked for.
  pub list_activity_scoped :
      (app operator : Option Text) (limit : ℕ) (rows : Rows) (log : List Row)
      → any (λ r. mem r privileged) roles ≡ false
      → All (IsOwn rows) (list_activity privileged app operator limit roles rows log)
  unfolding list_activity
  list_activity_scoped app operator limit rows log h =
      rw h (shown_IsOwn rows (query app operator limit log))
