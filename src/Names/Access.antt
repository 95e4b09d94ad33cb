-- ===== src/Names/Access.antt =====
-- The external access of an app's service.
use mendix_for_snowflake.Prelude.{
  ◌≡◌, ◌↔◌, ◌⊎◌, inl, inr, refl, ◌∙◌, some, List, [], ◌∷◌, Text, lookup, In, Option-cases,
}
use mendix_for_snowflake.Names.{Settings, bound_names, compose_eai_names}

module _ (s : Settings) where
  -- The name is that of a requested slot that is bound.
  abbrev pub IsBound : Text → List Text → Type 0
  IsBound n slots = (slot : Text) × In slot slots × (lookup slot s.bound_eai_slots ≡ some n)

  IsBound-of_names : (n : Text) (slots : List Text) → In n (bound_names s slots) → IsBound n slots
  unfolding bound_names
  IsBound-of_names n [] h = absurd h
  IsBound-of_names n (slot ∷ slots) h = elim (Option-cases (lookup slot s.bound_eai_slots)) [
    | inl e ↦ let (x, i, b) = IsBound-of_names n slots (rw (e, bound_names) at h) in (x, inr i, b)
    | inr (m, e) ↦
        let split : (m ≡ n) ⊎ In n (bound_names s slots) = rw (e, bound_names) at h in
        elim split [
          | inl same ↦ (slot, inl refl, e ∙ cc same)
          | inr rest ↦ let (x, i, b) = IsBound-of_names n slots rest in (x, inr i, b)
        ]
  ]

  names_of_bound :
      (n slot : Text) (slots : List Text)
      → In slot slots
      → lookup slot s.bound_eai_slots ≡ some n
      → In n (bound_names s slots)
  unfolding bound_names
  names_of_bound n slot [] i b = absurd i
  names_of_bound n slot (x ∷ slots) (inl e) b =
      let this : lookup x s.bound_eai_slots ≡ some n = rw e b in rw (this, bound_names) (inl refl)
  names_of_bound n slot (x ∷ slots) (inr i) b = elim (Option-cases (lookup x s.bound_eai_slots)) [
    | inl e ↦ rw (e, bound_names) (names_of_bound n slot slots i b)
    | inr (m, e) ↦ rw (e, bound_names) (inr (names_of_bound n slot slots i b))
  ]

  -- A service may use exactly the integration of Postgres and those of the requested slots that are
  -- bound.
  pub compose_eai_names_iff :
      (n : Text) (slots : List Text)
      → In n (compose_eai_names s slots) ↔ ((s.pg_eai ≡ n) ⊎ IsBound n slots)
  unfolding compose_eai_names
  compose_eai_names_iff n slots = (
    elim [ inl e ↦ inl e | inr i ↦ inr (IsBound-of_names n slots i) ],
    elim [ inl e ↦ inl e | inr (slot, i, b) ↦ inr (names_of_bound n slot slots i b) ],
  )
