-- ===== src/AdminUi/Apps/Diffs.antt =====
-- When the page shows no pending change.
use mendix_for_snowflake.Prelude.{
  ◌≡◌, ◌↔◌, refl, ◌∙◌, sym, Option, none, some, List, [], ◌∷◌, ◌++◌, Text, Dict, lookup, keys,
  text_eq, text_eq_refl, text_eq_iff, In, In-sorted, In-distinct, In-append_left, In-append_right,
  In-keys, sorted, distinct, Bool-cases, Option-cases, inl, inr, ap,
}
use mendix_for_snowflake.AdminUi.Apps.{diff_of, diff_keys, diff_constants}

diff_of_same : (dumps : Text → Text) (k : Text) (o : Option Text) → diff_of dumps k o o ≡ []
unfolding diff_of
diff_of_same dumps k none = refl
diff_of_same dumps k (some v) = rw (text_eq_refl v) refl

same_of_diff :
    (dumps : Text → Text) (k : Text) (o p : Option Text) → diff_of dumps k o p ≡ [] → o ≡ p
unfolding diff_of
same_of_diff dumps k none none h = refl
same_of_diff dumps k (some v) none h = cc h
same_of_diff dumps k none (some w) h = cc h
same_of_diff dumps k (some v) (some w) h = elim (Bool-cases (text_eq v w)) [
  | inl t ↦ ap some ((text_eq_iff v w).0 t)
  | inr f ↦ cc (rw f at h)
]

append_nothing {ℓ} : {A : Type ℓ} (xs ys : List A) → xs ++ ys ≡ [] → (xs ≡ []) × (ys ≡ [])
append_nothing [] ys h = (refl, h)
append_nothing (x ∷ xs) ys h = cc h

module _ (dumps : Text → Text) (old new : Dict Text) where
  keys_same :
      (ks : List Text) (k : Text)
      → diff_keys dumps old new ks ≡ []
      → In k ks
      → lookup k old ≡ lookup k new
  unfolding diff_keys
  keys_same [] k h i = absurd i
  keys_same (x ∷ ks) k h i =
      let (here, later) =
        append_nothing (diff_of dumps x (lookup x old) (lookup x new)) (diff_keys dumps old new ks)
          h in
      elim i [
        | inl e ↦ rw (← e) (same_of_diff dumps x (lookup x old) (lookup x new) here)
        | inr m ↦ keys_same ks k later m
      ]

  keys_without :
      (ks : List Text)
      → ((k : Text) → lookup k old ≡ lookup k new)
      → diff_keys dumps old new ks ≡ []
  unfolding diff_keys
  keys_without [] h = refl
  keys_without (x ∷ ks) h = rw (h x, diff_of_same dumps x (lookup x new)) (keys_without ks h)

  listed : List Text
  listed = sorted (distinct (keys old ++ keys new))

  listed_old : (k v : Text) → lookup k old ≡ some v → In k listed
  unfolding listed
  listed_old k v h = In-sorted k (distinct (keys old ++ keys new)) (
      In-distinct k (keys old ++ keys new)
        (In-append_left k (keys old) (keys new) (In-keys k v old h)))

  listed_new : (k v : Text) → lookup k new ≡ some v → In k listed
  unfolding listed
  listed_new k v h = In-sorted k (distinct (keys old ++ keys new)) (
      In-distinct k (keys old ++ keys new)
        (In-append_right k (keys old) (keys new) (In-keys k v new h)))

  all_same : diff_keys dumps old new listed ≡ [] → (k : Text) → lookup k old ≡ lookup k new
  all_same h k = elim (Option-cases (lookup k old)) [
    | inr (v, e) ↦ keys_same listed k h (listed_old k v e)
    | inl e ↦ elim (Option-cases (lookup k new)) [
      | inl f ↦ e ∙ sym f
      | inr (v, f) ↦ keys_same listed k h (listed_new k v f)
    ]
  ]

  -- The page shows no pending change exactly when the edited constants are the stored ones: every name
  -- has in both the same value, or none.
  pub diff_constants_nil_iff :
      (diff_constants dumps old new ≡ []) ↔ ((k : Text) → lookup k old ≡ lookup k new)
  unfolding diff_constants listed
  diff_constants_nil_iff = (all_same, keys_without listed)
