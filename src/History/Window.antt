-- ===== src/History/Window.antt =====
-- Which rows of an app the table keeps.
use mendix_for_snowflake.Prelude.{
  ℕ, zero, suc, ◌≤◌, ◌≡◌, refl, ◌∙◌, ap, false, Option, List, [], ◌∷◌, Text, same_name,
  same_name_iff, same_name_refl, filter, take, length, length-take, arith, Bool-cases, inl, inr,
  if◌then◌else◌,
}
use mendix_for_snowflake.Models.{AppRecord, Operation, StatusDetail}
use mendix_for_snowflake.History.{
  keep_per_app, Outcome, Entry, History, rows_for, prune_rows, prune, snapshot, record_entry,
}

rows_for-prune_rows :
    (n : Text) (k : ℕ) (es : List Entry) → rows_for n (prune_rows n k es) ≡ take k (rows_for n es)
unfolding rows_for prune_rows filter
rows_for-prune_rows n zero [] = refl
rows_for-prune_rows n (suc k) [] = refl
rows_for-prune_rows n zero (e ∷ es) = elim (Bool-cases (same_name e.app_name n)) [
  | inl t ↦ rw t (rows_for-prune_rows n zero es)
  | inr f ↦ rw f (rw f (rows_for-prune_rows n zero es))
]
rows_for-prune_rows n (suc k) (e ∷ es) = elim (Bool-cases (same_name e.app_name n)) [
  | inl t ↦ rw t (ap (λ xs. e ∷ xs) (rows_for-prune_rows n k es))
  | inr f ↦ rw f (rows_for-prune_rows n (suc k) es)
]

rows_for-prune_rows_ne :
    (n m : Text) (k : ℕ) (es : List Entry)
    → same_name n m ≡ false
    → rows_for m (prune_rows n k es) ≡ rows_for m es
unfolding rows_for prune_rows filter
rows_for-prune_rows_ne n m zero [] h = refl
rows_for-prune_rows_ne n m (suc k) [] h = refl
rows_for-prune_rows_ne n m zero (e ∷ es) h = ground (
  arith,
  rows_for-prune_rows_ne n m zero es h,
  same_name_iff e.app_name n,
  same_name_iff e.app_name m,
  same_name_iff n m,
)
rows_for-prune_rows_ne n m (suc k) (e ∷ es) h =
    ground (arith, rows_for-prune_rows_ne n m k es h, rows_for-prune_rows_ne n m (suc k) es h)

module _ (n : Text) (op : Operation) (r : AppRecord) (status : Outcome)
    (detail : Option StatusDetail) (h : History) where
  -- The entry that a record writes.
  abbrev pub entry : Entry
  entry = snapshot h.next_id n op r status detail

  pub rows_for-cons :
      (m : Text) (es : List Entry)
      → rows_for m (entry ∷ es) ≡ (if same_name n m then entry ∷ rows_for m es else rows_for m es)
  unfolding rows_for filter snapshot
  rows_for-cons m es = refl

  -- After a record, the app's rows are the new row and the newest of its old ones, 20 in all at
  -- the most.
  pub rows_for-record_entry :
      rows_for n (record_entry n op r status detail h).rows
      ≡ take keep_per_app (entry ∷ rows_for n h.rows)
  unfolding record_entry prune
  rows_for-record_entry =
      rows_for-prune_rows n keep_per_app (entry ∷ h.rows)
      ∙ ap (take keep_per_app) {y = entry ∷ rows_for n h.rows}
          (rw (rows_for-cons n, same_name_refl))

  -- A record of one app leaves the rows of every other app as they were.
  pub rows_for-record_entry_ne :
      (m : Text)
      → same_name n m ≡ false
      → rows_for m (record_entry n op r status detail h).rows ≡ rows_for m h.rows
  unfolding record_entry prune
  rows_for-record_entry_ne m ne =
      rows_for-prune_rows_ne n m keep_per_app (entry ∷ h.rows) ne ∙ rw (rows_for-cons m, ne)

  -- An app never has more rows than the window holds.
  pub length-rows_for-record_entry :
      length (rows_for n (record_entry n op r status detail h).rows) ≤ keep_per_app
  length-rows_for-record_entry =
      rw rows_for-record_entry (omega (arith, length-take keep_per_app (entry ∷ rows_for n h.rows)))
