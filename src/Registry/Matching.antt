-- ===== src/Registry/Matching.antt =====
-- The rows of a name after each statement, by their columns.
use mendix_for_snowflake.Prelude.{
  ℕ, ◌≡◌, refl, ◌∙◌, ap, true, false, some, List, [], ◌∷◌, ◌++◌, map, filter, Text, upper,
  text_eq_iff, same_name, same_name_iff, Bool-cases, inl, inr, if◌then◌else◌, arith,
}
use mendix_for_snowflake.Models.{AppRecord}
use mendix_for_snowflake.Registry.{
  Rows, Field, mask_constants, set_fields, update_rows, create_app, delete_app,
}
use mendix_for_snowflake.Registry.Lookup.{name-set_fields}
use mendix_for_snowflake.Registry.Columns.{
  Value, view, registered, cells, replaced, view-set_fields,
}

-- The rows that `SELECT` gives for a name, in the order of the table.
abbrev pub matching : Text → Rows → Rows
matching name rows = filter (λ r. same_name r.name name) rows

pub matching-create :
    (name : Text) (rows : Rows) (r : AppRecord)
    → map view (matching name (create_app r rows))
      ≡ map view (matching name rows) ++ (if same_name r.name name then registered r ∷ [] else [])
unfolding create_app filter mask_constants
matching-create name [] r = elim (Bool-cases (same_name r.name name)) [
  | inl t ↦ rw t refl
  | inr e ↦ rw e refl
]
matching-create name (x ∷ rows) r = elim (Bool-cases (same_name x.name name)) [
  | inl t ↦ rw t (ap (λ l. view x ∷ l) (matching-create name rows r))
  | inr e ↦ rw e (matching-create name rows r)
]

same_name_swap : (a b c : Text) → same_name a b ≡ true → same_name a c ≡ same_name b c
unfolding same_name
same_name_swap a b c h = let same = (text_eq_iff (upper a) (upper b)).0 h in rw same refl

same_name_apart :
    (a b c : Text) → same_name a b ≡ false → same_name b c ≡ true → same_name a c ≡ false
same_name_apart a b c h k =
    ground (arith, h, k, same_name_iff a b, same_name_iff b c, same_name_iff a c)

pub matching-update :
    (n name : Text) (fs : List Field) (cs : List (ℕ × Value)) (rows : Rows)
    → cells fs ≡ some cs
    → map view (matching name (update_rows n fs rows)) ≡ (
        if same_name n name
        then map (replaced cs) (map view (matching name rows))
        else map view (matching name rows))
unfolding update_rows filter
matching-update n name fs cs [] h = ground arith
matching-update n name fs cs (r ∷ rows) h =
    let rest = matching-update n name fs cs rows h in
    let renamed : same_name r.name n ≡ true
        → same_name (set_fields fs r).name name ≡ same_name n name =
      λ here.
        ap (λ x. same_name x name) (name-set_fields fs r) ∙ same_name_swap r.name n name here in
    elim (Bool-cases (same_name r.name n)) [
      | inl here ↦
          rw (here, renamed here, same_name_swap r.name n name here)
            (elim (Bool-cases (same_name n name)) [
              | inl t ↦ rw t (
                  ap (λ l. l ∷ map view (matching name (update_rows n fs rows)))
                    (view-set_fields fs cs r h)
                  ∙ ap (λ l. replaced cs (view r) ∷ l) (rw t at rest))
              | inr f ↦ rw f (rw f at rest)
            ])
      | inr other ↦ rw other (elim (Bool-cases (same_name n name)) [
        | inl t ↦ rw (same_name_apart r.name n name other t, t) (rw t at rest)
        | inr f ↦ rw f (elim (Bool-cases (same_name r.name name)) [
          | inl k ↦ rw k (ap (λ l. view r ∷ l) (rw f at rest))
          | inr k ↦ rw k (rw f at rest)
        ])
      ])
    ]

pub matching-delete :
    (n name : Text) (rows : Rows)
    → map view (matching name (delete_app n rows))
      ≡ (if same_name n name then [] else map view (matching name rows))
unfolding delete_app filter
matching-delete n name [] = ground arith
matching-delete n name (r ∷ rows) =
    let rest = matching-delete n name rows in
    elim (Bool-cases (same_name r.name n)) [
      | inl here ↦
          rw (here, same_name_swap r.name n name here)
            (elim (Bool-cases (same_name n name)) [
              | inl t ↦ rw t (rw t at rest)
              | inr f ↦ rw f (rw f at rest)
            ])
      | inr other ↦ rw other (elim (Bool-cases (same_name n name)) [
        | inl t ↦ rw (same_name_apart r.name n name other t, t) (rw t at rest)
        | inr f ↦ rw f (elim (Bool-cases (same_name r.name name)) [
          | inl k ↦ rw k (ap (λ l. view r ∷ l) (rw f at rest))
          | inr k ↦ rw k (rw f at rest)
        ])
      ])
    ]
