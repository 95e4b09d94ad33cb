-- ===== src/History/Targets.antt =====
-- What a rollback can find in the history.
use mendix_for_snowflake.Prelude.{
  ℕ, zero, suc, ◌≤◌, ◌≡◌, refl, ap, subst, Bool, true, false, Option, none, some, List, [], ◌∷◌,
  Text, same_name, filter, take, length, arith, Bool-cases, inl, inr, All, ◌==◌, ==_iff,
}
use mendix_for_snowflake.Models.{AppRecord, Operation, StatusDetail}
use mendix_for_snowflake.History.{
  keep_per_app, ready, failed, Entry, History, rows_for, snapshot, record_entry, last_success,
  get_entry, is_ready, first,
}
use mendix_for_snowflake.History.Window.{entry, rows_for-record_entry, length-rows_for-record_entry}

-- After a success is recorded, the app's last success is that entry, with the values of the record.
pub last_success-record_entry :
    (n : Text) (op : Operation) (r : AppRecord) (detail : Option StatusDetail) (h : History)
    → last_success n (record_entry n op r ready detail h) ≡ some (entry n op r ready detail h)
unfolding last_success filter snapshot
last_success-record_entry n op r detail h = rw rows_for-record_entry

IsFailed : Entry → Type 0
IsFailed e = is_ready e.status ≡ false

first_ready_none :
    (es : List Entry) → All IsFailed es → first (filter (λ e. is_ready e.status) es) ≡ none
unfolding filter IsFailed
first_ready_none [] a = refl
first_ready_none (e ∷ es) a = rw a.0 (first_ready_none es a.1)

All-take-take :
    (k j : ℕ) (es : List Entry) → All IsFailed (take k es) → All IsFailed (take k (take j es))
All-take-take zero j es a = tt
All-take-take (suc k) zero es a = tt
All-take-take (suc k) (suc j) [] a = tt
All-take-take (suc k) (suc j) (e ∷ es) a = (a.0, All-take-take k j es a.1)

take_all : (k : ℕ) (es : List Entry) → length es ≤ k → take k es ≡ es
take_all zero [] h = refl
take_all zero (e ∷ es) h = absurd (omega arith)
take_all (suc k) [] h = refl
take_all (suc k) (e ∷ es) h = ap (λ xs. e ∷ xs) (take_all k es (omega arith))

-- An attempt that failed.
pub record Attempt : Type 0 where
  pub operation : Operation
  pub record_of : AppRecord
  pub detail : Option StatusDetail

-- The history after a run of failures of one app, the newest attempt first.
pub record_failures : Text → List Attempt → History → History
record_failures n [] h = h
record_failures n (a ∷ earlier) h =
    record_entry n a.operation a.record_of failed a.detail (record_failures n earlier h)

failures_fill :
    (n : Text) (earlier : List Attempt) (h : History)
    → All IsFailed (take (length earlier) (rows_for n (record_failures n earlier h).rows))
unfolding record_failures IsFailed snapshot
failures_fill n [] h = tt
failures_fill n (a ∷ earlier) h = rw rows_for-record_entry (
  refl,
  All-take-take (length earlier) 19 (rows_for n (record_failures n earlier h).rows)
      (failures_fill n earlier h),
)

bounded :
    (n : Text) (a : Attempt) (earlier : List Attempt) (h : History)
    → keep_per_app ≤ suc (length earlier)
    → length (rows_for n (record_failures n (a ∷ earlier) h).rows) ≤ suc (length earlier)
unfolding record_failures
bounded n a earlier h le = omega (
  arith,
  length-rows_for-record_entry n a.operation a.record_of failed a.detail
      (record_failures n earlier h),
)

-- A run of failures as long as the window leaves no success to roll back to, whatever the history
-- held before.
pub failures_forget_success :
    (n : Text) (earlier : List Attempt) (h : History)
    → keep_per_app ≤ length earlier
    → last_success n (record_failures n earlier h) ≡ none
unfolding last_success
failures_forget_success n [] h le = absurd (omega arith)
failures_forget_success n (a ∷ earlier) h le = first_ready_none _ (
    subst (All IsFailed)
      (take_all (suc (length earlier)) (rows_for n (record_failures n (a ∷ earlier) h).rows)
        (bounded n a earlier h le))
      (failures_fill n (a ∷ earlier) h))

first_of_both :
    (p q : Entry → Bool) (es : List Entry) {e : Entry}
    → first (filter p (filter q es)) ≡ some e
    → (p e ≡ true) × (q e ≡ true)
unfolding filter
first_of_both p q [] h = cc
first_of_both p q (x ∷ es) {e} h = elim (Bool-cases (q x)) [
  | inr f ↦ first_of_both p q es (rw f at h)
  | inl t ↦
      let h' = rw t at h in
      elim (Bool-cases (p x)) [
        | inl u ↦
            let x-eq : x ≡ e = cc (rw u at h') in
            (subst (λ y. p y ≡ true) x-eq u, subst (λ y. q y ≡ true) x-eq t)
        | inr f ↦ first_of_both p q es (rw f at h')
      ]
]

-- An entry that is found for an app is a row of the table that belongs to it and has that id.
pub get_entry_scoped :
    (n : Text) (id : ℕ) (h : History) {e : Entry}
    → get_entry n id h ≡ some e
    → (same_name e.app_name n ≡ true) × (e.id ≡ id)
unfolding get_entry rows_for
get_entry_scoped n id h {e} p =
    let (same, named) = first_of_both (λ x. x.id == id) (λ x. same_name x.app_name n) h.rows p in
    (named, (==_iff e.id id).0 same)
