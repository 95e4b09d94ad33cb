-- ===== src/AdminUi/Apps/Targets.antt =====
-- The rollback that the page offers, and the one that the controller makes.
use mendix_for_snowflake.Prelude.{ℕ, zero, suc, ◌≡◌, refl, ap, Option, List, [], ◌∷◌, Text, take}
use mendix_for_snowflake.Models.{AppRecord, Operation, StatusDetail}
use mendix_for_snowflake.History.{
  keep_per_app, Outcome, History, rows_for, record_entry, list_for_app, last_success,
}
use mendix_for_snowflake.History.Window.{rows_for-record_entry, entry}
use mendix_for_snowflake.AdminUi.Apps.{rollback_target}

take-take {ℓ} : {A : Type ℓ} (k : ℕ) (xs : List A) → take k (take k xs) ≡ take k xs
take-take zero xs = refl
take-take (suc k) [] = refl
take-take (suc k) (x ∷ xs) = ap (λ t. x ∷ t) (take-take k xs)

-- The default limit of `get_app_history`, which the page does not change.
abbrev pub history_limit : ℕ
history_limit = 20

-- After any attempt is recorded, the rollback that the page offers, from the rows that the history
-- route lists, is the one that the controller would make: its last success.
pub rollback_target_agrees :
    (n : Text) (op : Operation) (r : AppRecord) (status : Outcome) (detail : Option StatusDetail)
    (h : History)
    → let h' = record_entry n op r status detail h in
      rollback_target (list_for_app n history_limit h') ≡ last_success n h'
unfolding rollback_target list_for_app last_success
rollback_target_agrees n op r status detail h =
    rw
      (
        rows_for-record_entry n op r status detail h,
        take-take keep_per_app (entry n op r status detail h ∷ rows_for n h.rows),
      )
      refl
