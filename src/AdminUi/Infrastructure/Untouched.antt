-- ===== src/AdminUi/Infrastructure/Untouched.antt =====
-- Saving a form of the infrastructure page as it was shown.
use mendix_for_snowflake.Prelude.{
  ℕ, zero, suc, ◌≤◌, ◌≡◌, ◌≢◌, ◌↔◌, refl, ◌∙◌, ap, true, false, some, List, [], ◌∷◌, Text, text,
  truthy, strip, strip_left, is_space, split, split_from, split-append, split-Lacks, join, Lacks,
  All, map, filter, any, has_char, ltb, arith,
}
use mendix_for_snowflake.PadParser.{is_control}
use mendix_for_snowflake.Requests.{check_recipients}
use mendix_for_snowflake.SystemRoutes.{Pool}
use mendix_for_snowflake.AdminUi.Infrastructure.{
  or_default, pool_form, submit_pool, recipients_text, recipients_of,
}

-- A recipient as the controller stores it, without a comma in it.
abbrev pub IsRecipient : Text → Type 0
IsRecipient r =
    (truthy r ≡ true)
    × (strip r ≡ r)
    × Lacks b',' r
    × (any is_control r ≡ false)
    × (has_char b'@' r ≡ true)

strip_space : (r : Text) → strip (32 ∷ r) ≡ strip r
unfolding strip strip_left is_space
strip_space r = refl

-- The pieces behind the first one begin with the space of the glue.
spaced : List Text → List Text
spaced rs = map (λ r. 32 ∷ r) rs

space_in :
    (y : Text) (rs : List Text) → 32 ∷ join (text ", ") (y ∷ rs) ≡ join (text ", ") ((32 ∷ y) ∷ rs)
unfolding join
space_in y [] = refl
space_in y (z ∷ rs) = refl

split_shown :
    (p : Text) (rs : List Text)
    → Lacks b',' p
    → All (Lacks b',') rs
    → split b',' (join (text ", ") (p ∷ rs)) ≡ p ∷ spaced rs
unfolding join spaced
split_shown p [] h hs = split-Lacks b',' p h
split_shown p (y ∷ rs) h (g, hs) =
    split-append b',' p (32 ∷ join (text ", ") (y ∷ rs)) h
    ∙ ap (λ t. p ∷ t) (rw (space_in y rs) (split_shown (32 ∷ y) rs (λ e. cc e, g) hs))

recipients_lack : (rs : List Text) → All IsRecipient rs → All (Lacks b',') rs
recipients_lack [] h = tt
recipients_lack (r ∷ rs) (p, h) = (p.2, recipients_lack rs h)

spaced_kept :
    (rs : List Text)
    → All IsRecipient rs
    → map strip (filter (λ r. truthy (strip r)) (spaced rs)) ≡ rs
unfolding filter spaced
spaced_kept [] h = refl
spaced_kept (r ∷ rs) ((full, stripped, _, _, _), h) =
    rw (strip_space r, stripped, full)
      (rw (strip_space r, stripped) (ap (λ t. r ∷ t) (spaced_kept rs h)))

nobody_shown : recipients_of (recipients_text []) ≡ []
unfolding recipients_of recipients_text join split split_from strip strip_left filter
nobody_shown = refl

first_kept :
    (r : Text) (rs : List Text)
    → IsRecipient r
    → All IsRecipient rs
    → map strip (filter (λ t. truthy (strip t)) (r ∷ spaced rs)) ≡ r ∷ rs
unfolding filter
first_kept r rs (full, stripped, _, _, _) h =
    rw (stripped, full) (rw stripped (ap (λ t. r ∷ t) (spaced_kept rs h)))

shown_kept : (rs : List Text) → All IsRecipient rs → recipients_of (recipients_text rs) ≡ rs
unfolding recipients_of recipients_text
shown_kept [] h = nobody_shown
shown_kept (r ∷ rs) (p, h) = rw (split_shown r rs p.2 (recipients_lack rs h)) (first_kept r rs p h)

cleaned : (rs : List Text) → All IsRecipient rs → check_recipients rs ≡ some rs
unfolding check_recipients
cleaned [] h = refl
cleaned (r ∷ rs) ((full, stripped, lacks, printable, at_sign), h) =
    rw (stripped, full, printable, at_sign, cleaned rs h) (rw stripped refl)

-- Saving the form of the alerts as it was shown sends the stored recipients, and the controller
-- accepts them unchanged, where none of them has a comma.
pub recipients_survive :
    (rs : List Text)
    → All IsRecipient rs
    → (recipients_of (recipients_text rs) ≡ rs)
      × (check_recipients (recipients_of (recipients_text rs)) ≡ some rs)
recipients_survive rs h = (shown_kept rs h, rw (shown_kept rs h) (cleaned rs h))

in_order : (a b : ℕ) → a ≤ b → ltb (suc b) (suc a) ≡ false
in_order a b h = ground arith

-- Saving the form of the compute pool as it was shown keeps the pool's three settings exactly where
-- its auto-suspend is not disabled: a 0 is shown, and then sent, as 3600 seconds.
pub pool_form_keeps_iff :
    (pool : Pool) (a b k : ℕ)
    → pool.min_nodes ≡ some (suc a)
    → pool.max_nodes ≡ some (suc b)
    → pool.auto_suspend_secs ≡ some k
    → a ≤ b
    → (submit_pool (pool_form pool)
        ≡ some (record { min_nodes = suc a; max_nodes = suc b; auto_suspend = k }))
      ↔ (k ≢ 0)
unfolding submit_pool pool_form or_default
pool_form_keeps_iff pool a b zero p q r le =
    rw (p, q, r, in_order a b le) (λ h e. ground (arith, h), λ n. absurd (n refl))
pool_form_keeps_iff pool a b (suc k) p q r le =
    rw (p, q, r, in_order a b le) (λ h e. cc e, λ n. refl)
