-- ===== src/Prelude/Splits.antt =====
-- `split` and `join` on texts, and what one makes of the other's result.
use Prim.Native.Nat.{ℕ}
use mathlib.Core.Path.{◌≡◌, refl, ◌∙◌, sym, ap}
use mathlib.Core.Logic.{◌≢◌, ◌⊎◌, inl, inr}
use mathlib.Core.Bool.{true, false, not, ◌&&◌}
use mathlib.Core.List.{List, [], ◌∷◌, ◌++◌, reverse, reverse-cons, append_assoc, append-nil}
use native.Mathlib.Omega.{arith}
use mathlib.Core.Option.{Option, none, some}
use mendix_for_snowflake.Prelude.Tests.{◌==◌, Bool-cases, if◌then◌else◌}
use mendix_for_snowflake.Prelude.Lists.{All}
use mendix_for_snowflake.Prelude.Texts.{Text, truthy, split_from, split}

-- `glue.join(xs)`
unfoldable pub join : Text → List Text → Text
join glue [] = []
join glue (x ∷ []) = x
join glue (x ∷ y ∷ xs) = x ++ (glue ++ join glue (y ∷ xs))

-- `xs[-1]`
unfoldable pub last_of {ℓ} : {A : Type ℓ} → A → List A → A
last_of a [] = a
last_of a (x ∷ xs) = last_of x xs

-- `a.rpartition(c)`, without the separator: what stands before its last place, and behind it. Where
-- there is none, all is behind.
unfoldable pub rpartition? : ℕ → Text → Option (Text × Text)
rpartition? c [] = none
rpartition? c (x ∷ a) = elim (rpartition? c a) [
  | some (before, behind) ↦ some (x ∷ before, behind)
  | none ↦ if x == c then some ([], a) else none
]

unfoldable pub rpartition : ℕ → Text → Text × Text
unfolding rpartition?
rpartition c a = elim (rpartition? c a) [ none ↦ ([], a) | some parts ↦ parts ]

-- The character does not occur in the text.
abbrev pub Lacks : ℕ → Text → Type 0
Lacks c a = All (λ x. x ≢ c) a

module _ {ℓ κ} {A : Type ℓ} (P : A → Type κ) where
  pub All-append : (xs ys : List A) → All P xs → All P ys → All P (xs ++ ys)
  All-append [] ys hx hy = hy
  All-append (x ∷ xs) ys hx hy = (hx.0, All-append xs ys hx.1 hy)

reverse_step : (x : ℕ) (piece rest : Text) → reverse (x ∷ piece) ++ rest ≡ reverse piece ++ x ∷ rest
reverse_step x piece rest = rw (reverse-cons x piece) (append_assoc (reverse piece) (x ∷ []) rest)

split_from-Lacks :
    (c : ℕ) (piece a : Text) → Lacks c a → split_from c piece a ≡ (reverse piece ++ a) ∷ []
unfolding split_from
split_from-Lacks c piece [] h = rw (append-nil (reverse piece)) refl
split_from-Lacks c piece (x ∷ a) (d, h) =
    let e : (x == c) ≡ false = ground arith in
    rw (e, split_from)
      (split_from-Lacks c (x ∷ piece) a h ∙ ap (λ t. t ∷ []) (reverse_step x piece a))

split_from-append :
    (c : ℕ) (piece a rest : Text)
    → Lacks c a
    → split_from c piece (a ++ c ∷ rest) ≡ (reverse piece ++ a) ∷ split_from c [] rest
unfolding split_from
split_from-append c piece [] rest h =
    let e : (c == c) ≡ true = ground arith in
    rw (e, split_from) (rw (append-nil (reverse piece)) refl)
split_from-append c piece (x ∷ a) rest (d, h) =
    let e : (x == c) ≡ false = ground arith in
    rw (e, split_from)
      (split_from-append c (x ∷ piece) a rest h
        ∙ ap (λ t. t ∷ split_from c [] rest) (reverse_step x piece a))

pub split-Lacks : (c : ℕ) (a : Text) → Lacks c a → split c a ≡ a ∷ []
unfolding split
split-Lacks c a h = split_from-Lacks c [] a h

pub split-append : (c : ℕ) (a rest : Text) → Lacks c a → split c (a ++ c ∷ rest) ≡ a ∷ split c rest
unfolding split
split-append c a rest h = split_from-append c [] a rest h

pub split-join :
    (c : ℕ) (x : Text) (xs : List Text)
    → All (Lacks c) (x ∷ xs)
    → split c (join (c ∷ []) (x ∷ xs)) ≡ x ∷ xs
unfolding join
split-join c x [] (h, _) = split-Lacks c x h
split-join c x (y ∷ xs) (h, hs) =
    split-append c x (join (c ∷ []) (y ∷ xs)) h ∙ ap (λ t. x ∷ t) (split-join c y xs hs)

-- What stands before a piece: nothing, or something that ends with the separator.
abbrev pub EndsWith : ℕ → Text → Type 0
EndsWith c pre = (pre ≡ []) ⊎ ((before : Text) × (pre ≡ before ++ c ∷ []))

EndsWith-more : (c : ℕ) (start pre : Text) → EndsWith c pre → EndsWith c (start ++ c ∷ pre)
EndsWith-more c start pre (inl e) = inr (start, rw e refl)
EndsWith-more c start pre (inr (before, e)) =
    inr (start ++ c ∷ before, rw e (sym (append_assoc start (c ∷ before) (c ∷ []))))

last_from :
    (c : ℕ) (d piece a : Text)
    → Lacks c (reverse piece)
    → (pre last : Text) × (reverse piece ++ a ≡ pre ++ last)
      × EndsWith c pre
      × (last_of d (split_from c piece a) ≡ last)
      × Lacks c last
unfolding split_from last_of
last_from c d piece [] h = ([], reverse piece, append-nil (reverse piece), inl refl, refl, h)
last_from c d piece (x ∷ a) h = elim (Bool-cases (x == c)) [
  | inl e ↦
      let (pre, last, split_at, ending, at_end, lacks) = last_from c (reverse piece) [] a tt in
      let here : x ≡ c = ground (arith, e) in
      (
        reverse piece ++ x ∷ pre,
        last,
        rw split_at (sym (append_assoc (reverse piece) (x ∷ pre) last)),
        rw here (EndsWith-more c (reverse piece) pre ending),
        rw (e, split_from) at_end,
        lacks,
      )
  | inr f ↦
      let (pre, last, split_at, ending, at_end, lacks) = last_from c d (x ∷ piece) a (
        rw (reverse-cons x piece)
          (All-append (λ y. y ≢ c) (reverse piece) (x ∷ []) h (λ e. ground arith, tt))) in
      (pre, last, sym (reverse_step x piece a) ∙ split_at, ending, rw (f, split_from) at_end, lacks)
]

-- The last piece of a text: what stands behind its last separator.
pub last_piece :
    (c : ℕ) (d a : Text)
    → (pre last : Text) × (a ≡ pre ++ last)
      × EndsWith c pre
      × (last_of d (split c a) ≡ last)
      × Lacks c last
unfolding split
last_piece c d a = last_from c d [] a tt

pub rpartition?-Lacks : (c : ℕ) (a : Text) → Lacks c a → rpartition? c a ≡ none
unfolding rpartition?
rpartition?-Lacks c [] h = refl
rpartition?-Lacks c (x ∷ a) (d, h) =
    let e : (x == c) ≡ false = ground arith in rw (rpartition?-Lacks c a h, rpartition?) (rw e refl)

pub rpartition?-append :
    (c : ℕ) (before behind : Text)
    → Lacks c behind
    → rpartition? c (before ++ c ∷ behind) ≡ some (before, behind)
unfolding rpartition?
rpartition?-append c [] behind h =
    let e : (c == c) ≡ true = ground arith in rw (rpartition?-Lacks c behind h) (rw e refl)
rpartition?-append c (x ∷ before) behind h = rw (rpartition?-append c before behind h) refl

pub rpartition-Lacks : (c : ℕ) (a : Text) → Lacks c a → rpartition c a ≡ ([], a)
unfolding rpartition
rpartition-Lacks c a h = rw (rpartition?-Lacks c a h, rpartition) refl

pub rpartition-append :
    (c : ℕ) (before behind : Text)
    → Lacks c behind
    → rpartition c (before ++ c ∷ behind) ≡ (before, behind)
unfolding rpartition
rpartition-append c before behind h = rw (rpartition?-append c before behind h, rpartition) refl

-- A newline that `$` lets end a text.
pub newline_last : (c : ℕ) (cs : Text) → (c == 10 && not (truthy cs)) ≡ true → c ∷ cs ≡ 10 ∷ []
newline_last c [] h = let same : c ≡ 10 = ground (arith, h) in rw same refl
newline_last c (d ∷ cs) h = ground (arith, h)
