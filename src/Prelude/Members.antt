-- ===== src/Prelude/Members.antt =====
-- What `sorted`, `set` and the keys of a dict contain.
use mathlib.Core.Path.{◌≡◌}
use mathlib.Core.Logic.{inl, inr}
use mathlib.Core.Option.{some}
use mathlib.Core.List.{List, [], ◌∷◌, ◌++◌}
use mendix_for_snowflake.Prelude.Tests.{Bool-cases}
use mendix_for_snowflake.Prelude.Texts.{
  Text, text_eq, text_eq_iff, In, mem, mem→In, distinct, text_le, insert_sorted, sorted,
}
use mendix_for_snowflake.Prelude.Dicts.{Dict, lookup, keys}

pub In-append_left : (a : Text) (xs ys : List Text) → In a xs → In a (xs ++ ys)
In-append_left a [] ys h = absurd h
In-append_left a (x ∷ xs) ys (inl e) = inl e
In-append_left a (x ∷ xs) ys (inr h) = inr (In-append_left a xs ys h)

pub In-append_right : (a : Text) (xs ys : List Text) → In a ys → In a (xs ++ ys)
In-append_right a [] ys h = h
In-append_right a (x ∷ xs) ys h = inr (In-append_right a xs ys h)

In-insert_sorted : (a b : Text) (xs : List Text) → In a (b ∷ xs) → In a (insert_sorted b xs)
unfolding insert_sorted
In-insert_sorted a b [] h = h
In-insert_sorted a b (x ∷ xs) h = elim (Bool-cases (text_le b x)) [
  | inl t ↦ rw t h
  | inr f ↦ rw f (elim h [
    | inl e ↦ inr (In-insert_sorted a b xs (inl e))
    | inr later ↦ elim later [ inl e ↦ inl e | inr m ↦ inr (In-insert_sorted a b xs (inr m)) ]
  ])
]

pub In-sorted : (a : Text) (xs : List Text) → In a xs → In a (sorted xs)
unfolding sorted
In-sorted a [] h = absurd h
In-sorted a (x ∷ xs) (inl e) = In-insert_sorted a x (sorted xs) (inl e)
In-sorted a (x ∷ xs) (inr h) = In-insert_sorted a x (sorted xs) (inr (In-sorted a xs h))

pub In-distinct : (a : Text) (xs : List Text) → In a xs → In a (distinct xs)
unfolding distinct
In-distinct a [] h = absurd h
In-distinct a (x ∷ xs) h = elim (Bool-cases (mem x xs)) [
  | inl t ↦
      rw t
        (elim h [ inl e ↦ In-distinct a xs (rw e at (mem→In x xs t)) | inr m ↦ In-distinct a xs m ])
  | inr f ↦ rw f (elim h [ inl e ↦ inl e | inr m ↦ inr (In-distinct a xs m) ])
]

module _ {ℓ} {V : Type ℓ} where
  pub In-keys : (k : Text) (v : V) (d : Dict V) → lookup k d ≡ some v → In k (keys d)
  unfolding lookup keys
  In-keys k v [] h = cc
  In-keys k v ((j, w) ∷ d) h = elim (Bool-cases (text_eq j k)) [
    | inl t ↦ inl ((text_eq_iff j k).0 t)
    | inr f ↦ inr (In-keys k v d (rw f at h))
  ]
