-- ===== src/AdminUi/Apps/Prefill.antt =====
-- What the editor of the constants is prefilled with after a deploy was refused.
use mendix_for_snowflake.Prelude.{
  ◌≡◌, refl, Bool, true, false, not, ◌&&◌, List, [], ◌∷◌, Text, Dict, lookup, insert, merge,
  contains, lookup-insert, text_eq, text_eq_iff, text_eq_refl, truthy, map, filter, In, All, text,
  Bool-cases, inl, inr,
}
use mendix_for_snowflake.SpecBuilder.{PadConstant}
use mendix_for_snowflake.Routes.Deploy.{missing_constants}
use mendix_for_snowflake.AdminUi.Apps.{prefilled}

contains-insert_self : (k : Text) (v : Text) (d : Dict Text) → contains k (insert k v d) ≡ true
contains-insert_self k v d = rw (lookup-insert k k v d, text_eq_refl k) refl

contains-insert :
    (k j v : Text) (d : Dict Text) → contains k d ≡ true → contains k (insert j v d) ≡ true
contains-insert k j v d h = elim (Bool-cases (text_eq j k)) [
  | inl t ↦ rw (lookup-insert j k v d, t) refl
  | inr f ↦ rw (lookup-insert j k v d, f) h
]

contains-merge_left :
    (k : Text) (d e : Dict Text) → contains k d ≡ true → contains k (merge d e) ≡ true
unfolding merge
contains-merge_left k d [] h = h
contains-merge_left k d ((j, v) ∷ e) h =
    contains-merge_left k (insert j v d) e (contains-insert k j v d h)

contains-merge_right :
    (k : Text) (d e : Dict Text) → contains k e ≡ true → contains k (merge d e) ≡ true
unfolding merge lookup
contains-merge_right k d [] h = cc h
contains-merge_right k d ((j, v) ∷ e) h = elim (Bool-cases (text_eq j k)) [
  | inl t ↦
      contains-merge_left k (insert j v d) e
        (rw ((text_eq_iff j k).0 t) (contains-insert_self k v d))
  | inr f ↦ contains-merge_right k (insert j v d) e (rw f at h)
]

contains_empty :
    (k : Text) (ns : List Text) → In k ns → contains k (map (λ m. (m, text "")) ns) ≡ true
unfolding lookup
contains_empty k [] h = absurd h
contains_empty k (n ∷ ns) h = elim (Bool-cases (text_eq n k)) [
  | inl t ↦ rw t refl
  | inr f ↦ elim h [ inl e ↦ cc ((text_eq_iff n k).1 e, f) | inr m ↦ rw f (contains_empty k ns m) ]
]

and_false : (b : Bool) → (b && false) ≡ false
and_false true = refl
and_false false = refl

nothing_missing :
    (cs : List PadConstant) (ns : List Text) (current : Dict Text)
    → All (λ n. In n ns) (missing_constants cs current)
    → missing_constants cs (prefilled ns current) ≡ []
unfolding missing_constants prefilled filter
nothing_missing [] ns current h = refl
nothing_missing (c ∷ cs) ns current h = elim (Bool-cases (contains c.name current)) [
  | inl t ↦
      rw (contains-merge_right c.name (map (λ m. (m, text "")) ns) current t)
        (nothing_missing cs ns current (rw t at h))
  | inr f ↦ elim (Bool-cases (truthy c.default)) [
    | inl t ↦
        rw (t, and_false (not (contains c.name (merge (map (λ m. (m, text "")) ns) current))))
          (nothing_missing cs ns current (rw (f, t) at h))
    | inr g ↦
        let h' = rw (f, g) at h in
        rw
          (contains-merge_left c.name (map (λ m. (m, text "")) ns) current
            (contains_empty c.name ns h'.0))
          (nothing_missing cs ns current h'.1)
  ]
]

self_listed : (ns ms : List Text) → ((n : Text) → In n ns → In n ms) → All (λ n. In n ms) ns
self_listed [] ms h = tt
self_listed (n ∷ ns) ms h = (h n (inl refl), self_listed ns ms (λ m i. h m (inr i)))

-- After a deploy that was refused for constants without a value, the editor is prefilled with all of
-- them: with the prefilled constants stored, no constant of the PAD is missing any more.
pub prefill_unblocks :
    (cs : List PadConstant) (current : Dict Text)
    → missing_constants cs (prefilled (missing_constants cs current) current) ≡ []
prefill_unblocks cs current =
    nothing_missing cs (missing_constants cs current) current
      (self_listed (missing_constants cs current) (missing_constants cs current) (λ n i. i))
