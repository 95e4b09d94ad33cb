-- ===== src/Compliance/Inventory/Unidentified.antt =====
-- Which packages are put up for review as unidentified.
use mendix_for_snowflake.Prelude.{
  ℕ, ◌≡◌, ◌≢◌, ◌↔◌, ◌⊎◌, inl, inr, refl, sym, ap, subst, ◌∙◌, Bool, true, false, Option, none, some,
  List, [], ◌∷◌, ◌++◌, map, Text, text, text_eq_iff, truthy, join, filter, sorted, insert_sorted,
  distinct, mem, In, In→mem, In-sorted, In-distinct, has_char, any, All, or_text, Bool-cases, arith,
}
use mendix_for_snowflake.Compliance.Inventory.{
  License, Artifact, Copied, Row, unknown, license_name, row_of, row_le, insert_row, sort_rows,
  inventory, unidentified,
}

-- The entry is one of those of the artifact.
abbrev pub IsLicense : License → List License → Type 0
IsLicense l [] = ⊥
IsLicense l (k ∷ ks) = (k ≡ l) ⊎ IsLicense l ks

named :
    (l : License) (ls : List License) → IsLicense l ls → In (license_name l) (map license_name ls)
named l [] h = h
named l (k ∷ ks) (inl e) = inl (ap license_name e)
named l (k ∷ ks) (inr h) = inr (named l ks h)

has_char-append : (c : ℕ) (a b : Text) → has_char c b ≡ true → has_char c (a ++ b) ≡ true
unfolding has_char any
has_char-append c [] b h = h
has_char-append c (x ∷ a) b h = ground (arith, has_char-append c a b h)

abbrev glue : Text
glue = text " | "

bar_first : (rest : Text) → has_char b'|' (glue ++ rest) ≡ true
unfolding has_char any
bar_first rest = refl

-- Two texts that are joined have a bar between them.
join_bar : (x y : Text) (xs : List Text) → has_char b'|' (join glue (x ∷ y ∷ xs)) ≡ true
unfolding join
join_bar x y xs = has_char-append b'|' x _ (bar_first (join glue (y ∷ xs)))

join_alone :
    (a m : Text) (xs : List Text) → has_char b'|' a ≡ false → In m xs → join glue xs ≡ a → m ≡ a
unfolding join
join_alone a m [] plain h e = absurd h
join_alone a m (x ∷ []) plain (inl same) e = cc
join_alone a m (x ∷ []) plain (inr h) e = absurd h
join_alone a m (x ∷ y ∷ xs) plain h e =
    let bar = subst (λ t. has_char b'|' t ≡ true) e (join_bar x y xs) in cc

or_text-full : (o : Option Text) (d : Text) → d ≢ [] → or_text o d ≢ []
or_text-full none d full e = full e
or_text-full (some []) d full e = full e
or_text-full (some (c ∷ cs)) d full e = cc e

license_name-truthy : (l : License) → license_name l ≢ []
unfolding license_name
license_name-truthy l = or_text-full l.spdx_expression _ (or_text-full l.value unknown (λ e. cc e))

distinct_same :
    (a : Text) (xs : List Text) → All (λ x. x ≡ a) xs → (distinct xs ≡ []) ⊎ (distinct xs ≡ a ∷ [])
unfolding distinct mem
distinct_same a [] h = inl refl
distinct_same a (x ∷ []) (e, h) = inr (rw e refl)
distinct_same a (x ∷ y ∷ xs) (e, (f, h)) =
    let seen : mem x (y ∷ xs) ≡ true = In→mem x (y ∷ xs) (inl (f ∙ sym e)) in
    rw seen (distinct_same a (y ∷ xs) (f, h))

empty_or_full : (a : Text) → (a ≡ []) ⊎ (truthy a ≡ true)
empty_or_full [] = inl refl
empty_or_full (c ∷ a) = inr refl

In-names :
    (l : License) (ls : List License)
    → IsLicense l ls
    → In (license_name l) (sorted (distinct (map license_name ls)))
In-names l ls h = In-sorted _ _ (In-distinct _ _ (named l ls h))

names-All :
    (f : License → Text) (a : Text) (ls : List License)
    → All (λ l. f l ≡ a) ls
    → All (λ x. x ≡ a) (map f ls)
names-All f a [] h = tt
names-All f a (l ∷ ls) (e, h) = (e, names-All f a ls h)

bar_free : has_char b'|' unknown ≡ false
unfolding has_char any
bar_free = refl

bar_free_nil : has_char b'|' [] ≡ false
unfolding has_char any
bar_free_nil = refl

unknown_told :
    (a : Artifact) (l : License)
    → (row_of a).licenses ≡ unknown
    → IsLicense l a.licenses
    → license_name l ≡ unknown
unfolding row_of
unknown_told a l e h =
    let names = sorted (distinct (map license_name a.licenses)) in
    let held = In-names l a.licenses h in
    elim (empty_or_full (join glue names)) [
      | inl none_joined ↦ absurd (
          license_name-truthy l
            (join_alone [] (license_name l) names bar_free_nil held none_joined))
      | inr full ↦ join_alone unknown (license_name l) names bar_free held (rw full at e)
    ]

unknown_shown :
    (a : Artifact) → All (λ l. license_name l ≡ unknown) a.licenses → (row_of a).licenses ≡ unknown
unfolding row_of join sorted insert_sorted
unknown_shown a h =
    elim (distinct_same unknown (map license_name a.licenses)
      (names-All license_name unknown a.licenses h)) [ inl e ↦ rw e refl | inr e ↦ rw e refl ]

licenses-All :
    (P : License → Type 0) (ls : List License) → ((l : License) → IsLicense l ls → P l) → All P ls
licenses-All P [] h = tt
licenses-All P (l ∷ ls) h = (h l (inl refl), licenses-All P ls (λ k held. h k (inr held)))

abbrev pub IsArtifact : Artifact → List Artifact → Type 0
IsArtifact a [] = ⊥
IsArtifact a (b ∷ bs) = (b ≡ a) ⊎ IsArtifact a bs

abbrev pub IsRow : Row → List Row → Type 0
IsRow r [] = ⊥
IsRow r (s ∷ rows) = (s ≡ r) ⊎ IsRow r rows

insert_row-IsRow : (r s : Row) (rows : List Row) → IsRow r (s ∷ rows) → IsRow r (insert_row s rows)
unfolding insert_row
insert_row-IsRow r s [] h = h
insert_row-IsRow r s (q ∷ rows) h = elim (Bool-cases (row_le s q)) [
  | inl t ↦ rw t h
  | inr t ↦ rw t (elim h [
    | inl here ↦ inr (insert_row-IsRow r s rows (inl here))
    | inr (inl first) ↦ inl first
    | inr (inr later) ↦ inr (insert_row-IsRow r s rows (inr later))
  ])
]

sort_rows-IsRow : (r : Row) (rows : List Row) → IsRow r rows → IsRow r (sort_rows rows)
unfolding sort_rows
sort_rows-IsRow r [] h = h
sort_rows-IsRow r (s ∷ rows) (inl e) = insert_row-IsRow r s (sort_rows rows) (inl e)
sort_rows-IsRow r (s ∷ rows) (inr h) =
    insert_row-IsRow r s (sort_rows rows) (inr (sort_rows-IsRow r rows h))

row_of-IsRow :
    (a : Artifact) (artifacts : List Artifact) (more : List Row)
    → IsArtifact a artifacts
    → IsRow (row_of a) (map row_of artifacts ++ more)
row_of-IsRow a [] more h = absurd h
row_of-IsRow a (b ∷ bs) more (inl e) = inl (ap row_of e)
row_of-IsRow a (b ∷ bs) more (inr h) = inr (row_of-IsRow a bs more h)

inventory-IsRow :
    (a : Artifact) (artifacts : List Artifact) (copied : List Copied)
    → IsArtifact a artifacts
    → IsRow (row_of a) (inventory artifacts copied)
unfolding inventory
inventory-IsRow a artifacts copied h = sort_rows-IsRow _ _ (row_of-IsRow a artifacts _ h)

filter-IsRow :
    (p : Row → Bool) (r : Row) (rows : List Row)
    → p r ≡ true
    → IsRow r rows
    → IsRow r (filter p rows)
unfolding filter
filter-IsRow p r [] t h = h
filter-IsRow p r (s ∷ rows) t (inl e) = rw (ap p e, t) (inl e)
filter-IsRow p r (s ∷ rows) t (inr h) = elim (Bool-cases (p s)) [
  | inl u ↦ rw u (inr (filter-IsRow p r rows t h))
  | inr u ↦ rw u (filter-IsRow p r rows t h)
]

filter-told : (p : Row → Bool) (r : Row) (rows : List Row) → IsRow r (filter p rows) → p r ≡ true
unfolding filter
filter-told p r [] h = absurd h
filter-told p r (s ∷ rows) h = elim (Bool-cases (p s)) [
  | inr u ↦ filter-told p r rows (rw u at h)
  | inl u ↦ elim (rw u at h) [ inl e ↦ ap p (sym e) ∙ u | inr later ↦ filter-told p r rows later ]
]

-- A package of an image is put up for review as unidentified exactly if none of its licenses has a
-- name: it suffices that one of several has a name for the package to be passed over.
pub unidentified_iff :
    (artifacts : List Artifact) (copied : List Copied) (a : Artifact)
    → IsArtifact a artifacts
    → IsRow (row_of a) (unidentified (inventory artifacts copied))
      ↔ All (λ l. license_name l ≡ unknown) a.licenses
unfolding unidentified
unidentified_iff artifacts copied a held = (
  λ listed.
      let told = filter-told _ (row_of a) (inventory artifacts copied) listed in
      licenses-All _ a.licenses
        (λ l h. unknown_told a l ((text_eq_iff (row_of a).licenses unknown).0 told) h),
  λ h.
      filter-IsRow _ (row_of a) (inventory artifacts copied)
        ((text_eq_iff (row_of a).licenses unknown).1 (unknown_shown a h))
        (inventory-IsRow a artifacts copied held),
)
