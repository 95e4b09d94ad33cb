-- ===== src/Compliance/Notices/Archive.antt =====
-- What a name of an archive stands for, in the archive and in the dict of its members.
use mendix_for_snowflake.Prelude.{
  ℕ, zero, suc, ◌≡◌, refl, ◌∙◌, Option, none, some, List, [], ◌∷◌, Text, text_eq, Dict, lookup,
  insert, lookup-insert, if◌then◌else◌, Option-cases, Bool-cases, inl, inr,
}
use mendix_for_snowflake.Compliance.Paths.{lstrip_slashes, without_dot_slash}
use mendix_for_snowflake.Compliance.Notices.{Member, members_from, link_target}
use mendix_for_snowflake.Compliance.Notices.Chase.{walk, within, leads_to, Reaches}

-- The last entry of the archive that has the name, once "./" or slashes before its own are left out.
abbrev pub last_named : List Member → Text → Option Member
last_named [] name = none
last_named (m ∷ ms) name = elim (last_named ms name) [
  | some later ↦ some later
  | none ↦ if text_eq (lstrip_slashes (without_dot_slash m.name)) name then some m else none
]

-- The links of a member of the archive lead to the other, one after another.
abbrev pub LinksTo : List Member → Member → Member → Type 0
LinksTo archive m x = (n : ℕ) × (walk (last_named archive) n m ≡ some x)

lookup-members_from :
    (archive : List Member) (d : Dict Member) (name : Text)
    → lookup name (members_from archive d)
      ≡ elim (last_named archive name) [ some m ↦ some m | none ↦ lookup name d ]
unfolding members_from
lookup-members_from [] d name = refl
lookup-members_from (m ∷ ms) d name =
    let own = lstrip_slashes (without_dot_slash m.name) in
    lookup-members_from ms (insert own m d) name ∙ elim (Option-cases (last_named ms name)) [
      | inr (later, e) ↦ rw (e, last_named) refl
      | inl e ↦
          rw (e, last_named)
            (elim (Bool-cases (text_eq own name)) [
              | inl t ↦ lookup-insert own name m d ∙ rw t refl
              | inr f ↦ lookup-insert own name m d ∙ rw f refl
            ])
    ]

pub within-last_named :
    (archive : List Member) (name : Text)
    → within (members_from archive []) name ≡ last_named archive name
unfolding lookup
within-last_named archive name =
    lookup-members_from archive [] name
    ∙ elim (Option-cases (last_named archive name)) [ inl e ↦ rw e refl | inr (m, e) ↦ rw e refl ]

leads_same :
    (f g : Text → Option Member) (o : Option Text)
    → ((k : Text) → f k ≡ g k)
    → leads_to f o ≡ leads_to g o
leads_same f g none h = refl
leads_same f g (some target) h = h target

walk_same :
    (f g : Text → Option Member) (n : ℕ) (m : Member)
    → ((k : Text) → f k ≡ g k)
    → walk f n m ≡ walk g n m
walk_same f g zero m h = refl
walk_same f g (suc n) m h =
    let before = walk_same f g n m h in
    elim (Option-cases (walk g n m)) [
      | inl e ↦ rw (before, e) refl
      | inr (x, e) ↦ rw (before, e) (leads_same f g (link_target x) h)
    ]

-- The chase of links in the dict goes the way of the archive.
pub LinksTo-Reaches :
    (archive : List Member) (m x : Member)
    → LinksTo archive m x
    → Reaches (members_from archive []) m x
LinksTo-Reaches archive m x (n, e) = (
  n,
  walk_same (within (members_from archive [])) (last_named archive) n m (within-last_named archive)
      ∙ e,
)
