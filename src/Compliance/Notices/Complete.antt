-- ===== src/Compliance/Notices/Complete.antt =====
-- No notice of an archive is left out.
use mendix_for_snowflake.Prelude.{
  ℕ, suc, ◌≡◌, ◌∙◌, refl, true, none, some, List, [], ◌∷◌, ◌++◌, Text, text_eq, text_eq_iff,
  text_le, Dict, lookup, length, Bool-cases, inl, inr, ◌⊎◌,
}
use mendix_for_snowflake.Compliance.Paths.{parts_of}
use mendix_for_snowflake.Compliance.Notices.{
  Kind, Member, chase, Chased, link_target, Pack, Fault, Notice, is_unsafe, keep, keep_chased,
  is_notice, notice_step, extract_from, extract_notices, sorted_members, insert_member,
  members_from,
}
use mendix_for_snowflake.Compliance.Notices.Chase.{
  IsMember, lookup-IsMember, Reaches, Settled, chase_settles, one_end,
}
use mendix_for_snowflake.Compliance.Notices.Archive.{
  last_named, LinksTo, within-last_named, LinksTo-Reaches,
}
use mendix_for_snowflake.Compliance.Notices.Inside.{Sum-cases}

abbrev pub IsEntry : Text → Member → Dict Member → Type 0
IsEntry name m [] = ⊥
IsEntry name m (e ∷ d) = (e ≡ (name, m)) ⊎ IsEntry name m d

lookup-IsEntry :
    (name : Text) (m : Member) (d : Dict Member) → lookup name d ≡ some m → IsEntry name m d
unfolding lookup
lookup-IsEntry name m [] h = cc
lookup-IsEntry name m ((j, l) ∷ d) h = elim (Bool-cases (text_eq j name)) [
  | inl t ↦
      let same = (text_eq_iff j name).0 t in
      let held : l ≡ m = cc (rw t at h) in inl (rw (same, held) refl)
  | inr f ↦ inr (lookup-IsEntry name m d (rw f at h))
]

insert_member-IsEntry :
    (e : Text × Member) (name : Text) (m : Member) (d : Dict Member)
    → IsEntry name m (e ∷ d)
    → IsEntry name m (insert_member e d)
unfolding insert_member
insert_member-IsEntry e name m [] h = h
insert_member-IsEntry e name m (f ∷ d) h = elim (Bool-cases (text_le e.0 f.0)) [
  | inl t ↦ rw t h
  | inr t ↦ rw t (elim h [
    | inl here ↦ inr (insert_member-IsEntry e name m d (inl here))
    | inr (inl first) ↦ inl first
    | inr (inr later) ↦ inr (insert_member-IsEntry e name m d (inr later))
  ])
]

sorted_members-IsEntry :
    (name : Text) (m : Member) (d : Dict Member)
    → IsEntry name m d
    → IsEntry name m (sorted_members d)
unfolding sorted_members
sorted_members-IsEntry name m [] h = absurd h
sorted_members-IsEntry name m (e ∷ d) (inl here) =
    insert_member-IsEntry e name m (sorted_members d) (inl here)
sorted_members-IsEntry name m (e ∷ d) (inr h) =
    insert_member-IsEntry e name m (sorted_members d) (inr (sorted_members-IsEntry name m d h))

abbrev pub IsRecorded : Notice → List Notice → Type 0
IsRecorded n [] = ⊥
IsRecorded n (r ∷ rs) = (r ≡ n) ⊎ IsRecorded n rs

IsRecorded-append_left :
    (n : Notice) (rs more : List Notice) → IsRecorded n rs → IsRecorded n (rs ++ more)
IsRecorded-append_left n [] more h = absurd h
IsRecorded-append_left n (r ∷ rs) more (inl e) = inl e
IsRecorded-append_left n (r ∷ rs) more (inr h) = inr (IsRecorded-append_left n rs more h)

IsRecorded-append_last : (n : Notice) (rs : List Notice) → IsRecorded n (rs ++ n ∷ [])
IsRecorded-append_last n [] = inl refl
IsRecorded-append_last n (r ∷ rs) = inr (IsRecorded-append_last n rs)

-- The member is a notice, and its links, one after another, lead to a regular file with the content.
abbrev LeadsTo : Dict Member → Text → Member → List ℕ → Type 0
LeadsTo members name m content =
    (is_notice name m ≡ true)
    × (source : Member) × Reaches members m source
    × (source.kind ≡ Kind.regular content)

module _ (digest : List ℕ → Text) where
  abbrev pub notice_of : Text → List ℕ → Notice
  notice_of name content = record { path = name; sha256 = digest content; bytes = length content }

module _ (digest : List ℕ → Text) (members : Dict Member) where
  -- The record stays, where the step has a result.
  abbrev StepRecorded : Notice → Pack ⊎ Fault → Type 0
  StepRecorded n (inl next) = IsRecorded n next.records
  StepRecorded n (inr fault) = Unit

  keep-IsRecorded :
      (n : Notice) (name : Text) (source : Member) (pack : Pack) (kind : Kind)
      → source.kind ≡ kind
      → IsRecorded n pack.records
      → IsRecorded n (keep digest name source pack).records
  unfolding keep
  keep-IsRecorded n name source pack (Kind.regular content) e h =
      rw (e, keep) (IsRecorded-append_left n pack.records _ h)
  keep-IsRecorded n name source pack Kind.folder e h = rw (e, keep) h
  keep-IsRecorded n name source pack (Kind.symlink t) e h = rw (e, keep) h
  keep-IsRecorded n name source pack (Kind.hardlink t) e h = rw (e, keep) h
  keep-IsRecorded n name source pack Kind.device e h = rw (e, keep) h

  keep_chased-IsRecorded :
      (n : Notice) (name : Text) (c : Chased) (pack : Pack)
      → IsRecorded n pack.records
      → StepRecorded n (keep_chased digest name c pack)
  unfolding keep_chased
  keep_chased-IsRecorded n name (Chased.resolved source) pack h =
      keep-IsRecorded n name source pack source.kind refl h
  keep_chased-IsRecorded n name Chased.cyclic pack h = tt
  keep_chased-IsRecorded n name (Chased.broken target) pack h = tt
  keep_chased-IsRecorded n name Chased.out_of_fuel pack h = tt

  notice_step-IsRecorded :
      (n : Notice) (name : Text) (m : Member) (pack : Pack)
      → IsRecorded n pack.records
      → StepRecorded n (notice_step digest members name m pack)
  unfolding notice_step
  notice_step-IsRecorded n name m pack h = elim (Bool-cases (is_notice name m)) [
    | inr f ↦ rw f h
    | inl t ↦ rw t (elim (Bool-cases (is_unsafe (parts_of name))) [
      | inl bad ↦ rw bad tt
      | inr safe ↦
          rw safe (keep_chased-IsRecorded n name (chase (suc (length members)) members [] m) pack h)
    ])
  ]

  extract_from-IsRecorded :
      (n : Notice) (rest : Dict Member) (pack : Pack)
      → IsRecorded n pack.records
      → IsRecorded n (extract_from digest members rest pack).0.records
  unfolding extract_from
  extract_from-IsRecorded n [] pack h = h
  extract_from-IsRecorded n ((name, m) ∷ rest) pack h =
      let step = notice_step-IsRecorded n name m pack h in
      elim (Sum-cases (notice_step digest members name m pack)) [
        | inl (next, e) ↦ rw (e, extract_from) (extract_from-IsRecorded n rest next (rw e at step))
        | inr (fault, e) ↦ rw (e, extract_from) h
      ]

  keep_chased-records :
      (name : Text) (m source : Member) (content : List ℕ) (c : Chased) (pack : Pack)
      → Reaches members m source
      → source.kind ≡ Kind.regular content
      → Settled members m c
      → StepRecorded (notice_of digest name content) (keep_chased digest name c pack)
  unfolding keep_chased keep link_target
  keep_chased-records name m source content (Chased.resolved end) pack reached e settled =
      let last : link_target source ≡ none = rw e refl in
      let same = one_end members m end source settled.2 settled.1 reached last in
      rw (same, e, keep) (IsRecorded-append_last (notice_of digest name content) pack.records)
  keep_chased-records name m source content Chased.cyclic pack reached e settled = tt
  keep_chased-records name m source content (Chased.broken target) pack reached e settled = tt
  keep_chased-records name m source content Chased.out_of_fuel pack reached e settled = tt

  notice_step-records :
      (name : Text) (m : Member) (content : List ℕ) (pack : Pack)
      → IsMember m members
      → LeadsTo members name m content
      → StepRecorded (notice_of digest name content) (notice_step digest members name m pack)
  unfolding notice_step
  notice_step-records name m content pack known (t, source, reached, e) =
      rw t (elim (Bool-cases (is_unsafe (parts_of name))) [
        | inl bad ↦ rw bad tt
        | inr safe ↦ rw safe (
            keep_chased-records name m source content (chase (suc (length members)) members [] m)
              pack reached e (chase_settles members m known))
      ])

  extract_from_complete :
      (name : Text) (m : Member) (content : List ℕ) (rest : Dict Member) (pack : Pack)
      → IsMember m members
      → LeadsTo members name m content
      → IsEntry name m rest
      → (extract_from digest members rest pack).1 ≡ none
      → IsRecorded (notice_of digest name content) (extract_from digest members rest pack).0.records
  unfolding extract_from
  extract_from_complete name m content [] pack known leads held fine = absurd held
  extract_from_complete name m content ((other, l) ∷ rest) pack known leads held fine =
      elim (Sum-cases (notice_step digest members other l pack)) [
        | inr (fault, e) ↦ let bad = rw (e, extract_from) at fine in cc
        | inl (next, e) ↦
            rw (e, extract_from)
              (elim held [
                | inr later ↦
                    extract_from_complete name m content rest next known leads later
                      (rw (e, extract_from) at fine)
                | inl here ↦
                    let same : notice_step digest members name m pack ≡ inl next = cc (e, here) in
                    extract_from-IsRecorded (notice_of digest name content) rest next
                      (rw same at (notice_step-records name m content pack known leads))
              ])
      ]

-- When the extraction ends without a fault, no notice among the archive's names is left out. A name
-- stands for the last entry that has it, once "./" or slashes before its own are left out. Where it is
-- the name of a notice, and that entry is a regular file, or its links, one after another, lead to one,
-- the name is among the records with the digest and the length of that file's content.
pub every_notice-IsRecorded :
    (digest : List ℕ → Text) (archive : List Member) (name : Text) (m source : Member)
    (content : List ℕ)
    → (extract_notices digest archive).1 ≡ none
    → last_named archive name ≡ some m
    → is_notice name m ≡ true
    → LinksTo archive m source
    → source.kind ≡ Kind.regular content
    → IsRecorded (notice_of digest name content) (extract_notices digest archive).0.records
unfolding extract_notices
every_notice-IsRecorded digest archive name m source content fine last noticed links regular =
    let members = members_from archive [] in
    let held : lookup name members ≡ some m = within-last_named archive name ∙ last in
    extract_from_complete digest members name m content (sorted_members members)
      (record { files = []; records = [] }) (lookup-IsMember name m members held)
      (noticed, source, LinksTo-Reaches archive m source links, regular)
      (sorted_members-IsEntry name m members (lookup-IsEntry name m members held)) fine
