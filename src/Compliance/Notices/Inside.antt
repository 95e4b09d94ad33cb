-- ===== src/Compliance/Notices/Inside.antt =====
-- Where the notices are written, and what is written there.
use mathlib.Core.List.{reverse-cons, append_assoc, append-nil}
use mendix_for_snowflake.Prelude.{
  ℕ, suc, ◌≡◌, ◌≢◌, refl, ◌∙◌, Bool, true, false, List, [], ◌∷◌, ◌++◌, reverse, Text, text, text_eq,
  text_le, mem, any, has_char, split, split_from, filter, Dict, length, ◌==◌, arith, Bool-cases,
  inl, inr, ◌⊎◌, All, Lacks, All-append,
}
use mendix_for_snowflake.Compliance.Paths.{parts_of, is_segment, norm_step, norm_segments}
use mendix_for_snowflake.Compliance.Notices.{
  Kind, Member, chase, Chased, Pack, Fault, is_unsafe, keep, keep_chased, is_notice, notice_step,
  extract_from, extract_notices, sorted_members, insert_member, members_from,
}
use mendix_for_snowflake.Compliance.Notices.Chase.{IsMember, Settled, chase_settles}

-- A part of a path that names a file or a folder below the one before, on any platform.
abbrev pub IsPlainPart : Text → Type 0
IsPlainPart p =
    (is_segment p ≡ true)
    × (text_eq p (text "..") ≡ false)
    × (has_char 58 p ≡ false)
    × (has_char 92 p ≡ false)
    × Lacks 47 p

pub Sum-cases {ℓ κ} :
    {A : Type ℓ} {B : Type κ} (s : A ⊎ B) → ((a : A) × (s ≡ inl a)) ⊎ ((b : B) × (s ≡ inr b))
Sum-cases (inl a) = inl (a, refl)
Sum-cases (inr b) = inr (b, refl)

norm_plain :
    (rooted : Bool) (before parts : List Text)
    → All IsPlainPart parts
    → norm_segments rooted before parts ≡ reverse before ++ parts
unfolding norm_segments norm_step
norm_plain rooted before [] h = rw (append-nil (reverse before)) refl
norm_plain rooted before (p ∷ parts) ((segment, up, _, _, _), h) =
    rw (segment, up)
      (norm_plain rooted (p ∷ before) parts h
        ∙ rw (reverse-cons p before) (append_assoc (reverse before) (p ∷ []) parts))

-- No part of a plain path takes anything back from the folder that it is joined to.
norm_plain_below :
    (rooted : Bool) (before folder parts : List Text)
    → All IsPlainPart parts
    → norm_segments rooted before (folder ++ parts) ≡ norm_segments rooted before folder ++ parts
unfolding norm_segments
norm_plain_below rooted before [] parts h = norm_plain rooted before parts h
norm_plain_below rooted before (a ∷ folder) parts h =
    norm_plain_below rooted (norm_step rooted before a) folder parts h

Lacks-reverse : (c : ℕ) (a : Text) → Lacks c a → Lacks c (reverse a)
Lacks-reverse c [] h = tt
Lacks-reverse c (x ∷ a) (d, h) =
    rw (reverse-cons x a)
      (All-append (λ y. y ≢ c) (reverse a) (x ∷ []) (Lacks-reverse c a h) (d, tt))

split_from-pieces : (c : ℕ) (piece a : Text) → Lacks c piece → All (Lacks c) (split_from c piece a)
unfolding split_from
split_from-pieces c piece [] h = (Lacks-reverse c piece h, tt)
split_from-pieces c piece (x ∷ a) h = elim (Bool-cases (x == c)) [
  | inl e ↦ rw (e, split_from) (Lacks-reverse c piece h, split_from-pieces c [] a tt)
  | inr e ↦ rw (e, split_from) (split_from-pieces c (x ∷ piece) a (ground arith, h))
]

safe_cons :
    (p : Text) (parts : List Text)
    → is_unsafe (p ∷ parts) ≡ false
    → (text_eq p (text "..") ≡ false)
      × (has_char 58 p ≡ false)
      × (has_char 92 p ≡ false)
      × (is_unsafe parts ≡ false)
unfolding is_unsafe mem any
safe_cons p parts h = (ground arith, ground arith, ground arith, ground arith)

filter_plain :
    (pieces : List Text)
    → All (Lacks 47) pieces
    → is_unsafe (filter is_segment pieces) ≡ false
    → All IsPlainPart (filter is_segment pieces)
unfolding filter
filter_plain [] h safe = tt
filter_plain (p ∷ pieces) (here, h) safe = elim (Bool-cases (is_segment p)) [
  | inl t ↦ rw t (
      let (up, colon, backslash, safe_rest) =
        safe_cons p (filter is_segment pieces) (rw t at safe) in
      ((t, up, colon, backslash, here), filter_plain pieces h safe_rest))
  | inr f ↦ rw f (filter_plain pieces h (rw f at safe))
]

parts_of-plain : (name : Text) → is_unsafe (parts_of name) ≡ false → All IsPlainPart (parts_of name)
unfolding parts_of split
parts_of-plain name safe = filter_plain (split 47 name) (split_from-pieces 47 [] name tt) safe

-- The content is that of a regular file of the archive.
abbrev pub IsContent : Dict Member → List ℕ → Type 0
IsContent members content =
    (source : Member) × IsMember source members × (source.kind ≡ Kind.regular content)

abbrev pub IsInside : Dict Member → List Text × List ℕ → Type 0
IsInside members (parts, content) = All IsPlainPart parts × IsContent members content

-- The members that the loop goes through are of the archive.
abbrev pub AreMembers : Dict Member → Dict Member → Type 0
AreMembers members rest = All (λ e. IsMember e.1 members) rest

module _ (digest : List ℕ → Text) (members : Dict Member) where
  abbrev AllInside : Pack → Type 0
  AllInside pack = All (IsInside members) pack.files

  keep_kind-AllInside :
      (name : Text) (source : Member) (pack : Pack) (kind : Kind)
      → source.kind ≡ kind
      → All IsPlainPart (parts_of name)
      → IsMember source members
      → AllInside pack
      → AllInside (keep digest name source pack)
  unfolding keep
  keep_kind-AllInside name source pack (Kind.regular content) e plain known h =
      rw (e, keep) ((plain, (source, known, e)), h)
  keep_kind-AllInside name source pack Kind.folder e plain known h = rw (e, keep) h
  keep_kind-AllInside name source pack (Kind.symlink t) e plain known h = rw (e, keep) h
  keep_kind-AllInside name source pack (Kind.hardlink t) e plain known h = rw (e, keep) h
  keep_kind-AllInside name source pack Kind.device e plain known h = rw (e, keep) h

  -- The step leaves what is inside.
  abbrev StepInside : Pack ⊎ Fault → Type 0
  StepInside (inl next) = AllInside next
  StepInside (inr fault) = Unit

  keep_chased-AllInside :
      (name : Text) (m : Member) (c : Chased) (pack : Pack)
      → All IsPlainPart (parts_of name)
      → Settled members m c
      → AllInside pack
      → StepInside (keep_chased digest name c pack)
  unfolding keep_chased
  keep_chased-AllInside name m (Chased.resolved source) pack plain (known, _, _) h =
      keep_kind-AllInside name source pack source.kind refl plain known h
  keep_chased-AllInside name m Chased.cyclic pack plain settled h = tt
  keep_chased-AllInside name m (Chased.broken target) pack plain settled h = tt
  keep_chased-AllInside name m Chased.out_of_fuel pack plain settled h = tt

  notice_step-AllInside :
      (name : Text) (m : Member) (pack : Pack)
      → IsMember m members
      → AllInside pack
      → StepInside (notice_step digest members name m pack)
  unfolding notice_step
  notice_step-AllInside name m pack known h = elim (Bool-cases (is_notice name m)) [
    | inr f ↦ rw f h
    | inl t ↦ rw t (elim (Bool-cases (is_unsafe (parts_of name))) [
      | inl bad ↦ rw bad tt
      | inr safe ↦ rw safe (
          keep_chased-AllInside name m (chase (suc (length members)) members [] m) pack
            (parts_of-plain name safe) (chase_settles members m known) h)
    ])
  ]

  extract_from-AllInside :
      (rest : Dict Member) (pack : Pack)
      → AreMembers members rest
      → AllInside pack
      → AllInside (extract_from digest members rest pack).0
  unfolding extract_from
  extract_from-AllInside [] pack known h = h
  extract_from-AllInside ((name, m) ∷ rest) pack (here, known) h =
      let step = notice_step-AllInside name m pack here h in
      elim (Sum-cases (notice_step digest members name m pack)) [
        | inl (next, e) ↦
            rw (e, extract_from) (extract_from-AllInside rest next known (rw e at step))
        | inr (fault, e) ↦ rw (e, extract_from) h
      ]

module _ {ℓ} (P : Text × Member → Type ℓ) where
  All-insert_member :
      (e : Text × Member) (d : Dict Member) → P e → All P d → All P (insert_member e d)
  unfolding insert_member
  All-insert_member e [] here h = (here, tt)
  All-insert_member e (f ∷ d) here (first, h) = elim (Bool-cases (text_le e.0 f.0)) [
    | inl t ↦ rw t (here, (first, h))
    | inr t ↦ rw t (first, All-insert_member e d here h)
  ]

  pub All-sorted_members : (d : Dict Member) → All P d → All P (sorted_members d)
  unfolding sorted_members
  All-sorted_members [] h = tt
  All-sorted_members (e ∷ d) (here, h) =
      All-insert_member e (sorted_members d) here (All-sorted_members d h)

pub AreMembers-self :
    (members d : Dict Member)
    → ((m : Member) → IsMember m d → IsMember m members)
    → AreMembers members d
AreMembers-self members [] h = tt
AreMembers-self members (e ∷ d) h =
    (h e.1 (inl refl), AreMembers-self members d (λ m known. h m (inr known)))

pub sorted-AreMembers : (members : Dict Member) → AreMembers members (sorted_members members)
sorted-AreMembers members =
    All-sorted_members (λ e. IsMember e.1 members) members
      (AreMembers-self members members (λ m known. known))

-- The file, joined to the folder, is below it, whatever the folder; and it has the content of a
-- regular file of the archive.
abbrev pub StaysInside : Dict Member → List Text → List Text × List ℕ → Type 0
StaysInside members destination (parts, content) =
    (norm_segments true [] (destination ++ parts) ≡ norm_segments true [] destination ++ parts)
    × All IsPlainPart parts
    × IsContent members content

inside_stays :
    (members : Dict Member) (destination : List Text) (files : List (List Text × List ℕ))
    → All (IsInside members) files
    → All (StaysInside members destination) files
inside_stays members destination [] h = tt
inside_stays members destination ((parts, content) ∷ files) ((plain, known), h) = (
  (norm_plain_below true [] destination parts plain, plain, known),
  inside_stays members destination files h,
)

-- Whatever the archive holds, every file that the extraction of its notices writes, before a fault or
-- without one, stands below the destination: no part of its path is "..", ".", empty or has a
-- slash, a backslash or a colon, so that the normalised path is that of the destination followed
-- by the file's own parts. What is written is the content of a regular file of the archive, also
-- where the notice is a link.
pub notices_stay_inside :
    (digest : List ℕ → Text) (archive : List Member) (destination : List Text)
    → All
        (StaysInside (members_from archive []) destination)
        (extract_notices digest archive).0.files
unfolding extract_notices
notices_stay_inside digest archive destination =
    let members = members_from archive [] in
    inside_stays members destination (extract_notices digest archive).0.files (
      extract_from-AllInside digest members (sorted_members members)
        (record { files = []; records = [] }) (sorted-AreMembers members) tt)
