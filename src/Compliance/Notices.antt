-- ===== src/Compliance/Notices.antt =====
-- `notice_path` and `extract_notices` of compliance/build_evidence.py: the notices of an image's
-- file system are copied out of its archive. The digest of a content is a parameter.
pub mod Chase
pub mod Archive
pub mod Inside
pub mod Complete
use mendix_for_snowflake.Prelude.{
  ℕ, zero, suc, ◌+◌, Bool, true, false, not, ◌&&◌, ◌||◌, Option, none, some, List, [], ◌∷◌, ◌++◌,
  map, Text, text, text_eq, text_le, starts_with, mem, any, has_char, Dict, lookup, insert, length,
  ◌==◌, leb, inl, inr, ◌⊎◌, if◌then◌else◌,
}
use mendix_for_snowflake.Compliance.Paths.{
  lstrip_slashes, without_dot_slash, parts_of, name_of, dirname, join_path, normal_member,
}

-- The types of a member that the code tells apart. A content is given by its bytes.
pub data Kind : Type 0 where
  regular : List ℕ → Kind
  folder : Kind
  symlink : Text → Kind
  hardlink : Text → Kind
  device : Kind

pub record Member : Type 0 where
  pub name : Text
  pub kind : Kind

abbrev pub is_folder : Kind → Bool
is_folder folder = true
is_folder _ = false

-- A character as `re.I` compares it with the letters of the pattern.
fold_case : ℕ → ℕ
fold_case c =
    if (c == 304) || (c == 305)
    then b'i'
    else if c == 383
    then b's'
    else if (leb 65 c) && (leb c 90)
    then c + 32
    else c

-- `word in a`
occurs : Text → Text → Bool
unfolding starts_with
occurs word [] = starts_with word []
occurs word (c ∷ a) = starts_with word (c ∷ a) || occurs word a

unfoldable pub notice_path : Text → Bool
unfolding mem any occurs name_of starts_with fold_case
notice_path name =
    mem name
      (text "opt/java/openjdk/release" ∷ text "etc/os-release" ∷ text "usr/lib/os-release" ∷ [])
    || any (λ prefix. starts_with prefix name)
        (text "licenses/" ∷ text "usr/share/common-licenses/" ∷ text "opt/java/openjdk/legal/" ∷ [])
    || any (λ word. occurs word (map fold_case (name_of name)))
        (text "license" ∷ text "licence" ∷ text "notice" ∷ text "copying" ∷ text "copyright" ∷ [])

-- `members`, with those of the archive before
unfoldable pub members_from : List Member → Dict Member → Dict Member
unfolding insert lstrip_slashes without_dot_slash
members_from [] members = members
members_from (m ∷ ms) members =
    members_from ms (insert (lstrip_slashes (without_dot_slash m.name)) m members)

insert_member : Text × Member → Dict Member → Dict Member
unfolding text_le
insert_member e [] = e ∷ []
insert_member e (f ∷ d) = if text_le e.0 f.0 then e ∷ f ∷ d else f ∷ insert_member e d

-- `sorted(members.items())`
unfoldable pub sorted_members : Dict Member → Dict Member
unfolding insert_member
sorted_members [] = []
sorted_members (e ∷ d) = insert_member e (sorted_members d)

unfoldable pub is_unsafe : List Text → Bool
unfolding mem any has_char
is_unsafe parts = mem (text "..") parts || any (λ p. has_char 58 p || has_char 92 p) parts

-- The member that a link names; none, where the member is no link.
unfoldable pub link_target : Member → Option Text
unfolding starts_with join_path dirname normal_member
link_target m = elim m.kind [
  | symlink target ↦ some (
      normal_member
        (if starts_with (text "/") target then target else join_path (dirname m.name) target))
  | hardlink target ↦ some (normal_member target)
  | _ ↦ none
]

pub data Chased : Type 0 where
  resolved : Member → Chased
  cyclic : Chased
  broken : Text → Chased
  out_of_fuel : Chased

-- `while source.issym() or source.islnk()`
unfoldable pub chase : ℕ → Dict Member → List Text → Member → Chased
unfolding link_target mem lookup
chase zero members visited source = Chased.out_of_fuel
chase (suc fuel) members visited source = elim (link_target source) [
  | none ↦ Chased.resolved source
  | some target ↦ elim (mem source.name visited) [
    | true ↦ Chased.cyclic
    | false ↦ elim (lookup target members) [
      | none ↦ Chased.broken target
      | some next ↦ chase fuel members (source.name ∷ visited) next
    ]
  ]
]

pub data Fault : Type 0 where
  unsafe_path : Text → Fault
  cyclic_link : Text → Fault
  broken_link : Text → Text → Fault
  not_ended : Text → Fault

pub record Notice : Type 0 where
  pub path : Text
  pub sha256 : Text
  pub bytes : ℕ

-- What the extraction leaves: the files written, the last first, and the records.
pub record Pack : Type 0 where
  pub files : List (List Text × List ℕ)
  pub records : List Notice

-- The member is a notice, and no folder.
unfoldable pub is_notice : Text → Member → Bool
unfolding notice_path
is_notice name m = notice_path name && not (is_folder m.kind)

-- One member in the loop of `extract_notices`
module _ (digest : List ℕ → Text) where
  -- `target.write_bytes(data)` and the record of it, where the source is a regular file
  unfoldable pub keep : Text → Member → Pack → Pack
  unfolding parts_of
  keep name source pack = elim source.kind [
    | regular content ↦ record {
      files = (parts_of name, content) ∷ pack.files;
      records =
          pack.records
          ++ record { path = name; sha256 = digest content; bytes = length content } ∷ [];
    }
    | _ ↦ pack
  ]

  unfoldable pub keep_chased : Text → Chased → Pack → Pack ⊎ Fault
  unfolding keep
  keep_chased name (Chased.resolved source) pack = inl (keep name source pack)
  keep_chased name Chased.cyclic pack = inr (Fault.cyclic_link name)
  keep_chased name (Chased.broken target) pack = inr (Fault.broken_link name target)
  keep_chased name Chased.out_of_fuel pack = inr (Fault.not_ended name)

  unfoldable pub notice_step : Dict Member → Text → Member → Pack → Pack ⊎ Fault
  unfolding is_notice is_unsafe parts_of chase keep_chased
  notice_step members name m pack =
      if not (is_notice name m)
      then inl pack
      else if is_unsafe (parts_of name)
      then inr (Fault.unsafe_path name)
      else keep_chased name (chase (suc (length members)) members [] m) pack

  unfoldable pub extract_from : Dict Member → Dict Member → Pack → Pack × Option Fault
  unfolding notice_step
  extract_from members [] pack = (pack, none)
  extract_from members ((name, m) ∷ rest) pack = elim (notice_step members name m pack) [
    | inl next ↦ extract_from members rest next
    | inr fault ↦ (pack, some fault)
  ]

  unfoldable pub extract_notices : List Member → Pack × Option Fault
  unfolding extract_from sorted_members members_from
  extract_notices archive =
      let members = members_from archive [] in
      extract_from members (sorted_members members) (record { files = []; records = [] })
