-- ===== src/Examples/Evidence.antt =====
-- The notices of a small archive.
use mendix_for_snowflake.Prelude.{
  ℕ, ◌≡◌, refl, true, Option, none, some, List, [], ◌∷◌, Text, text, text_eq, text_le, mem, any,
  has_char, starts_with, split, split_from, filter, All, Dict, lookup, insert, rpartition?, last_of,
  join, inl, inr,
}
use mendix_for_snowflake.Compliance.Paths.{
  lstrip_slashes, without_dot_slash, is_segment, parts_of, name_of, dirname, join_path, norm_step,
  norm_segments, normal_member,
}
use mendix_for_snowflake.Compliance.Notices.{
  Kind, Member, Fault, members_from, notice_path, is_notice, chase, link_target, is_unsafe,
  sorted_members, notice_step, keep, keep_chased, extract_from, extract_notices,
}
use mendix_for_snowflake.Compliance.Notices.Chase.{Settled, chase_settles}
use mendix_for_snowflake.Compliance.Notices.Archive.{last_named, LinksTo}
use mendix_for_snowflake.Compliance.Notices.Inside.{StaysInside, notices_stay_inside}
use mendix_for_snowflake.Compliance.Notices.Complete.{
  IsRecorded, notice_of, every_notice-IsRecorded,
}

abbrev sum_of : List ℕ → Text
sum_of content = content

abbrev gpl : Member
gpl = record {
  name = text "usr/share/common-licenses/GPL";
  kind = Kind.symlink (text "../x/../common-licenses/GPL-3");
}

abbrev gpl_3 : Member
gpl_3 = record { name = text "usr/share/common-licenses/GPL-3"; kind = Kind.regular (1 ∷ 2 ∷ []) }

abbrev shell : Member
shell = record { name = text "./bin/sh"; kind = Kind.regular (9 ∷ []) }

abbrev archive : List Member
archive = gpl_3 ∷ shell ∷ gpl ∷ []

abbrev members : Dict Member
members = (gpl_3.name, gpl_3) ∷ (text "bin/sh", shell) ∷ (gpl.name, gpl) ∷ []

archive_keyed : members_from archive [] ≡ members
unfolding members_from insert text_eq lstrip_slashes without_dot_slash
archive_keyed = refl

gpl_linked : link_target gpl ≡ some gpl_3.name
unfolding link_target starts_with join_path dirname rpartition? lstrip_slashes normal_member split
    split_from norm_segments norm_step is_segment join
gpl_linked = refl

gpl_noticed : is_notice gpl.name gpl ≡ true
unfolding is_notice notice_path mem text_eq any starts_with
gpl_noticed = refl

abbrev fault_of : List Member → Option Fault
fault_of held = (extract_notices sum_of held).1

-- A link to itself, a path that leaves the destination, and a link that leads nowhere.
abbrev loop : Member
loop = record { name = text "licenses/a"; kind = Kind.symlink (text "./a") }

abbrev above : Member
above = record { name = text "licenses/../../a"; kind = Kind.regular [] }

abbrev dangling : Member
dangling = record { name = text "licenses/b"; kind = Kind.hardlink (text "etc/b") }

faults_told :
    (fault_of (loop ∷ []) ≡ some (Fault.cyclic_link (text "licenses/a")))
    × (fault_of (above ∷ []) ≡ some (Fault.unsafe_path (text "licenses/../../a")))
    × (fault_of (dangling ∷ []) ≡ some (Fault.broken_link (text "licenses/b") (text "etc/b")))
    × (fault_of archive ≡ none)
unfolding extract_notices extract_from notice_step is_notice notice_path any name_of last_of
    is_unsafe has_char parts_of filter keep_chased keep sorted_members text_le members_from insert
    without_dot_slash chase mem lookup link_target starts_with join_path dirname rpartition?
    lstrip_slashes normal_member split split_from norm_segments norm_step is_segment text_eq join
faults_told = (refl, refl, refl, refl)

-- An older entry of the link's name, which the later one hides.
abbrev updated : List Member
updated = record { name = text "./usr/share/common-licenses/GPL"; kind = Kind.folder } ∷ archive

updated_extracted : fault_of updated ≡ none
unfolding extract_notices extract_from notice_step is_notice notice_path any name_of last_of
    is_unsafe has_char parts_of filter keep_chased keep sorted_members text_le members_from insert
    without_dot_slash chase mem lookup link_target starts_with join_path dirname rpartition?
    lstrip_slashes normal_member split split_from norm_segments norm_step is_segment text_eq join
updated_extracted = refl

gpl_last : last_named updated gpl.name ≡ some gpl
unfolding text_eq lstrip_slashes without_dot_slash
gpl_last = refl

gpl-LinksTo : LinksTo updated gpl gpl_3
unfolding text_eq lstrip_slashes without_dot_slash
gpl-LinksTo = (1, rw gpl_linked refl)

every_notice-IsRecorded_example :
    IsRecorded (notice_of sum_of gpl.name (1 ∷ 2 ∷ [])) (extract_notices sum_of updated).0.records
every_notice-IsRecorded_example =
    every_notice-IsRecorded sum_of updated gpl.name gpl gpl_3 (1 ∷ 2 ∷ []) updated_extracted
      gpl_last gpl_noticed gpl-LinksTo refl

notices_stay_inside_example :
    All
      (StaysInside (members_from archive []) (text "out" ∷ text "notices" ∷ []))
      (extract_notices sum_of archive).0.files
notices_stay_inside_example = notices_stay_inside sum_of archive (text "out" ∷ text "notices" ∷ [])

chase_settles_example : Settled members gpl (chase 4 members [] gpl)
chase_settles_example = chase_settles members gpl (inr (inr (inl refl)))
