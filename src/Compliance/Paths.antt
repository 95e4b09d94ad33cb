-- ===== src/Compliance/Paths.antt =====
-- The functions of Python's `posixpath` and `PurePosixPath` that compliance/build_evidence.py uses.
use mendix_for_snowflake.Prelude.{
  Bool, true, false, not, ◌&&◌, none, some, List, [], ◌∷◌, ◌++◌, reverse, Text, text, text_eq,
  truthy, split, starts_with, filter, join, last_of, rpartition?, ◌==◌, if◌then◌else◌,
}

-- `a.lstrip("/")`
unfoldable pub lstrip_slashes : Text → Text
lstrip_slashes [] = []
lstrip_slashes (c ∷ a) = let rest = lstrip_slashes a in if c == 47 then rest else c ∷ a

-- `a.removeprefix("./")`
unfoldable pub without_dot_slash : Text → Text
without_dot_slash (c ∷ d ∷ a) = if (c == 46) && (d == 47) then a else c ∷ d ∷ a
without_dot_slash a = a

-- The segment counts in a path: it is neither empty nor ".".
unfoldable pub is_segment : Text → Bool
unfolding text_eq
is_segment a = truthy a && not (text_eq a (text "."))

-- `PurePosixPath(name).parts`, of a relative path
unfoldable pub parts_of : Text → List Text
unfolding split filter is_segment
parts_of name = filter is_segment (split 47 name)

-- `PurePosixPath(name).name`, of a relative path
unfoldable pub name_of : Text → Text
unfolding parts_of last_of
name_of name = last_of [] (parts_of name)

-- `posixpath.dirname(name)`
unfoldable pub dirname : Text → Text
unfolding lstrip_slashes rpartition?
dirname name = elim (rpartition? 47 name) [
  | none ↦ []
  | some (before, _) ↦
      let head = reverse (lstrip_slashes (reverse before)) in
      if truthy head then head else before ++ text "/"
]

-- `posixpath.join(folder, target)`
unfoldable pub join_path : Text → Text → Text
unfolding starts_with
join_path folder target = if starts_with (text "/") target then target else elim (reverse folder) [
  | [] ↦ target
  | last ∷ _ ↦ if last == 47 then folder ++ target else folder ++ (text "/" ++ target)
]

-- One segment of `posixpath.normpath`, over the segments before, the last one first.
unfoldable pub norm_step : Bool → List Text → Text → List Text
unfolding is_segment text_eq
norm_step rooted before a =
    if not (is_segment a)
    then before
    else if not (text_eq a (text ".."))
    then a ∷ before
    else elim before [
      | [] ↦ if rooted then [] else a ∷ []
      | last ∷ earlier ↦ if text_eq last (text "..") then a ∷ last ∷ earlier else earlier
    ]

unfoldable pub norm_segments : Bool → List Text → List Text → List Text
unfolding norm_step
norm_segments rooted before [] = reverse before
norm_segments rooted before (a ∷ rest) = norm_segments rooted (norm_step rooted before a) rest

-- `posixpath.normpath(name).lstrip("/")`
unfoldable pub normal_member : Text → Text
unfolding norm_segments split starts_with join
normal_member name = elim (starts_with (text "/") name) [
  | true ↦ join (text "/") (norm_segments true [] (split 47 name))
  | false ↦ elim (norm_segments false [] (split 47 name)) [
    | [] ↦ text "."
    | a ∷ rest ↦ join (text "/") (a ∷ rest)
  ]
]
