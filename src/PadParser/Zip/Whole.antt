-- ===== src/PadParser/Zip/Whole.antt =====
-- A PAD is parsed to the constants that its two files give.
use mendix_for_snowflake.PadParser.Zip.Splitting.{IsLine, unlines, splitlines-unlines}
use mendix_for_snowflake.Prelude.{
  ℕ, ◌+◌, ◌≤◌, ◌<◌, ◌≡◌, ◌⊎◌, inl, inr, In, ltb, none, Bool-cases, All-append, Option-cases, refl,
  ◌∙◌, ap, true, false, Option, some, List, [], ◌∷◌, ◌++◌, map, Text, Dict, merge, text_eq,
  text_eq_refl, ends_with, filter, length, All, arith,
}
use mendix_for_snowflake.PadParser.{
  Member, pad_zip_member_max_bytes, pad_zip_total_read_max_bytes, read_zip_member, build_constants,
}
use mendix_for_snowflake.PadParser.Lines.Printed.{
  default_line, variable_line, IsKey, IsVariable, printed_files_parse,
}
use mendix_for_snowflake.PadParser.Zip.{
  Zip, namelist, getinfo, shortest, read_text, read_first, read, defaults_suffix, variables_suffix,
  constants_of, parse_from_zip, parse_from_directory,
}

getinfo-append :
    (name : Text) (m : Member) (zip more : Zip)
    → getinfo name more ≡ some m
    → getinfo name (zip ++ more) ≡ some m
unfolding getinfo
getinfo-append name m [] more h = h
getinfo-append name m ((n, l) ∷ zip) more h = rw (getinfo-append name m zip more h, getinfo) refl

-- A name that does not stand before another among the candidates for a file: it is none, or it is that
-- name, or it is longer.
abbrev pub YieldsTo : Text → Text → Text → Type 0
YieldsTo suffix name n = (ends_with suffix n ≡ false) ⊎ ((n ≡ name) ⊎ (length name < length n))

-- The member that counts for a file: it is named as one, each other member that is has the same name or
-- a longer one, and no later member has its name.
abbrev pub CountsFor : Text → Zip → Text → Member → Type 0
CountsFor suffix zip name m =
    (before after : Zip) × (zip ≡ before ++ (name, m) ∷ after)
    × (ends_with suffix name ≡ true)
    × All (λ e. YieldsTo suffix name e.0) before
    × All (λ e. YieldsTo suffix name e.0) after
    × All (λ e. text_eq e.0 name ≡ false) after

getinfo-none :
    (name : Text) (zip : Zip) → All (λ e. text_eq e.0 name ≡ false) zip → getinfo name zip ≡ none
unfolding getinfo
getinfo-none name [] h = refl
getinfo-none name ((n, m) ∷ zip) (e, h) = rw (getinfo-none name zip h, getinfo) (rw e refl)

ltb_lt : (a b : ℕ) → ltb a b ≡ true → a < b
ltb_lt a b h = ground (arith, h)

ltb_ge : (a b : ℕ) → ltb a b ≡ false → b ≤ a
ltb_ge a b h = ground (arith, h)

abbrev IsCandidate : Text → Text → Type 0
IsCandidate name n = (n ≡ name) ⊎ (length name < length n)

shortest_found :
    (name best : Text) (names : List Text)
    → IsCandidate name best
    → All (IsCandidate name) names
    → (best ≡ name) ⊎ In name names
    → shortest best names ≡ name
unfolding shortest
shortest_found name best [] c cs (inl e) = e
shortest_found name best [] c cs (inr h) = absurd h
shortest_found name best (n ∷ names) c (d, cs) found =
    elim (Bool-cases (ltb (length n) (length best))) [
      | inl less ↦ rw less (
          shortest_found name n names d cs (elim found [
            | inl e ↦ elim d [
              | inl same ↦ inl same
              | inr longer ↦ absurd (
                  let l = ap length e in
                  omega (arith, ltb_lt (length n) (length best) less, longer, l))
            ]
            | inr (inl same) ↦ inl same
            | inr (inr later) ↦ inr later
          ]))
      | inr more ↦ rw more (
          shortest_found name best names c cs (elim found [
            | inl e ↦ inl e
            | inr (inl same) ↦ elim c [
              | inl e ↦ inl e
              | inr longer ↦ absurd (
                  let l = ap length same in
                  omega (arith, ltb_ge (length n) (length best) more, longer, l))
            ]
            | inr (inr later) ↦ inr later
          ]))
    ]

candidates :
    (suffix name : Text) (zip : Zip)
    → All (λ e. YieldsTo suffix name e.0) zip
    → All (IsCandidate name) (filter (ends_with suffix) (namelist zip))
unfolding filter
candidates suffix name [] h = tt
candidates suffix name ((n, m) ∷ zip) (y, h) = elim (Bool-cases (ends_with suffix n)) [
  | inr f ↦ rw f (candidates suffix name zip h)
  | inl t ↦ rw t (elim y [ inl bare ↦ cc (t, bare) | inr c ↦ (c, candidates suffix name zip h) ])
]

listed_candidate :
    (suffix name : Text) (m : Member) (before after : Zip)
    → ends_with suffix name ≡ true
    → In name (filter (ends_with suffix) (namelist (before ++ (name, m) ∷ after)))
unfolding filter
listed_candidate suffix name m [] after h = rw h (inl refl)
listed_candidate suffix name m ((n, l) ∷ before) after h =
    let rest = listed_candidate suffix name m before after h in
    elim (Bool-cases (ends_with suffix n)) [ inl t ↦ rw t (inr rest) | inr f ↦ rw f rest ]

abbrev pub IsSmall : Member → Type 0
IsSmall m = (m.file_size ≤ pad_zip_member_max_bytes) × (length m.content ≤ pad_zip_member_max_bytes)

read_small :
    (m : Member) (total : ℕ)
    → IsSmall m
    → total + length m.content ≤ pad_zip_total_read_max_bytes
    → read_zip_member m total ≡ some (m.content, total + length m.content)
unfolding read_zip_member
read_small m total (declared, size) cap = ground (arith, declared, size, cap)

-- What reading the file gives.
abbrev file_read : (List ℕ → Option Text) → Member → ℕ → Option (Option Text × ℕ)
file_read decode m total = elim (decode m.content) [
  | none ↦ none
  | some a ↦ some (some a, total + length m.content)
]

abbrev present : Option (Text × ℕ) → Option (Option Text × ℕ)
present none = none
present (some (a, total)) = some (some a, total)

read_first-text :
    (decode : List ℕ → Option Text) (n : Text) (names : List Text) (zip : Zip) (total : ℕ)
    → read_first decode (n ∷ names) zip total
      ≡ present (read_text decode (shortest n names) zip total)
unfolding read_first
read_first-text decode n names zip total =
    elim (Option-cases (read_text decode (shortest n names) zip total)) [
      | inl e ↦ rw (e, read_first) refl
      | inr (p, e) ↦ rw (e, read_first) refl
    ]

text_read :
    (decode : List ℕ → Option Text) (name : Text) (zip : Zip) (m : Member) (total : ℕ)
    → getinfo name zip ≡ some m
    → IsSmall m
    → total + length m.content ≤ pad_zip_total_read_max_bytes
    → present (read_text decode name zip total) ≡ file_read decode m total
unfolding read_text
text_read decode name zip m total info small cap =
    rw (info, read_text)
      (rw (read_small m total small cap, read_text)
        (elim (Option-cases (decode m.content)) [
          | inl e ↦ rw (e, read_text) (rw (e, file_read) refl)
          | inr (a, e) ↦ rw (e, read_text) (rw (e, file_read) refl)
        ]))

read_named :
    (decode : List ℕ → Option Text) (name : Text) (names : List Text) (zip : Zip) (m : Member)
    (total : ℕ)
    → In name names
    → All (IsCandidate name) names
    → getinfo name zip ≡ some m
    → IsSmall m
    → total + length m.content ≤ pad_zip_total_read_max_bytes
    → read_first decode names zip total ≡ file_read decode m total
read_named decode name [] zip m total listed cs info small cap = absurd listed
read_named decode name (n ∷ names) zip m total listed (c, cs) info small cap =
    read_first-text decode n names zip total
    ∙ ap (λ k. present (read_text decode k zip total)) (shortest_found name n names c cs listed)
    ∙ text_read decode name zip m total info small cap

read_file :
    (decode : List ℕ → Option Text) (suffix name : Text) (zip : Zip) (m : Member) (total : ℕ)
    → CountsFor suffix zip name m
    → IsSmall m
    → total + length m.content ≤ pad_zip_total_read_max_bytes
    → read decode suffix zip total ≡ file_read decode m total
unfolding read
read_file decode suffix name zip m total (before, after, e, named, ys, zs, last) small cap = rw e (
    read_named decode name _ _ m total (listed_candidate suffix name m before after named)
      (candidates suffix name _ (
        All-append (λ x. YieldsTo suffix name x.0) before ((name, m) ∷ after) ys
          (inr (inl refl), zs)))
      (getinfo-append name m before _
        (rw (getinfo-none name after last, getinfo) (rw text_eq_refl refl)))
      small cap)

-- The files of a PAD, one line for each constant and for each variable
abbrev pub defaults_file : Dict Text → Text
defaults_file d = unlines (map default_line d)

abbrev pub variables_file : Dict Text → Text
variables_file e = unlines (map variable_line e)

pub zip_as_directory :
    (decode : List ℕ → Option Text) (zip : Zip) (nd nv : Text) (md mv : Member)
    → CountsFor defaults_suffix zip nd md
    → CountsFor variables_suffix zip nv mv
    → IsSmall md
    → IsSmall mv
    → length md.content + length mv.content ≤ pad_zip_total_read_max_bytes
    → parse_from_zip decode zip ≡ parse_from_directory decode (some md.content) (some mv.content)
unfolding parse_from_zip parse_from_directory
zip_as_directory decode zip nd nv md mv cd cv ds vs cap =
    rw (read_file decode defaults_suffix nd zip md 0 cd ds (omega (arith, cap)), parse_from_zip)
      (elim (Option-cases (decode md.content)) [
        | inl e ↦ rw (e, file_read, parse_from_zip) (rw (e, parse_from_directory) refl)
        | inr (d, e) ↦
            rw (e, file_read, parse_from_zip)
              (rw
                (
                  read_file decode variables_suffix nv zip mv (0 + length md.content) cv vs
                      (omega (arith, cap)),
                  parse_from_zip,
                )
                (elim (Option-cases (decode mv.content)) [
                  | inl f ↦ rw (f, file_read, parse_from_zip) (rw (e, f, parse_from_directory) refl)
                  | inr (v, f) ↦
                      rw (f, file_read, parse_from_zip) (rw (e, f, parse_from_directory) refl)
                ]))
      ])

-- Such a PAD, whose files give each constant on a line of its own, is parsed to these constants:
-- names are not empty and have no double quote, variables are not empty and have no closing brace,
-- and nothing in either parts a line. Of two lines for one name the later counts. The names are then
-- checked, and paired with their variables, as `build_constants` does.
pub printed_zip_parses :
    (decode : List ℕ → Option Text) (zip : Zip) (nd nv : Text) (md mv : Member)
    (defaults env_vars : Dict Text)
    → CountsFor defaults_suffix zip nd md
    → CountsFor variables_suffix zip nv mv
    → IsSmall md
    → IsSmall mv
    → length md.content + length mv.content ≤ pad_zip_total_read_max_bytes
    → decode md.content ≡ some (defaults_file defaults)
    → decode mv.content ≡ some (variables_file env_vars)
    → All IsLine (map default_line defaults)
    → All IsLine (map variable_line env_vars)
    → All (λ e. IsKey e.0) defaults
    → All IsVariable env_vars
    → parse_from_zip decode zip ≡ build_constants (merge [] defaults) (merge [] env_vars)
unfolding parse_from_directory constants_of
printed_zip_parses decode zip nd nv md mv defaults env_vars cd cv ds vs cap dd dv dl vl dk vk =
    let (parsed, named) = printed_files_parse defaults env_vars dk vk in
    zip_as_directory decode zip nd nv md mv cd cv ds vs cap
    ∙ rw (dd, parse_from_directory)
        (rw (dv, parse_from_directory)
          (rw
            (
              splitlines-unlines (map default_line defaults) dl,
              splitlines-unlines (map variable_line env_vars) vl,
              parsed,
              named,
            )
            refl))
