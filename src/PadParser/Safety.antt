-- ===== src/PadParser/Safety.antt =====
-- What the parser of a PAD lets through.
use mendix_for_snowflake.Prelude.{
  ℕ, ◌+◌, ◌≤◌, ◌≡◌, refl, subst, true, false, Option, none, some, List, [], ◌∷◌, map, Text, Dict,
  lookup, contains, length, strip, filter, mem, All, arith, Option-cases, Bool-cases, inl, inr,
}
use mendix_for_snowflake.SpecBuilder.{PadConstant}
use mendix_for_snowflake.PadParser.{
  Member, pad_zip_member_max_bytes, pad_zip_total_read_max_bytes, read_zip_member, read_members,
  is_constant_name, derived_secret_name, build_constants, valid_user_role_name, collect_user_roles,
}

abbrev pub total_length : List (List ℕ) → ℕ
total_length [] = 0
total_length (x ∷ xs) = length x + total_length xs

-- The bytes that are read are within both caps.
abbrev pub IsCapped : ℕ → List (List ℕ) × ℕ → Type 0
IsCapped start (pieces, total) =
    (start + total_length pieces ≡ total)
    × (total ≤ pad_zip_total_read_max_bytes)
    × All (λ p. length p ≤ pad_zip_member_max_bytes) pieces

read_zip_member_capped :
    (m : Member) (start : ℕ) (p : List ℕ × ℕ)
    → read_zip_member m start ≡ some p
    → (start + length p.0 ≡ p.1)
      × (p.1 ≤ pad_zip_total_read_max_bytes)
      × (length p.0 ≤ pad_zip_member_max_bytes)
unfolding read_zip_member
read_zip_member_capped m start p h = ground (arith, h)

read_members-IsCapped :
    (ms : List Member) (start : ℕ) (p : List (List ℕ) × ℕ)
    → start ≤ pad_zip_total_read_max_bytes
    → read_members ms start ≡ some p
    → IsCapped start p
unfolding read_members
read_members-IsCapped [] start p le h = ground (arith, h)
read_members-IsCapped (m ∷ ms) start p le h = elim (Option-cases (read_zip_member m start)) [
  | inl e ↦ let bad = rw (e, read_members) at h in cc
  | inr (q, e) ↦
      let (sum, cap, one) = read_zip_member_capped m start q e in
      elim (Option-cases (read_members ms q.1)) [
        | inl f ↦ let bad = rw (e, f, read_members) at h in cc
        | inr (r, f) ↦
            let (sums, caps, all_of) = read_members-IsCapped ms q.1 r cap f in
            let same : some (q.0 ∷ r.0, r.1) ≡ some p = rw (e, f, read_members) at h in
            subst (λ o. elim o [ none ↦ Unit | some x ↦ IsCapped start x ]) same
              (omega (arith, sum, sums), caps, (one, all_of))
      ]
]

-- Whatever sizes the members declare, what is read of a PAD is within the cap of a member and the cap
-- of the whole.
pub read_members_bounded :
    (ms : List Member) (pieces : List (List ℕ)) (total : ℕ)
    → read_members ms 0 ≡ some (pieces, total)
    → (total_length pieces ≤ pad_zip_total_read_max_bytes)
      × All (λ p. length p ≤ pad_zip_member_max_bytes) pieces
read_members_bounded ms pieces total h =
    let (sum, cap, each) = read_members-IsCapped ms 0 (pieces, total) (omega arith) h in
    (omega (arith, sum, cap), each)

-- A constant that both files name, with its derived secret.
abbrev pub IsDerived : Dict Text → PadConstant → Type 0
IsDerived env_vars c =
    (lookup c.name env_vars ≡ some c.env_var)
    × (is_constant_name c.name ≡ true)
    × (c.secret_name ≡ derived_secret_name c.name)

abbrev pub named_defaults : List PadConstant → Dict Text
named_defaults cs = map (λ c. (c.name, c.default)) cs

abbrev pub AreDerived : Dict Text → Dict Text → List PadConstant → Type 0
AreDerived defaults env_vars cs =
    (named_defaults cs ≡ filter (λ e. contains e.0 env_vars) defaults) × All (IsDerived env_vars) cs

-- A parsed PAD has exactly the constants that both files name, in the order of the defaults and with
-- their values; each has an identifier for its name, and its secret is derived from that.
pub build_constants_exact :
    (defaults env_vars : Dict Text) (cs : List PadConstant)
    → build_constants defaults env_vars ≡ some cs
    → AreDerived defaults env_vars cs
unfolding build_constants filter
build_constants_exact [] env_vars cs h =
    subst (λ o. elim o [ none ↦ Unit | some x ↦ AreDerived [] env_vars x ]) h (refl, tt)
build_constants_exact ((name, default) ∷ defaults) env_vars cs h =
    elim (Option-cases (lookup name env_vars)) [
      | inl e ↦ rw e (build_constants_exact defaults env_vars cs (rw (e, build_constants) at h))
      | inr (v, e) ↦ elim (Bool-cases (is_constant_name name)) [
        | inr bad ↦ let no = rw (e, bad, build_constants) at h in cc
        | inl good ↦ elim (Option-cases (build_constants defaults env_vars)) [
          | inl f ↦ let no = rw (e, good, f, build_constants) at h in cc
          | inr (ds, f) ↦
              let (rest, each) = build_constants_exact defaults env_vars ds f in
              let c : PadConstant = record {
                name = name;
                env_var = v;
                default = default;
                secret_name = derived_secret_name name;
              } in
              let same : some (c ∷ ds) ≡ some cs = rw (e, good, f, build_constants) at h in
              subst
                (λ o. elim o [
                  | none ↦ Unit
                  | some x ↦ AreDerived ((name, default) ∷ defaults) env_vars x
                ])
                same (rw e (cc rest), ((e, good, refl), each))
        ]
      ]
    ]

-- No role is in the list before it, or among those seen.
abbrev pub AreDistinct : List Text → List Text → Type 0
AreDistinct seen [] = Unit
AreDistinct seen (x ∷ xs) = (mem x seen ≡ false) × AreDistinct (x ∷ seen) xs

-- The user roles that are read from a PAD are pairwise different, and each is a non-empty name of at
-- most 200 characters, without control characters and quotes.
pub collect_user_roles_valid :
    (values : List (Option Text)) (seen : List Text)
    → AreDistinct seen (collect_user_roles values seen)
      × All (λ n. valid_user_role_name n ≡ true) (collect_user_roles values seen)
unfolding collect_user_roles
collect_user_roles_valid [] seen = (tt, tt)
collect_user_roles_valid (none ∷ values) seen = collect_user_roles_valid values seen
collect_user_roles_valid (some raw ∷ values) seen =
    elim (Bool-cases (valid_user_role_name (strip raw))) [
      | inr bad ↦ rw bad (collect_user_roles_valid values seen)
      | inl good ↦ elim (Bool-cases (mem (strip raw) seen)) [
        | inl dup ↦ rw (good, dup) (collect_user_roles_valid values seen)
        | inr new ↦
            let (apart, valid) = collect_user_roles_valid values (strip raw ∷ seen) in
            rw (good, new) ((new, apart), (good, valid))
      ]
    ]
