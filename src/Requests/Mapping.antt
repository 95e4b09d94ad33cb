-- ===== src/Requests/Mapping.antt =====
-- What a checked role mapping is like.
use mendix_for_snowflake.Prelude.{
  suc, ◌+◌, ◌≤◌, ◌≡◌, refl, subst, ap, true, false, ◌&&◌, none, some, [], ◌∷◌, Text, Dict, contains,
  lookup, insert, upper, upper_idem, strip, length, leb, text_eq, All, arith, Bool-cases,
  Option-cases, inl, inr,
}
use mendix_for_snowflake.Requests.{
  role_mapping_max_entries, is_mapping_key, is_mapping_value, add_entries, check_role_mapping,
}

-- A Snowflake role in upper case, and a user role that the handler's XPath can hold.
abbrev pub IsEntry : Text × Text → Type 0
IsEntry e = (upper e.0 ≡ e.0) × (is_mapping_value e.1 ≡ true)

All-insert :
    (k v : Text) (d : Dict Text) → IsEntry (k, v) → All IsEntry d → All IsEntry (insert k v d)
unfolding insert
All-insert k v [] h hs = (h, tt)
All-insert k v ((j, w) ∷ d) h (a, hs) = elim (Bool-cases (text_eq j k)) [
  | inl e ↦ rw e ((a.0, h.1), hs)
  | inr e ↦ rw e (a, All-insert k v d h hs)
]

length-insert :
    (k v : Text) (d : Dict Text) → lookup k d ≡ none → length (insert k v d) ≡ suc (length d)
unfolding insert lookup
length-insert k v [] h = refl
length-insert k v ((j, w) ∷ d) h = elim (Bool-cases (text_eq j k)) [
  | inl e ↦ let bad = rw (e, lookup) at h in cc
  | inr e ↦ rw e (ap suc (length-insert k v d (rw (e, lookup) at h)))
]

absent : (k : Text) (d : Dict Text) → contains k d ≡ false → lookup k d ≡ none
absent k d h = elim (Option-cases (lookup k d)) [
  | inl e ↦ e
  | inr (v, e) ↦ let bad = rw e at h in cc
]

-- The entries that were added to those that were there.
abbrev pub Adds : Dict Text → Dict Text → Dict Text → Type 0
Adds mapping result final = All IsEntry final × (length final ≡ length result + length mapping)

add_entries-Adds :
    (mapping result final : Dict Text)
    → All IsEntry result
    → add_entries mapping result ≡ some final
    → Adds mapping result final
unfolding add_entries
add_entries-Adds [] result final h e =
    let same : result ≡ final = cc in subst (λ d. Adds [] result d) same (h, omega arith)
add_entries-Adds ((raw_key, raw_val) ∷ mapping) result final h e =
    let key = upper (strip raw_key) in
    elim (Bool-cases (is_mapping_key (strip raw_key) && is_mapping_value (strip raw_val))) [
      | inr bad ↦ let no = rw (bad, add_entries) at e in cc
      | inl good ↦ elim (Bool-cases (contains key result)) [
        | inl dup ↦ let no = rw (good, dup, add_entries) at e in cc
        | inr new ↦
            let value : is_mapping_value (strip raw_val) ≡ true = ground (arith, good) in
            let (each, count) =
              add_entries-Adds mapping (insert key (strip raw_val) result) final
                (All-insert key (strip raw_val) result (upper_idem (strip raw_key), value) h)
                (rw (good, new, add_entries) at e) in
            (
              each,
              omega
                  (arith, count, length-insert key (strip raw_val) result (absent key result new)),
            )
      ]
    ]

-- A role mapping that passes has as many entries as were given, from 1 to 50; its keys are in upper
-- case, and its values are non-empty, of at most 200 characters, without control characters and
-- quotes.
pub check_role_mapping-IsEntry :
    (mapping final : Dict Text)
    → check_role_mapping mapping ≡ some final
    → All IsEntry final
      × (length final ≡ length mapping)
      × (1 ≤ length final)
      × (length final ≤ role_mapping_max_entries)
unfolding check_role_mapping
check_role_mapping-IsEntry [] final h = cc
check_role_mapping-IsEntry (e ∷ mapping) final h =
    elim (Bool-cases (leb (length (e ∷ mapping)) role_mapping_max_entries)) [
      | inr many ↦ let no = rw (many, check_role_mapping) at h in cc
      | inl few ↦
          let (each, count) =
            add_entries-Adds (e ∷ mapping) [] final tt (rw (few, check_role_mapping) at h) in
          (each, omega (arith, count), omega (arith, count), ground (arith, few, count))
    ]
