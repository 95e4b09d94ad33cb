-- ===== src/AdminUi/Identity/Forwarding.antt =====
-- What the controller makes of the roles that the admin UI forwards.
use mendix_for_snowflake.Prelude.{
  ℕ, ◌≡◌, refl, split_from, strip_left, ap, true, Option, some, List, [], ◌∷◌, ◌++◌, Text, text,
  text_eq_refl, truthy, or_text, upper, strip, split, split-join, join, any, mem, map, filter, All,
  Lacks, Bool-cases, inl, inr,
}
use mendix_for_snowflake.Auth.{
  CallerIdentity, IdentityCache, role_set, resolve_caller, authorize, privileged_roles,
}
use mendix_for_snowflake.AdminUi.Identity.{roles_header, client_request, is_privileged_operator}

-- A role as `list_operator_roles` gives it, which has no comma and no white space around it.
abbrev pub IsPlainRole : Text → Type 0
IsPlainRole r = (truthy r ≡ true) × (strip r ≡ r) × (upper r ≡ r) × Lacks b',' r

plain_kept :
    (rs : List Text)
    → All IsPlainRole rs
    → map (λ r. upper (strip r)) (filter (λ r. truthy (strip r)) rs) ≡ rs
unfolding filter
plain_kept [] h = refl
plain_kept (r ∷ rs) ((full, stripped, uppered, _), h) =
    rw (stripped, full) (rw (stripped, uppered) (ap (λ t. r ∷ t) (plain_kept rs h)))

nothing_forwarded : role_set (text "") ≡ []
unfolding role_set split split_from strip strip_left filter
nothing_forwarded = refl

plain_lack : (rs : List Text) → All IsPlainRole rs → All (Lacks b',') rs
plain_lack [] h = tt
plain_lack (r ∷ rs) (p, h) = (p.3, plain_lack rs h)

join_full :
    (c : ℕ) (cs : Text) (rs : List Text) (glue : Text) → truthy (join glue ((c ∷ cs) ∷ rs)) ≡ true
unfolding join
join_full c cs [] glue = refl
join_full c cs (r ∷ rs) glue = refl

role_set_of_join :
    (r : Text) (rs : List Text)
    → All IsPlainRole (r ∷ rs)
    → role_set (join (b',' ∷ []) (r ∷ rs)) ≡ r ∷ rs
unfolding role_set
role_set_of_join r rs h = rw (split-join b',' r rs (plain_lack (r ∷ rs) h)) (plain_kept (r ∷ rs) h)

role_set-header :
    (rs : List Text) → All IsPlainRole rs → role_set (or_text (roles_header rs) (text "")) ≡ rs
unfolding roles_header
role_set-header [] h = nothing_forwarded
role_set-header ([] ∷ rs) h = cc h.0.0
role_set-header ((c ∷ cs) ∷ rs) h =
    rw (join_full c cs rs (b',' ∷ [])) (role_set_of_join (c ∷ cs) rs h)

module _ (digest : Text → Text) (query : ℕ → Text → Option (Option Text × List Text)) where
  abbrev pub seen_by_controller : Text → IdentityCache → Text → List Text → CallerIdentity
  seen_by_controller secret cache operator roles =
      (resolve_caller digest query (some secret) cache 0
        (client_request (some secret) operator roles)).0

  arrives :
      (secret : Text) (cache : IdentityCache) (operator : Text) (roles : List Text)
      → truthy secret ≡ true
      → truthy operator ≡ true
      → All IsPlainRole roles
      → seen_by_controller secret cache operator roles
        ≡ record { user = some operator; roles = roles }
  unfolding resolve_caller client_request
  arrives secret cache operator roles s o h =
      rw s (rw s (rw (text_eq_refl secret) (rw (o, role_set-header roles h) refl)))

  -- The roles that the admin UI forwards arrive at the controller as they are, with the operator,
  -- where both services hold one shared secret and no role has a comma or white space around it: the
  -- page's own test for privileged operators then is the controller's.
  pub forwarded_roles_arrive :
      (secret : Text) (cache : IdentityCache) (operator : Text) (roles : List Text)
      (env : Option Text)
      → truthy secret ≡ true
      → truthy operator ≡ true
      → All IsPlainRole roles
      → let identity = seen_by_controller secret cache operator roles in
        (identity ≡ record { user = some operator; roles = roles })
        × (is_privileged_operator env roles
            ≡ any (λ r. mem r (privileged_roles env)) identity.roles)
  unfolding is_privileged_operator
  forwarded_roles_arrive secret cache operator roles env s o h =
      let arrived = arrives secret cache operator roles s o h in (arrived, rw arrived refl)

  arrives_split :
      (secret : Text) (cache : IdentityCache) (operator a b : Text)
      → truthy secret ≡ true
      → truthy operator ≡ true
      → All IsPlainRole (a ∷ b ∷ [])
      → seen_by_controller secret cache operator ((a ++ b',' ∷ b) ∷ [])
        ≡ record { user = some operator; roles = a ∷ b ∷ [] }
  unfolding resolve_caller client_request roles_header join
  arrives_split secret cache operator [] b s o h = cc h.0.0
  arrives_split secret cache operator (c ∷ a) b s o h =
      rw s (rw s (rw (text_eq_refl secret) (rw (o, role_set_of_join (c ∷ a) (b ∷ []) h) refl)))

  -- A role whose name holds a comma arrives as the two roles that the comma parts. Where the second is
  -- privileged, an operator who holds only that one role may act on every app.
  pub comma_role_escalates :
      (secret : Text) (cache : IdentityCache) (operator a b : Text) (privileged : List Text)
      (owner_role : Option Text)
      → truthy secret ≡ true
      → truthy operator ≡ true
      → All IsPlainRole (a ∷ b ∷ [])
      → mem b privileged ≡ true
      → let identity = seen_by_controller secret cache operator ((a ++ b',' ∷ b) ∷ []) in
        (identity.roles ≡ a ∷ b ∷ []) × (authorize privileged owner_role identity.roles ≡ true)
  unfolding authorize any
  comma_role_escalates secret cache operator a b privileged owner_role s o h m =
      let arrived = arrives_split secret cache operator a b s o h in
      (
        rw arrived refl,
        rw (arrived, m)
            (elim (Bool-cases (mem a privileged)) [ inl e ↦ rw e refl | inr e ↦ rw e refl ]),
      )
