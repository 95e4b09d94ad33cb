-- ===== src/Auth/Access.antt =====
-- What `resolve_caller` and `authorize` grant, and to whom.
use mendix_for_snowflake.Prelude.{
  ℕ, ◌≡◌, ◌≢◌, ◌↔◌, ◌⊎◌, inl, inr, refl, true, false, Option, none, some, List, [], ◌∷◌, Text, text,
  text_eq_iff, truthy, truthy?, or_text, mem, mem→In, In→mem, In, any, upper, arith, Bool-cases,
}
use mendix_for_snowflake.Auth.{
  Request, IdentityCache, nobody, authorize, resolve_internal, resolve_by, resolve_caller,
}

-- The two ways to be let through: a privileged role, or the owner's.
abbrev pub IsAllowed : List Text → Option Text → List Text → Type 0
IsAllowed privileged owner_role roles =
    ((r : Text) × In r roles × In r privileged)
    ⊎ ((o : Text) × (owner_role ≡ some o) × (truthy o ≡ true) × In (upper o) roles)

module _ (privileged : List Text) where
  any_privileged :
      (roles : List Text)
      → any (λ r. mem r privileged) roles ≡ true
      → (r : Text) × In r roles × In r privileged
  unfolding any
  any_privileged [] h = cc
  any_privileged (x ∷ xs) h = elim (Bool-cases (mem x privileged)) [
    | inl e ↦ (x, inl refl, mem→In x privileged e)
    | inr e ↦ let (r, i, p) = any_privileged xs (rw e at h) in (r, inr i, p)
  ]

  privileged_any :
      (roles : List Text) (r : Text)
      → In r roles
      → In r privileged
      → any (λ q. mem q privileged) roles ≡ true
  unfolding any
  privileged_any [] r i p = absurd i
  privileged_any (x ∷ xs) r (inl e) p = rw (e, In→mem r privileged p)
  privileged_any (x ∷ xs) r (inr i) p = ground (arith, privileged_any xs r i p)

  owner_allowed :
      (owner_role : Option Text) (roles : List Text)
      → any (λ r. mem r privileged) roles ≡ false
      → authorize privileged owner_role roles ≡ true
      → (o : Text) × (owner_role ≡ some o) × (truthy o ≡ true) × In (upper o) roles
  unfolding authorize
  owner_allowed none roles e h = ground arith
  owner_allowed (some o) roles e h = (o, refl, ground arith, mem→In (upper o) roles (ground arith))

-- A caller is authorized exactly if one of the roles is privileged, or the app has a non-empty
-- owner role whose upper-case form is among the roles.
pub authorize_iff :
    (privileged : List Text) (owner_role : Option Text) (roles : List Text)
    → (authorize privileged owner_role roles ≡ true) ↔ IsAllowed privileged owner_role roles
unfolding authorize
authorize_iff privileged owner_role roles = (
  λ h. elim (Bool-cases (any (λ r. mem r privileged) roles)) [
    | inl e ↦ inl (any_privileged privileged roles e)
    | inr e ↦ inr (owner_allowed privileged owner_role roles e h)
  ],
  elim [
    | inl (r, i, p) ↦ rw (privileged_any privileged roles r i p)
    | inr (o, e, t, i) ↦ rw e (ground (arith, In→mem (upper o) roles i))
  ],
)

authorize_nobody :
    (privileged : List Text) (owner_role : Option Text)
    → authorize privileged owner_role nobody.roles ≡ false
unfolding authorize any mem
authorize_nobody privileged none = refl
authorize_nobody privileged (some owner) = ground arith

module _ (digest : Text → Text) (query : ℕ → Text → Option (Option Text × List Text)) where
  resolve_internal_denied :
      (secret : Option Text) (r : Request)
      → secret ≢ some (or_text r.internal_auth (text ""))
      → resolve_internal digest query secret r ≡ nobody
  unfolding resolve_internal
  resolve_internal_denied none r ne = refl
  resolve_internal_denied (some key) r ne =
      ground (arith, text_eq_iff (or_text r.internal_auth (text "")) key)

  resolve_tokenless :
      (secret : Option Text) (cache : IdentityCache) (now : ℕ) (r : Request) (token : Option Text)
      → truthy? token ≡ false
      → (resolve_by digest query token secret cache now r).0
        ≡ resolve_internal digest query secret r
  unfolding resolve_by
  resolve_tokenless secret cache now r none e = refl
  resolve_tokenless secret cache now r (some token) e = rw e

  -- A request with no caller token that does not present the configured shared secret is
  -- authorized for no app, whatever roles its headers claim; so is every such request where no
  -- secret is configured.
  pub tokenless_denied :
      (secret : Option Text) (cache : IdentityCache) (now : ℕ) (r : Request)
      → truthy? r.caller_token ≡ false
      → secret ≢ some (or_text r.internal_auth (text ""))
      → (privileged : List Text) (owner_role : Option Text)
      → authorize privileged owner_role (resolve_caller digest query secret cache now r).0.roles
        ≡ false
  unfolding resolve_caller
  tokenless_denied secret cache now r e ne privileged owner_role =
      rw
        (resolve_tokenless secret cache now r r.caller_token e, resolve_internal_denied secret r ne)
        (authorize_nobody privileged owner_role)

  -- With a caller token the identity is Snowflake's alone: two requests with the same token are
  -- resolved alike, whatever operator, roles and shared secret their headers claim.
  pub caller_token_unforgeable :
      (secret : Option Text) (cache : IdentityCache) (now : ℕ) (r s : Request) (token : Text)
      → r.caller_token ≡ some token
      → s.caller_token ≡ some token
      → truthy token ≡ true
      → resolve_caller digest query secret cache now r
        ≡ resolve_caller digest query secret cache now s
  unfolding resolve_caller
  caller_token_unforgeable secret cache now r s token e f t = rw (e, f, t)
