-- ===== src/Auth.antt =====
-- Controller/app/auth.py: who calls, with which roles, and what they may act on.
pub mod Access
pub mod Cache
use mendix_for_snowflake.Prelude.{
  ℕ, ◌-◌, Bool, true, false, not, Option, none, some, List, [], Text, Dict, lookup, insert, text,
  text_eq, truthy, truthy?, or_text, or_none, upper, strip, split, mem, filter, any, map, ltb, leb,
  if◌then◌else◌,
}

-- The headers of a request that matter here.
pub record Request : Type 0 where
  pub caller_token : Option Text
  pub operator : Option Text
  pub operator_roles : Option Text
  pub internal_auth : Option Text

-- The set of roles is the list of its elements.
pub record CallerIdentity : Type 0 where
  pub user : Option Text
  pub roles : List Text

abbrev pub nobody : CallerIdentity
nobody = record { user = none; roles = [] }

abbrev pub IdentityCache : Type 0
IdentityCache = Dict (ℕ × CallerIdentity)

-- In the unit of the clock, `time.monotonic()`.
abbrev pub identity_cache_ttl_secs : ℕ
identity_cache_ttl_secs = 60

-- `{r.strip().upper() for r in raw.split(",") if r.strip()}`
unfoldable pub role_set : Text → List Text
role_set raw = map (λ r. upper (strip r)) (filter (λ r. truthy (strip r)) (split b',' raw))

-- `PRIVILEGED_ROLES`, from its environment variable.
unfoldable pub privileged_roles : Option Text → List Text
unfolding role_set
privileged_roles none = role_set (text "MENDIX_DEPLOY_CONTROLLER_ROLE")
privileged_roles (some raw) = role_set raw

-- `_INTERNAL_AUTH_TOKEN`: an empty value is treated as unset.
unfoldable pub internal_auth_token : Option Text → Option Text
internal_auth_token env = or_none env

-- The row that Snowflake answers with: the user, and the roles out of their JSON.
unfoldable pub identity_of_row : Option Text → List Text → CallerIdentity
identity_of_row user roles = record { user = or_none user; roles = map upper roles }

fresh : ℕ → Option (ℕ × CallerIdentity) → Option CallerIdentity
fresh now none = none
fresh now (some (ts, identity)) =
    if ltb (now - ts) identity_cache_ttl_secs then some identity else none

abbrev is_live : ℕ → Text × (ℕ × CallerIdentity) → Bool
is_live now e = not (leb identity_cache_ttl_secs (now - e.1.0))

drop_expired : ℕ → IdentityCache → IdentityCache
drop_expired now cache = filter (is_live now) cache

store : ℕ → Text → Option CallerIdentity → IdentityCache → Option CallerIdentity × IdentityCache
unfolding drop_expired
store now key none cache = (none, cache)
store now key (some identity) cache =
    (some identity, insert key (now, identity) (drop_expired now cache))

-- `hashlib.sha256(..).hexdigest()`, and what the query under the caller's own session answers at a
-- time, `none` if it raises.
module _ (digest : Text → Text) (query : ℕ → Text → Option (Option Text × List Text)) where
  unfoldable pub identity_from_snowflake : ℕ → Text → Option CallerIdentity
  unfolding identity_of_row
  identity_from_snowflake now token = elim (query now token) [
    | none ↦ none
    | some (user, roles) ↦ some (identity_of_row user roles)
  ]

  unfoldable pub cached_identity : IdentityCache → ℕ → Text → Option CallerIdentity × IdentityCache
  unfolding fresh store
  cached_identity cache now token = elim (fresh now (lookup (digest token) cache)) [
    | some identity ↦ (some identity, cache)
    | none ↦ store now (digest token) (identity_from_snowflake now token) cache
  ]

  resolve_public : IdentityCache → ℕ → Text → CallerIdentity × IdentityCache
  resolve_public cache now token =
      let (found, cache') = cached_identity cache now token in
      (elim found [ none ↦ nobody | some identity ↦ identity ], cache')

  -- The admin UI's hop: `secret` is the shared token. The source's comparison raises for a presented
  -- token that is not ASCII, which is answered with an error, and here with nobody.
  resolve_internal : Option Text → Request → CallerIdentity
  resolve_internal none r = nobody
  resolve_internal (some secret) r =
      if text_eq (or_text r.internal_auth (text "")) secret
      then record {
        user = or_none r.operator;
        roles = role_set (or_text r.operator_roles (text ""));
      }
      else nobody

  resolve_by :
      Option Text → Option Text → IdentityCache → ℕ → Request → CallerIdentity × IdentityCache
  unfolding resolve_public resolve_internal
  resolve_by none secret cache now r = (resolve_internal secret r, cache)
  resolve_by (some token) secret cache now r =
      if truthy token then resolve_public cache now token else (resolve_internal secret r, cache)

  unfoldable pub resolve_caller :
      Option Text → IdentityCache → ℕ → Request → CallerIdentity × IdentityCache
  unfolding resolve_by
  resolve_caller secret cache now r = resolve_by r.caller_token secret cache now r

-- May the caller with these roles act on an app of this owner?
unfoldable pub authorize : List Text → Option Text → List Text → Bool
authorize privileged owner_role roles =
    if any (λ r. mem r privileged) roles then true else elim owner_role [
      | none ↦ false
      | some owner ↦ if truthy owner then mem (upper owner) roles else false
    ]
