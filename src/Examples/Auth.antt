-- ===== src/Examples/Auth.antt =====
-- Requests and caches.
use mendix_for_snowflake.Prelude.{
  ltb, if◌then◌else◌, ◌≤◌, ◌<◌, ◌+◌, arith, ℕ, ◌≡◌, ◌≢◌, refl, true, false, Option, none, some,
  List, [], ◌∷◌, Text, text, text_eq, All, upper, filter, any, mem, strip, split,
}
use mendix_for_snowflake.Auth.{
  Request, CallerIdentity, IdentityCache, authorize, resolve_caller, cached_identity,
  identity_from_snowflake, role_set,
}
use mendix_for_snowflake.Auth.Access.{tokenless_denied, caller_token_unforgeable}
use mendix_for_snowflake.Auth.Cache.{IsSound, cached_identity_recent_answer}

abbrev roles : List Text
roles = text "SALES" ∷ text "PUBLIC" ∷ []

abbrev privileged : List Text
privileged = text "ACCOUNTADMIN" ∷ []

authorize_owner : authorize privileged (some (text "sales")) roles ≡ true
unfolding authorize any mem text_eq upper
authorize_owner = refl

abbrev claims : Request
claims = record {
  caller_token = none;
  operator = some (text "mallory");
  operator_roles = some (text "ACCOUNTADMIN, sales");
  internal_auth = some (text "guess");
}

abbrev digest : Text → Text
digest t = t

abbrev query : ℕ → Text → Option (Option Text × List Text)
query now token = some (some (text "jo"), if ltb now 10 then text "sales" ∷ [] else [])

guess_is_wrong : ◌≢◌ {A = Option Text} (some (text "secret")) (some (text "guess"))
guess_is_wrong e = cc (e)

tokenless_denied_example :
    authorize privileged
      (some (text "sales"))
      (resolve_caller digest query (some (text "secret")) [] 7 claims).0.roles
    ≡ false
tokenless_denied_example =
    tokenless_denied digest query (some (text "secret")) [] 7 claims refl guess_is_wrong privileged
      (some (text "sales"))

-- The claimed roles are read where the secret is right.
role_set_claimed : role_set (text "ACCOUNTADMIN, sales,") ≡ text "ACCOUNTADMIN" ∷ text "SALES" ∷ []
unfolding role_set filter strip split upper
role_set_claimed = refl

abbrev with_token : Request
with_token = record claims { caller_token = some (text "tok") }

abbrev plain : Request
plain = record {
  caller_token = some (text "tok");
  operator = none;
  operator_roles = none;
  internal_auth = none;
}

caller_token_unforgeable_example :
    resolve_caller digest query none [] 7 with_token ≡ resolve_caller digest query none [] 7 plain
caller_token_unforgeable_example =
    caller_token_unforgeable digest query none [] 7 with_token plain (text "tok") refl refl refl

abbrev jo : CallerIdentity
jo = record { user = some (text "jo"); roles = text "SALES" ∷ [] }

abbrev warm : IdentityCache
warm = (text "tok", (5, jo)) ∷ []

warm-IsSound : All (IsSound digest query 20) warm
unfolding identity_from_snowflake upper
warm-IsSound = ((omega arith, text "tok", refl, refl), tt)

-- The role was revoked at 10: at 30 the cache still answers with it.
cached_identity_recent_answer_example :
    ((ts : ℕ) × (ts ≤ 30)
      × (30 < ts + 60)
      × ((cached_identity digest query warm 30 (text "tok")).0
          ≡ identity_from_snowflake digest query ts (text "tok")))
    × All (IsSound digest query 30) (cached_identity digest query warm 30 (text "tok")).1
cached_identity_recent_answer_example =
    cached_identity_recent_answer digest query (λ s t e. e) warm 20 30 (text "tok") (omega arith)
      warm-IsSound
