-- ===== src/Auth/Cache.antt =====
-- What the cache of identities answers, and what it forgets.
use mendix_for_snowflake.Prelude.{
  ℕ, ◌-◌, ◌+◌, ◌≤◌, ◌<◌, ◌≡◌, ◌⊎◌, refl, sym, subst, Bool, Option, none, some, List, [], ◌∷◌, Text,
  text_eq, text_eq_iff, filter, lookup, insert, All, arith, Bool-cases, Option-cases, inl, inr,
}
use mendix_for_snowflake.Auth.{
  CallerIdentity, IdentityCache, identity_cache_ttl_secs, fresh, is_live, drop_expired, store,
  identity_from_snowflake, cached_identity,
}

-- What a cache entry may hold.
abbrev pub EntryOf : Type 0
EntryOf = Text × (ℕ × CallerIdentity)

module _ (P : EntryOf → Type 0) where
  All-filter : (p : EntryOf → Bool) (c : IdentityCache) → All P c → All P (filter p c)
  unfolding filter
  All-filter p [] h = tt
  All-filter p (e ∷ c) h = elim (Bool-cases (p e)) [
    | inl t ↦ rw t (h.0, All-filter p c h.1)
    | inr f ↦ rw f (All-filter p c h.1)
  ]

  All-insert :
      (k : Text) (v : ℕ × CallerIdentity) (c : IdentityCache)
      → P (k, v)
      → All P c
      → All P (insert k v c)
  unfolding insert
  All-insert k v [] p h = (p, tt)
  All-insert k v (e ∷ c) p h = elim (Bool-cases (text_eq e.0 k)) [
    | inl t ↦ rw t (subst (λ j. P (j, v)) (sym ((text_eq_iff e.0 k).0 t)) p, h.1)
    | inr f ↦ rw f (h.0, All-insert k v c p h.1)
  ]

  All-lookup :
      (k : Text) (v : ℕ × CallerIdentity) (c : IdentityCache)
      → All P c
      → lookup k c ≡ some v
      → P (k, v)
  unfolding lookup
  All-lookup k v [] h e = cc
  All-lookup k v (x ∷ c) h e = elim (Bool-cases (text_eq x.0 k)) [
    | inl t ↦ subst P (cc (e, (text_eq_iff x.0 k).0 t, t)) h.0
    | inr f ↦ All-lookup k v c h.1 (rw f at e)
  ]

-- Entries that a filter keeps pass it.
abbrev pub IsYoung : ℕ → EntryOf → Type 0
IsYoung now e = now - e.1.0 < identity_cache_ttl_secs

drop_expired-IsYoung : (now : ℕ) (c : IdentityCache) → All (IsYoung now) (drop_expired now c)
unfolding drop_expired filter
drop_expired-IsYoung now [] = tt
drop_expired-IsYoung now (e ∷ c) = elim (Bool-cases (is_live now e)) [
  | inl t ↦ rw t (ground arith, drop_expired-IsYoung now c)
  | inr f ↦ rw f (drop_expired-IsYoung now c)
]

fresh_inversion :
    (now : ℕ) (o : Option (ℕ × CallerIdentity)) (identity : CallerIdentity)
    → fresh now o ≡ some identity
    → (ts : ℕ) × (o ≡ some (ts, identity)) × (now - ts < identity_cache_ttl_secs)
unfolding fresh
fresh_inversion now none identity e = cc
fresh_inversion now (some (ts, i)) identity e = (ts, ground arith, ground arith)

store_result :
    (now : ℕ) (key : Text) (o : Option CallerIdentity) (c : IdentityCache)
    → (store now key o c).0 ≡ o
unfolding store
store_result now key none c = refl
store_result now key (some i) c = refl

store-All :
    (P : EntryOf → Type 0) (now : ℕ) (key : Text) (o : Option CallerIdentity) (c : IdentityCache)
    → ((i : CallerIdentity) → o ≡ some i → P (key, (now, i)))
    → All P c
    → All P (store now key o c).1
unfolding store drop_expired
store-All P now key none c p h = h
store-All P now key (some i) c p h =
    All-insert P key (now, i) (filter (is_live now) c) (p i refl) (All-filter P (is_live now) c h)

store_prunes :
    (now : ℕ) (key : Text) (o : Option CallerIdentity) (c : IdentityCache)
    → ((store now key o c).1 ≡ c) ⊎ All (IsYoung now) (store now key o c).1
unfolding store
store_prunes now key none c = inl refl
store_prunes now key (some i) c = inr (
    All-insert (IsYoung now) key (now, i) (drop_expired now c) (omega arith)
      (drop_expired-IsYoung now c))

module _ (digest : Text → Text) (query : ℕ → Text → Option (Option Text × List Text)) where
  -- The entry holds what Snowflake answered for a token of that digest, at the entry's time, which
  -- has come.
  abbrev pub IsSound : ℕ → EntryOf → Type 0
  IsSound now e =
      (e.1.0 ≤ now)
      × (t : Text) × (digest t ≡ e.0)
      × (identity_from_snowflake digest query e.1.0 t ≡ some e.1.1)

  -- What a lookup returns was cached under the token's digest less than the time to live ago, or
  -- is Snowflake's answer now.
  pub cached_identity_recent :
      (cache : IdentityCache) (now : ℕ) (token : Text)
      → ((ts : ℕ) × (identity : CallerIdentity) × (lookup (digest token) cache
            ≡ some (ts, identity))
          × (now - ts < identity_cache_ttl_secs)
          × ((cached_identity digest query cache now token).0 ≡ some identity))
        ⊎ ((cached_identity digest query cache now token).0
            ≡ identity_from_snowflake digest query now token)
  unfolding cached_identity
  cached_identity_recent cache now token =
      elim (Option-cases (fresh now (lookup (digest token) cache))) [
        | inl miss ↦
            rw (miss, cached_identity)
              (inr (
                store_result now (digest token) (identity_from_snowflake digest query now token)
                  cache))
        | inr (identity, hit) ↦
            let (ts, found, young) = fresh_inversion now _ identity hit in
            rw (hit, cached_identity) (inl (ts, identity, found, young, refl))
      ]

  IsSound-later :
      (now later : ℕ) (cache : IdentityCache)
      → now ≤ later
      → All (IsSound now) cache
      → All (IsSound later) cache
  IsSound-later now later [] le h = tt
  IsSound-later now later (e ∷ cache) le ((ts, t, d, e1), h) =
      ((omega (arith, ts, le), t, d, e1), IsSound-later now later cache le h)

  -- Where distinct tokens have distinct digests, and the cache holds what Snowflake answered up to a
  -- time that is not later, a lookup returns what Snowflake answered for that very token less than
  -- the time to live ago, or answers now, and leaves such a cache.
  pub cached_identity_recent_answer :
      ((s t : Text) → digest s ≡ digest t → s ≡ t)
      → (cache : IdentityCache) (before now : ℕ) (token : Text) → before ≤ now
      → All (IsSound before) cache
      → ((ts : ℕ) × (ts ≤ now)
          × (now < ts + 60)
          × ((cached_identity digest query cache now token).0
              ≡ identity_from_snowflake digest query ts token))
        × All (IsSound now) (cached_identity digest query cache now token).1
  unfolding cached_identity
  cached_identity_recent_answer inj cache before now token le old =
      let h = IsSound-later before now cache le old in
      elim (Option-cases (fresh now (lookup (digest token) cache))) [
        | inl miss ↦
            rw (miss, cached_identity)
              (
                (
                  now,
                  omega arith,
                  omega arith,
                  store_result now (digest token) (identity_from_snowflake digest query now token)
                      cache,
                ),
                store-All (IsSound now) now (digest token)
                    (identity_from_snowflake digest query now token) cache
                    (λ i e. (omega arith, token, refl, e)) h,
              )
        | inr (identity, hit) ↦
            let (ts, found, young) = fresh_inversion now _ identity hit in
            let (past, t, same, answer) =
              All-lookup (IsSound now) (digest token) (ts, identity) cache h found in
            rw (hit, cached_identity)
              ((ts, past, omega (arith, young, past), rw (inj t token same) at (sym answer)), h)
      ]

  -- Unless the cache is left as it was, every entry left is younger than the time to live.
  pub cached_identity_prunes :
      (cache : IdentityCache) (now : ℕ) (token : Text)
      → ((cached_identity digest query cache now token).1 ≡ cache)
        ⊎ All (IsYoung now) (cached_identity digest query cache now token).1
  unfolding cached_identity
  cached_identity_prunes cache now token =
      elim (Option-cases (fresh now (lookup (digest token) cache))) [
        | inl miss ↦
            rw (miss, cached_identity, All)
              (store_prunes now (digest token) (identity_from_snowflake digest query now token)
                cache)
        | inr (identity, hit) ↦ rw (hit, cached_identity, All) (inl refl)
      ]
