-- ===== src/PgAdmin/Steps.antt =====
-- What Postgres documents of the statements of a provisioning, and rules for its steps.
use mendix_for_snowflake.Prelude.{
  ◌≡◌, ◌⊎◌, refl, Bool, true, false, ◌||◌, Option, none, some, Text, text_eq, opt_eq, Option-cases,
  Bool-cases, inl, inr,
}
use mendix_for_snowflake.PgAdmin.{
  Postgres, Statement, create_role, alter_role_login, bootstrap_user, drop_role, create_database,
  revoke_connect_from_public, grant_connect, grant_schema, drop_database, Action, resume, ◌then◌,
  execute, connect, unless, provision_app,
}

-- The database whose privileges a statement is about.
abbrev pub database_of : Statement → Option Text
database_of (create_database d) = some d
database_of (revoke_connect_from_public d) = some d
database_of (grant_connect d u) = some d
database_of (drop_database d) = some d
database_of _ = none

-- The statement may change which roles the role acts as. The creator of a role gets membership in it.
abbrev pub changes_members : Statement → Text → Bool
changes_members (create_role v) r = text_eq r v || text_eq r bootstrap_user
changes_members (drop_role v) r = true
changes_members _ r = false

module _ (pg : Postgres) where
  -- A role may connect to a database: everybody may, or it acts as one that has a grant or owns it.
  abbrev pub MayConnect : Text → Text → pg.State → Type 0
  MayConnect r d s =
      (pg.public_may d s ≡ true)
      ⊎ ((g : Text) × (pg.acts_as r g s ≡ true)
          × ((pg.granted g d s ≡ true) ⊎ (pg.owner d s ≡ some g)))

  -- The database, its owner, and the rights on it, of PUBLIC and of one role, are the same.
  abbrev pub SameRights : Text → Text → pg.State → pg.State → Type 0
  SameRights d r s s' =
      (pg.public_may d s' ≡ pg.public_may d s)
      × (pg.granted r d s' ≡ pg.granted r d s)
      × (pg.owner d s' ≡ pg.owner d s)
      × (pg.db_exists d s' ≡ pg.db_exists d s)

  -- What Postgres documents of the statements: each concerns one database at most, a new database
  -- has the owner that the statement names and no grants, a revoke ends the PUBLIC privilege, a grant
  -- adds one role, and a role acts as itself, and as others only by memberships, which only the
  -- creation and the end of a role change.
  pub record IsDocumented : Type 0 where
    pub elsewhere :
        (st : Statement) (s s' : pg.State) (d r : Text)
        → pg.run st s ≡ some s'
        → opt_eq (database_of st) (some d) ≡ false
        → SameRights d r s s'
    pub creates :
        (s s' : pg.State) (d r : Text)
        → pg.run (create_database d) s ≡ some s'
        → (pg.granted r d s' ≡ false) × (pg.owner d s' ≡ some bootstrap_user)
    pub revokes :
        (s s' : pg.State) (d r : Text)
        → pg.run (revoke_connect_from_public d) s ≡ some s'
        → (pg.public_may d s' ≡ false)
          × (pg.granted r d s' ≡ pg.granted r d s)
          × (pg.owner d s' ≡ pg.owner d s)
    pub grants :
        (s s' : pg.State) (d u r : Text)
        → pg.run (grant_connect d u) s ≡ some s'
        → (pg.public_may d s' ≡ pg.public_may d s)
          × (pg.granted r d s' ≡ (text_eq r u || pg.granted r d s))
          × (pg.owner d s' ≡ pg.owner d s)
    pub alone : (s : pg.State) (r : Text) → pg.acts_as r r s ≡ true
    pub members :
        (st : Statement) (s s' : pg.State) (r g : Text)
        → pg.run st s ≡ some s'
        → changes_members st r ≡ false
        → pg.acts_as r g s' ≡ pg.acts_as r g s

  -- If the first holds before the action, and the action returns, the second holds after it.
  abbrev pub Triple : (pg.State → Type 0) → Action pg → (pg.State → Type 0) → Type 0
  Triple P m Q = (s : pg.State) → P s → (m s).0 ≡ true → Q (m s).1

  triple_of_resume :
      (Q R : pg.State → Type 0) (n : Action pg) (p : Bool × pg.State)
      → (p.0 ≡ true → Q p.1)
      → Triple Q n R
      → (resume pg n p).0 ≡ true
      → R (resume pg n p).1
  triple_of_resume Q R n (true, s) q k h = k s (q refl) h
  triple_of_resume Q R n (false, s) q k h = cc

  Triple-then :
      (P Q R : pg.State → Type 0) (m n : Action pg)
      → Triple P m Q
      → Triple Q n R
      → Triple P (◌then◌ pg m n) R
  unfolding ◌then◌
  Triple-then P Q R m n k l s p h = triple_of_resume Q R n (m s) (k s p) l h

  pub Triple-execute :
      (P Q : pg.State → Type 0) (st : Statement)
      → ((s s' : pg.State) → P s → pg.run st s ≡ some s' → Q s')
      → Triple P (execute pg st) Q
  unfolding execute
  Triple-execute P Q st k s p h = elim (Option-cases (pg.run st s)) [
    | inl e ↦ let bad = rw (e, execute) at h in cc
    | inr (s', e) ↦ rw (e, execute) (k s s' p e)
  ]

  pub Triple-unless :
      (P : pg.State → Type 0) (test : pg.State → Bool) (m : Action pg)
      → Triple P m P
      → Triple P (unless pg test m) P
  unfolding unless
  Triple-unless P test m k s p h = elim (Bool-cases (test s)) [
    | inl e ↦ rw (e, unless) p
    | inr e ↦ rw (e, unless) (k s p (rw (e, unless) at h))
  ]

  Triple-connect : (P : pg.State → Type 0) (d : Text) → Triple P (connect pg d) P
  unfolding connect
  Triple-connect P d s p h = p

  -- The test is known where the action is left out.
  pub Triple-unless_known :
      (P Q : pg.State → Type 0) (test : pg.State → Bool) (m : Action pg)
      → ((s : pg.State) → P s → test s ≡ true → Q s)
      → Triple P m Q
      → Triple P (unless pg test m) Q
  unfolding unless
  Triple-unless_known P Q test m k l s p h = elim (Bool-cases (test s)) [
    | inl e ↦ rw (e, unless) (k s p e)
    | inr e ↦ rw (e, unless) (l s p (rw (e, unless) at h))
  ]

  -- The steps of a provisioning, one after another
  pub Triple-provision :
      (d u : Text) (P C Q R : pg.State → Type 0)
      → Triple P (execute pg (create_role u)) P
      → Triple P (execute pg (alter_role_login u)) P
      → Triple P (unless pg (pg.db_exists d) (execute pg (create_database d))) C
      → Triple C (execute pg (revoke_connect_from_public d)) Q
      → Triple Q (execute pg (grant_connect d u)) R
      → Triple R (execute pg (grant_schema u)) R
      → Triple P (provision_app pg d u) R
  unfolding provision_app
  Triple-provision d u P C Q R role login database revoke grant schema =
      Triple-then P P R _ _ (Triple-connect P _) (
        Triple-then P P R _ _ (Triple-unless P _ _ role) (
          Triple-then P P R _ _ login (
            Triple-then P C R _ _ database (
              Triple-then C Q R _ _ revoke (
                Triple-then Q R R _ _ grant (Triple-then R R R _ _ (Triple-connect R d) schema))))))
