-- ===== src/PgAdmin/Isolation.antt =====
-- Who may connect to an app's database.
use mendix_for_snowflake.Prelude.{
  ◌≡◌, ◌⊎◌, text_eq_iff, refl, ◌∙◌, Bool, true, false, some, Text, text_eq, text_eq_refl, opt_eq,
  Bool-cases, inl, inr,
}
use mendix_for_snowflake.PgAdmin.{
  Postgres, Statement, create_role, alter_role_login, bootstrap_user, create_database,
  revoke_connect_from_public, grant_connect, grant_schema, execute, provision_app,
}
use mendix_for_snowflake.PgAdmin.Steps.{
  database_of, changes_members, MayConnect, IsDocumented, Triple, Triple-execute, Triple-unless,
  Triple-unless_known, Triple-provision,
}

module _ (pg : Postgres) where
  module _ (doc : IsDocumented pg) (d u : Text) where
    abbrev NotGranted : Text → pg.State → Type 0
    NotGranted r s = pg.granted r d s ≡ false

    abbrev Closed : Text → pg.State → Type 0
    Closed r s = (pg.public_may d s ≡ false) × NotGranted r s

    abbrev Isolated : Text → pg.State → Type 0
    Isolated r s = (pg.public_may d s ≡ false) × NotGranted r s × (pg.granted u d s ≡ true)

    -- A statement that is about no database.
    NotGranted-elsewhere :
        (r : Text) (st : Statement)
        → opt_eq (database_of st) (some d) ≡ false
        → Triple pg (NotGranted r) (execute pg st) (NotGranted r)
    NotGranted-elsewhere r st e =
        Triple-execute pg (NotGranted r) (NotGranted r) st
          (λ s s' p ran. (doc.elsewhere st s s' d r ran e).1 ∙ p)

    Isolated-grant :
        (r : Text)
        → text_eq r u ≡ false
        → Triple pg (Closed r) (execute pg (grant_connect d u)) (Isolated r)
    Isolated-grant r ne =
        Triple-execute pg (Closed r) (Isolated r) (grant_connect d u) (λ s s' p ran.
          let (same, mine, _) = doc.grants s s' d u r ran in
          let (_, theirs, _) = doc.grants s s' d u u ran in
          (same ∙ p.0, mine ∙ rw ne p.1, theirs ∙ rw text_eq_refl refl))

    Isolated-schema : (r : Text) → Triple pg (Isolated r) (execute pg (grant_schema u)) (Isolated r)
    Isolated-schema r = Triple-execute pg (Isolated r) (Isolated r) (grant_schema u) (λ s s' p ran.
        let (a, b, _, _) = doc.elsewhere (grant_schema u) s s' d r ran refl in
        let (_, c, _, _) = doc.elsewhere (grant_schema u) s s' d u ran refl in
        (a ∙ p.0, b ∙ p.1, c ∙ p.2))

    provision_app-Isolated :
        (r : Text)
        → text_eq r u ≡ false
        → Triple pg (NotGranted r) (provision_app pg d u) (Isolated r)
    provision_app-Isolated r ne =
        Triple-provision pg d u (NotGranted r) (NotGranted r) (Closed r) (Isolated r)
          (NotGranted-elsewhere r (create_role u) refl)
          (NotGranted-elsewhere r (alter_role_login u) refl)
          (Triple-unless pg (NotGranted r) _ _ (
            Triple-execute pg (NotGranted r) (NotGranted r) (create_database d)
              (λ x y p ran. (doc.creates x y d r ran).0)))
          (Triple-execute pg (NotGranted r) (Closed r) (revoke_connect_from_public d)
            (λ x y p ran. let (a, b, _) = doc.revokes x y d r ran in (a, b ∙ p)))
          (Isolated-grant r ne) (Isolated-schema r)

    -- The database is there only with the bootstrap role for its owner.
    abbrev pub OwnedIfThere : pg.State → Type 0
    OwnedIfThere s = (pg.db_exists d s ≡ false) ⊎ (pg.owner d s ≡ some bootstrap_user)

    abbrev Owned : pg.State → Type 0
    Owned s = pg.owner d s ≡ some bootstrap_user

    Owned-there : (s : pg.State) → OwnedIfThere s → pg.db_exists d s ≡ true → Owned s
    Owned-there s (inl e) h = cc (e, h)
    Owned-there s (inr e) h = e

    OwnedIfThere-elsewhere :
        (st : Statement)
        → opt_eq (database_of st) (some d) ≡ false
        → Triple pg OwnedIfThere (execute pg st) OwnedIfThere
    OwnedIfThere-elsewhere st e = Triple-execute pg OwnedIfThere OwnedIfThere st (λ s s' p ran.
        let (_, _, owner, there) = doc.elsewhere st s s' d u ran e in
        elim p [ inl x ↦ inl (there ∙ x) | inr x ↦ inr (owner ∙ x) ])

    provision_app-Owned : Triple pg OwnedIfThere (provision_app pg d u) Owned
    provision_app-Owned =
        Triple-provision pg d u OwnedIfThere Owned Owned Owned
          (OwnedIfThere-elsewhere (create_role u) refl)
          (OwnedIfThere-elsewhere (alter_role_login u) refl)
          (Triple-unless_known pg OwnedIfThere Owned _ _ Owned-there (
            Triple-execute pg OwnedIfThere Owned (create_database d)
              (λ x y p ran. (doc.creates x y d u ran).1)))
          (Triple-execute pg Owned Owned (revoke_connect_from_public d)
            (λ x y p ran. (doc.revokes x y d u ran).2 ∙ p))
          (Triple-execute pg Owned Owned (grant_connect d u)
            (λ x y p ran. (doc.grants x y d u u ran).2 ∙ p))
          (Triple-execute pg Owned Owned (grant_schema u)
            (λ x y p ran. (doc.elsewhere (grant_schema u) x y d u ran refl).2 ∙ p))

    module _ (r : Text) (other : text_eq r u ≡ false)
        (plain : text_eq r bootstrap_user ≡ false) where
      -- A statement that leaves the memberships of the role alone.
      acts_as_step :
          (st : Statement) (g : Text) (b : Bool)
          → changes_members st r ≡ false
          → Triple pg (λ s. pg.acts_as r g s ≡ b) (execute pg st) (λ s. pg.acts_as r g s ≡ b)
      acts_as_step st g b e =
          Triple-execute pg (λ s. pg.acts_as r g s ≡ b) (λ s. pg.acts_as r g s ≡ b) st
            (λ s s' p ran. doc.members st s s' r g ran e ∙ p)

      provision_app_members :
          (g : Text) (b : Bool)
          → Triple pg (λ s. pg.acts_as r g s ≡ b) (provision_app pg d u) (λ s. pg.acts_as r g s ≡ b)
      provision_app_members g b =
          let same : pg.State → Type 0 = λ s. pg.acts_as r g s ≡ b in
          Triple-provision pg d u same same same same
            (acts_as_step (create_role u) g b (rw (other, plain) refl))
            (acts_as_step (alter_role_login u) g b refl)
            (Triple-unless pg same _ _ (acts_as_step (create_database d) g b refl))
            (acts_as_step (revoke_connect_from_public d) g b refl)
            (acts_as_step (grant_connect d u) g b refl) (acts_as_step (grant_schema u) g b refl)

      -- Where Postgres behaves as documented, and the database, if it was there, is owned by the
      -- bootstrap role, a database whose provisioning returned may be connected to by its app's role
      -- and by the bootstrap role, and by no role that is neither of them, is no member of either, and
      -- neither had a grant before nor is a member of a role that had one.
      pub provision_app_isolates :
          (s : pg.State)
          → OwnedIfThere s
          → pg.acts_as r u s ≡ false
          → pg.acts_as r bootstrap_user s ≡ false
          → ((g : Text) → (pg.acts_as r g s ≡ false) ⊎ (pg.granted g d s ≡ false))
          → (provision_app pg d u s).0 ≡ true
          → let s' = (provision_app pg d u s).1 in
            MayConnect pg u d s' × MayConnect pg bootstrap_user d s' × ¬ MayConnect pg r d s'
      provision_app_isolates s owned apart low before h =
          let s' = (provision_app pg d u s).1 in
          let mine : pg.granted r d s ≡ false = elim (before r) [
            | inl e ↦ cc (doc.alone s r, e)
            | inr e ↦ e
          ] in
          let (closed, _, given) = provision_app-Isolated r other s mine h in
          let owner = provision_app-Owned s owned h in
          (
            inr (u, doc.alone s' u, inl given),
            inr (bootstrap_user, doc.alone s' bootstrap_user, inr owner),
            λ may. elim may [
              | inl e ↦ cc (closed, e)
              | inr (g, acts, right) ↦ elim right [
                | inr e ↦
                    let same : bootstrap_user ≡ g = cc (owner, e) in
                    let not_it = provision_app_members bootstrap_user false s low h in
                    cc (not_it, acts, same)
                | inl e ↦ elim (Bool-cases (text_eq g u)) [
                  | inl t ↦
                      let same = (text_eq_iff g u).0 t in
                      let not_it = provision_app_members u false s apart h in
                      cc (not_it, acts, same)
                  | inr f ↦ elim (before g) [
                    | inl k ↦ cc (provision_app_members g false s k h, acts)
                    | inr k ↦ cc ((provision_app-Isolated g f s k h).1, e)
                  ]
                ]
              ]
            ],
          )
