-- ===== src/Examples/Pg.antt =====
-- A small server that behaves as documented, and an app that is provisioned on it.
use mendix_for_snowflake.Prelude.{
  ◌≡◌, refl, subst, Bool, true, false, ◌||◌, Option, none, some, Text, text, text_eq, text_eq_refl,
  opt_eq, is_some, inl, inr, if◌then◌else◌,
}
use mendix_for_snowflake.PgAdmin.{
  Postgres, bootstrap_user, Statement, create_role, alter_role_login, create_database,
  revoke_connect_from_public, grant_connect, grant_schema, terminate_backends, drop_database,
  drop_role, ◌then◌, execute, connect, unless, provision_app,
}
use mendix_for_snowflake.PgAdmin.Steps.{database_of, SameRights, IsDocumented, MayConnect}
use mendix_for_snowflake.PgAdmin.Isolation.{provision_app_isolates}

-- Which databases PUBLIC may connect to, which roles have a grant, and who owns a database.
abbrev Rights : Type 0
Rights = (Text → Bool) × (Text → Text → Bool) × (Text → Option Text)

abbrev set_at {ℓ} : {A : Type ℓ} → Text → A → (Text → A) → Text → A
set_at d b p x = if text_eq d x then b else p x

abbrev toy_run : Statement → Rights → Option Rights
toy_run (create_database d) (p, g, o) =
    some (
      set_at d true p,
      λ r x. if text_eq d x then false else g r x,
      set_at d (some bootstrap_user) o,
    )
toy_run (revoke_connect_from_public d) (p, g, o) = some (set_at d false p, g, o)
toy_run (grant_connect d u) (p, g, o) =
    some (p, λ r x. if text_eq d x then (text_eq r u || g r x) else g r x, o)
toy_run _ s = some s

abbrev toy : Postgres
toy = record {
  State = Rights;
  reachable = λ d s. true;
  role_exists = λ u s. false;
  db_exists = λ d s. is_some (s.2 d);
  run = toy_run;
  public_may = λ d s. s.0 d;
  granted = λ r d s. s.1 r d;
  owner = λ d s. s.2 d;
  acts_as = λ r g s. text_eq r g;
}

-- The property of the state that a statement returns.
abbrev After : (Rights → Type 0) → Option Rights → Type 0
After P none = Unit
After P (some s) = P s

toy_elsewhere :
    (st : Statement) (s : Rights) (d r : Text)
    → opt_eq (database_of st) (some d) ≡ false
    → After (SameRights toy d r s) (toy_run st s)
toy_elsewhere (create_database x) s d r e = (rw e refl, rw e refl, rw e refl, rw e refl)
toy_elsewhere (revoke_connect_from_public x) s d r e = (rw e refl, refl, refl, refl)
toy_elsewhere (grant_connect x u) s d r e = (refl, rw e refl, refl, refl)
toy_elsewhere (drop_database x) s d r e = (refl, refl, refl, refl)
toy_elsewhere (create_role u) s d r e = (refl, refl, refl, refl)
toy_elsewhere (alter_role_login u) s d r e = (refl, refl, refl, refl)
toy_elsewhere (grant_schema u) s d r e = (refl, refl, refl, refl)
toy_elsewhere (terminate_backends x) s d r e = (refl, refl, refl, refl)
toy_elsewhere (drop_role u) s d r e = (refl, refl, refl, refl)

toy-IsDocumented : IsDocumented toy
toy-IsDocumented = record {
  elsewhere =
      λ st s s' d r ran e. subst (After (SameRights toy d r s)) ran (toy_elsewhere st s d r e);
  creates = λ s s' d r ran.
      subst (After (λ x. (x.1 r d ≡ false) × (x.2 d ≡ some bootstrap_user))) ran
        (rw text_eq_refl refl, rw text_eq_refl refl);
  revokes = λ s s' d r ran.
      subst (After (λ x. (x.0 d ≡ false) × (x.1 r d ≡ s.1 r d) × (x.2 d ≡ s.2 d))) ran
        (rw text_eq_refl refl, refl, refl);
  grants = λ s s' d u r ran.
      subst (After (λ x. (x.0 d ≡ s.0 d) × (x.1 r d ≡ (text_eq r u || s.1 r d)) × (x.2 d ≡ s.2 d)))
        ran (refl, rw text_eq_refl refl, refl);
  alone = λ s r. text_eq_refl r;
  members = λ st s s' r g ran e. refl;
}

-- The server has another app's database, and not yet this one's.
abbrev other_server : Rights
other_server =
    (λ d. true, λ r d. false, λ d. if text_eq d (text "other") then some bootstrap_user else none)

provision_app_isolates_example :
    let s = (provision_app toy (text "shop") (text "app_shop_role") other_server).1 in
    MayConnect toy (text "app_shop_role") (text "shop") s
    × MayConnect toy bootstrap_user (text "shop") s
    × ¬ MayConnect toy (text "app_other_role") (text "shop") s
unfolding provision_app ◌then◌ execute connect unless text_eq
provision_app_isolates_example =
    provision_app_isolates toy toy-IsDocumented (text "shop") (text "app_shop_role")
      (text "app_other_role") refl refl other_server (inl refl) refl refl (λ g. inr refl) refl
