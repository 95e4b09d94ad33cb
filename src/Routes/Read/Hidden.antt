-- ===== src/Routes/Read/Hidden.antt =====
-- What a caller sees of the apps of others.
use mendix_for_snowflake.Prelude.{
  ◌≡◌, refl, ◌∙◌, ap, subst, sym, false, Option, none, some, List, [], ◌∷◌, map, filter, Text, Dict,
  lookup, Bool-cases, inl, inr,
}
use mendix_for_snowflake.Models.{AppRecord}
use mendix_for_snowflake.Registry
use mendix_for_snowflake.Registry.{Rows}
use mendix_for_snowflake.Auth.{authorize}
use mendix_for_snowflake.Names.{Settings}
use mendix_for_snowflake.World.{
  World, Environment, Exec, ok, raised, http, Reason, Call, call, called, pure, raise, gets,
  outcome_of, resume_with, ◌>>=◌,
}
use mendix_for_snowflake.Statements
use mendix_for_snowflake.Routes.{record_for_read, visible}
use mendix_for_snowflake.Routes.Read.{
  Listed, row_of, list_one, effective_endpoint, list_each, list_visible, show_statuses,
}
use mendix_for_snowflake.Mutations.Guard.{of_resume}

module _ (env : Environment) (s : Settings) where
  -- The app is missing, or its owner role is not among the caller's.
  abbrev pub IsOutOfSight : Option AppRecord → List Text → Type 0
  IsOutOfSight none roles = Unit
  IsOutOfSight (some r) roles = authorize s.privileged (some r.owner_role) roles ≡ false

  unseen :
      (name : Text) (roles : List Text) (o : Option AppRecord) (w : World)
      → IsOutOfSight o roles
      → visible env s name roles o w ≡ (raised (http 404 (Reason.app_not_found name)), w)
  unfolding visible raise
  unseen name roles none w h = refl
  unseen name roles (some r) w h = rw h refl

  -- An app that the caller may not see cannot be told from a missing one: in either case a read
  -- answers the same 404, after the same call and with no change of state.
  pub record_for_read_hides :
      (name : Text) (roles : List Text) (w : World)
      → env.raises w Call.select_apps ≡ none
      → IsOutOfSight (Registry.get_app name w.registry) roles
      → record_for_read env s name roles w
        ≡ (raised (http 404 (Reason.app_not_found name)), called env Call.select_apps w)
  unfolding record_for_read Statements.get_app ◌>>=◌ call called gets
  record_for_read_hides name roles w up h =
      rw (up, outcome_of, resume_with)
        (unseen name roles (Registry.get_app name w.registry) (called env Call.select_apps w) h)

  abbrev pub listed_names : List Listed → List Text
  listed_names xs = map (λ x. x.app.name) xs

  abbrev pub visible_names : List Text → Rows → List Text
  visible_names roles rows =
      map (λ r. r.name) (filter (λ r. authorize s.privileged (some r.owner_role) roles) rows)

  one_listed :
      (a : AppRecord) (svc_status : Option Text) (rest : Exec (List Listed)) (w : World)
      (out : List Listed)
      → (list_one env s a svc_status rest w).0 ≡ ok out
      → (others : List Listed) × (v : World) × ((rest v).0 ≡ ok others)
        × (listed_names out ≡ a.name ∷ listed_names others)
  unfolding list_one ◌>>=◌ pure
  one_listed a svc_status rest w out h =
      let (url, _, h1) =
        of_resume (λ url. rest >>= λ others. pure (row_of env s a svc_status url ∷ others))
          (effective_endpoint env s a svc_status w).0 _ out h in
      let v = (effective_endpoint env s a svc_status w).1 in
      let (others, got, h2) =
        of_resume (λ others. pure (row_of env s a svc_status url ∷ others)) (rest v).0 _ out h1 in
      let same : row_of env s a svc_status url ∷ others ≡ out = cc in
      (others, v, got, subst (λ xs. listed_names xs ≡ a.name ∷ listed_names others) same refl)

  list_each_visible :
      (roles : List Text) (statuses : Dict Text) (rows : Rows) (w : World) (out : List Listed)
      → (list_each env s roles statuses rows w).0 ≡ ok out
      → listed_names out ≡ visible_names roles rows
  unfolding list_each filter pure
  list_each_visible roles statuses [] w out h =
      let same : [] ≡ out = cc in subst (λ xs. listed_names xs ≡ []) same refl
  list_each_visible roles statuses (a ∷ rows) w out h =
      elim (Bool-cases (authorize s.privileged (some a.owner_role) roles)) [
        | inr hidden ↦
            rw hidden (list_each_visible roles statuses rows w out (rw (hidden, list_each) at h))
        | inl seen ↦
            let (others, v, got, names) =
              one_listed a (lookup a.service_name statuses) (list_each env s roles statuses rows) w
                out (rw (seen, list_each) at h) in
            rw seen
              (names ∙ ap (λ xs. a.name ∷ xs) (list_each_visible roles statuses rows v others got))
      ]

  -- A listing names exactly the apps that the caller is authorized for, in the table's order.
  pub list_visible_exact :
      (statuses : World → Option (Dict Text)) (roles : List Text) (w : World) (out : List Listed)
      → (list_visible env s statuses roles w).0 ≡ ok out
      → listed_names out ≡ visible_names roles w.registry
  unfolding list_visible show_statuses Statements.list_apps ◌>>=◌ call called gets
  list_visible_exact statuses roles w out h =
      let (rows, got, h1) = of_resume _ (Statements.list_apps env w).0 _ out h in
      let (_, up, here) = of_resume (λ _. gets (λ v. v.registry)) _ _ rows got in
      let same : w.registry ≡ rows = cc in
      list_each_visible roles _ rows _ out h1 ∙ ap (visible_names roles) (sym same)
