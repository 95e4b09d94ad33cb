-- ===== src/Routes/Create/Fresh.antt =====
-- Who may register an app, and under which name.
use mendix_for_snowflake.Prelude.{
  ◌≡◌, refl, ◌∙◌, subst, Bool, true, false, Option, none, some, List, Text,
}
use mendix_for_snowflake.Models.{AppRecord}
use mendix_for_snowflake.Registry
use mendix_for_snowflake.Registry.{Rows, Field}
use mendix_for_snowflake.Names.{Settings}
use mendix_for_snowflake.World.{World, Environment, Exn, ok, pure, raise, require, ◌>>=◌}
use mendix_for_snowflake.Statements
use mendix_for_snowflake.Statements.{update_if}
use mendix_for_snowflake.Routes.Deploy.{Stage}
use mendix_for_snowflake.Auth.{authorize}
use mendix_for_snowflake.Mutations.Guard.{of_resume, get_app_ok}
use mendix_for_snowflake.Routes.Create.{CreateRequest, Registered, check_free, create_app}

module _ (env : Environment) (s : Settings) (req : CreateRequest) where
  free_ok :
      (found : Option AppRecord) (w : World)
      → (check_free env s req found w).0 ≡ ok tt
      → found ≡ none
  unfolding check_free raise
  free_ok none w h = refl
  free_ok (some r) w h = cc

  require_ok : (b : Bool) (e : Exn) (w : World) → (require b e w).0 ≡ ok tt → b ≡ true
  unfolding raise
  require_ok true e w h = refl
  require_ok false e w h = cc

  require_world : (b : Bool) (e : Exn) (w : World) → (require b e w).1 ≡ w
  unfolding raise pure
  require_world true e w = refl
  require_world false e w = refl

  -- A registration that answers was asked for by a caller that is authorized for the owner role, and
  -- no app had the name, in any case of its letters.
  pub create_app_fresh :
      (stage : Stage) (roles : List Text) (w : World) (a : Registered)
      → (create_app env s req stage roles w).0 ≡ ok a
      → (authorize s.privileged (some req.owner_role) roles ≡ true)
        × (Registry.get_app req.name w.registry ≡ none)
  unfolding create_app ◌>>=◌
  create_app_fresh stage roles w a h =
      let allowed = authorize s.privileged (some req.owner_role) roles in
      let (_, passed, h1) = of_resume _ (require allowed _ w).0 _ a h in
      let (found, got, h2) = of_resume _ (Statements.get_app env req.name _).0 _ a h1 in
      let (_, free, h3) = of_resume _ (check_free env s req found _).0 _ a h2 in
      (
        require_ok allowed _ w passed,
        subst (λ v. Registry.get_app req.name v.registry ≡ found) (require_world allowed _ w)
              (get_app_ok env s req.name roles _ found got)
            ∙ free_ok found _ free,
      )
