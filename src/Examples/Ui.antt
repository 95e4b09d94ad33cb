-- ===== src/Examples/Ui.antt =====
-- The admin UI at concrete inputs.
use mendix_for_snowflake.Prelude.{
  ℕ, ◌≡◌, arith, lookup, refl, true, false, Option, none, some, List, [], ◌∷◌, ◌++◌, Text, text,
  text_eq, mem, any, upper, to_upper, strip, strip_left, is_space, All,
}
use mendix_for_snowflake.Auth.{authorize, privileged_roles}
use mendix_for_snowflake.World.{ok}
use mendix_for_snowflake.Routes.{checked}
use mendix_for_snowflake.AdminUi.Identity.{is_privileged_operator}
use mendix_for_snowflake.AdminUi.Identity.Forwarding.{
  IsPlainRole, seen_by_controller, forwarded_roles_arrive, comma_role_escalates,
}
use mendix_for_snowflake.Auth.{Request}
use mendix_for_snowflake.AdminUi.Apps.{redeploy, is_disabled, status_badge}
use mendix_for_snowflake.AdminUi.Apps.Buttons.{enabled_is_admitted}
use mendix_for_snowflake.Examples.Data.{settings, shop, start_world, smooth}

abbrev digest : Text → Text
digest token = token

abbrev session : ℕ → Text → Option (Option Text × List Text)
session now token = none

abbrev secret : Text
secret = text "s3cret"

abbrev two_roles : List Text
two_roles = text "SALES" ∷ text "HR ADMIN" ∷ []

two_plain : All IsPlainRole two_roles
unfolding strip strip_left is_space upper to_upper
two_plain = ((refl, refl, refl, omega arith), ((refl, refl, refl, omega arith), tt))

forwarded_roles_arrive_example :
    let identity = seen_by_controller digest session secret [] (text "ALICE") two_roles in
    (identity ≡ record { user = some (text "ALICE"); roles = two_roles })
    × (is_privileged_operator none two_roles
        ≡ any (λ r. mem r (privileged_roles none)) identity.roles)
forwarded_roles_arrive_example =
    forwarded_roles_arrive digest session secret [] (text "ALICE") two_roles none refl refl
      two_plain

parts_plain : All IsPlainRole (text "TEAM" ∷ text "ACCOUNTADMIN" ∷ [])
unfolding strip strip_left is_space upper to_upper
parts_plain = ((refl, refl, refl, omega arith), ((refl, refl, refl, omega arith), tt))

admin_privileged : mem (text "ACCOUNTADMIN") settings.privileged ≡ true
unfolding mem text_eq
admin_privileged = refl

comma_role_escalates_example :
    let identity =
      seen_by_controller digest session secret []
        (text "MALLORY")
        ((text "TEAM" ++ b',' ∷ text "ACCOUNTADMIN") ∷ []) in
    (identity.roles ≡ text "TEAM" ∷ text "ACCOUNTADMIN" ∷ [])
    × (authorize settings.privileged (some (text "sales")) identity.roles ≡ true)
comma_role_escalates_example =
    comma_role_escalates digest session secret [] (text "MALLORY") (text "TEAM")
      (text "ACCOUNTADMIN") settings.privileged (some (text "sales")) refl refl parts_plain
      admin_privileged

abbrev alice : Request
alice = record {
  caller_token = none;
  operator = some (text "ALICE");
  operator_roles = none;
  internal_auth = none;
}

sales_authorized : authorize settings.privileged (some shop.owner_role) (text "SALES" ∷ []) ≡ true
unfolding authorize any mem text_eq upper to_upper
sales_authorized = refl

redeploy_enabled : is_disabled shop (text "RUNNING") redeploy ≡ false
unfolding is_disabled mem text_eq
redeploy_enabled = refl

enabled_is_admitted_example :
    checked smooth settings (text "shop") (text "SALES" ∷ []) true (some shop) start_world
    ≡ (ok shop, start_world)
enabled_is_admitted_example =
    enabled_is_admitted smooth settings (text "shop") (text "SALES" ∷ []) start_world shop
      (text "RUNNING") redeploy tt sales_authorized redeploy_enabled

ready_badge : status_badge (some (text "ready")) ≡ text "🟢 ready"
unfolding status_badge upper to_upper text_eq lookup
ready_badge = refl
