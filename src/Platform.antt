-- ===== src/Platform.antt =====
-- `_refresh_platform_staleness` of Controller/app/main.py, which runs once at startup.
pub mod Current
use mendix_for_snowflake.Prelude.{
  Bool, true, false, not, Option, none, some, List, [], ◌∷◌, Text, text_eq, is_some, if◌then◌else◌,
}
use mendix_for_snowflake.Models.{AppRecord}
use mendix_for_snowflake.Registry.{Rows, Field}
use mendix_for_snowflake.Names.{Settings}
use mendix_for_snowflake.World.{Environment, Exec, pure, ◌>>=◌, ◌>>◌}
use mendix_for_snowflake.Statements.{list_apps, update_app}

module _ (env : Environment) (s : Settings) where
  image_differs : Option Text → Bool → Bool
  image_differs none was_deployed = was_deployed
  image_differs (some image) was_deployed = not (text_eq image s.mendix_base_image)

  -- `_is_platform_stale`
  unfoldable pub is_platform_stale : AppRecord → Bool
  unfolding image_differs
  is_platform_stale r = image_differs r.platform_image (is_some r.last_deployed_at)

  -- The flag is not what it should be.
  abbrev pub is_outdated : Bool → Bool → Bool
  is_outdated true flag = not flag
  is_outdated false flag = flag

  unfoldable pub refresh_rows : Rows → Exec (Unit {0})
  refresh_rows [] = pure tt
  refresh_rows (r ∷ rows) =
      let rest = refresh_rows rows in
      let stale = is_platform_stale r in
      if is_outdated stale r.platform_update_available
      then update_app env r.name (Field.platform_update_available stale ∷ []) >> rest
      else rest

  -- `_refresh_platform_staleness`
  unfoldable pub refresh_platform_staleness : Exec (Unit {0})
  unfolding refresh_rows
  refresh_platform_staleness = list_apps env >>= refresh_rows
