-- ===== src/Examples/Reads.antt =====
-- Reads, the audit log and the request bodies at concrete inputs.
use mendix_for_snowflake.Prelude.{
  ◌≡◌, refl, false, none, some, [], ◌∷◌, List, Text, Dict, text, upper, text_eq, same_name, any,
  mem, map, All,
}
use mendix_for_snowflake.Models.{AppRecord}
use mendix_for_snowflake.Registry
use mendix_for_snowflake.Auth.{authorize}
use mendix_for_snowflake.World.{World, Reason, Call, http, ok, raised, called}
use mendix_for_snowflake.Routes.{record_for_read}
use mendix_for_snowflake.Routes.Read.{Listed}
use mendix_for_snowflake.Routes.Read.Hidden.{record_for_read_hides}
use mendix_for_snowflake.Platform.{is_platform_stale, refresh_platform_staleness}
use mendix_for_snowflake.Platform.Current.{without_flag, IsCurrent, refresh-IsCurrent}
use mendix_for_snowflake.Examples.Data.{settings, shop, start_world, smooth}

abbrev strangers : List Text
strangers = text "HR" ∷ []

record_for_read_hides_example :
    record_for_read smooth settings (text "shop") strangers start_world ≡ (
      raised (http 404 (Reason.app_not_found (text "shop"))),
      called smooth Call.select_apps start_world,
    )
unfolding Registry.get_app same_name text_eq upper authorize any mem
record_for_read_hides_example =
    record_for_read_hides smooth settings (text "shop") strangers start_world refl refl

abbrev current_shop : AppRecord
current_shop = record shop {
  platform_image = some (text "/repo@sha256:2");
  platform_update_available = false;
  endpoint_url = some (text "https://shop.example.com");
}

abbrev up_to_date : World
up_to_date = record start_world { registry = current_shop ∷ [] }

abbrev listing : List Listed
listing = record { app = current_shop; service_status = none } ∷ []

refresh-IsCurrent_example :
    let (r, w') = refresh_platform_staleness smooth settings start_world in
    (r ≡ ok tt)
    × (map (without_flag smooth settings) w'.registry
        ≡ map (without_flag smooth settings) start_world.registry)
    × All (IsCurrent smooth settings) w'.registry
refresh-IsCurrent_example =
    refresh-IsCurrent smooth settings start_world (λ n w fs. refl) refl (tt, tt)

-- The flag of the sample app, which runs an older image, is already as it should be.
shop_current : is_platform_stale smooth settings shop ≡ shop.platform_update_available
unfolding is_platform_stale text_eq
shop_current = refl

abbrev mapping : Dict Text
mapping = (text " sales ", text "User") ∷ []

abbrev checked_mapping : Dict Text
checked_mapping = (text "SALES", text "User") ∷ []
