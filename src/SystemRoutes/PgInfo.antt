-- ===== src/SystemRoutes/PgInfo.antt =====
-- The host and the port that the infrastructure page shows.
use mendix_for_snowflake.Prelude.{
  ◌≡◌, refl, true, none, some, List, ◌∷◌, ◌++◌, Text, truthy, Lacks, rpartition-Lacks,
  rpartition-append, rpartition?-Lacks, rpartition?-append,
}
use mendix_for_snowflake.PgAdmin.{parse_host_port}
use mendix_for_snowflake.World.{ok}
use mendix_for_snowflake.SystemRoutes.{Platform, Site, answered, pg, is_privileged}
use mendix_for_snowflake.SystemRoutes.Handlers.{get_pg_info}

abbrev pub bound_to : Platform → Text → Platform
bound_to p host_port = record p { pg_host = ok host_port }

module _ (p : Platform) (roles : List Text) (site : Site) where
  -- An address of a host and a port is split into the two. Of an address that is only a host, the
  -- host is answered as the port too, while the connections to it use the default port.
  pub get_pg_info_splits :
      (host port : Text)
      → is_privileged p roles ≡ true
      → Lacks b':' host
      → Lacks b':' port
      → truthy host ≡ true
      → truthy port ≡ true
      → (get_pg_info (bound_to p (host ++ b':' ∷ port)) roles site
          ≡ (answered (pg host (some port)), site))
        × (parse_host_port (host ++ b':' ∷ port) ≡ (host, some port))
        × (get_pg_info (bound_to p host) roles site ≡ (answered (pg host (some host)), site))
        × (parse_host_port host ≡ (host, none))
  unfolding get_pg_info parse_host_port is_privileged
  get_pg_info_splits host port h plain lacks has_host has_port = (
    rw (h, rpartition-append b':' host port lacks) (rw (has_host, has_port) refl),
    rw (rpartition?-append b':' host port lacks, parse_host_port) refl,
    rw (h, rpartition-Lacks b':' host plain) (rw has_host refl),
    rw (rpartition?-Lacks b':' host plain, parse_host_port) refl,
  )
