-- ===== src/Client/Config.antt =====
-- What is read back from the settings.
use mendix_for_snowflake.Prelude.{
  ◌≡◌, Option, none, some, Text, Dict, lookup-insert, lookup-erase, text_eq, if◌then◌else◌,
}
use mendix_for_snowflake.Client.{get_config, set_config}

-- After a setting is written, it reads as its new value, absent where that was none, and every other
-- setting reads as before.
pub get_config-set_config :
    (key other : Text) (value : Option Text) (config : Dict Text)
    → get_config other (set_config key value config)
      ≡ (if text_eq key other then value else get_config other config)
unfolding get_config set_config
get_config-set_config key other none config = lookup-erase key other config
get_config-set_config key other (some value) config = lookup-insert key other value config
