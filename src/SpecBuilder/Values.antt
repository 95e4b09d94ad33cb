-- ===== src/SpecBuilder/Values.antt =====
-- What the specification takes from the constants.
use mendix_for_snowflake.Prelude.{
  ◌≡◌, refl, ◌∙◌, ap, lower, Bool, Option, List, [], ◌∷◌, map, Text, Dict, keys,
}
use mendix_for_snowflake.Models.{ResourceTier}
use mendix_for_snowflake.Names.{Settings, const_secret_name}
use mendix_for_snowflake.SpecBuilder.{
  PadConstant, constant_entries, secret_entries, build_spec, mount,
}
use mendix_for_snowflake.Respec.{constants_from_dict}

module _ (s : Settings) where
  constant_entries_names :
      (app_schema : Text) (cs : List PadConstant)
      → constant_entries s app_schema cs
        ≡ map (λ n. mount s app_schema n (lower n)) (map (λ c. c.secret_name) cs)
  unfolding constant_entries
  constant_entries_names app_schema [] = refl
  constant_entries_names app_schema (c ∷ cs) = cc (constant_entries_names app_schema cs)

  secret_names_of_keys :
      (d : Dict Text)
      → map (λ c. c.secret_name) (constants_from_dict d) ≡ map const_secret_name (keys d)
  unfolding constants_from_dict keys
  secret_names_of_keys [] = refl
  secret_names_of_keys (e ∷ d) = cc (secret_names_of_keys d)

  entries_of_keys :
      (app_schema : Text) (d : Dict Text)
      → constant_entries s app_schema (constants_from_dict d)
        ≡ map (λ n. mount s app_schema n (lower n)) (map const_secret_name (keys d))
  entries_of_keys app_schema d =
      constant_entries_names app_schema (constants_from_dict d)
      ∙ ap (map (λ n. mount s app_schema n (lower n))) (secret_names_of_keys d)

  -- The specification of an app depends on its constants by their names alone: two sets of constants
  -- with the same names, whatever their values, have the same specification.
  pub build_spec_ignores_values :
      (name app_schema pg_database : Text) (tier : ResourceTier) (d e : Dict Text) (caller : Bool)
      (license : Option Text) (mapping : Dict Text) (pad : Option Text)
      → keys d ≡ keys e
      → build_spec s name app_schema pg_database tier
          (constants_from_dict d)
          caller
          license
          mapping
          pad
        ≡ build_spec s name app_schema pg_database tier
            (constants_from_dict e)
            caller
            license
            mapping
            pad
  unfolding build_spec secret_entries
  build_spec_ignores_values name app_schema pg_database tier d e caller license mapping pad h =
      rw (entries_of_keys app_schema d) (rw (entries_of_keys app_schema e) (rw h refl))
