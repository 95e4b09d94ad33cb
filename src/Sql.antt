-- ===== src/Sql.antt =====
-- Controller/app/snowflake_client.py: the texts of the statements, `none` where a function raises
-- before it sends one. `schema` is `_DB_SCHEMA`.
pub mod Literals
pub mod Interlock
use mendix_for_snowflake.Prelude.{
  ℕ, Bool, true, false, not, ◌&&◌, ◌||◌, Option, none, some, List, [], ◌∷◌, ◌++◌, Text, text, split,
  upper, starts_with, truthy, join, last_of, decimal, ◌==◌, if◌then◌else◌,
}
use mendix_for_snowflake.PadParser.{is_letter, is_word}
use mendix_for_snowflake.Names.{app_access_role_name}

unfoldable pub is_part_start : ℕ → Bool
is_part_start c = is_letter c || c == b'_'

unfoldable pub is_part_char : ℕ → Bool
is_part_char c = is_word c || c == b'$'

-- The pattern from a place on: at the start of a part, or behind its first character. `$` also
-- matches before a newline that ends the text.
unfoldable pub matches_parts : Bool → Text → Bool
unfolding is_part_start is_part_char
matches_parts false [] = false
matches_parts false (c ∷ cs) = is_part_start c && matches_parts true cs
matches_parts true [] = true
matches_parts true (c ∷ cs) =
    let same_part = matches_parts true cs in
    let next_part = matches_parts false cs in
    if is_part_char c
    then same_part
    else (if c == b'.' then next_part else c == 10 && not (truthy cs))

-- `_IDENTIFIER_RE.match`
unfoldable pub is_identifier : Text → Bool
unfolding matches_parts
is_identifier fqn = matches_parts false fqn

-- `_assert_identifier`, before a statement
unfoldable pub guarded : Text → Text → Option Text
guarded fqn sql = if is_identifier fqn then some sql else none

-- `value.replace("'", "''")`
unfoldable pub escape : Text → Text
escape [] = []
escape (c ∷ cs) = if c == 39 then 39 ∷ 39 ∷ escape cs else c ∷ escape cs

-- The statement of `create_or_replace_secret` up to the opening quote
unfoldable pub secret_head : Text → Text
secret_head fqn =
    text "CREATE OR REPLACE SECRET " ++ (fqn ++ text " TYPE = GENERIC_STRING SECRET_STRING = '")

unfoldable pub create_or_replace_secret : Text → Text → Option Text
unfolding guarded escape secret_head
create_or_replace_secret fqn value = guarded fqn (secret_head fqn ++ (escape value ++ text "'"))

unfoldable pub drop_secret : Text → Option Text
unfolding guarded
drop_secret fqn = guarded fqn (text "DROP SECRET IF EXISTS " ++ fqn)

unfoldable pub create_schema : Text → Option Text
unfolding guarded
create_schema fqn = guarded fqn (text "CREATE SCHEMA IF NOT EXISTS " ++ fqn)

-- The interlock: `fqn.split(".")[-1].upper().startswith("MXAPP_")`
unfoldable pub is_per_app : Text → Bool
is_per_app fqn = starts_with (text "MXAPP_") (upper (last_of [] (split b'.' fqn)))

unfoldable pub drop_schema_cascade : Text → Option Text
unfolding guarded is_per_app
drop_schema_cascade fqn =
    if is_identifier fqn
    then (if is_per_app fqn
        then some (text "DROP SCHEMA IF EXISTS " ++ (fqn ++ text " CASCADE"))
        else none)
    else none

unfoldable pub create_stage : Text → Text
create_stage fqn =
    text "CREATE STAGE IF NOT EXISTS " ++ (fqn ++ text " ENCRYPTION = (TYPE = 'SNOWFLAKE_SSE')")

unfoldable pub drop_app_access_role : Text → Text
drop_app_access_role app_name =
    text "DROP APPLICATION ROLE IF EXISTS " ++ app_access_role_name app_name

unfoldable pub create_app_access_role : Text → Text
create_app_access_role app_name =
    text "CREATE APPLICATION ROLE IF NOT EXISTS " ++ app_access_role_name app_name

module _ (schema : Text) where
  unfoldable pub in_schema : Text → Text
  in_schema name = schema ++ (text "." ++ name)

  unfoldable pub grant_monitor : Text → Text
  unfolding in_schema
  grant_monitor name =
      text "GRANT MONITOR ON SERVICE " ++ (in_schema name ++ text " TO APPLICATION ROLE app_admin")

  -- The two statements, the second after the first has run
  unfoldable pub create_service : Text → Text → Text → List Text → Text → List Text
  unfolding grant_monitor join
  create_service name spec compute_pool eai_names warehouse =
      (text "CREATE SERVICE "
        ++ (in_schema name
            ++ (text "\n    IN COMPUTE POOL "
                ++ (compute_pool
                    ++ (text "\n    FROM SPECIFICATION $$"
                        ++ (spec
                            ++ (text
                                  "$$\n    MIN_INSTANCES = 1\n    MAX_INSTANCES = 1\n    EXTERNAL_ACCESS_INTEGRATIONS = ("
                                ++ (join (text ", ") eai_names
                                    ++ (text ")\n    QUERY_WAREHOUSE = "
                                        ++ (warehouse ++ text "\n"))))))))))
      ∷ grant_monitor name
      ∷ []

  unfoldable pub alter_service_spec : Text → Text → Text
  unfolding in_schema
  alter_service_spec name spec =
      text "ALTER SERVICE "
      ++ (in_schema name ++ (text " FROM SPECIFICATION $$" ++ (spec ++ text "$$")))

  unfoldable pub set_service_external_access : Text → List Text → Text
  unfolding in_schema join
  set_service_external_access name eai_names =
      text "ALTER SERVICE "
      ++ (in_schema name
          ++ (text " SET EXTERNAL_ACCESS_INTEGRATIONS = ("
              ++ (join (text ", ") eai_names ++ text ")")))

  unfoldable pub suspend_service : Text → Text
  unfolding in_schema
  suspend_service name = text "ALTER SERVICE " ++ (in_schema name ++ text " SUSPEND")

  unfoldable pub resume_service : Text → Text
  unfolding in_schema
  resume_service name = text "ALTER SERVICE " ++ (in_schema name ++ text " RESUME")

  unfoldable pub drop_service : Text → Text
  unfolding in_schema
  drop_service name = text "DROP SERVICE IF EXISTS " ++ in_schema name

  unfoldable pub grant_endpoint_to_app_role : Text → Text → Text
  unfolding in_schema
  grant_endpoint_to_app_role service_name app_role =
      text "GRANT SERVICE ROLE "
      ++ (in_schema service_name ++ (text "!ALL_ENDPOINTS_USAGE TO APPLICATION ROLE " ++ app_role))

-- One assignment of `alter_compute_pool`
unfoldable pub assignment : Text → Option ℕ → List Text
assignment key none = []
assignment key (some n) = (key ++ (text " = " ++ decimal n)) ∷ []

unfoldable pub pool_parts : Option ℕ → Option ℕ → Option ℕ → List Text
unfolding assignment
pool_parts min_nodes max_nodes auto_suspend_secs =
    assignment (text "MIN_NODES") min_nodes
    ++ (assignment (text "MAX_NODES") max_nodes
        ++ assignment (text "AUTO_SUSPEND_SECS") auto_suspend_secs)

alter_by : Text → List Text → Option Text
unfolding join
alter_by pool_name [] = none
alter_by pool_name (p ∷ parts) =
    some
      (text "ALTER COMPUTE POOL " ++ (pool_name ++ (text " SET " ++ join (text " ") (p ∷ parts))))

-- Nothing is sent where no field is given.
unfoldable pub alter_compute_pool : Text → Option ℕ → Option ℕ → Option ℕ → Option Text
unfolding pool_parts alter_by
alter_compute_pool pool_name min_nodes max_nodes auto_suspend_secs =
    alter_by pool_name (pool_parts min_nodes max_nodes auto_suspend_secs)
