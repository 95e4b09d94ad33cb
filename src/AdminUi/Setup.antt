-- ===== src/AdminUi/Setup.antt =====
-- Two helpers of the pages: Admin UI/app/setup_checks.py, and `pad_filename` of Admin UI/app/data.py.
use mendix_for_snowflake.Prelude.{
  ◌≡◌, ap, ◌∙◌, refl, Option, none, some, List, [], ◌∷◌, ◌++◌, Text, filter, Bool-cases, inl, inr,
  true, text, split, last_of, truthy, if◌then◌else◌, Lacks, split-append, split-Lacks,
}
use mendix_for_snowflake.Compliance.Paths.{parts_of, name_of, is_segment}

abbrev pub show_secrets : Text → Text
show_secrets name = text "SHOW SECRETS LIKE '" ++ (name ++ text "'")

abbrev pub in_schema : Text → Text
in_schema schema = text " IN SCHEMA " ++ (schema ++ text ";")

clause_of : List Text → Text
unfolding last_of
clause_of (database ∷ schema ∷ name ∷ []) =
    show_secrets name ++ in_schema (database ++ (text "." ++ schema))
clause_of (schema ∷ name ∷ []) = show_secrets name ++ in_schema schema
clause_of parts = show_secrets (last_of [] parts) ++ text ";"

-- `_secret_show_clause`, for a name of one, two or three parts
unfoldable pub secret_show_clause : Text → Text
unfolding split clause_of
secret_show_clause secret_fqn = clause_of (split b'.' secret_fqn)

-- `render_verify_sql`, as its lines
unfoldable pub render_verify_sql : Text → Text → Text → List Text
unfolding secret_show_clause
render_verify_sql db_instance eai secret_fqn =
    (text "SHOW POSTGRES INSTANCES LIKE '" ++ (db_instance ++ text "';"))
    ∷ text "-- expect one row, state READY or ACTIVE"
    ∷ []
    ∷ (text "SHOW EXTERNAL ACCESS INTEGRATIONS LIKE '" ++ (eai ++ text "';"))
    ∷ text "-- expect one row, enabled = true"
    ∷ []
    ∷ secret_show_clause secret_fqn
    ∷ text "-- expect one row"
    ∷ []

-- `pad_filename`
unfoldable pub pad_filename : Option Text → Text
unfolding name_of
pad_filename none = []
pad_filename (some path) = if truthy path then name_of path else []

-- A full name is looked up in its own schema.
pub secret_show_clause-full :
    (database schema name : Text)
    → Lacks b'.' database
    → Lacks b'.' schema
    → Lacks b'.' name
    → secret_show_clause (database ++ b'.' ∷ (schema ++ b'.' ∷ name))
      ≡ show_secrets name ++ in_schema (database ++ (text "." ++ schema))
unfolding secret_show_clause
secret_show_clause-full database schema name d s n =
    rw
      (
        split-append b'.' database (schema ++ b'.' ∷ name) d,
        split-append b'.' schema name s,
        split-Lacks b'.' name n,
        clause_of,
      )
      refl

last_segment :
    (before : List Text) (a file : Text)
    → is_segment file ≡ true
    → last_of a (filter is_segment (before ++ file ∷ [])) ≡ file
unfolding last_of filter
last_segment [] a file h = rw h refl
last_segment (b ∷ before) a file h = elim (Bool-cases (is_segment b)) [
  | inl t ↦ rw t (last_segment before b file h)
  | inr f ↦ rw f (last_segment before a file h)
]

apps_Lacks : Lacks 47 (text "apps")
apps_Lacks = (λ e. cc e, (λ e. cc e, (λ e. cc e, (λ e. cc e, tt))))

parts_of-staged :
    (name file : Text)
    → Lacks 47 name
    → Lacks 47 file
    → parts_of (text "apps/" ++ (name ++ 47 ∷ file))
      ≡ filter is_segment (text "apps" ∷ name ∷ file ∷ [])
unfolding parts_of
parts_of-staged name file n f =
    ap (λ pieces. filter is_segment pieces)
      (split-append 47 (text "apps") (name ++ 47 ∷ file) apps_Lacks
        ∙ ap (λ t. text "apps" ∷ t)
            (split-append 47 name file n ∙ ap (λ t. name ∷ t) (split-Lacks 47 file f)))

-- The page shows the name of the file that is staged for an app.
pub pad_filename-staged :
    (name file : Text)
    → Lacks 47 name
    → Lacks 47 file
    → is_segment file ≡ true
    → pad_filename (some (text "apps/" ++ (name ++ 47 ∷ file))) ≡ file
unfolding pad_filename name_of
pad_filename-staged name file n f h =
    ap (λ parts. last_of [] parts) (parts_of-staged name file n f)
    ∙ last_segment (text "apps" ∷ name ∷ []) [] file h
