-- ===== src/Registry/Lookup.antt =====
-- What `get_app` finds after each statement.
use mendix_for_snowflake.Prelude.{
  ◌≡◌, refl, Option, none, some, List, [], ◌∷◌, Text, same_name, same_name_iff, if◌then◌else◌,
  arith, filter, ◌∙◌,
}
use mendix_for_snowflake.Models.{AppRecord}
use mendix_for_snowflake.Registry.{
  Rows, Field, set_field, set_fields, update_rows, delete_app, get_app,
}

name-set_field : (f : Field) (r : AppRecord) → (set_field f r).name ≡ r.name
unfolding set_field
name-set_field (Field.constants v) r = refl
name-set_field _ r = refl

pub name-set_fields : (fs : List Field) (r : AppRecord) → (set_fields fs r).name ≡ r.name
unfolding set_fields
name-set_fields [] r = refl
name-set_fields (f ∷ fs) r = name-set_fields fs (set_field f r) ∙ name-set_field f r

-- The fields of an optional record, set.
abbrev pub set_found : List Field → Option AppRecord → Option AppRecord
set_found fs none = none
set_found fs (some r) = some (set_fields fs r)

-- An update reaches the named app, in whatever case its name is written, and no other.
pub get_app-update_rows :
    (n m : Text) (fs : List Field) (rows : Rows)
    → get_app m (update_rows n fs rows)
      ≡ (if same_name n m then set_found fs (get_app m rows) else get_app m rows)
unfolding get_app update_rows
get_app-update_rows n m fs [] = ground arith
get_app-update_rows n m fs (r ∷ rs) = ground (
  arith,
  get_app-update_rows n m fs rs,
  name-set_fields fs r,
  same_name_iff r.name n,
  same_name_iff r.name m,
  same_name_iff n m,
)

-- A deleted app is not found, in any case of its name, and the others are found as before.
pub get_app-delete_app :
    (n m : Text) (rows : Rows)
    → get_app m (delete_app n rows) ≡ (if same_name n m then none else get_app m rows)
unfolding get_app delete_app filter
get_app-delete_app n m [] = ground arith
get_app-delete_app n m (r ∷ rs) = ground (
  arith,
  get_app-delete_app n m rs,
  same_name_iff r.name n,
  same_name_iff r.name m,
  same_name_iff n m,
)
