-- ===== src/Registry/Masking.antt =====
-- What the statements store of a constant's value.
use mendix_for_snowflake.Prelude.{
  ◌≡◌, refl, List, [], ◌∷◌, Text, Dict, All, same_name, Bool-cases, inl, inr, filter,
}
use mendix_for_snowflake.Models.{AppRecord, hidden_value}
use mendix_for_snowflake.Registry.{
  Rows, Field, mask_constants, set_field, set_fields, update_rows, create_app, delete_app,
}

-- Every constant reads as the sentinel.
abbrev pub IsMaskedDict : Dict Text → Type 0
IsMaskedDict cs = All (λ (e : Text × Text). e.1 ≡ hidden_value) cs

abbrev pub IsMasked : AppRecord → Type 0
IsMasked r = IsMaskedDict r.constants

mask_constants-IsMasked : (cs : Dict Text) → IsMaskedDict (mask_constants cs)
unfolding mask_constants
mask_constants-IsMasked [] = tt
mask_constants-IsMasked (e ∷ cs) = (refl, mask_constants-IsMasked cs)

set_field-IsMasked : (f : Field) (r : AppRecord) → IsMasked r → IsMasked (set_field f r)
unfolding set_field
set_field-IsMasked (Field.constants v) r h = mask_constants-IsMasked v
set_field-IsMasked _ r h = h

pub set_fields-IsMasked :
    (fs : List Field) (r : AppRecord) → IsMasked r → IsMasked (set_fields fs r)
unfolding set_fields
set_fields-IsMasked [] r h = h
set_fields-IsMasked (f ∷ fs) r h = set_fields-IsMasked fs (set_field f r) (set_field-IsMasked f r h)

pub update_rows-IsMasked :
    (name : Text) (fs : List Field) (rows : Rows)
    → All IsMasked rows
    → All IsMasked (update_rows name fs rows)
unfolding update_rows
update_rows-IsMasked name fs [] h = tt
update_rows-IsMasked name fs (r ∷ rs) h = elim (Bool-cases (same_name r.name name)) [
  | inl t ↦ rw t (set_fields-IsMasked fs r h.0, update_rows-IsMasked name fs rs h.1)
  | inr f ↦ rw f (h.0, update_rows-IsMasked name fs rs h.1)
]

pub create_app-IsMasked :
    (r : AppRecord) (rows : Rows) → All IsMasked rows → All IsMasked (create_app r rows)
unfolding create_app
create_app-IsMasked r [] h = (mask_constants-IsMasked r.constants, tt)
create_app-IsMasked r (s ∷ rs) h = (h.0, create_app-IsMasked r rs h.1)

pub delete_app-IsMasked :
    (name : Text) (rows : Rows) → All IsMasked rows → All IsMasked (delete_app name rows)
unfolding delete_app filter
delete_app-IsMasked name [] h = tt
delete_app-IsMasked name (r ∷ rs) h = elim (Bool-cases (same_name r.name name)) [
  | inl t ↦ rw t (delete_app-IsMasked name rs h.1)
  | inr f ↦ rw f (h.0, delete_app-IsMasked name rs h.1)
]
