-- ===== src/Registry/Columns.antt =====
-- The columns of a row of the table of apps, and what a field of an update sets.
use mendix_for_snowflake.Prelude.{
  ℕ, zero, suc, ◌≡◌, refl, ◌∙◌, ap, Bool, true, false, Option, none, some, List, [], ◌∷◌, map, Text,
  Dict, text, Option-cases, inl, inr,
}
use mendix_for_snowflake.Models.{AppRecord, ResourceTier, DeployStatus, Operation, StatusDetail}
use mendix_for_snowflake.Registry.{
  Field, is_allowed, mask_constants, set_field, set_fields, all_allowed,
}

-- A value of a column.
pub data Value : Type 0 where
  of_text : Text → Value
  of_optional : Option Text → Value
  of_tier : ResourceTier → Value
  of_flag : Bool → Value
  of_dict : Dict Text → Value
  of_texts : List Text → Value
  of_status : Option DeployStatus → Value
  of_time : Option ℕ → Value
  of_detail : Option StatusDetail → Value
  of_operation : Option Operation → Value

abbrev pub Columns : Type 0
Columns = List Value

-- The columns of a row, in a fixed order.
abbrev pub view : AppRecord → Columns
view r =
    of_text r.name
    ∷ of_text r.service_name
    ∷ of_text r.app_schema
    ∷ of_text r.pg_database
    ∷ of_text r.owner_role
    ∷ of_tier r.resource_tier
    ∷ of_flag r.use_caller_rights
    ∷ of_dict r.constants
    ∷ of_optional r.pad_stage_path
    ∷ of_optional r.endpoint_url
    ∷ of_optional r.license_id
    ∷ of_optional r.platform_image
    ∷ of_status r.last_deploy_status
    ∷ of_texts r.external_access
    ∷ of_texts r.user_roles
    ∷ of_dict r.role_mapping
    ∷ of_detail r.status_detail
    ∷ of_operation r.failed_operation
    ∷ of_flag r.platform_update_available
    ∷ of_time r.last_deployed_at
    ∷ []

-- The dict with its values hidden.
abbrev hidden : Dict Text → Value
hidden constants = of_dict (map (λ e. (e.0, text "<HIDDEN>")) constants)

-- The columns of a new row.
abbrev pub registered : AppRecord → Columns
registered r =
    of_text r.name
    ∷ of_text r.service_name
    ∷ of_text r.app_schema
    ∷ of_text r.pg_database
    ∷ of_text r.owner_role
    ∷ of_tier r.resource_tier
    ∷ of_flag r.use_caller_rights
    ∷ hidden r.constants
    ∷ of_optional r.pad_stage_path
    ∷ of_optional r.endpoint_url
    ∷ of_optional r.license_id
    ∷ of_optional r.platform_image
    ∷ of_status r.last_deploy_status
    ∷ of_texts r.external_access
    ∷ of_texts []
    ∷ of_dict []
    ∷ of_detail none
    ∷ of_operation none
    ∷ of_flag false
    ∷ of_time none
    ∷ []

-- The place and the value of the column that a field sets; none, for a column that may not be set.
abbrev pub cell : Field → Option (ℕ × Value)
cell (Field.owner_role v) = some (4, of_text v)
cell (Field.resource_tier v) = some (5, of_tier v)
cell (Field.use_caller_rights v) = some (6, of_flag v)
cell (Field.constants v) = some (7, hidden v)
cell (Field.pad_stage_path v) = some (8, of_optional v)
cell (Field.endpoint_url v) = some (9, of_optional v)
cell (Field.license_id v) = some (10, of_optional v)
cell (Field.platform_image v) = some (11, of_optional v)
cell (Field.last_deploy_status v) = some (12, of_status (some v))
cell (Field.external_access v) = some (13, of_texts v)
cell (Field.user_roles v) = some (14, of_texts v)
cell (Field.role_mapping none) = some (15, of_dict [])
cell (Field.role_mapping (some v)) = some (15, of_dict v)
cell (Field.status_detail v) = some (16, of_detail v)
cell (Field.failed_operation v) = some (17, of_operation v)
cell (Field.platform_update_available v) = some (18, of_flag v)
cell (Field.last_deployed_at v) = some (19, of_time (some v))
cell (Field.other_column _) = none

-- The cells of the fields, where all of them may be set.
abbrev pub cells : List Field → Option (List (ℕ × Value))
cells [] = some []
cells (f ∷ fs) =
    let rest = cells fs in
    elim (cell f) [ none ↦ none | some c ↦ elim rest [ none ↦ none | some cs ↦ some (c ∷ cs) ] ]

abbrev pub replace_at : ℕ → Value → Columns → Columns
replace_at n v [] = []
replace_at zero v (x ∷ xs) = v ∷ xs
replace_at (suc n) v (x ∷ xs) = x ∷ replace_at n v xs

abbrev pub replaced : List (ℕ × Value) → Columns → Columns
replaced [] xs = xs
replaced ((n, v) ∷ cs) xs = replaced cs (replace_at n v xs)

-- The second row is the first with the cell in its place.
abbrev Sets : Option (ℕ × Value) → AppRecord → AppRecord → Type 0
Sets none r r' = Unit
Sets (some (n, v)) r r' = view r' ≡ replace_at n v (view r)

set_field-Sets : (f : Field) (r : AppRecord) → Sets (cell f) r (set_field f r)
unfolding set_field mask_constants
set_field-Sets (Field.constants v) r = refl
set_field-Sets (Field.pad_stage_path v) r = refl
set_field-Sets (Field.endpoint_url v) r = refl
set_field-Sets (Field.license_id v) r = refl
set_field-Sets (Field.platform_image v) r = refl
set_field-Sets (Field.last_deploy_status v) r = refl
set_field-Sets (Field.last_deployed_at v) r = refl
set_field-Sets (Field.resource_tier v) r = refl
set_field-Sets (Field.use_caller_rights v) r = refl
set_field-Sets (Field.platform_update_available v) r = refl
set_field-Sets (Field.owner_role v) r = refl
set_field-Sets (Field.user_roles v) r = refl
set_field-Sets (Field.external_access v) r = refl
set_field-Sets (Field.role_mapping none) r = refl
set_field-Sets (Field.role_mapping (some v)) r = refl
set_field-Sets (Field.status_detail v) r = refl
set_field-Sets (Field.failed_operation v) r = refl
set_field-Sets (Field.other_column _) r = tt

view-set_field :
    (f : Field) (n : ℕ) (v : Value) (r : AppRecord)
    → cell f ≡ some (n, v)
    → view (set_field f r) ≡ replace_at n v (view r)
view-set_field f n v r h = let set = set_field-Sets f r in rw h at set

pub view-set_fields :
    (fs : List Field) (cs : List (ℕ × Value)) (r : AppRecord)
    → cells fs ≡ some cs
    → view (set_fields fs r) ≡ replaced cs (view r)
unfolding set_fields
view-set_fields [] cs r h = let same : [] ≡ cs = cc h in ap (λ l. replaced l (view r)) same
view-set_fields (f ∷ fs) cs r h = elim (Option-cases (cell f)) [
  | inl e ↦ let bad = rw (e, cells) at h in cc
  | inr ((n, v), e) ↦ elim (Option-cases (cells fs)) [
    | inl g ↦ let bad = rw (e, g, cells) at h in cc
    | inr (ds, g) ↦
        let same : some ((n, v) ∷ ds) ≡ some cs = rw (e, g, cells) at h in
        let first : (n, v) ∷ ds ≡ cs = cc same in
        view-set_fields fs ds (set_field f r) g
        ∙ ap (replaced ds) (view-set_field f n v r e)
        ∙ ap (λ l. replaced l (view r)) first
  ]
]

is_allowed-cell : (f : Field) → is_allowed f ≡ elim (cell f) [ none ↦ false | some c ↦ true ]
is_allowed-cell (Field.role_mapping none) = refl
is_allowed-cell (Field.role_mapping (some v)) = refl
is_allowed-cell (Field.other_column _) = refl
is_allowed-cell _ = refl

pub cells-all_allowed :
    (fs : List Field) → all_allowed fs ≡ elim (cells fs) [ none ↦ false | some cs ↦ true ]
unfolding all_allowed
cells-all_allowed [] = refl
cells-all_allowed (f ∷ fs) = elim (Option-cases (cell f)) [
  | inl e ↦ rw (is_allowed-cell f, e) refl
  | inr (c, e) ↦ elim (Option-cases (cells fs)) [
    | inl g ↦ rw (is_allowed-cell f, e, cells-all_allowed fs, g) refl
    | inr (cs, g) ↦ rw (is_allowed-cell f, e, cells-all_allowed fs, g) refl
  ]
]
