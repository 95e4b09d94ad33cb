-- ===== src/Requests.antt =====
-- The validators of the request bodies in Controller/app/models.py: `none` where one raises a
-- `ValueError`, which is answered 422.
pub mod Mapping
pub mod Create
use mendix_for_snowflake.Prelude.{
  ℕ, Bool, true, false, not, ◌&&◌, ◌||◌, Option, none, some, List, [], ◌∷◌, Text, Dict, contains,
  insert, keys, text, upper, strip, truthy, truthy?, length, leb, all, any, mem, filter, has_char,
  if◌then◌else◌,
}
use mendix_for_snowflake.PadParser.{is_constant_name, is_control, user_role_name_max}

-- `EAI_SLOT_KEYS`
abbrev pub eai_slot_keys : List Text
eai_slot_keys = text "app_eai_1" ∷ text "app_eai_2" ∷ text "app_eai_3" ∷ text "app_eai_4" ∷ []

-- `_validate_eai_slots`
unfoldable pub validate_eai_slots : List Text → Option (List Text)
validate_eai_slots slots = if all (λ slot. mem slot eai_slot_keys) slots then some slots else none

-- `_validate_constant_names`
unfoldable pub validate_constant_names : Dict Text → Option (Dict Text)
validate_constant_names constants =
    if all is_constant_name (keys constants) then some constants else none

-- `_check_license_pair`: both or neither.
unfoldable pub check_license_pair : Option Text → Option Text → Bool
check_license_pair license_id license_key =
    if truthy? license_id then truthy? license_key else not (truthy? license_key)

-- `_ROLE_MAPPING_MAX_ENTRIES`
abbrev pub role_mapping_max_entries : ℕ
role_mapping_max_entries = 50

-- The checks of one entry, stripped.
unfoldable pub is_mapping_key : Text → Bool
is_mapping_key key = truthy key && (leb (length key) 255 && not (any is_control key))

unfoldable pub is_mapping_value : Text → Bool
is_mapping_value val =
    truthy val
    && (leb (length val) user_role_name_max
        && (not (any is_control val) && not (has_char 39 val || has_char 34 val)))

unfoldable pub add_entries : Dict Text → Dict Text → Option (Dict Text)
unfolding is_mapping_key is_mapping_value
add_entries [] result = some result
add_entries ((raw_key, raw_val) ∷ mapping) result =
    let key = upper (strip raw_key) in
    let rest = add_entries mapping (insert key (strip raw_val) result) in
    if is_mapping_key (strip raw_key) && is_mapping_value (strip raw_val)
    then (if contains key result then none else rest)
    else none

-- `_check_role_mapping`
unfoldable pub check_role_mapping : Dict Text → Option (Dict Text)
unfolding add_entries
check_role_mapping [] = none
check_role_mapping (e ∷ mapping) =
    if leb (length (e ∷ mapping)) role_mapping_max_entries
    then add_entries (e ∷ mapping) []
    else none

-- `_check_recipients`
unfoldable pub check_recipients : List Text → Option (List Text)
check_recipients [] = some []
check_recipients (raw ∷ recipients) =
    let r = strip raw in
    let rest = check_recipients recipients in
    if truthy r
    then (if any is_control r
        then none
        else (if has_char b'@' r
            then (elim rest [ none ↦ none | some cleaned ↦ some (r ∷ cleaned) ])
            else none))
    else rest

abbrev pub within : ℕ → ℕ → Option ℕ → Bool
within lo hi none = true
within lo hi (some n) = leb lo n && leb n hi

-- The bounds of `UpdateComputePoolRequest`; `auto_suspend_secs` is a natural number.
unfoldable pub check_pool_bounds : Option ℕ → Option ℕ → Bool
check_pool_bounds min_nodes max_nodes = within 1 10 min_nodes && within 1 10 max_nodes
