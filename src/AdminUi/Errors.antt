-- ===== src/AdminUi/Errors.antt =====
-- `ControllerError` and `_request` of Admin UI/app/controller_client.py: what the UI makes of an answer
-- of the controller.
pub mod Payloads
use mendix_for_snowflake.Prelude.{
  ℕ, Bool, true, false, Option, none, some, List, [], ◌∷◌, Text, text, text_eq, leb, map,
  if◌then◌else◌,
}

-- Parsed JSON.
mutual
  pub data Json : Type 0 where
    null : Json
    bool : Bool → Json
    num : ℕ → Json
    str : Text → Json
    arr : Items → Json
    obj : Fields → Json

  pub data Items : Type 0 where
    nil : Items
    cons : Json → Items → Items

  pub data Fields : Type 0 where
    end : Fields
    field : Text → Json → Fields → Fields

-- `d.get(key)` of an object; keys are unique.
unfoldable pub get : Text → Fields → Option Json
get key end = none
get key (field k v fs) = if text_eq k key then some v else get key fs

-- `isinstance(.., dict)`
abbrev pub fields_of : Option Json → Option Fields
fields_of (some (obj fs)) = some fs
fields_of _ = none

-- `isinstance(.., list)`
abbrev pub items_of : Option Json → Option Items
items_of (some (arr xs)) = some xs
items_of _ = none

-- An exception of the client: the status, and the body where that is an object.
pub record ControllerError : Type 0 where
  pub status_code : ℕ
  pub body : Fields

-- What the server sends: nothing, or a status with a body, `none` where it is no JSON.
pub data Response : Type 0 where
  unreachable : Response
  replied : ℕ → Option Json → Response

abbrev pub body_of : Option Json → Fields
body_of (some (obj fs)) = fs
body_of _ = end

pub data Outcome : Type 0 where
  body : Option Json → Outcome
  raised : ControllerError → Outcome

-- `_request`
unfoldable pub request : Response → Outcome
request unreachable = raised (record { status_code = 503; body = end })
request (replied status json) =
    if leb 400 status
    then raised (record { status_code = status; body = body_of json })
    else body json

-- `str` of a JSON value
module _ (print : Json → Text) where
  -- `str(m)`, which is the text itself for a text
  unfoldable pub str_of : Json → Text
  str_of (str t) = t
  str_of v = print v

  unfoldable pub strs : Items → List Text
  unfolding str_of
  strs nil = []
  strs (cons v vs) = str_of v ∷ strs vs

  named_list : Text → Option Fields → List Text
  unfolding strs get
  named_list key none = []
  named_list key (some detail) = elim (items_of (get key detail)) [ none ↦ [] | some xs ↦ strs xs ]

  -- `missing_constants`
  unfoldable pub missing_constants : ControllerError → List Text
  unfolding named_list get
  missing_constants e = named_list (text "missing") (fields_of (get (text "detail") e.body))

  detected : Option Json → List Text
  unfolding strs
  detected (some (arr xs)) = strs xs
  detected _ = []

  both_lists : Option Fields → List Text × List Text
  unfolding strs get detected
  both_lists none = ([], [])
  both_lists (some detail) = elim (items_of (get (text "unknown_userroles") detail)) [
    | none ↦ ([], [])
    | some xs ↦ (strs xs, detected (get (text "detected_userroles") detail))
  ]

  -- `unknown_userroles`
  unfoldable pub unknown_userroles : ControllerError → List Text × List Text
  unfolding both_lists get
  unknown_userroles e = both_lists (fields_of (get (text "detail") e.body))
