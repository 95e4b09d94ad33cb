-- ===== src/AdminUi/Errors/Payloads.antt =====
-- The lists that a refusal of the controller carries, and what the UI reads back.
use mendix_for_snowflake.Prelude.{
  ◌≡◌, refl, ap, List, [], ◌∷◌, Text, text, text_eq, some, none, Option,
}
use mendix_for_snowflake.AdminUi.Errors.{
  Json, str, arr, obj, Items, nil, cons, end, field, Response, replied, request, raised,
  ControllerError, Outcome, body, strs, missing_constants, unknown_userroles,
}

-- A list of texts in JSON.
unfoldable pub items : List Text → Items
items [] = nil
items (t ∷ ts) = cons (str t) (items ts)

-- The answer to an `HTTPException` of trigger_deploy, as FastAPI wraps it
unfoldable pub missing_reply : List Text → Response
unfolding items
missing_reply names = replied 422 (
    some (
      obj (
        field (text "detail")
          (obj (
            field (text "detail") (str (text "New constants with no value"))
              (field (text "missing") (arr (items names)) end)))
          end)))

-- The answer to one of update_role_mapping
unfoldable pub userroles_reply : List Text → List Text → Response
unfolding items
userroles_reply unknown detected = replied 422 (
    some (
      obj (
        field (text "detail")
          (obj (
            field (text "detail")
              (str (text "Mapping targets userroles not present in the deployed PAD"))
              (field (text "unknown_userroles") (arr (items unknown))
                (field (text "detected_userroles") (arr (items detected)) end))))
          end)))

strs-items : (print : Json → Text) (names : List Text) → strs print (items names) ≡ names
unfolding strs items
strs-items print [] = refl
strs-items print (t ∷ ts) = ap (λ rest. t ∷ rest) (strs-items print ts)

-- What a page reads out of a refused request.
abbrev pub on_error {ℓ} : {A : Type ℓ} → (ControllerError → A) → Outcome → Option A
on_error f (body _) = none
on_error f (raised e) = some (f e)

-- The lists that the controller puts into a refusal are the lists that the UI reads out of it: the
-- constants without a value, and the unknown and the detected user roles. Neither refusal is taken
-- for the other.
pub refusal_lists_arrive :
    (print : Json → Text) (names unknown detected : List Text)
    → (on_error (missing_constants print) (request (missing_reply names)) ≡ some names)
      × (on_error (unknown_userroles print) (request (missing_reply names)) ≡ some ([], []))
      × (on_error (unknown_userroles print) (request (userroles_reply unknown detected))
          ≡ some (unknown, detected))
      × (on_error (missing_constants print) (request (userroles_reply unknown detected)) ≡ some [])
unfolding request missing_reply userroles_reply missing_constants unknown_userroles text_eq
refusal_lists_arrive print names unknown detected = (
  ap some (strs-items print names),
  refl,
  rw (strs-items print unknown, strs-items print detected) refl,
  refl,
)
