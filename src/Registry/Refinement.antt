-- ===== src/Registry/Refinement.antt =====
-- The table of apps as what it stands for: a map from names, in upper case, to the values of the
-- columns. The order of the rows and the case of the names are forgotten.
use mathlib.Core.List.{append-nil}
use mendix_for_snowflake.Prelude.{
  ℕ, ◌≡◌, refl, ◌∙◌, sym, ap, true, false, Option, none, some, List, [], ◌∷◌, map, filter, Text,
  upper, text_eq, text_eq_iff, same_name, Bool-cases, Option-cases, inl, inr, if◌then◌else◌, get_or,
}
use mendix_for_snowflake.Models.{AppRecord}
use mendix_for_snowflake.Registry.{
  Rows, Field, all_allowed, update_rows, update_app, create_app, get_app, delete_app,
}
use mendix_for_snowflake.Registry.Columns.{
  Value, Columns, view, registered, cells, replaced, cells-all_allowed,
}
use mendix_for_snowflake.Registry.Matching.{
  matching, matching-create, matching-update, matching-delete,
}

abbrev pub AppMap : Type 0
AppMap = Text → Option Columns

abbrev pub nothing : AppMap
nothing key = none

abbrev replaced? : List (ℕ × Value) → Option Columns → Option Columns
replaced? cs none = none
replaced? cs (some xs) = some (replaced cs xs)

pub data Statement : Type 0 where
  create : AppRecord → Statement
  update : Text → List Field → Statement
  delete : Text → Statement

-- A statement on the table. One that raises leaves it as it is.
unfoldable pub run : Statement → Rows → Rows
run (create r) rows = create_app r rows
run (update name fs) rows = get_or (update_app name fs rows) rows
run (delete name) rows = delete_app name rows

-- What the statements mean for the map.
abbrev pub meaning : Statement → AppMap → AppMap
meaning (create r) f key = if text_eq (upper r.name) key then some (registered r) else f key
meaning (update name fs) f key = elim (cells fs) [
  | none ↦ f key
  | some cs ↦ if text_eq (upper name) key then replaced? cs (f key) else f key
]
meaning (delete name) f key = if text_eq (upper name) key then none else f key

unfoldable pub run_all : List Statement → Rows → Rows
unfolding run
run_all [] rows = rows
run_all (st ∷ sts) rows = run_all sts (run st rows)

abbrev pub meaning_all : List Statement → AppMap → AppMap
meaning_all [] f = f
meaning_all (st ∷ sts) f = meaning_all sts (meaning st f)

-- A registration takes a free name.
abbrev pub TakesFree : Statement → AppMap → Type 0
TakesFree (create r) f = f (upper r.name) ≡ none
TakesFree _ f = Unit

abbrev pub AllTakeFree : List Statement → AppMap → Type 0
AllTakeFree [] f = Unit
AllTakeFree (st ∷ sts) f = TakesFree st f × AllTakeFree sts (meaning st f)

-- At most one row
abbrev pub listed : Option Columns → List Columns
listed none = []
listed (some xs) = xs ∷ []

-- The table stands for the map.
abbrev pub Represents : Rows → AppMap → Type 0
Represents rows f = (name : Text) → map view (matching name rows) ≡ listed (f (upper name))

create-Represents :
    (r : AppRecord) (rows : Rows) (f : AppMap)
    → f (upper r.name) ≡ none
    → Represents rows f
    → Represents (create_app r rows) (meaning (create r) f)
unfolding same_name
create-Represents r rows f free h name =
    matching-create name rows r ∙ elim (Bool-cases (text_eq (upper r.name) (upper name))) [
      | inl t ↦
          let same = (text_eq_iff (upper r.name) (upper name)).0 t in
          rw (h name, t) (rw (sym same, free) refl)
      | inr e ↦ rw (h name, e) (append-nil (listed (f (upper name))))
    ]

map-listed :
    (cs : List (ℕ × Value)) (o : Option Columns)
    → map (replaced cs) (listed o) ≡ listed (replaced? cs o)
map-listed cs none = refl
map-listed cs (some xs) = refl

change-Represents :
    (n : Text) (fs : List Field) (cs : List (ℕ × Value)) (rows : Rows) (f : AppMap)
    → cells fs ≡ some cs
    → Represents rows f
    → Represents (update_rows n fs rows) (meaning (update n fs) f)
unfolding same_name
change-Represents n fs cs rows f e h name =
    matching-update n name fs cs rows e
    ∙ ap (λ l. if same_name n name then map (replaced cs) l else l) (h name)
    ∙ rw (e, meaning)
        (elim (Bool-cases (text_eq (upper n) (upper name))) [
          | inl t ↦ rw t (map-listed cs (f (upper name)))
          | inr g ↦ rw g refl
        ])

remove-Represents :
    (n : Text) (rows : Rows) (f : AppMap)
    → Represents rows f
    → Represents (delete_app n rows) (meaning (delete n) f)
unfolding same_name
remove-Represents n rows f h name =
    matching-delete n name rows
    ∙ rw (h name) (elim (Bool-cases (text_eq (upper n) (upper name))) [
      | inl t ↦ rw t refl
      | inr g ↦ rw g refl
    ])

replaced?-nil : (o : Option Columns) → replaced? [] o ≡ o
replaced?-nil none = refl
replaced?-nil (some xs) = refl

unchanged-nil : (n key : Text) (f : AppMap) → meaning (update n []) f key ≡ f key
unchanged-nil n key f = elim (Bool-cases (text_eq (upper n) key)) [
  | inl t ↦ rw t (replaced?-nil (f key))
  | inr e ↦ rw e refl
]

update-Represents :
    (n : Text) (fs : List Field) (rows : Rows) (f : AppMap)
    → Represents rows f
    → Represents (run (update n fs) rows) (meaning (update n fs) f)
unfolding run update_app
update-Represents n [] rows f h name = h name ∙ sym (ap listed (unchanged-nil n (upper name) f))
update-Represents n (x ∷ fs) rows f h name = elim (Option-cases (cells (x ∷ fs))) [
  | inl e ↦
      let refused : all_allowed (x ∷ fs) ≡ false = cells-all_allowed (x ∷ fs) ∙ rw e refl in
      rw (refused, e, meaning) (h name)
  | inr (cs, e) ↦
      let taken : all_allowed (x ∷ fs) ≡ true = cells-all_allowed (x ∷ fs) ∙ rw e refl in
      rw taken (change-Represents n (x ∷ fs) cs rows f e h name)
]

run-Represents :
    (st : Statement) (rows : Rows) (f : AppMap)
    → TakesFree st f
    → Represents rows f
    → Represents (run st rows) (meaning st f)
unfolding run
run-Represents (create r) rows f free h = create-Represents r rows f free h
run-Represents (delete n) rows f free h = remove-Represents n rows f h
run-Represents (update n fs) rows f free h = update-Represents n fs rows f h

run_all-Represents :
    (sts : List Statement) (rows : Rows) (f : AppMap)
    → AllTakeFree sts f
    → Represents rows f
    → Represents (run_all sts rows) (meaning_all sts f)
unfolding run_all
run_all-Represents [] rows f free h = h
run_all-Represents (st ∷ sts) rows f (free, later) h =
    run_all-Represents sts (run st rows) (meaning st f) later (run-Represents st rows f free h)

abbrev pub found_view : Text → Rows → Option Columns
found_view name rows = elim (get_app name rows) [ none ↦ none | some r ↦ some (view r) ]

one_listed : (x : Columns) (xs : List Columns) (o : Option Columns) → x ∷ xs ≡ listed o → some x ≡ o
one_listed x xs none h = cc h
one_listed x xs (some y) h = let same : x ≡ y = cc h in ap (λ l. some l) same

found_of :
    (name : Text) (rows : Rows) (o : Option Columns)
    → map view (matching name rows) ≡ listed o
    → found_view name rows ≡ o
unfolding get_app filter
found_of name [] none h = refl
found_of name [] (some xs) h = cc h
found_of name (r ∷ rows) o h = elim (Bool-cases (same_name r.name name)) [
  | inl t ↦ rw (t, found_view) (one_listed (view r) (map view (matching name rows)) o (rw t at h))
  | inr f ↦ rw (f, found_view) (found_of name rows o (rw f at h))
]

-- The table of apps refines a map from names, in upper case, to the values of the columns. After any
-- sequence of registrations of free names, updates and deletions, one that raises included, a lookup
-- selects one row at most, in whatever case the name is written: the one that the map has for it, with
-- the value in each column, which is what the statements last put there, those of constants hidden.
pub registry_refines :
    (sts : List Statement) (name : Text)
    → AllTakeFree sts nothing
    → let rows = run_all sts [] in
      (map view (matching name rows) ≡ listed (meaning_all sts nothing (upper name)))
      × (found_view name rows ≡ meaning_all sts nothing (upper name))
unfolding filter
registry_refines sts name free =
    let selected = run_all-Represents sts [] nothing free (λ n. refl) name in
    (selected, found_of name (run_all sts []) (meaning_all sts nothing (upper name)) selected)
