-- ===== src/AdminUi/Logs/Sources.antt =====
-- Which source a label stands for.
use mendix_for_snowflake.Prelude.{
  ◌≡◌, refl, sym, subst, Bool, true, false, some, List, [], ◌∷◌, map, Text, text, text_eq,
  text_eq_iff, In, All, Bool-cases, inl, inr, ◌⊎◌, arith,
}
use mendix_for_snowflake.PadParser.{is_letter, is_between}
use mendix_for_snowflake.Requests.Create.{is_field_name}
use mendix_for_snowflake.AdminUi.Logs.{Kind, Source, app_source, system_sources, sources, select}

-- No app can be registered under the label of a system source.
label_free : (name rest : Text) → is_field_name name ≡ true → text_eq (128736 ∷ rest) name ≡ false
unfolding is_field_name text_eq is_letter is_between
label_free [] rest h = refl
label_free (c ∷ cs) rest h = ground arith

select-app :
    (label : Text) (names : List Text) (kind : Kind) (key : Text)
    → select label (map app_source names) ≡ some (kind, key)
    → (kind ≡ Kind.app) × (key ≡ label) × In label names
unfolding select
select-app label [] kind key h = cc
select-app label (n ∷ names) kind key h = elim (Bool-cases (text_eq n label)) [
  | inl t ↦
      let e = (text_eq_iff n label).0 t in
      (cc (rw (t, select) at h), cc (rw (t, select) at h, e), inl e)
  | inr f ↦
      let (app, same, held) = select-app label names kind key (rw f at h) in (app, same, inr held)
]

label_unused :
    (rest : Text) (names : List Text)
    → All (λ n. is_field_name n ≡ true) names
    → In (128736 ∷ rest) names
    → ⊥
label_unused rest [] valid held = held
label_unused rest (n ∷ names) (here, valid) (inr held) = label_unused rest names valid held
label_unused rest (n ∷ names) (here, valid) (inl e) =
    let free = label_free n rest here in let same = (text_eq_iff (128736 ∷ rest) n).1 (sym e) in cc

-- What a label can stand for: an app of the list, by its own name; or, for a privileged operator, a
-- system service, and then no app of the list has the label for its name.
abbrev pub Stands : Bool → List Text → Text → Kind → Text → Type 0
Stands privileged names label kind key =
    ((kind ≡ Kind.app) × (key ≡ label) × In label names)
    ⊎ ((kind ≡ Kind.system) × (privileged ≡ true) × ¬ In label names)

select-system :
    (rest service : Text) (more : List Source) (names : List Text) (label : Text) (kind : Kind)
    (key : Text)
    → All (λ n. is_field_name n ≡ true) names
    → (select label more ≡ some (kind, key) → Stands true names label kind key)
    → select label ((128736 ∷ rest, Kind.system, service) ∷ more) ≡ some (kind, key)
    → Stands true names label kind key
unfolding select
select-system rest service more names label kind key valid later h =
    elim (Bool-cases (text_eq (128736 ∷ rest) label)) [
      | inr f ↦ later (rw (f, select) at h)
      | inl t ↦
          let e = (text_eq_iff (128736 ∷ rest) label).0 t in
          inr (
            cc (rw (t, select) at h),
            refl,
            λ held. label_unused rest names valid (subst (λ l. In l names) (sym e) held),
          )
    ]

-- Where the apps of the list have names that can be registered, each label that the page offers stands
-- for one thing only: it selects an app of the list, by the app's own name, or, for a privileged
-- operator alone, a system service whose label is the name of no app.
pub select-Stands :
    (privileged : Bool) (names : List Text) (label : Text) (kind : Kind) (key : Text)
    → All (λ n. is_field_name n ≡ true) names
    → select label (sources privileged names) ≡ some (kind, key)
    → Stands privileged names label kind key
unfolding sources system_sources
select-Stands false names label kind key valid h = inl (select-app label names kind key h)
select-Stands true names label kind key valid h =
    select-system _ (text "controller") _ names label kind key valid
      (select-system _ (text "admin-ui") _ names label kind key valid
        (λ more. inl (select-app label names kind key more)))
      h
