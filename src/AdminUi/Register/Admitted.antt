-- ===== src/AdminUi/Register/Admitted.antt =====
-- What the controller makes of a form that the page lets through.
use mendix_for_snowflake.Prelude.{
  ℕ, ◌≡◌, refl, ap, Bool, true, false, not, ◌&&◌, some, List, [], ◌∷◌, ◌++◌, map, Text, Dict,
  text_eq, truthy, filter, leb, length, all, any, has_char, keys, is_some, upper, contains, sorted,
  In, mem, ◌==◌, arith, Bool-cases, inl, inr,
}
use mendix_for_snowflake.Auth.{authorize}
use mendix_for_snowflake.Auth.Access.{authorize_iff}
use mendix_for_snowflake.Names.{Settings}
use mendix_for_snowflake.PadParser.{is_letter, is_word, is_between, is_constant_name}
use mendix_for_snowflake.Requests.{validate_eai_slots, check_license_pair, eai_slot_keys}
use mendix_for_snowflake.Requests.Create.{is_string, is_field_name, CreateBody, check_create}
use mendix_for_snowflake.Routes.Config.{unbound_slots}
use mendix_for_snowflake.SystemRoutes.{Platform, is_privileged}
use mendix_for_snowflake.SystemRoutes.Signals.{slot_of, get_external_access_slots}
use mendix_for_snowflake.AdminUi.Register.{
  owner_candidates, owner_role, selected_eai_slots, rest_matches, name_matches, Parsed, Form,
  FormError, unless, both_or_neither, parse_errors, given, parsed_constants, form_errors, payload,
  submit,
}

word_no_break : (c : ℕ) → is_word c ≡ true → (c == 10) ≡ false
unfolding is_word is_letter is_between
word_no_break c h = ground arith

letter_no_break : (c : ℕ) → is_letter c ≡ true → (c == 10) ≡ false
unfolding is_letter is_between
letter_no_break c h = ground arith

rest_matches-all : (a : Text) → rest_matches a ≡ true → all is_word a ≡ not (has_char 10 a)
unfolding rest_matches all has_char any
rest_matches-all [] h = refl
rest_matches-all (c ∷ cs) h = elim (Bool-cases (is_word c)) [
  | inl w ↦ let plain = word_no_break c w in ground (arith, rest_matches-all cs)
  | inr n ↦ ground (arith, rest_matches-all cs)
]

name_matches-field : (a : Text) → name_matches a ≡ true → is_field_name a ≡ not (has_char 10 a)
unfolding name_matches is_field_name has_char any
name_matches-field [] h = cc
name_matches-field (c ∷ cs) h = let plain = letter_no_break c in ground (arith, rest_matches-all cs)

-- What the page does not check of a form: `rest_valid` is what the controller then decides by.
abbrev pub rest_valid : CreateBody → Bool
rest_valid body =
    not (has_char 10 body.name)
    && (leb (length body.name) 50
        && (is_field_name body.pg_database
            && (is_field_name body.owner_role
                && (all (λ e. is_string e.1) body.constants
                    && all is_constant_name (keys body.constants)))))

pair_checked :
    (i k : Text)
    → both_or_neither i k ≡ true
    → check_license_pair (given (truthy i && truthy k) i) (given (truthy i && truthy k) k) ≡ true
unfolding check_license_pair
pair_checked [] [] h = refl
pair_checked [] (c ∷ k) h = cc
pair_checked (c ∷ i) [] h = cc
pair_checked (c ∷ i) (d ∷ k) h = refl

unless_nil :
    (b : Bool) (e : FormError) (more : List FormError)
    → unless b e ++ more ≡ []
    → (b ≡ true) × (more ≡ [])
unless_nil true e more h = (refl, h)
unless_nil false e more h = cc

parse_nil : (p : Parsed) (more : List FormError) → parse_errors p ++ more ≡ [] → more ≡ []
parse_nil (Parsed.object d) more h = h
parse_nil Parsed.not_object more h = cc
parse_nil Parsed.invalid more h = cc

last_nil : (b : Bool) (e : FormError) → unless b e ≡ [] → b ≡ true
last_nil true e h = refl
last_nil false e h = cc

and_true : (b : Bool) → (b && true) ≡ b
and_true true = refl
and_true false = refl

module _ (loads : Text → Parsed) where
  submit-payload :
      (form : Form) (errors : List FormError) (body : CreateBody)
      → form_errors loads form ≡ errors
      → submit loads form ≡ some body
      → (form_errors loads form ≡ []) × (payload loads form ≡ body)
  unfolding submit
  submit-payload form [] body e h = (e, cc (rw (e, submit) at h))
  submit-payload form (x ∷ xs) body e h = let bad = rw (e, submit) at h in cc

  payload-valid :
      (form : Form)
      → form_errors loads form ≡ []
      → is_some (validate_eai_slots form.slots) ≡ true
      → check_create (payload loads form) ≡ rest_valid (payload loads form)
  unfolding form_errors payload check_create
  payload-valid form h known =
      let (name, h1) = unless_nil (name_matches form.name) FormError.bad_name _ h in
      let (_, h2) = unless_nil (truthy form.pg_database) FormError.no_database _ h1 in
      let (_, h3) = unless_nil (truthy form.admin_password) FormError.no_password _ h2 in
      let pair =
        last_nil (both_or_neither form.license_id form.license_key) FormError.half_license
          (parse_nil (parsed_constants loads form) _ h3) in
      let checked = pair_checked form.license_id form.license_key pair in
      rw
        (
          name_matches-field form.name name,
          checked,
          known,
          and_true (all is_constant_name (keys (payload loads form).constants)),
        )
        refl

offered_in :
    (bound : Dict Text) (privileged : Bool) (ticked : Text → Bool) (slots : List Text) → List Text
offered_in bound privileged ticked slots =
    selected_eai_slots ticked (map (slot_of privileged bound) slots)

module _ (bound : Dict Text) (privileged : Bool) (ticked : Text → Bool) where
  offered-bound :
      (slots : List Text)
      → filter (λ k. not (contains k bound)) (offered_in bound privileged ticked slots) ≡ []
  unfolding offered_in selected_eai_slots slot_of filter
  offered-bound [] = refl
  offered-bound (k ∷ slots) = elim (Bool-cases (contains k bound)) [
    | inr f ↦ rw f (offered-bound slots)
    | inl t ↦ elim (Bool-cases (ticked k)) [
      | inr u ↦ rw (t, u) (offered-bound slots)
      | inl u ↦ rw (t, u) (rw t (offered-bound slots))
    ]
  ]

  offered-known :
      (slots : List Text)
      → all (λ k. mem k eai_slot_keys) slots ≡ true
      → all (λ k. mem k eai_slot_keys) (offered_in bound privileged ticked slots) ≡ true
  unfolding offered_in selected_eai_slots slot_of filter all
  offered-known [] h = refl
  offered-known (k ∷ slots) h = elim (Bool-cases (contains k bound && ticked k)) [
    | inr f ↦ rw f (offered-known slots (ground arith))
    | inl t ↦ rw t (let rest = offered-known slots (ground arith) in ground arith)
  ]

slots_known : all (λ k. mem k eai_slot_keys) eai_slot_keys ≡ true
unfolding all mem text_eq
slots_known = refl

In-filter : (p : Text → Bool) (a : Text) (xs : List Text) → In a (filter p xs) → In a xs
unfolding filter
In-filter p a [] h = h
In-filter p a (x ∷ xs) h = elim (Bool-cases (p x)) [
  | inr f ↦ inr (In-filter p a xs (rw f at h))
  | inl t ↦ elim (rw t at h) [ inl e ↦ inl e | inr later ↦ inr (In-filter p a xs later) ]
]

In-map-upper : (a : Text) (xs : List Text) → In a xs → In (upper a) (map upper xs)
In-map-upper a [] h = h
In-map-upper a (x ∷ xs) (inl e) = inl (ap upper e)
In-map-upper a (x ∷ xs) (inr h) = inr (In-map-upper a xs h)

chosen-In :
    (candidates : List Text) (choice : Text)
    → In choice candidates
    → owner_role candidates choice ≡ choice
unfolding owner_role
chosen-In [] choice h = absurd h
chosen-In (r ∷ rs) choice h = refl

choice_authorized :
    (privileged roles : List Text) (choice : Text)
    → truthy choice ≡ true
    → In choice (owner_candidates roles)
    → authorize privileged (some (owner_role (owner_candidates roles) choice)) (map upper roles)
      ≡ true
unfolding owner_candidates
choice_authorized privileged roles choice named h =
    rw (chosen-In (owner_candidates roles) choice h) (
      (authorize_iff privileged (some choice) (map upper roles)).1
        (inr (choice, refl, named, In-map-upper choice roles (In-filter _ choice roles h))))

-- A form that the page sends, with the slots that the page offers and an owner role that it lists, is
-- refused by the controller for no slot, since each is known and bound, and for no owner role, since
-- the operator's roles authorize for it; and its body is valid exactly if the name has no line
-- break and at most 50 characters, the database and the owner role are plain identifiers, and the
-- constants are strings under names of constants. The page and the controller read the same bound
-- slots, and the controller knows the operator's roles in upper case.
pub form_admitted :
    (loads : Text → Parsed) (s : Settings) (p : Platform) (roles : List Text) (ticked : Text → Bool)
    (choice : Text) (form : Form) (body : CreateBody)
    → submit loads form ≡ some body
    → p.bound_eai_slots ≡ s.bound_eai_slots
    → form.slots ≡ selected_eai_slots ticked (get_external_access_slots p roles)
    → form.owner ≡ owner_role (owner_candidates roles) choice
    → In choice (owner_candidates roles)
    → truthy choice ≡ true
    → (check_create body ≡ rest_valid body)
      × (unbound_slots s body.external_access ≡ [])
      × (authorize s.privileged (some body.owner_role) (map upper roles) ≡ true)
unfolding get_external_access_slots unbound_slots offered_in validate_eai_slots sorted payload
form_admitted loads s p roles ticked choice form body sent same slots owner listed named =
    let (fine, e) = submit-payload loads form (form_errors loads form) body refl sent in
    let known : is_some (validate_eai_slots form.slots) ≡ true = rw slots (
      rw (offered-known p.bound_eai_slots (is_privileged p roles) ticked eai_slot_keys slots_known)
        refl) in
    rw (← e) (
      payload-valid loads form fine known,
      rw (slots, ← same)
          (rw (offered-bound p.bound_eai_slots (is_privileged p roles) ticked eai_slot_keys) refl),
      rw owner (choice_authorized s.privileged roles choice named listed),
    )
