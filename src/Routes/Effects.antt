-- ===== src/Routes/Effects.antt =====
-- What an action does to the table of apps, by its result.
use mendix_for_snowflake.Prelude.{◌≡◌, refl, subst, sym}
use mendix_for_snowflake.Registry.{Rows}
use mendix_for_snowflake.World.{
  World, Environment, Exec, Exn, Result, ok, raised, Call, call, called, resume_with, handle,
  attempt, ◌>>=◌,
}
use mendix_for_snowflake.Lifecycle.Rules.{Keeps, Keeps-call}

-- An action that leaves the table of apps alone, however it ends.
abbrev pub Reads : {A : Type 0} → Exec A → Type 0
Reads m = (rows : Rows) → Keeps (λ w. w.registry ≡ rows) m

pub Reads-call : (env : Environment) (c : Call) → Reads (call env c)
unfolding called
Reads-call env c rows = Keeps-call env c (λ w h. h)

-- The table before and after the action is as the relation says of its result.
pub record Acts {A : Type 0} (E : Rows → Result A → Rows → Type 0) (m : Exec A) : Type 0 where
  pub at : (w : World) → E w.registry (m w).0 (m w).1.registry

module _ {B : Type 0} (E : Rows → Result B → Rows → Type 0) where
  -- The relation holds of an error that leaves the table alone.
  abbrev pub AllowsFailure : Type 0
  AllowsFailure = (rows : Rows) (e : Exn) → E rows (raised e) rows

  -- The relation holds of an error only if it leaves the table alone.
  abbrev pub NeedsNoChange : Type 0
  NeedsNoChange = (rows rows' : Rows) (e : Exn) → E rows (raised e) rows' → rows' ≡ rows

  acts_of_handle :
      (handler : Exn → Exec B) (r : Result B) (rows : Rows) (w : World)
      → NeedsNoChange
      → E rows r w.registry
      → ((e : Exn) → Acts E (handler e))
      → E rows (handle handler r w).0 (handle handler r w).1.registry
  acts_of_handle handler (ok a) rows w back h k = h
  acts_of_handle handler (raised e) rows w back h k =
      subst (λ x. E x (handler e w).0 (handler e w).1.registry) (back rows w.registry e h)
        ((k e).at w)

  -- An action that leaves the table alone where it raises, and a handler.
  pub Acts-attempt :
      (m : Exec B) (handler : Exn → Exec B)
      → NeedsNoChange
      → Acts E m
      → ((e : Exn) → Acts E (handler e))
      → Acts E (attempt m handler)
  unfolding attempt
  Acts-attempt m handler back h k = record {
    at = λ w. acts_of_handle handler (m w).0 w.registry (m w).1 back (h.at w) k;
  }

  module _ {A : Type 0} where
    acts_of_resume :
        (f : A → Exec B) (r : Result A) (rows : Rows) (w : World)
        → AllowsFailure
        → ((a : A) → Acts E (f a))
        → w.registry ≡ rows
        → E rows (resume_with f r w).0 (resume_with f r w).1.registry
    acts_of_resume f (ok a) rows w fails h e =
        subst (λ x. E x (f a w).0 (f a w).1.registry) e ((h a).at w)
    acts_of_resume f (raised x) rows w fails h e =
        subst (λ y. E rows (raised x) y) (sym e) (fails rows x)

    pub Acts-bind :
        (m : Exec A) (f : A → Exec B)
        → AllowsFailure
        → Reads m
        → ((a : A) → Acts E (f a))
        → Acts E (m >>= f)
    unfolding ◌>>=◌
    Acts-bind m f fails r h = record {
      at = λ w. acts_of_resume f (m w).0 w.registry (m w).1 fails h ((r w.registry).at w refl);
    }
