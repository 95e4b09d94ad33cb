-- ===== src/Lifecycle/Rules.antt =====
-- Rules for actions: what they keep, however they end, what they ensure where they return, and
-- which of them always return.
use mendix_for_snowflake.Prelude.{◌≡◌, refl, Bool, true, false, if◌then◌else◌}
use mendix_for_snowflake.World.{
  World, Environment, Exec, Exn, Result, ok, raised, Call, pure, raise, attempt, finally, modify,
  gets, call, called, handle, resume_with, ◌>>=◌,
}

module _ {ℓ} {A : Type 0} (P : World → Type ℓ) where
  -- Whether it returns or raises, the action keeps the property of the state.
  pub record Keeps (m : Exec A) : Type ℓ where
    pub at : (w : World) → P w → P (m w).1

  -- Where the action returns, the state has the property.
  pub record Ensures (m : Exec A) : Type ℓ where
    pub at : (w : World) (a : A) → (m w).0 ≡ ok a → P (m w).1

module _ {ℓ} {A : Type 0} {P : World → Type ℓ} where
  pub Keeps-pure : (a : A) → Keeps P (pure a)
  unfolding pure
  Keeps-pure a = record { at = λ w h. h }

  pub Keeps-raise : (e : Exn) → Keeps {A = A} P (raise e)
  unfolding raise
  Keeps-raise e = record { at = λ w h. h }

  pub Ensures-raise : (e : Exn) → Ensures {A = A} P (raise e)
  unfolding raise
  Ensures-raise e = record { at = λ w a h. cc }

  pub Keeps-gets : (f : World → A) → Keeps P (gets f)
  unfolding gets
  Keeps-gets f = record { at = λ w h. h }

  handled :
      (handler : Exn → Exec A) (r : Result A) (w : World)
      → ((e : Exn) → Keeps P (handler e))
      → P w
      → P (let n = attempt (λ v. (r, v)) handler in n w).1
  unfolding attempt
  handled handler (ok a) w k h = h
  handled handler (raised e) w k h = (k e).at w h

  pub Keeps-attempt :
      (m : Exec A) (handler : Exn → Exec A)
      → Keeps P m
      → ((e : Exn) → Keeps P (handler e))
      → Keeps P (attempt m handler)
  unfolding attempt
  Keeps-attempt m handler km kh = record {
    at = λ w h. handled handler (m w).0 (m w).1 kh (km.at w h);
  }

  pub Keeps-finally :
      (m : Exec A) (f : World → World)
      → Keeps P m
      → ((w : World) → P w → P (f w))
      → Keeps P (finally m f)
  unfolding finally
  Keeps-finally m f km kf = record { at = λ w h. kf (m w).1 (km.at w h) }

  pub Keeps-if : (b : Bool) (m n : Exec A) → Keeps P m → Keeps P n → Keeps P (if b then m else n)
  Keeps-if true m n km kn = km
  Keeps-if false m n km kn = kn

module _ {ℓ} {P : World → Type ℓ} where
  pub Keeps-modify : (f : World → World) → ((w : World) → P w → P (f w)) → Keeps P (modify f)
  unfolding modify
  Keeps-modify f kf = record { at = λ w h. kf w h }

  pub Ensures-modify : (f : World → World) → ((w : World) → P (f w)) → Ensures P (modify f)
  unfolding modify
  Ensures-modify f kf = record { at = λ w a e. kf w }

  pub Keeps-call :
      (env : Environment) (c : Call)
      → ((w : World) → P w → P (called env c w))
      → Keeps P (call env c)
  unfolding call
  Keeps-call env c k = record { at = λ w h. k w h }

module _ {ℓ} {A B : Type 0} {P : World → Type ℓ} where
  resumed :
      (f : A → Exec B) (r : Result A) (w : World)
      → ((a : A) → Keeps P (f a))
      → P w
      → P (resume_with f r w).1
  resumed f (ok a) w k h = (k a).at w h
  resumed f (raised e) w k h = h

  pub Keeps-bind :
      (m : Exec A) (f : A → Exec B) → Keeps P m → ((a : A) → Keeps P (f a)) → Keeps P (m >>= f)
  unfolding ◌>>=◌
  Keeps-bind m f km kf = record { at = λ w h. resumed f (m w).0 (m w).1 kf (km.at w h) }

  ensured :
      (f : A → Exec B) (r : Result A) (w : World)
      → ((a : A) → Ensures P (f a))
      → (b : B) → (resume_with f r w).0 ≡ ok b
      → P (resume_with f r w).1
  ensured f (ok a) w k b e = (k a).at w b e
  ensured f (raised x) w k b e = cc

  -- What the last action ensures, the block does.
  pub Ensures-bind :
      (m : Exec A) (f : A → Exec B) → ((a : A) → Ensures P (f a)) → Ensures P (m >>= f)
  unfolding ◌>>=◌
  Ensures-bind m f kf = record { at = λ w b e. ensured f (m w).0 (m w).1 kf b e }

  kept :
      (f : A → Exec B) (r : Result A) (w : World)
      → ((a : A) → r ≡ ok a → P w)
      → ((a : A) → Keeps P (f a))
      → (b : B) → (resume_with f r w).0 ≡ ok b
      → P (resume_with f r w).1
  kept f (ok a) w h k b e = (k a).at w (h a refl)
  kept f (raised x) w h k b e = cc

  -- What an action ensures and the rest keeps, the block ensures.
  pub Ensures-then :
      (m : Exec A) (f : A → Exec B) → Ensures P m → ((a : A) → Keeps P (f a)) → Ensures P (m >>= f)
  unfolding ◌>>=◌
  Ensures-then m f em kf = record { at = λ w b e. kept f (m w).0 (m w).1 (λ a. em.at w a) kf b e }

pub ruleset keeps_rules = (
  Keeps-pure, Keeps-raise, Keeps-gets, Keeps-attempt, Keeps-finally, Keeps-modify, Keeps-call,
  Keeps-bind,
)

-- The action returns from every state.
abbrev pub Returns : Exec (Unit {0}) → Type 0
Returns m = (w : World) → (m w).0 ≡ ok tt

handled-Returns :
    (handler : Exn → Exec (Unit {0})) (r : Result (Unit {0})) (w : World)
    → ((e : Exn) → Returns (handler e))
    → (attempt (λ v. (r, v)) handler w).0 ≡ ok tt
unfolding attempt
handled-Returns handler (ok a) w k = refl
handled-Returns handler (raised e) w k = k e w

pub attempt-Returns :
    (m : Exec (Unit {0})) (handler : Exn → Exec (Unit {0}))
    → ((e : Exn) → Returns (handler e))
    → Returns (attempt m handler)
unfolding attempt
attempt-Returns m handler k w = handled-Returns handler (m w).0 (m w).1 k

pub bind-Returns :
    (m : Exec (Unit {0})) (n : Exec (Unit {0})) → Returns m → Returns n → Returns (m >>= λ _. n)
unfolding ◌>>=◌
bind-Returns m n rm rn w = rw (rm w, resume_with) (rn (m w).1)

module _ {A : Type 0} (m : Exec A) (w : World) where
  -- Where the first action returns, the block goes on from the state that it leaves.
  pub bind-of_ok :
      {B : Type 0} (f : A → Exec B) {a : A} → (m w).0 ≡ ok a → (m >>= f) w ≡ f a (m w).1
  unfolding ◌>>=◌
  bind-of_ok f e = rw (e, resume_with)

  pub attempt-of_ok :
      (handler : Exn → Exec A) {a : A} → (m w).0 ≡ ok a → (attempt m handler w).1 ≡ (m w).1
  unfolding attempt
  attempt-of_ok handler e = rw (e, handle)

  pub attempt-of_raised :
      (handler : Exn → Exec A) {x : Exn}
      → (m w).0 ≡ raised x
      → attempt m handler w ≡ handler x (m w).1
  unfolding attempt
  attempt-of_raised handler e = rw (e, handle)
