-- ===== src/System/Exclusive.antt =====
-- How pending tasks and transient statuses go together.
use mendix_for_snowflake.Prelude.{
  ℕ, suc, ◌+◌, ◌≤◌, ◌≡◌, refl, ◌∙◌, sym, subst, Bool, true, false, Option, none, some, List, [],
  ◌∷◌, ◌++◌, Text, same_name, same_name_iff, if◌then◌else◌, arith, Bool-cases, inl, inr,
}
use mendix_for_snowflake.Models.{AppRecord, DeployStatus, is_transient}
use mendix_for_snowflake.Registry
use mendix_for_snowflake.Registry.{Rows, Field, set_field, set_fields}
use mendix_for_snowflake.Registry.Lookup.{set_found, get_app-update_rows, get_app-delete_app}
use mendix_for_snowflake.Names.{Settings}
use mendix_for_snowflake.World.{World, Environment, Result, ok, raised}
use mendix_for_snowflake.Lifecycle.Settle.{UpdatesSucceed}
use mendix_for_snowflake.Tasks.{Task, task_name, run_task}
use mendix_for_snowflake.Tasks.Settle.{run_task_settles}
use mendix_for_snowflake.Tasks.Frame.{run_task_frame}
use mendix_for_snowflake.Routes.{Answer, unchanged, accepted}
use mendix_for_snowflake.Routes.Deploy.{Stage}
use mendix_for_snowflake.Routes.Service.Removal.{Removed, delete_app_removes}
use mendix_for_snowflake.Mutations.{Mutation, run_mutation}
use mendix_for_snowflake.Mutations.Effect.{Effect, run_mutation-Effect}
use mendix_for_snowflake.Mutations.Guard.{run_mutation-Admits}
use mendix_for_snowflake.System.{
  System, Step, request, delete, finish, Reach, here, later, respond, added, count_pending,
  Balanced, AllBalanced,
}

count_pending-append :
    (n : Text) (xs ys : List Task)
    → count_pending n (xs ++ ys) ≡ count_pending n xs + count_pending n ys
unfolding count_pending
count_pending-append n [] ys = omega arith
count_pending-append n (x ∷ xs) ys = ground (arith, count_pending-append n xs ys)

-- Names that differ in case find the same row.
get_app-same_name :
    (n m : Text) (rows : Rows)
    → same_name n m ≡ true
    → Registry.get_app m rows ≡ Registry.get_app n rows
unfolding Registry.get_app
get_app-same_name n m [] h = refl
get_app-same_name n m (r ∷ rs) h = ground (
  arith,
  get_app-same_name n m rs h,
  same_name_iff r.name n,
  same_name_iff r.name m,
  same_name_iff n m,
)

Balanced-le : (o : Option AppRecord) (k : ℕ) → Balanced o k → k ≤ 1
Balanced-le none k h = h
Balanced-le (some r) k h = ground arith

-- A row that is stamped with a transient status beside the task that is added.
stamped-Balanced :
    (o : Option AppRecord) (r : AppRecord) (status : DeployStatus) (k : ℕ)
    → o ≡ some r
    → is_transient r.last_deploy_status ≡ false
    → is_transient (some status) ≡ true
    → Balanced o k
    → Balanced (set_found (Field.last_deploy_status status ∷ []) o) (suc k)
unfolding set_fields set_field
stamped-Balanced none r status k e c t b = cc
stamped-Balanced (some q) r status k e c t b =
    let this : r ≡ q = cc in
    let same : is_transient q.last_deploy_status ≡ false =
      subst (λ x. is_transient x.last_deploy_status ≡ false) this c in
    let idle : k ≡ 0 = rw same at b in rw t (omega (arith, idle))

-- An answered request keeps the balance.
answered_balanced :
    (name : Text) (status : DeployStatus) (task : Task) (rows : Rows) (ts : List Task)
    (r : AppRecord)
    → Registry.get_app name rows ≡ some r
    → is_transient r.last_deploy_status ≡ false
    → is_transient (some status) ≡ true
    → task_name task ≡ name
    → AllBalanced rows ts
    → AllBalanced
        (Registry.update_rows name (Field.last_deploy_status status ∷ []) rows)
        (task ∷ ts)
unfolding count_pending
answered_balanced name status task rows ts r found c t own b n =
    subst (λ o. Balanced o (count_pending n (task ∷ ts)))
      (sym (get_app-update_rows name n (Field.last_deploy_status status ∷ []) rows))
      (rw own (elim (Bool-cases (same_name name n)) [
        | inl e ↦
            rw e (stamped-Balanced _ r status _ (get_app-same_name name n rows e ∙ found) c t (b n))
        | inr e ↦ rw e (b n)
      ]))

-- A task that has run leaves its app without one.
settled-Balanced :
    (o : Option AppRecord) (k : ℕ)
    → ((r : AppRecord) → o ≡ some r → is_transient r.last_deploy_status ≡ false)
    → k ≡ 0
    → Balanced o k
settled-Balanced none k h z = omega (arith, z)
settled-Balanced (some r) k h z = rw (h r refl) z

deleted-Balanced :
    (b : Bool) (o : Option AppRecord) (k : ℕ) → Balanced o k → Balanced (if b then none else o) k
deleted-Balanced true o k h = Balanced-le o k h
deleted-Balanced false o k h = h

module _ (env : Environment) (s : Settings) where
  abbrev IsBalanced : System → Type 0
  IsBalanced sys = AllBalanced sys.world.registry sys.pending

  request_balanced :
      (stage : Stage) (name : Text) (roles : List Text) (m : Mutation) (w : World) (ts : List Task)
      (a : Result Answer) (rows : Rows)
      → (run_mutation env s stage name roles m w).0 ≡ a
      → Effect name w.registry a rows
      → AllBalanced w.registry ts
      → AllBalanced rows (added a ts)
  request_balanced stage name roles m w ts (raised e) rows h f b =
      subst (λ x. AllBalanced x ts) (sym f) b
  request_balanced stage name roles m w ts (ok unchanged) rows h f b =
      subst (λ x. AllBalanced x ts) (sym f) b
  request_balanced stage name roles m w ts (ok (accepted status task warnings)) rows h (own, t, f)
        b =
      let (r, (found, _, c)) = run_mutation-Admits env s name roles stage m w _ h in
      subst (λ x. AllBalanced x (task ∷ ts)) (sym f)
        (answered_balanced name status task w.registry ts r found c t own b)

  delete_balanced :
      (name : Text) (rows rows' : Rows) (a : Result (Unit {0})) (ts : List Task)
      → Removed name rows a rows'
      → AllBalanced rows ts
      → AllBalanced rows' ts
  delete_balanced name rows rows' (raised e) ts f b n = subst (λ x. AllBalanced x ts) (sym f) b n
  delete_balanced name rows rows' (ok _) ts f b n =
      subst (λ o. Balanced o (count_pending n ts)) (sym (rw f (get_app-delete_app name n rows)))
        (deleted-Balanced (same_name name n) (Registry.get_app n rows) _ (b n))

  finish_balanced :
      (before : List Task) (t : Task) (after : List Task) (w : World)
      → UpdatesSucceed env (task_name t)
      → AllBalanced w.registry (before ++ t ∷ after)
      → AllBalanced (run_task env s t w).1.registry (before ++ after)
  unfolding count_pending
  finish_balanced before t after w u b n =
      let whole = count_pending-append n before (t ∷ after) in
      let rest = count_pending-append n before after in
      let most = Balanced-le _ _ (b n) in
      elim (Bool-cases (same_name (task_name t) n)) [
        | inl e ↦
            let one : count_pending n before + suc (count_pending n after) ≤ 1 =
              rw (whole, e) at most in
            settled-Balanced _ _
              (λ r found.
                run_task_settles env s t w u r
                  (sym (get_app-same_name (task_name t) n _ e) ∙ found))
              (omega (arith, one, rest))
        | inr e ↦
            let same : count_pending n (before ++ t ∷ after) ≡ count_pending n (before ++ after) =
              rw (whole, rest, e) refl in
            subst (λ o. Balanced o (count_pending n (before ++ after)))
              (sym (run_task_frame env s t n w e))
              (subst (λ k. Balanced (Registry.get_app n w.registry) k) same (b n))
      ]

  module _ (up : (n : Text) → UpdatesSucceed env n) where
    Step-IsBalanced : {a b : System} → Step env s a b → IsBalanced a → IsBalanced b
    unfolding respond
    Step-IsBalanced (request stage name roles m sys) h =
        request_balanced stage name roles m sys.world sys.pending _ _ refl
          (run_mutation-Effect env s name stage roles m sys.world) h
    Step-IsBalanced (delete name roles w ts) h =
        delete_balanced name w.registry _ _ ts (delete_app_removes env s name roles w) h
    Step-IsBalanced (finish before t after w) h =
        finish_balanced before t after w (up (task_name t)) h

    -- Where Snowflake takes every update of a row, in every order of requests, deletions and ends
    -- of tasks, an app whose status is transient has exactly one pending task, one whose status is
    -- not has none, and a name without a row has at most one, if it was so at the start.
    pub Reach-balanced :
        (first last : System)
        → AllBalanced first.world.registry first.pending
        → Reach env s first last
        → AllBalanced last.world.registry last.pending
    Reach-balanced first last h here = h
    Reach-balanced first last h (later path step) =
        Step-IsBalanced step (Reach-balanced first _ h path)

    -- Where Snowflake takes every update of a row and the system starts balanced, whenever it is
    -- reached that no task is pending, no app is in a transient status.
    pub quiescent_settled :
        (first last : System) (n : Text) (r : AppRecord)
        → AllBalanced first.world.registry first.pending
        → Reach env s first last
        → last.pending ≡ []
        → Registry.get_app n last.world.registry ≡ some r
        → is_transient r.last_deploy_status ≡ false
    unfolding count_pending
    quiescent_settled first last n r h path idle found =
        let b = Reach-balanced first last h path n in
        let z : Balanced (some r) (count_pending n []) = rw (idle, found) at b in
        elim (Bool-cases (is_transient r.last_deploy_status)) [
          | inl e ↦ let bad : 0 ≡ 1 = rw e at z in absurd (omega (arith, bad))
          | inr e ↦ e
        ]
