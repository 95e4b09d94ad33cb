-- ===== src/Poll/Frame.antt =====
-- What waiting does to the registry.
use mendix_for_snowflake.Prelude.{
  ℕ, zero, suc, ◌+◌, ◌-◌, ◌≡◌, refl, ◌∙◌, Bool, true, false, Option, none, some, List, [], Text,
  text, text_eq, arith, Bool-cases, inl, inr,
}
use mendix_for_snowflake.World.{World, Environment, ContainerRow, Call, called}
use mendix_for_snowflake.Poll.{
  show_service_status, show_service_containers, sleep, poll_loop, poll_status, ready_loop,
  after_status, poll_ready,
}

abbrev pub KeepsRegistry : (ℕ → World → World) → Type 0
KeepsRegistry f = (n : ℕ) (w : World) → (f n w).registry ≡ w.registry

module _ (env : Environment) (service : Text) where
  registry-poll_loop :
      (fuel : ℕ) (target : Text) (start deadline : ℕ) (on_tick : ℕ → World → World) (w : World)
      → KeepsRegistry on_tick
      → (poll_loop env service fuel target start deadline on_tick w).1.registry ≡ w.registry
  unfolding poll_loop show_service_status called sleep
  registry-poll_loop zero target start deadline on_tick w k = refl
  registry-poll_loop (suc fuel) target start deadline on_tick w k =
      let c = Call.describe_service service in
      let n = w.clock + env.latency w c - start in
      ground (
        arith,
        k n (called env c w),
        registry-poll_loop fuel target start deadline on_tick
            (sleep 10 (on_tick n (called env c w))) k,
      )

  pub registry-poll_status :
      (target : Text) (timeout_secs : ℕ) (on_tick : ℕ → World → World) (w : World)
      → KeepsRegistry on_tick
      → (poll_status env service target timeout_secs on_tick w).1.registry ≡ w.registry
  unfolding poll_status
  registry-poll_status target timeout_secs on_tick w k =
      registry-poll_loop (timeout_secs + 1) target w.clock (w.clock + timeout_secs) on_tick w k

  registry-ready_loop :
      (fuel start deadline : ℕ) (on_tick : ℕ → World → World) (seen : List ContainerRow) (w : World)
      → KeepsRegistry on_tick
      → (ready_loop env service fuel start deadline on_tick seen w).1.registry ≡ w.registry
  unfolding ready_loop show_service_containers called sleep
  registry-ready_loop zero start deadline on_tick seen w k = refl
  registry-ready_loop (suc fuel) start deadline on_tick seen w k =
      let c = Call.show_containers service in
      let n = w.clock + env.latency w c - start in
      ground (
        arith,
        k n (called env c w),
        registry-ready_loop fuel start deadline on_tick (env.containers w service)
            (sleep 10 (on_tick n (called env c w))) k,
      )

  registry-after_status :
      (target : Text) (timeout_secs start : ℕ) (on_tick : ℕ → World → World) (b : Option Bool)
      (w : World)
      → KeepsRegistry on_tick
      → (after_status env service target timeout_secs start on_tick b w).1.registry ≡ w.registry
  unfolding after_status
  registry-after_status target timeout_secs start on_tick none w k = refl
  registry-after_status target timeout_secs start on_tick (some false) w k = refl
  registry-after_status target timeout_secs start on_tick (some true) w k =
      elim (Bool-cases (text_eq target (text "RUNNING"))) [
        | inl running ↦
            rw running
              (registry-ready_loop (timeout_secs + 1) start (start + timeout_secs) on_tick [] w k)
        | inr other ↦ rw other
      ]

  pub registry-poll_ready :
      (target : Text) (timeout_secs : ℕ) (on_tick on_tick_ready : ℕ → World → World) (w : World)
      → KeepsRegistry on_tick
      → KeepsRegistry on_tick_ready
      → (poll_ready env service target timeout_secs on_tick on_tick_ready w).1.registry ≡ w.registry
  unfolding poll_ready poll_status
  registry-poll_ready target timeout_secs on_tick on_tick_ready w k kr =
      registry-after_status target timeout_secs w.clock on_tick_ready _ _ kr
      ∙ registry-poll_loop (timeout_secs + 1) target w.clock (w.clock + timeout_secs) on_tick w k
