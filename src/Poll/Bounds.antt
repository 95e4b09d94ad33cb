-- ===== src/Poll/Bounds.antt =====
-- When the polling loops end, and what they report.
use mendix_for_snowflake.Prelude.{
  ℕ, zero, suc, ◌+◌, ◌-◌, ◌≤◌, ◌<◌, ◌≡◌, refl, Bool, true, false, Option, none, some, List, [],
  Text, text, text_eq, text_eq_iff, is_text, ltb, ltb→lt, arith, Bool-cases, inl, inr,
}
use mendix_for_snowflake.Models.{StatusDetail}
use mendix_for_snowflake.World.{World, Environment, ContainerRow, Call, called}
use mendix_for_snowflake.Poll.{
  containers_all_ready, show_service_status, show_service_containers, sleep, poll_loop, poll_status,
  ready_loop, ready_verdict, after_status, poll_ready,
}

-- What runs on a tick does not wait.
abbrev pub KeepsClock : (ℕ → World → World) → Type 0
KeepsClock f = (n : ℕ) (w : World) → (f n w).clock ≡ w.clock

module _ (env : Environment) (service : Text) where
  -- The target status was answered to a query before the deadline.
  abbrev pub SeenBy : Text → ℕ → Type 0
  SeenBy target deadline =
      (u : World) × (is_text (env.service_status u service) target ≡ true) × (u.clock < deadline)

  -- What a wait for a status may report.
  abbrev pub StatusReport : Text → ℕ → Option Bool → World → Type 0
  StatusReport target deadline none w = ⊥
  StatusReport target deadline (some true) w = SeenBy target deadline
  StatusReport target deadline (some false) w = deadline ≤ w.clock

  poll_loop_report :
      (fuel : ℕ) (target : Text) (start deadline : ℕ) (on_tick : ℕ → World → World) (w : World)
      → KeepsClock on_tick
      → deadline - w.clock < fuel
      → let (r, w') = poll_loop env service fuel target start deadline on_tick w in
        StatusReport target deadline r w'
  unfolding poll_loop show_service_status called sleep
  poll_loop_report zero target start deadline on_tick w k h = absurd (omega arith)
  poll_loop_report (suc fuel) target start deadline on_tick w k h =
      elim (Bool-cases (ltb w.clock deadline)) [
        | inr late ↦ rw (late, StatusReport) (ground arith)
        | inl early ↦ elim (Bool-cases (is_text (env.service_status w service) target)) [
          | inl hit ↦ rw (early, hit, StatusReport) (w, hit, ltb→lt _ _ early)
          | inr miss ↦
              rw (early, miss, StatusReport)
                (poll_loop_report fuel target start deadline on_tick _ k (
                  omega (
                    arith,
                    ltb→lt w.clock deadline early,
                    k (w.clock + env.latency w (Call.describe_service service) - start)
                        (called env (Call.describe_service service) w),
                  )))
        ]
      ]

  -- A wait for a status always ends. It reports success only if the service was seen in that status
  -- before the deadline, and failure only once the deadline has passed.
  pub poll_status_report :
      (target : Text) (timeout_secs : ℕ) (on_tick : ℕ → World → World) (w : World)
      → KeepsClock on_tick
      → let (r, w') = poll_status env service target timeout_secs on_tick w in
        StatusReport target (w.clock + timeout_secs) r w'
  unfolding poll_status
  poll_status_report target timeout_secs on_tick w k =
      poll_loop_report (timeout_secs + 1) target w.clock (w.clock + timeout_secs) on_tick w k
        (omega arith)

  abbrev AllReadyBy : ℕ → Type 0
  AllReadyBy deadline =
      (u : World) × (containers_all_ready (env.containers u service) ≡ true) × (u.clock < deadline)

  abbrev ReadyLoopReport : ℕ → Option (Bool × List ContainerRow) → World → Type 0
  ReadyLoopReport deadline none w = ⊥
  ReadyLoopReport deadline (some (true, rows)) w = AllReadyBy deadline
  ReadyLoopReport deadline (some (false, rows)) w = deadline ≤ w.clock

  ready_loop_report :
      (fuel start deadline : ℕ) (on_tick : ℕ → World → World) (seen : List ContainerRow) (w : World)
      → KeepsClock on_tick
      → deadline - w.clock < fuel
      → let (r, w') = ready_loop env service fuel start deadline on_tick seen w in
        ReadyLoopReport deadline r w'
  unfolding ready_loop show_service_containers called sleep
  ready_loop_report zero start deadline on_tick seen w k h = absurd (omega arith)
  ready_loop_report (suc fuel) start deadline on_tick seen w k h =
      elim (Bool-cases (ltb w.clock deadline)) [
        | inr late ↦ rw (late, ReadyLoopReport) (ground arith)
        | inl early ↦ elim (Bool-cases (containers_all_ready (env.containers w service))) [
          | inl hit ↦ rw (early, hit, ReadyLoopReport) (w, hit, ltb→lt _ _ early)
          | inr miss ↦
              rw (early, miss, ReadyLoopReport)
                (ready_loop_report fuel start deadline on_tick _ _ k (
                  omega (
                    arith,
                    ltb→lt w.clock deadline early,
                    k (w.clock + env.latency w (Call.show_containers service) - start)
                        (called env (Call.show_containers service) w),
                  )))
        ]
      ]

  -- What a wait for readiness may report: success with the evidence for it, or a failure.
  abbrev pub ReadyReport : Text → ℕ → Option (Bool × Option StatusDetail) → Type 0
  ReadyReport target deadline none = ⊥
  ReadyReport target deadline (some (true, detail)) =
      (detail ≡ none) × SeenBy target deadline × ((target ≡ text "RUNNING") → AllReadyBy deadline)
  ReadyReport target deadline (some (false, detail)) = Unit {0}

  ready_verdict_report :
      (target : Text) (timeout_secs deadline : ℕ) (r : Option (Bool × List ContainerRow))
      (w : World)
      → SeenBy target deadline
      → ReadyLoopReport deadline r w
      → ReadyReport target deadline (ready_verdict env service timeout_secs r)
  ready_verdict_report target timeout_secs deadline none w s r = r
  ready_verdict_report target timeout_secs deadline (some (true, rows)) w s r = (refl, s, λ _. r)
  ready_verdict_report target timeout_secs deadline (some (false, rows)) w s r = tt

  after_status_report :
      (target : Text) (timeout_secs start : ℕ) (on_tick : ℕ → World → World) (b : Option Bool)
      (w : World)
      → KeepsClock on_tick
      → start ≤ w.clock
      → StatusReport target (start + timeout_secs) b w
      → ReadyReport target
          (start + timeout_secs)
          (after_status env service target timeout_secs start on_tick b w).0
  unfolding after_status
  after_status_report target timeout_secs start on_tick none w k le r = r
  after_status_report target timeout_secs start on_tick (some false) w k le r = tt
  after_status_report target timeout_secs start on_tick (some true) w k le r =
      elim (Bool-cases (text_eq target (text "RUNNING"))) [
        | inl running ↦
            rw (running, ReadyReport)
              (ready_verdict_report target timeout_secs (start + timeout_secs) _ _ r (
                ready_loop_report (timeout_secs + 1) start (start + timeout_secs) on_tick [] w k
                  (omega arith)))
        | inr other ↦
            rw (other, ReadyReport)
              (refl, r, λ e. ground (arith, text_eq_iff target (text "RUNNING")))
      ]

  poll_loop_clock :
      (fuel : ℕ) (target : Text) (start deadline : ℕ) (on_tick : ℕ → World → World) (w : World)
      → KeepsClock on_tick
      → w.clock ≤ (poll_loop env service fuel target start deadline on_tick w).1.clock
  unfolding poll_loop show_service_status called sleep
  poll_loop_clock zero target start deadline on_tick w k = omega arith
  poll_loop_clock (suc fuel) target start deadline on_tick w k =
      let c = Call.describe_service service in
      let n = w.clock + env.latency w c - start in
      ground (
        arith,
        k n (called env c w),
        poll_loop_clock fuel target start deadline on_tick (sleep 10 (on_tick n (called env c w)))
            k,
      )

  -- A wait for readiness always ends. It reports success only if the service was seen in the target
  -- status before the deadline and, where the target is RUNNING, all containers were seen ready
  -- before it too; and then with no detail.
  pub poll_ready_report :
      (target : Text) (timeout_secs : ℕ) (on_tick on_tick_ready : ℕ → World → World) (w : World)
      → KeepsClock on_tick
      → KeepsClock on_tick_ready
      → ReadyReport target
          (w.clock + timeout_secs)
          (poll_ready env service target timeout_secs on_tick on_tick_ready w).0
  unfolding poll_ready poll_status
  poll_ready_report target timeout_secs on_tick on_tick_ready w k kr =
      let r =
        poll_loop_report (timeout_secs + 1) target w.clock (w.clock + timeout_secs) on_tick w k
          (omega arith) in
      after_status_report target timeout_secs w.clock on_tick_ready _ _ kr
        (poll_loop_clock (timeout_secs + 1) target w.clock (w.clock + timeout_secs) on_tick w k) r
