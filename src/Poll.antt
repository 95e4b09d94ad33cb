-- ===== src/Poll.antt =====
-- The polling loops of Controller/app/main.py. `time.sleep(10)` moves the clock by ten seconds and
-- every query by its latency. A loop runs on fuel, one more than the timeout in seconds, and would
-- return `none` where that ran out.
pub mod Bounds
pub mod Frame
use mendix_for_snowflake.Prelude.{
  ℕ, zero, suc, ◌+◌, ◌-◌, Bool, true, false, Option, none, some, List, [], ◌∷◌, ◌++◌, Text, text,
  text_eq, is_text, upper, or_text, truthy, truthy?, ltb, all, filter, not, ◌&&◌, get_or,
  if◌then◌else◌,
}
use mendix_for_snowflake.Models.{StatusDetail}
use mendix_for_snowflake.World.{World, Environment, ContainerRow, Call, called}

-- `(c.get("status") or "").upper() == "READY"`
unfoldable pub is_ready_row : ContainerRow → Bool
is_ready_row c = text_eq (upper (or_text c.status (text ""))) (text "READY")

unfoldable pub containers_all_ready : List ContainerRow → Bool
unfolding is_ready_row
containers_all_ready [] = false
containers_all_ready (c ∷ cs) = all is_ready_row (c ∷ cs)

failure_piece : ContainerRow → Text
failure_piece c =
    (or_text c.container_name (text "container")
      ++ (text ": " ++ or_text c.status (text "UNKNOWN")))
    ++ (if truthy? c.message then text " - " ++ or_text c.message (text "") else [])

join_pieces : List ContainerRow → Text
unfolding failure_piece
join_pieces [] = []
join_pieces (c ∷ []) = failure_piece c
join_pieces (c ∷ cs) = failure_piece c ++ (text "; " ++ join_pieces cs)

-- `_container_failure_detail`
unfoldable pub container_failure_detail : List ContainerRow → Option Text
unfolding join_pieces is_ready_row
container_failure_detail cs = elim (filter (λ c. not (is_ready_row c)) cs) [
  | [] ↦ none
  | d ∷ ds ↦ some (join_pieces (d ∷ ds))
]

sleep : ℕ → World → World
sleep n w = record w { clock = w.clock + n }

module _ (env : Environment) (service : Text) where
  -- `sf.show_service_status`, which swallows its errors: the answer, and the state after the query.
  pub show_service_status : World → Option Text × World
  show_service_status w =
      let c = Call.describe_service service in (env.service_status w service, called env c w)

  pub show_service_containers : World → List ContainerRow × World
  show_service_containers w =
      let c = Call.show_containers service in (env.containers w service, called env c w)

  -- The `while` of `_poll_status`.
  poll_loop : ℕ → Text → ℕ → ℕ → (ℕ → World → World) → World → Option Bool × World
  unfolding sleep show_service_status
  poll_loop zero target start deadline on_tick w = (none, w)
  poll_loop (suc fuel) target start deadline on_tick w =
      let (status, w') = show_service_status w in
      let rest =
        poll_loop fuel target start deadline on_tick (sleep 10 (on_tick (w'.clock - start) w')) in
      if ltb w.clock deadline
      then (if is_text status target then (some true, w') else rest)
      else (some false, w)

  pub poll_status : Text → ℕ → (ℕ → World → World) → World → Option Bool × World
  unfolding poll_loop
  poll_status target timeout_secs on_tick w =
      poll_loop (timeout_secs + 1) target w.clock (w.clock + timeout_secs) on_tick w

  -- The `while` of `_poll_ready`: whether all containers came up, and the rows last seen.
  ready_loop :
      ℕ
      → ℕ
      → ℕ
      → (ℕ → World → World)
      → List ContainerRow
      → World
      → Option (Bool × List ContainerRow) × World
  unfolding sleep show_service_containers
  ready_loop zero start deadline on_tick seen w = (none, w)
  ready_loop (suc fuel) start deadline on_tick seen w =
      let (rows, w') = show_service_containers w in
      let rest =
        ready_loop fuel start deadline on_tick rows (sleep 10 (on_tick (w'.clock - start) w')) in
      if ltb w.clock deadline
      then (if containers_all_ready rows then (some (true, rows), w') else rest)
      else (some (false, seen), w)

  abbrev ready_detail : ℕ → Option Text → Option StatusDetail
  ready_detail timeout_secs none = none
  ready_detail timeout_secs (some d) = some (StatusDetail.containers_not_ready timeout_secs d)

  abbrev ready_verdict : ℕ → Option (Bool × List ContainerRow) → Option (Bool × Option StatusDetail)
  ready_verdict timeout_secs none = none
  ready_verdict timeout_secs (some (true, rows)) = some (true, none)
  ready_verdict timeout_secs (some (false, rows)) =
      some (false, ready_detail timeout_secs (container_failure_detail rows))

  -- What `_poll_ready` does after the wait for the service itself.
  after_status :
      Text
      → ℕ
      → ℕ
      → (ℕ → World → World)
      → Option Bool
      → World
      → Option (Bool × Option StatusDetail) × World
  unfolding ready_loop
  after_status target timeout_secs start on_tick none w = (none, w)
  after_status target timeout_secs start on_tick (some false) w = (some (false, none), w)
  after_status target timeout_secs start on_tick (some true) w =
      let (r, w') = ready_loop (timeout_secs + 1) start (start + timeout_secs) on_tick [] w in
      if text_eq target (text "RUNNING")
      then (ready_verdict timeout_secs r, w')
      else (some (true, none), w)

  pub poll_ready :
      Text
      → ℕ
      → (ℕ → World → World)
      → (ℕ → World → World)
      → World
      → Option (Bool × Option StatusDetail) × World
  unfolding poll_status after_status
  poll_ready target timeout_secs on_tick on_tick_ready w =
      let (reached, w') = poll_status target timeout_secs on_tick w in
      after_status target timeout_secs w.clock on_tick_ready reached w'
