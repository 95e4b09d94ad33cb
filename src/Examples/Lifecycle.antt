-- ===== src/Examples/Lifecycle.antt =====
-- Background tasks on the sample world.
use mendix_for_snowflake.Prelude.{
  ◌≡◌, refl, true, none, text, lookup, upper, All, same_name, text_eq,
}
use mendix_for_snowflake.Models.{large, Operation}
use mendix_for_snowflake.Registry
use mendix_for_snowflake.Registry.Masking.{IsMasked}
use mendix_for_snowflake.World.{Call, ok, pure, call}
use mendix_for_snowflake.Lifecycle.{run_lifecycle_task}
use mendix_for_snowflake.Lifecycle.Settle.{Settled, task_returns}
use mendix_for_snowflake.Poll.{poll_ready}
use mendix_for_snowflake.Poll.Bounds.{ReadyReport, poll_ready_report}
use mendix_for_snowflake.Tasks.{Task, run_task}
use mendix_for_snowflake.Tasks.Settle.{run_task_settles}
use mendix_for_snowflake.Tasks.Frame.{run_task_frame, run_task-IsMasked}
use mendix_for_snowflake.Examples.Data.{settings, shop, start_world, smooth}

poll_ready_report_example :
    ReadyReport smooth
      (text "S")
      (text "RUNNING")
      160
      (poll_ready smooth (text "S") (text "RUNNING") 60 (λ n w. w) (λ n w. w) start_world).0
poll_ready_report_example =
    poll_ready_report smooth (text "S") (text "RUNNING") 60 (λ n w. w) (λ n w. w) start_world
      (λ n w. refl) (λ n w. refl)

task_returns_example :
    let (r, w') =
      run_lifecycle_task smooth
        (text "shop")
        (text "SHOP_SERVICE")
        Operation.suspend
        (text "SUSPENDED")
        120
        none
        (call smooth (Call.suspend_service (text "SHOP_SERVICE")))
        (pure tt)
        start_world in
    (r ≡ ok tt) × (lookup (upper (text "shop")) w'.progress ≡ none)
task_returns_example =
    task_returns smooth (text "shop") (text "SHOP_SERVICE") Operation.suspend (text "SUSPENDED") 120
      none (call smooth (Call.suspend_service (text "SHOP_SERVICE"))) (pure tt) start_world

abbrev resize : Task
resize = Task.update_spec (text "shop") shop large true Operation.spec

run_task_settles_example :
    Settled smooth (text "shop") (run_task smooth settings resize start_world).1
run_task_settles_example = run_task_settles smooth settings resize start_world (λ w fs. refl)

run_task_frame_example :
    Registry.get_app (text "Other") (run_task smooth settings resize start_world).1.registry
    ≡ Registry.get_app (text "Other") start_world.registry
unfolding same_name text_eq upper
run_task_frame_example = run_task_frame smooth settings resize (text "Other") start_world refl

run_task-IsMasked_example : All IsMasked (run_task smooth settings resize start_world).1.registry
run_task-IsMasked_example = run_task-IsMasked smooth settings resize start_world ((refl, tt), tt)
