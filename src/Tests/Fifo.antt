-- ===== src/Tests/Fifo.antt =====
-- The theorems on the scheduler of internal/router/scheduler/fifo.go, at the states of the scenario.
use fork_llama_swap.Base.{
  ◌+◌, ◌≤◌, ◌<◌, ◌≡◌, ◌≢◌, ◌⊎◌, String, [], ◌∷◌, ◌++◌, some, All, Ensures, Whenever, arith,
}
use fork_llama_swap.Scheduler.Model.{ready, Fifo, limit, shutting_down}
use fork_llama_swap.Scheduler.Grant.{insert_by_priority}
use fork_llama_swap.Scheduler.Events.{serve_done, unload, step, on_cancel, on_shutdown}
use fork_llama_swap.Scheduler.Invariant.{Apart, Spares, waiting, count}
use fork_llama_swap.Scheduler.Order.{IsSorted, of_priority}
use fork_llama_swap.Scheduler.Order.Steps.{QueueStep, step-QueueStep}
use fork_llama_swap.Scheduler.Reach.{
  Reachable-step, Reachable-limit, Reachable-Apart, Reachable-Busy, Reachable-IsSorted,
}
use fork_llama_swap.Scheduler.Removal.{Cancelled, on_cancel_removes}
use fork_llama_swap.Scheduler.Shutdown.{Ended, on_shutdown_ends}
use fork_llama_swap.Tests.Scenario.{others, world, request, s3, s4, s3-Reachable, s4-Reachable}

Reachable-step_example :
    (t : Fifo) × (step others (world ("a" ∷ []) ready) s3 (serve_done "a") ≡ some t)
Reachable-step_example =
    Reachable-step others s3 (world ("a" ∷ []) ready) (serve_done "a") s3-Reachable
      (unfold s3 in omega arith)

Reachable-limit_example :
    (s3.in_flight "b" + waiting "b" s3.active + count "b" s3.queued ≡ s3.reserved "b")
    × (s3.in_flight "b" + waiting "b" s3.active + count "b" s3.queued ≤ limit s3 "b")
Reachable-limit_example = Reachable-limit others s3 "b" s3-Reachable

Reachable-Apart_example : Apart s4.active × All (Spares s4.in_flight) s4.active
Reachable-Apart_example = Reachable-Apart others s4 s4-Reachable

Reachable-Busy_example : (s3.active ≢ []) ⊎ ((m : String) × (0 < s3.in_flight m))
unfolding s3
Reachable-Busy_example = Reachable-Busy others s3 s3-Reachable (λ e. cc)

Reachable-IsSorted_example :
    IsSorted s3.priority s3.queued
    × (of_priority s3.priority
          (s3.priority "b")
          (insert_by_priority s3.priority (request "b" 3) s3.queued)
        ≡ of_priority s3.priority (s3.priority "b") s3.queued ++ request "b" 3 ∷ [])
Reachable-IsSorted_example = Reachable-IsSorted others s3 (request "b" 3) s3-Reachable

step-QueueStep_example :
    Whenever
      (QueueStep (unload ("b" ∷ []) 5) s3)
      (step others (world ("a" ∷ []) ready) s3 (unload ("b" ∷ []) 5))
step-QueueStep_example = step-QueueStep others (world ("a" ∷ []) ready) s3 (unload ("b" ∷ []) 5)

on_cancel_removes_example : Ensures (Cancelled 2 s3) (on_cancel s3 (request "b" 2))
on_cancel_removes_example = on_cancel_removes others s3 (request "b" 2) s3-Reachable

on_shutdown_ends_example :
    Ensures (Ended (shutting_down "group") s4) (on_shutdown s4 (shutting_down "group"))
on_shutdown_ends_example = on_shutdown_ends (shutting_down "group") others s4 s4-Reachable
