-- ===== src/Tests/Scenario.antt =====
-- Two models of which one runs at a time: a request for each, the first is loaded and served, and
-- then the second.
use fork_llama_swap.Base.{
  ℕ, ◌≡◌, refl, String, true, List, [], ◌∷◌, Option, some, none, ◌=ₛ◌, if◌then◌else◌, arith,
}
use fork_llama_swap.Base.Int.{ℤ, pos}
use fork_llama_swap.Scheduler.Model.{
  HandlerReq, World, ProcessState, stopped, starting, ready, Fifo, new_fifo, model_limits, limit,
  release,
}
use fork_llama_swap.Scheduler.Collision.{
  contains_string, slices_overlap, collides, collides_with, conflicts_with_in_flight, running_set,
}
use fork_llama_swap.Scheduler.Grant.{
  send_admission, reject_admission, reserve, admit, grant_handler, refuse, broadcast,
  insert_by_priority, enqueue,
}
use fork_llama_swap.Scheduler.Decide.{
  find_active, add_waiter, delete_active, slow_path, weigh, begin_swap, decide, on_admitted,
  on_pending, on_known, on_request, drain_one, drain_from, drain_pending, drain_queue,
}
use fork_llama_swap.Scheduler.Events.{
  Event, requested, swap_done, serve_done, refuse_all, serve_all, deliver, finish_swap, prune,
  prune_active, abandon, abandon_all, drop_queued, distinct, on_cancel, on_swap_done, on_serve_done,
  on_unload, step,
}
use fork_llama_swap.Scheduler.Reach.{Reachable, start, next}

-- The planner: every other running model is stopped.
unfoldable pub others : String → List String → List String
others target [] = []
others target (m ∷ running) =
    if m =ₛ target then others target running else m ∷ others target running

unfoldable pub play : (ℕ → World) → Fifo → Event → Option Fifo
unfolding limit release contains_string slices_overlap collides collides_with
    conflicts_with_in_flight running_set send_admission reject_admission reserve admit grant_handler
    refuse broadcast insert_by_priority enqueue find_active add_waiter delete_active slow_path weigh
    begin_swap decide on_admitted on_pending on_known on_request drain_one drain_from drain_pending
    drain_queue refuse_all serve_all deliver finish_swap prune prune_active abandon abandon_all
    drop_queued distinct on_cancel on_swap_done on_serve_done on_unload step others
play ws s e = step others ws s e

abbrev result : Fifo → Option Fifo → Fifo
result s none = s
result s (some t) = t

-- Both models are known; those of the list run, in the state `st`; every caller is there.
abbrev pub world : List String → ProcessState → ℕ → World
world running st i = record {
  model_state = λ m. some st;
  running_models = running;
  receives_admission = λ req. true;
  receives_grant = λ req. true;
}

abbrev pub request : String → ℕ → HandlerReq
request m channel = record { model = m; respond = channel; has_admit = true }

abbrev pub level : String → ℤ
level m = pos 0

abbrev pub models : List (String × ℕ)
models = ("a", 2) ∷ ("b", 0) ∷ []

abbrev pub s0 : Fifo
s0 = new_fifo "group" level models

unfoldable pub s1 : Fifo
unfolding play new_fifo model_limits
s1 = result s0 (play (world [] stopped) s0 (requested (request "a" 1)))

unfoldable pub s2 : Fifo
unfolding s1
s2 = result s1 (play (world ("a" ∷ []) starting) s1 (requested (request "b" 2)))

unfoldable pub s3 : Fifo
unfolding s2
s3 = result s2 (
    play (world ("a" ∷ []) ready) s2
      (swap_done (record { model_id = "a"; generation = 1; err = none })))

unfoldable pub s4 : Fifo
unfolding s3
s4 = result s3 (play (world ("a" ∷ []) ready) s3 (serve_done "a"))

pub s1-Reachable : Reachable others s1
unfolding s1
s1-Reachable =
    next (world [] stopped) (requested (request "a" 1)) (start "group" level models) tt refl

pub s2-Reachable : Reachable others s2
unfolding s2
s2-Reachable = next (world ("a" ∷ []) starting) (requested (request "b" 2)) s1-Reachable tt refl

pub s3-Reachable : Reachable others s3
unfolding s3
s3-Reachable =
    next (world ("a" ∷ []) ready)
      (swap_done (record { model_id = "a"; generation = 1; err = none })) s2-Reachable tt refl

pub s4-Reachable : Reachable others s4
unfolding s4
s4-Reachable = next (world ("a" ∷ []) ready) (serve_done "a") s3-Reachable (omega arith) refl

-- The second request waits for the first swap, and for the first request to be served.
waits : s2.queued ≡ request "b" 2 ∷ []
unfolding s2
waits = refl

still_waits : s3.queued ≡ request "b" 2 ∷ []
unfolding s3
still_waits = refl

second_swap :
    s4.active
    ≡ record { model_id = "b"; generation = 2; evict = "a" ∷ []; waiters = request "b" 2 ∷ [] } ∷ []
unfolding s4
second_swap = refl
