-- ===== src/Tests/Process.antt =====
-- internal/process/process_command.go at concrete events: Run and WaitReady, a stop, EnsureReady, an
-- exit of the upstream, and a shutdown while a start is under way.
use fork_llama_swap.Base.{◌+◌, ◌≤◌, ◌≡◌, refl, Bool, true, false, List, [], ◌∷◌, Option, none, some}
use fork_llama_swap.Process.{
  Loop, new_loop, Event, parent_done, upstream_exited, wait_ready, start, started, stop, step,
  on_event, on_start, on_started, on_stop, on_wait_ready, on_upstream_exited, on_parent_done,
  on_parent_done_in_start, StartReq, Reply, Client, runner, waiter, starter, stopper, returned,
}
use fork_llama_swap.Process.Phases.{IsSettled}
use fork_llama_swap.Process.Diagram.{Follows}
use fork_llama_swap.Process.Honest.{Honest}
use fork_llama_swap.Process.Ended.{Reaps}
use fork_llama_swap.Process.Ledger.{times, times_sent, times_started, held}
use fork_llama_swap.Process.Runs.{
  Reachable, at_start, after, Reachable-IsSettled, Reachable-Follows, Reachable-Honest,
  Reachable-Reaps, Reachable-Answered, shutdown_answers_all,
}

-- The loop after an event, or the same where it is not received.
abbrev moved : Option Loop → Loop → Loop
moved none l = l
moved (some k) l = k

-- The last states, with what was answered.
abbrev answers : List Reply → List (Client × Bool)
answers [] = []
answers (r ∷ rs) = (r.to, elim r.error [ none ↦ true | some e ↦ false ]) ∷ answers rs

events : List Event
events =
    wait_ready 0
    ∷ start (record { respond = 1; block = true }) 10
    ∷ started 100 11 12
    ∷ wait_ready 2
    ∷ stop 3 none 13
    ∷ start (record { respond = 4; block = false }) 14
    ∷ started 101 15 16
    ∷ upstream_exited 17
    ∷ start (record { respond = 5; block = false }) 18
    ∷ parent_done (some 102) 19
    ∷ []

abbrev play : List Event → Loop → Loop
play [] l = l
play (e ∷ es) l = play es (moved (step e l) l)

at_end :
    answers (play events new_loop).sent
    ≡ (waiter 0, true)
      ∷ (waiter 2, true)
      ∷ (runner 1, true)
      ∷ (stopper 3, true)
      ∷ (starter 4, true)
      ∷ []
unfolding events step on_event on_wait_ready on_start on_started on_stop on_upstream_exited
    on_parent_done_in_start
at_end = refl

-- Run, a client that waits for it, and a shutdown.
abbrev request : StartReq
request = record { respond = 1; block = true }

abbrev waits : Loop
waits = play (wait_ready 0 ∷ []) new_loop

abbrev starts : Loop
starts = play (start request 10 ∷ []) waits

abbrev runs : Loop
runs = play (started 100 11 12 ∷ []) starts

abbrev ended : Loop
ended = play (parent_done none 13 ∷ []) runs

reaches : Reachable ended
unfolding step on_event on_wait_ready on_start on_started on_parent_done times
reaches =
    after runs ended (parent_done none 13)
      (after starts runs (started 100 11 12)
        (after waits starts (start request 10)
          (after new_loop waits (wait_ready 0) at_start refl refl) refl refl)
        tt refl)
      tt refl

Reachable-IsSettled_example : IsSettled ended
Reachable-IsSettled_example = Reachable-IsSettled ended reaches

Reachable-Follows_example : Follows ended
Reachable-Follows_example = Reachable-Follows ended reaches

Reachable-Honest_example : Honest ended
Reachable-Honest_example = Reachable-Honest ended reaches

Reachable-Reaps_example : Reaps 100 ended
Reachable-Reaps_example = Reachable-Reaps ended 100 reaches

Reachable-Answered_example :
    (times 1 ended.received ≡ times_sent 1 ended.sent + held 1 ended) × (times 1 ended.received ≤ 1)
Reachable-Answered_example = Reachable-Answered ended 1 reaches

shutdown_answers_all_example :
    (times 1 ended.received ≡ times_sent 1 ended.sent + times_started 1 (returned none))
    × (times 1 ended.spawned ≡ times 1 ended.ended)
unfolding step on_event on_wait_ready on_start on_started on_parent_done
shutdown_answers_all_example = shutdown_answers_all ended none 1 reaches refl
