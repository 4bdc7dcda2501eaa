-- ===== src/Tests/Selector.antt =====
-- internal/server/selector.go at a selector of two local models and one of a peer.
use fork_llama_swap.Base.{
  ◌≡◌, ◌≢◌, refl, true, false, String, ◌=ₛ◌, if◌then◌else◌, [], ◌∷◌, Option, none, some,
}
use fork_llama_swap.Scheduler.Model.{ready, stopping}
use fork_llama_swap.Selector.{
  Reading, SpilloverState, new_state, Running, Chosen, chose, refused, no_available_target,
  strategy_warm, strategy_spillover,
}
use fork_llama_swap.Selector.Choice.{Chooses, strategy_spillover-Chooses}
use fork_llama_swap.Selector.Middleware.{SelectorConfig, Circumstances, Begun, begin, spillover}
use fork_llama_swap.Selector.Reservations.{Reachable, starts, begins, tally, Reachable-counts}

abbrev read : Reading
read n = if n =ₛ "remote" then ("peer/remote", false) else (n, true)

abbrev selector : SelectorConfig
selector = record { strategy = spillover; targets = "a" ∷ "b" ∷ "remote" ∷ []; spillover_limit = 1 }

abbrev running : Running
running m = if m =ₛ "a" then some ready else (if m =ₛ "b" then some stopping else none)

abbrev circumstances : Circumstances
circumstances = record { running = running; replaced = true; ignored = false }

abbrev model : String → String
model n = (read n).0

abbrev after : Option (Begun × SpilloverState) → SpilloverState
after none = new_state read 1 selector.targets
after (some r) = r.1

abbrev s0 : SpilloverState
s0 = new_state read 1 selector.targets

abbrev s1 : SpilloverState
s1 = after (begin selector model circumstances s0)

abbrev s2 : SpilloverState
s2 = after (begin selector model circumstances s1)

abbrev name : Option Chosen → Option String
name (some (chose n s)) = some n
name _ = none

-- The first request goes to the model that runs, the second spills over the one that stops.
first_choice : name (strategy_spillover (some s0) running) ≡ some "a"
unfolding strategy_spillover new_state
first_choice = refl

second_choice : name (strategy_spillover (some s1) running) ≡ some "remote"
unfolding strategy_spillover new_state
second_choice = refl

warm_choice : strategy_warm model ("b" ∷ "a" ∷ []) running ≡ some "a"
unfolding strategy_warm
warm_choice = refl

nothing_left :
    strategy_spillover (some (new_state read 1 ("b" ∷ []))) running
    ≡ some (refused no_available_target)
unfolding strategy_spillover new_state
nothing_left = refl

strategy_spillover-Chooses_example : Chooses s1 running (strategy_spillover (some s1) running)
strategy_spillover-Chooses_example = strategy_spillover-Chooses s1 running

two_held : Reachable read selector s2 ("remote" ∷ "a" ∷ [])
unfolding strategy_spillover new_state
two_held = begins circumstances (begins circumstances starts refl) refl

Reachable-counts_example :
    (s2.inflight "peer/remote" ≡ tally read "peer/remote" ("remote" ∷ "a" ∷ []))
    × (begin selector model circumstances s2 ≢ none)
Reachable-counts_example =
    Reachable-counts read selector s2 ("remote" ∷ "a" ∷ []) "peer/remote" circumstances two_held
