-- ===== src/Tests/Inflight.antt =====
-- internal/server/inflight.go at concrete actions, with an outbox for one update.
use fork_llama_swap.Base.{◌≡◌, refl, true, List, [], ◌∷◌, Option, none, some}
use fork_llama_swap.Inflight.{
  Tracker, new_tracker, idle, unlocked, Action, adds, removes, sets_headers, stores, finishes,
  publishes, rechecks, current, step,
}
use fork_llama_swap.Inflight.Synced.{Reachable, at_start, Reachable-synced}
use fork_llama_swap.Inflight.Stale.{run, Reachable-run}

abbrev tracker_of : Option Tracker → Tracker
tracker_of none = new_tracker
tracker_of (some t) = t

-- A request comes, answers, and is published.
abbrev published : List Action
published =
    adds "a" 1
    ∷ finishes
    ∷ publishes
    ∷ sets_headers 1 ("ok" ∷ []) 2
    ∷ publishes
    ∷ finishes
    ∷ publishes
    ∷ publishes
    ∷ publishes
    ∷ publishes
    ∷ publishes
    ∷ publishes
    ∷ []

abbrev settled : Tracker
settled = tracker_of (run 1 published new_tracker)

settles : Reachable 1 settled
unfolding run step
settles = Reachable-run 1 published new_tracker settled at_start refl

Reachable-synced_example : settled.view 1 ≡ current settled 1
unfolding run step
Reachable-synced_example = Reachable-synced 1 1 settled settles refl refl refl refl refl

-- The update of the second request is dropped while the publisher empties the outbox, and the flag for a
-- snapshot is stored after the publisher has looked at it.
abbrev missed : List Action
missed =
    adds "a" 1
    ∷ finishes
    ∷ publishes
    ∷ publishes
    ∷ removes 1
    ∷ finishes
    ∷ adds "b" 2
    ∷ publishes
    ∷ publishes
    ∷ publishes
    ∷ publishes
    ∷ publishes
    ∷ publishes
    ∷ rechecks
    ∷ stores
    ∷ finishes
    ∷ publishes
    ∷ publishes
    ∷ rechecks
    ∷ []

abbrev stale : Tracker
stale = tracker_of (run 1 missed new_tracker)

-- Nothing is left to do, and the client does not know of the request that runs.
stale_view :
    (stale.publisher ≡ idle)
    × (stale.writer ≡ unlocked)
    × (stale.updates ≡ [])
    × (stale.rechecking ≡ 0)
    × (stale.needs_snapshot ≡ true)
    × (stale.view 2 ≡ none)
    × (current stale 2 ≡ some (record { about = "b"; resp_headers = []; resp_bytes = 0 }))
unfolding run step
stale_view = (refl, refl, refl, refl, refl, refl, refl)

stale_is_Reachable : Reachable 1 stale
unfolding run step
stale_is_Reachable = Reachable-run 1 missed new_tracker stale at_start refl
