-- ===== src/Tests/Planners.antt =====
-- The theorems on the planners of internal/router/capacity.go and group.go, at small configurations.
use fork_llama_swap.Base.{
  Distinct, ◌≡◌, ◌≢◌, refl, ◌↔◌, String, true, false, [], ◌∷◌, Occurs, Distinct, if◌then◌else◌,
  ◌=ₛ◌, arith,
}
use fork_llama_swap.Base.Sub.{Sub, done, keep, drop}
use fork_llama_swap.Scheduler.Collision.{insert_sorted, sort_strings}
use fork_llama_swap.Capacity.{
  ModelConfig, CapacitySwapper, compact, except, candidates_for, node_limit, total, total_cost,
  plan, fits, list_lt, enumerate, chosen_from, insert_by_cost, sort_by_cost, retain, seed, improves,
  record_best, too_dear, search, trim, finish, need_for, search_from,
}
use fork_llama_swap.Capacity.Plan.{
  MakesRoom, NoDearer, plan_search, plan-MakesRoom, plan-NoDearer, plan_search-ends,
}
use fork_llama_swap.Capacity.Candidates.{candidates_for-Occurs}
use fork_llama_swap.Capacity.Cached.{eviction, swap_start, answers, plans, no_plan, answers-plans}
use fork_llama_swap.Group.{GroupSwapper, consider, consider_all, MakesWay, eviction_for-Selects}
use fork_llama_swap.Group

-- The target "t" takes 5 of 12; "a" takes 6 and is cheap, "b" takes 3 and "c" takes 2.
abbrev config_of : String → ModelConfig
config_of id =
    if id =ₛ "t"
    then record { capacities = λ p. 5; evict_cost = 0 }
    else if id =ₛ "a"
    then record { capacities = λ p. 6; evict_cost = 1 }
    else if id =ₛ "b"
    then record { capacities = λ p. 3; evict_cost = 5 }
    else record { capacities = λ p. 2; evict_cost = 2 }

abbrev planner : CapacitySwapper
planner = record { pools = "gpu" ∷ []; totals = λ p. 12; search_limit = 0; models = config_of }

-- The cheap model is evicted.
evicts_the_cheap : plan planner "t" ("c" ∷ "a" ∷ "b" ∷ []) ≡ "a" ∷ []
unfolding insert_sorted sort_strings compact except candidates_for total total_cost fits list_lt
    enumerate chosen_from insert_by_cost sort_by_cost retain seed improves record_best too_dear
    search trim finish need_for node_limit search_from plan
evicts_the_cheap = refl

plan-MakesRoom_example :
    Sub (plan planner "t" ("c" ∷ "a" ∷ "b" ∷ [])) (candidates_for "t" ("c" ∷ "a" ∷ "b" ∷ []))
    × Distinct (plan planner "t" ("c" ∷ "a" ∷ "b" ∷ []))
    × MakesRoom planner "t"
        (candidates_for "t" ("c" ∷ "a" ∷ "b" ∷ []))
        (plan planner "t" ("c" ∷ "a" ∷ "b" ∷ []))
plan-MakesRoom_example = plan-MakesRoom planner "t" ("c" ∷ "a" ∷ "b" ∷ []) (omega arith, tt)

plan_search-ends_example : (plan_search planner "t" ("a" ∷ "b" ∷ [])).limited ≡ false
unfolding node_limit
plan_search-ends_example = plan_search-ends planner "t" ("a" ∷ "b" ∷ []) (omega arith)

plan-NoDearer_example : NoDearer planner (plan planner "t" ("c" ∷ "a" ∷ "b" ∷ [])) ("b" ∷ "c" ∷ [])
unfolding candidates_for insert_sorted sort_strings compact except total node_limit
plan-NoDearer_example =
    plan-NoDearer planner "t" ("c" ∷ "a" ∷ "b" ∷ []) ("b" ∷ "c" ∷ []) (omega arith, tt)
      (plan_search-ends planner "t" (candidates_for "t" ("c" ∷ "a" ∷ "b" ∷ [])) (omega arith))
      (drop "a" (keep "b" (keep "c" done))) (omega arith, tt)

candidates_for-Occurs_example :
    Occurs {A = String} "a" (candidates_for "t" ("c" ∷ "a" ∷ "t" ∷ "a" ∷ []))
    ↔ Occurs {A = String} "a" ("c" ∷ "a" ∷ "t" ∷ "a" ∷ []) × (◌≢◌ {A = String} "a" "t")
candidates_for-Occurs_example = candidates_for-Occurs "t" ("c" ∷ "a" ∷ "t" ∷ "a" ∷ []) "a"

answers-plans_example :
    answers planner no_plan
      (eviction "t" ("a" ∷ []) ∷ swap_start "t" ("a" ∷ []) ∷ eviction "t" ("b" ∷ []) ∷ [])
    ≡ plans planner
        (eviction "t" ("a" ∷ []) ∷ swap_start "t" ("a" ∷ []) ∷ eviction "t" ("b" ∷ []) ∷ [])
answers-plans_example =
    answers-plans planner
      (eviction "t" ("a" ∷ []) ∷ swap_start "t" ("a" ∷ []) ∷ eviction "t" ("b" ∷ []) ∷ [])

-- Two groups: "a" and "b" swap and are exclusive, the others are alone.
abbrev group_planner : GroupSwapper
group_planner = record {
  groups = λ g.
      if g =ₛ "swapping"
      then record { swap = true; exclusive = true; persistent = false }
      else record { swap = false; exclusive = false; persistent = false };
  model_to_group = λ m. if m =ₛ "a" then "swapping" else if m =ₛ "b" then "swapping" else "other";
}

eviction_for-Selects_example :
    (Occurs {A = String} "b" (Group.eviction_for group_planner "a" ("b" ∷ "c" ∷ []))
      ↔ Occurs {A = String} "b" ("b" ∷ "c" ∷ []) × MakesWay group_planner "a" "b")
    × Distinct (Group.eviction_for group_planner "a" ("b" ∷ "c" ∷ []))
eviction_for-Selects_example = eviction_for-Selects group_planner "a" ("b" ∷ "c" ∷ []) "b"
