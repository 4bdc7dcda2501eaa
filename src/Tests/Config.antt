-- ===== src/Tests/Config.antt =====
-- The theorems on internal/config/capacity.go, at a configuration of one pool and two models.
use fork_llama_swap.Base.{◌≤◌, ◌≡◌, refl, String, none, some, List, [], ◌∷◌, All}
use fork_llama_swap.Base.Int.{ℤ, pos}
use fork_llama_swap.Base.Sub.{Sub}
use fork_llama_swap.Capacity.{plan, candidates_for}
use fork_llama_swap.Capacity.Plan.{MakesRoom}
use fork_llama_swap.Capacity.Config.{
  Declared, exceeds_total, lookup, is_blank, check_pools, check_declared, validate_model_capacity,
  check_usages, check_models, validate_capacity, max_int64, new_capacity,
}
use fork_llama_swap.Capacity.Config.Valid.{
  Fits, demands, costs, validate_capacity_admits, validated-MakesRoom,
}

abbrev pools : List (String × ℤ)
pools = ("gpu", pos 12) ∷ []

abbrev models : List (String × Declared)
models =
    ("t", record { capacities = ("gpu", pos 5) ∷ []; evict_cost = pos 0 })
    ∷ ("a", record { capacities = ("gpu", pos 9) ∷ []; evict_cost = pos 1 })
    ∷ []

accepted : validate_capacity (some pools) models ≡ none
unfolding lookup is_blank check_pools check_declared validate_model_capacity check_usages
    check_models validate_capacity
accepted = refl

too_large :
    validate_capacity
      (some pools)
      (("b", record { capacities = ("gpu", pos 13) ∷ []; evict_cost = pos 0 }) ∷ [])
    ≡ some (exceeds_total "b" "gpu")
unfolding lookup is_blank check_pools check_declared validate_model_capacity check_usages
    check_models validate_capacity
too_large = refl

validate_capacity_admits_example :
    All (λ (m : String × Declared). All (Fits pools) m.1.capacities) models
    × (demands "gpu" models ≤ max_int64)
    × (costs models ≤ max_int64)
validate_capacity_admits_example = validate_capacity_admits pools models "gpu" accepted

validated-MakesRoom_example :
    Sub (plan (new_capacity pools models) "t" ("a" ∷ [])) (candidates_for "t" ("a" ∷ []))
    × MakesRoom
        (new_capacity pools models)
        "t"
        (candidates_for "t" ("a" ∷ []))
        (plan (new_capacity pools models) "t" ("a" ∷ []))
validated-MakesRoom_example = validated-MakesRoom pools models "t" ("a" ∷ []) accepted
