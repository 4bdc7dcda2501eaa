-- ===== src/Capacity/Config.antt =====
-- internal/config/capacity.go: ValidateCapacity, which the router of capacities calls before it starts.
-- A map is a list of its keys and values, in any order. An error has no text.
pub mod Valid
use Prim.Native.Char.{code}
use fork_llama_swap.Base.{
  ℕ, ◌+◌, ◌-◌, ◌^◌, String, Bool, true, false, ◌&&◌, ◌||◌, ltb, leb, ◌==◌, ◌=ₛ◌, if◌then◌else◌, ◌⊎◌,
  inl, inr, List, [], ◌∷◌, map, Option, none, some,
}
use fork_llama_swap.Base.Int.{ℤ, pos, negsuc, pos_part, ltb_ℤ}
use fork_llama_swap.Scheduler.Collision.{sort_strings}
use fork_llama_swap.Capacity.{Amounts, ModelConfig, CapacitySwapper}

-- math.MaxInt64.
abbrev pub max_int64 : ℕ
max_int64 = 9223372036854775807

-- The capacities and the cost of config.ModelConfig as they are declared.
pub record Declared : Type 0 where
  pub capacities : List (String × ℤ)
  pub evict_cost : ℤ

pub data Error : Type 0 where
  configuration_required : Error
  no_pools : Error
  empty_pool_name : Error
  total_not_positive : String → Error
  negative_cost : String → Error
  empty_capacity_name : String → Error
  negative_usage : String → String → Error
  unknown_pool : String → String → Error
  exceeds_total : String → String → Error
  capacities_overflow : String → Error
  costs_overflow : Error

-- A missing key is none.
unfoldable pub lookup : {A : Type 0} → String → List (String × A) → Option A
lookup k [] = none
lookup k ((key, v) ∷ rest) = if key =ₛ k then some v else lookup k rest

-- unicode.IsSpace.
abbrev pub is_space : ℕ → Bool
is_space c =
    (leb 9 c && leb c 13)
    || ((c == 32)
        || ((c == 133)
            || ((c == 160)
                || ((c == 5760)
                    || ((leb 8192 c && leb c 8202)
                        || ((c == 8232)
                            || ((c == 8233) || ((c == 8239) || ((c == 8287) || (c == 12288))))))))))

-- strings.TrimSpace(s) == "".
unfoldable pub is_blank : String → Bool
is_blank String.[] = true
is_blank (String.◌∷◌ c s) = is_space (code c) && is_blank s

-- The loop over the pools.
unfoldable pub check_pools : List (String × ℤ) → Option Error
unfolding is_blank
check_pools [] = none
check_pools ((pool, total) ∷ pools) =
    let rest = check_pools pools in
    if is_blank pool
    then some empty_pool_name
    else if ltb_ℤ (pos 0) total
    then rest
    else some (total_not_positive pool)

-- The loop of validateModelCapacity, which names the model in its caller.
unfoldable pub check_declared : String → List (String × ℤ) → Option Error
unfolding is_blank
check_declared id [] = none
check_declared id ((pool, usage) ∷ capacities) =
    let rest = check_declared id capacities in
    if is_blank pool
    then some (empty_capacity_name id)
    else if ltb_ℤ usage (pos 0)
    then some (negative_usage id pool)
    else rest

-- validateModelCapacity.
unfoldable pub validate_model_capacity : String → Declared → Option Error
unfolding check_declared
validate_model_capacity id m =
    if ltb_ℤ m.evict_cost (pos 0) then some (negative_cost id) else check_declared id m.capacities

-- sums[pool] += usage. The test before it keeps the sum within an int64.
abbrev pub add_to : Amounts → String → ℕ → Amounts
add_to sums pool amount k = if pool =ₛ k then sums k + amount else sums k

module _ (pools : List (String × ℤ)) where
  -- The loop over the capacities of a model, which is left by an error or by the sums.
  unfoldable pub check_usages : String → Amounts → List (String × ℤ) → Error ⊎ Amounts
  unfolding lookup
  check_usages id sums [] = inr sums
  check_usages id sums ((pool, usage) ∷ capacities) =
      let rest = check_usages id (add_to sums pool (pos_part usage)) capacities in
      elim (lookup pool pools) [
        | none ↦ inl (unknown_pool id pool)
        | some total ↦
            if ltb_ℤ total usage
            then inl (exceeds_total id pool)
            else if ltb (max_int64 - sums pool) (pos_part usage)
            then inl (capacities_overflow pool)
            else rest
      ]

  -- The loop over the models, with the sums and the cost so far.
  unfoldable pub check_models : Amounts → ℕ → List (String × Declared) → Option Error
  unfolding validate_model_capacity check_usages
  check_models sums cost [] = none
  check_models sums cost ((id, m) ∷ models) = elim (validate_model_capacity id m) [
    | some e ↦ some e
    | none ↦ elim (check_usages id sums m.capacities) [
      | inl e ↦ some e
      | inr sums' ↦
          let rest = check_models sums' (cost + pos_part m.evict_cost) models in
          if ltb (max_int64 - cost) (pos_part m.evict_cost) then some costs_overflow else rest
    ]
  ]

-- ValidateCapacity. A nil configuration is none.
unfoldable pub validate_capacity :
    Option (List (String × ℤ)) → List (String × Declared) → Option Error
unfolding check_pools check_models
validate_capacity none models = some configuration_required
validate_capacity (some []) models = some no_pools
validate_capacity (some (p ∷ pools)) models = elim (check_pools (p ∷ pools)) [
  | some e ↦ some e
  | none ↦ check_models (p ∷ pools) (λ pool. 0) 0 models
]

-- An amount that is read from a map of validated amounts, 0 at a missing key.
abbrev pub amount : Option ℤ → ℕ
amount none = 0
amount (some z) = pos_part z

abbrev pub model_config : Option Declared → ModelConfig
model_config none = record { capacities = λ p. 0; evict_cost = 0 }
model_config (some m) = record {
  capacities = λ p. amount (lookup p m.capacities);
  evict_cost = pos_part m.evict_cost;
}

-- NewCapacity: the planner of the configuration, with the pools in the order of their names.
unfoldable pub new_capacity : List (String × ℤ) → List (String × Declared) → CapacitySwapper
unfolding lookup
new_capacity pools models = record {
  pools = sort_strings (map (λ (p : String × ℤ). p.0) pools);
  totals = λ p. amount (lookup p pools);
  search_limit = 0;
  models = λ id. model_config (lookup id models);
}
