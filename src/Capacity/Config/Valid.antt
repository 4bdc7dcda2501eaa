-- ===== src/Capacity/Config/Valid.antt =====
-- internal/config/capacity.go: what ValidateCapacity accepts, and that the planner may rely on it.
use fork_llama_swap.Base.{
  ℕ, ◌+◌, ◌-◌, ◌≤◌, ◌≡◌, refl, sym, ap, subst, ◌⊎◌, inl, inr, String, Bool, false, ltb, ◌=ₛ◌, names,
  name_of_test, if◌then◌else◌, if_cases, List, [], ◌∷◌, All, Option, none, some, arith,
}
use fork_llama_swap.Base.Int.{ℤ, pos, negsuc, pos_part, ◌≤ℤ◌, ltb_ℤ}
use fork_llama_swap.Capacity.{Amounts, plan, candidates_for}
use fork_llama_swap.Base.Sub.{Sub}
use fork_llama_swap.Capacity.Plan.{Admissible, MakesRoom, plan-Sub}
use fork_llama_swap.Capacity.Config.{
  Declared, Error, lookup, check_pools, validate_model_capacity, add_to, check_usages, check_models,
  validate_capacity, max_int64, amount, model_config, new_capacity,
}

-- The pool of the capacity has a total that is not below it.
abbrev pub Fits : List (String × ℤ) → String × ℤ → Type 0
Fits pools c = (total : ℤ) × (lookup c.0 pools ≡ some total) × (c.1 ≤ℤ total)

-- What the capacities declare for the pool.
abbrev pub demand : String → List (String × ℤ) → ℕ
demand k [] = 0
demand k ((pool, u) ∷ capacities) = (if pool =ₛ k then pos_part u else 0) + demand k capacities

abbrev pub demands : String → List (String × Declared) → ℕ
demands k [] = 0
demands k ((id, m) ∷ models) = demand k m.capacities + demands k models

abbrev pub costs : List (String × Declared) → ℕ
costs [] = 0
costs ((id, m) ∷ models) = pos_part m.evict_cost + costs models

sums_of : (s t : Amounts) → ◌≡◌ {A = Error ⊎ Amounts} (inr s) (inr t) → s ≡ t
sums_of s t h = ap (λ (o : Error ⊎ Amounts). elim o [ inl e ↦ s | inr r ↦ r ]) h

not_above : (a b : ℤ) → ltb_ℤ a b ≡ false → b ≤ℤ a
not_above a b h = ground arith

-- When the body of the loop goes on, the pool is known and both tests have failed.
goes_on :
    (o : Option ℤ) (over : ℤ → Bool) (full : Bool) (e f g : Error) (rest : Error ⊎ Amounts)
    (s : Amounts)
    → (elim o [
      | none ↦ inl e
      | some total ↦ if over total then inl f else if full then inl g else rest
    ])
      ≡ inr s
    → (total : ℤ) × (o ≡ some total) × (over total ≡ false) × (full ≡ false) × (rest ≡ inr s)
goes_on none over full e f g rest s h = absurd (ground arith)
goes_on (some total) over full e f g rest s h =
    (total, refl, ground arith, ground arith, ground arith)

module _ (pools : List (String × ℤ)) where
  -- The capacities fit, and the sums have grown by them within an int64.
  abbrev Summed : Amounts → List (String × ℤ) → Amounts → Type 0
  Summed sums capacities s =
      All (Fits pools) capacities
      × ((k : String)
          → sums k ≤ max_int64
          → (s k ≡ sums k + demand k capacities) × (s k ≤ max_int64))

  Summed-step :
      (sums : Amounts) (pool : String) (u : ℤ) (capacities : List (String × ℤ)) (s : Amounts)
      → Fits pools (pool, u)
      → ltb (max_int64 - sums pool) (pos_part u) ≡ false
      → Summed (add_to sums pool (pos_part u)) capacities s
      → Summed sums ((pool, u) ∷ capacities) s
  Summed-step sums pool u capacities s h n r = (
    (h, r.0),
    λ k b. elim (names pool k) [
      | inl e ↦ ground (arith, e, ap sums e.1, n, r.1 k)
      | inr e ↦ ground (arith, e, r.1 k)
    ],
  )

  check_usages-Summed :
      (id : String) (sums : Amounts) (capacities : List (String × ℤ)) (s : Amounts)
      → check_usages pools id sums capacities ≡ inr s
      → Summed sums capacities s
  unfolding check_usages
  check_usages-Summed id sums [] s h =
      (tt, λ k b. omega (arith, b, ap (λ (f : Amounts). f k) (sums_of sums s h)))
  check_usages-Summed id sums ((pool, u) ∷ capacities) s h =
      Summed-step sums pool u capacities s (g.0, g.1, not_above g.0 u g.2) g.3
        (check_usages-Summed id (add_to sums pool (pos_part u)) capacities s g.4)
    where
      g :
          (total : ℤ) × (lookup pool pools ≡ some total)
          × (ltb_ℤ total u ≡ false)
          × (ltb (max_int64 - sums pool) (pos_part u) ≡ false)
          × (check_usages pools id (add_to sums pool (pos_part u)) capacities ≡ inr s)
      g =
          goes_on (lookup pool pools) (λ total. ltb_ℤ total u)
            (ltb (max_int64 - sums pool) (pos_part u)) _ _ _ _ s h

  -- When the body of the loop over the models goes on, the model is accepted.
  models_go_on :
      (v : Option Error) (u : Error ⊎ Amounts) (full : Amounts → Bool) (e : Error)
      (rest : Amounts → Option Error)
      → (elim v [
        | some x ↦ some x
        | none ↦ elim u [ inl x ↦ some x | inr s ↦ if full s then some e else rest s ]
      ])
        ≡ none
      → (s : Amounts) × (v ≡ none) × (u ≡ inr s) × (full s ≡ false) × (rest s ≡ none)
  models_go_on (some x) u full e rest h = absurd (ground arith)
  models_go_on none (inl x) full e rest h = absurd (ground arith)
  models_go_on none (inr s) full e rest h = (s, refl, refl, ground arith, ground arith)

  record Accepted (sums : Amounts) (cost : ℕ) (models : List (String × Declared)) : Type 0 where
    fitting : All (λ (m : String × Declared). All (Fits pools) m.1.capacities) models
    summed : (k : String) → sums k ≤ max_int64 → sums k + demands k models ≤ max_int64
    priced : cost ≤ max_int64 → cost + costs models ≤ max_int64

  Accepted-step :
      (sums : Amounts) (cost : ℕ) (id : String) (m : Declared) (models : List (String × Declared))
      (s : Amounts)
      → Summed sums m.capacities s
      → ltb (max_int64 - cost) (pos_part m.evict_cost) ≡ false
      → Accepted s (cost + pos_part m.evict_cost) models
      → Accepted sums cost ((id, m) ∷ models)
  Accepted-step sums cost id m models s first n rest = record {
    fitting = (first.0, rest.fitting);
    summed = λ k b. omega (arith, (first.1 k b).0, rest.summed k (first.1 k b).1);
    priced = λ b. omega (arith, rest.priced (ground (arith, b, n)));
  }

  check_models-Accepted :
      (sums : Amounts) (cost : ℕ) (models : List (String × Declared))
      → check_models pools sums cost models ≡ none
      → Accepted sums cost models
  unfolding check_models
  check_models-Accepted sums cost [] h = record {
    fitting = tt;
    summed = λ k b. omega (arith, b);
    priced = λ b. omega (arith, b);
  }
  check_models-Accepted sums cost ((id, m) ∷ models) h =
      Accepted-step sums cost id m models g.0 (check_usages-Summed id sums m.capacities g.0 g.2) g.3
        (check_models-Accepted g.0 (cost + pos_part m.evict_cost) models g.4)
    where
      g :
          (s : Amounts) × (validate_model_capacity id m ≡ none)
          × (check_usages pools id sums m.capacities ≡ inr s)
          × (ltb (max_int64 - cost) (pos_part m.evict_cost) ≡ false)
          × (check_models pools s (cost + pos_part m.evict_cost) models ≡ none)
      g =
          models_go_on (validate_model_capacity id m) (check_usages pools id sums m.capacities)
            (λ s. ltb (max_int64 - cost) (pos_part m.evict_cost)) _
            (λ s. check_models pools s (cost + pos_part m.evict_cost) models) h

checked :
    (o : Option Error) (rest : Option Error)
    → (elim o [ some e ↦ some e | none ↦ rest ]) ≡ none
    → rest ≡ none
checked none rest h = h
checked (some e) rest h = absurd (ground arith)

validated :
    (pools : List (String × ℤ)) (models : List (String × Declared))
    → validate_capacity (some pools) models ≡ none
    → Accepted pools (λ pool. 0) 0 models
unfolding validate_capacity
validated [] models h = absurd (ground arith)
validated (p ∷ pools) models h =
    check_models-Accepted (p ∷ pools) (λ pool. 0) 0 models (checked (check_pools (p ∷ pools)) _ h)

-- If ValidateCapacity accepts a configuration, then each declared capacity is of a known pool and at
-- most its total.
pub validate_capacity-Fits :
    (pools : List (String × ℤ)) (models : List (String × Declared))
    → validate_capacity (some pools) models ≡ none
    → All (λ (m : String × Declared). All (Fits pools) m.1.capacities) models
validate_capacity-Fits pools models h = (validated pools models h).fitting

-- If ValidateCapacity accepts a configuration, then the capacities that all models declare for a pool,
-- and the costs of all models, add up within an int64.
pub validate_capacity_bounds :
    (pools : List (String × ℤ)) (models : List (String × Declared)) (pool : String)
    → validate_capacity (some pools) models ≡ none
    → (demands pool models ≤ max_int64) × (costs models ≤ max_int64)
validate_capacity_bounds pools models pool h = (
  omega (arith, (validated pools models h).summed pool (omega arith)),
  omega (arith, (validated pools models h).priced (omega arith)),
)

lookup-Fits :
    (pools : List (String × ℤ)) (capacities : List (String × ℤ)) (p : String)
    → All (Fits pools) capacities
    → amount (lookup p capacities) ≤ amount (lookup p pools)
unfolding lookup
lookup-Fits pools [] p h = omega arith
lookup-Fits pools ((pool, u) ∷ capacities) p h =
    if_cases (λ (o : Option ℤ). amount o ≤ amount (lookup p pools)) (pool =ₛ p) _ _
      (λ e.
        subst (λ q. pos_part u ≤ amount (lookup q pools)) (name_of_test pool p e)
          (subst (λ (o : Option ℤ). pos_part u ≤ amount o) (sym h.0.1) (parts u h.0.0 h.0.2)))
      (λ e. lookup-Fits pools capacities p h.1)
  where
    parts : (a b : ℤ) → a ≤ℤ b → pos_part a ≤ pos_part b
    parts (pos n) b l = omega (arith, l)
    parts (negsuc n) b l = omega arith

model-Fits :
    (pools : List (String × ℤ)) (models : List (String × Declared)) (id p : String)
    → All (λ (m : String × Declared). All (Fits pools) m.1.capacities) models
    → (model_config (lookup id models)).capacities p ≤ amount (lookup p pools)
unfolding lookup
model-Fits pools [] id p h = omega arith
model-Fits pools ((key, m) ∷ models) id p h =
    if_cases (λ o. (model_config o).capacities p ≤ amount (lookup p pools)) (key =ₛ id) _ _
      (λ e. lookup-Fits pools m.capacities p h.0) (λ e. model-Fits pools models id p h.1)

everywhere : (P : String → Type 0) → ((p : String) → P p) → (ps : List String) → All P ps
everywhere P f [] = tt
everywhere P f (p ∷ ps) = (f p, everywhere P f ps)

admissible :
    (pools : List (String × ℤ)) (models : List (String × Declared)) (target : String)
    → All (λ (m : String × Declared). All (Fits pools) m.1.capacities) models
    → Admissible (new_capacity pools models) target
unfolding new_capacity
admissible pools models target h =
    everywhere _ (λ p. model-Fits pools models target p h) (new_capacity pools models).pools

-- If ValidateCapacity accepts a configuration, then the planner that NewCapacity makes of it evicts
-- running models only, and makes room in every pool for any target beside the models that stay.
pub validated-MakesRoom :
    (pools : List (String × ℤ)) (models : List (String × Declared)) (target : String)
    (running : List String)
    → validate_capacity (some pools) models ≡ none
    → Sub (plan (new_capacity pools models) target running) (candidates_for target running)
      × MakesRoom
          (new_capacity pools models)
          target
          (candidates_for target running)
          (plan (new_capacity pools models) target running)
validated-MakesRoom pools models target running h =
    plan-Sub (new_capacity pools models) target running
      (admissible pools models target (validate_capacity-Fits pools models h))

-- If ValidateCapacity accepts a configuration, then each declared capacity is of a known pool and at
-- most its total, and the capacities that all models declare for a pool, and the costs of all models,
-- add up within an int64.
pub validate_capacity_admits :
    (pools : List (String × ℤ)) (models : List (String × Declared)) (pool : String)
    → validate_capacity (some pools) models ≡ none
    → All (λ (m : String × Declared). All (Fits pools) m.1.capacities) models
      × (demands pool models ≤ max_int64)
      × (costs models ≤ max_int64)
validate_capacity_admits pools models pool h = (
  validate_capacity-Fits pools models h,
  (validate_capacity_bounds pools models pool h).0,
  (validate_capacity_bounds pools models pool h).1,
)
