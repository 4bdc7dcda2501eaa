-- ===== src/Capacity/Greedy.antt =====
-- internal/router/capacity.go: the greedy seed are candidates that cover the need, if all candidates
-- together do.
use fork_llama_swap.Base.{
  ℕ, suc, ◌+◌, ◌≤◌, ◌<◌, ◌≡◌, refl, ap, ◌⊎◌, inl, inr, String, Bool, true, leb, if_keeps, if_cases,
  List, [], ◌∷◌, All, All-mono, arith,
}
use fork_llama_swap.Base.Sub.{Sub, keep, drop}
use fork_llama_swap.Capacity.{
  Amounts, ModelConfig, minus, fits, total, usage, cost, deselect, retain, chosen_from, enumerate,
  insert_by_cost, sort_by_cost, seed,
}
use fork_llama_swap.Capacity.Vectors.{Covers, fits→Covers, Covers-mono}

-- The candidate of index `i`, counted from `k`, is `id`.
abbrev At : ℕ → List String → ℕ × String → Type 0
At k [] c = ⊥
At k (x ∷ xs) c = ((c.0 ≡ k) × (c.1 ≡ x)) ⊎ At (suc k) xs c

At-le : (k : ℕ) (ids : List String) (c : ℕ × String) → At k ids c → k ≤ c.0
At-le k [] c h = absurd h
At-le k (x ∷ xs) c (inl h) = omega arith
At-le k (x ∷ xs) c (inr h) = omega (arith, At-le (suc k) xs c h)

chosen_from-Sub :
    (i : ℕ) (selected : ℕ → Bool) (ids : List String) → Sub (chosen_from i selected ids) ids
unfolding chosen_from
chosen_from-Sub i selected [] = Sub.done
chosen_from-Sub i selected (id ∷ ids) =
    if_keeps (λ l. Sub l (id ∷ ids)) (selected i) _ _
      (keep id (chosen_from-Sub (suc i) selected ids))
      (drop id (chosen_from-Sub (suc i) selected ids))

module _ (models : String → ModelConfig) where
  -- What the selected candidates free, with the indexes from `k` on.
  abbrev picked : ℕ → (ℕ → Bool) → List String → Amounts
  picked k selected ids p = total models (chosen_from k selected ids) p

  all_picked :
      (k : ℕ) (ids : List String) (p : String) → picked k (λ i. true) ids p ≡ total models ids p
  unfolding chosen_from total
  all_picked k [] p = refl
  all_picked k (id ∷ ids) p = omega (arith, all_picked (suc k) ids p)

  deselect_before :
      (i k : ℕ) (selected : ℕ → Bool) (ids : List String) (p : String)
      → i < k
      → picked k (deselect i selected) ids p ≡ picked k selected ids p
  unfolding chosen_from total
  deselect_before i k selected [] p h = refl
  deselect_before i k selected (id ∷ ids) p h =
      ground (arith, deselect_before i (suc k) selected ids p)

  -- To deselect a candidate takes its own capacities at most.
  picked-deselect :
      (k : ℕ) (selected : ℕ → Bool) (ids : List String) (c : ℕ × String) (p : String)
      → At k ids c
      → picked k selected ids p ≤ picked k (deselect c.0 selected) ids p + usage models c.1 p
  unfolding chosen_from total
  picked-deselect k selected [] c p h = absurd h
  picked-deselect k selected (id ∷ ids) c p (inl h) =
      ground (arith, deselect_before c.0 (suc k) selected ids p, ap (λ x. usage models x p) h.1)
  picked-deselect k selected (id ∷ ids) c p (inr h) =
      ground (arith, At-le (suc k) ids c h, picked-deselect (suc k) selected ids c p h)

  module _ (pools : List String) (need : Amounts) (ids : List String) where
    -- What is freed so far is no more than the selected candidates free, and covers the need.
    retain-Covers :
        (order : List (ℕ × String)) (freed : Amounts) (selected : ℕ → Bool)
        → All (At 0 ids) order
        → ((p : String) → freed p ≤ picked 0 selected ids p)
        → Covers pools need freed
        → Covers pools need (picked 0 (retain models pools need order freed selected) ids)
    unfolding retain
    retain-Covers [] freed selected h le v =
        Covers-mono pools need freed (picked 0 selected ids) le v
    retain-Covers (c ∷ order) freed selected h le v =
        if_cases (λ f. Covers pools need (picked 0 f ids))
          (fits pools need (minus freed (usage models c.1))) _ _
          (λ f.
            retain-Covers order (minus freed (usage models c.1)) (deselect c.0 selected) h.1
              (λ p. omega (arith, le p, picked-deselect 0 selected ids c p h.0))
              (fits→Covers pools need (minus freed (usage models c.1)) f))
          (λ f. retain-Covers order freed selected h.1 le v)

  enumerate-At : (k : ℕ) (ids : List String) → All (At k ids) (enumerate k ids)
  unfolding enumerate
  enumerate-At k [] = tt
  enumerate-At k (id ∷ ids) = (
    inl (refl, refl),
    All-mono (At (suc k) ids) (At k (id ∷ ids)) (λ c h. inr h) (enumerate (suc k) ids)
        (enumerate-At (suc k) ids),
  )

  insert_by_cost-All :
      (P : ℕ × String → Type 0) (c : ℕ × String) (order : List (ℕ × String))
      → P c
      → All P order
      → All P (insert_by_cost models c order)
  unfolding insert_by_cost
  insert_by_cost-All P c [] h k = (h, tt)
  insert_by_cost-All P c (d ∷ order) h k =
      if_keeps (All P) (leb (cost models d.1) (cost models c.1)) _ _ (h, k)
        (k.0, insert_by_cost-All P c order h k.1)

  sort_by_cost-All :
      (P : ℕ × String → Type 0) (order : List (ℕ × String))
      → All P order
      → All P (sort_by_cost models order)
  unfolding sort_by_cost
  sort_by_cost-All P [] h = tt
  sort_by_cost-All P (c ∷ order) h =
      insert_by_cost-All P c (sort_by_cost models order) h.0 (sort_by_cost-All P order h.1)

  pub seed-Sub :
      (pools : List String) (need : Amounts) (ids : List String)
      → Sub (seed models pools need ids) ids
  unfolding seed
  seed-Sub pools need ids = chosen_from-Sub 0 _ ids

  pub seed-Covers :
      (pools : List String) (need : Amounts) (ids : List String)
      → Covers pools need (total models ids)
      → Covers pools need (total models (seed models pools need ids))
  unfolding seed
  seed-Covers pools need ids v =
      retain-Covers pools need ids (sort_by_cost models (enumerate 0 ids)) (total models ids)
        (λ i. true) (sort_by_cost-All (At 0 ids) (enumerate 0 ids) (enumerate-At 0 ids))
        (λ p. omega (arith, all_picked 0 ids p)) v
