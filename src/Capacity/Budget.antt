-- ===== src/Capacity/Budget.antt =====
-- internal/router/capacity.go: how many nodes the branch and bound search visits, against its limit.
use native.Mathlib.Nat.{pow-suc}
use fork_llama_swap.Base.{
  ℕ, zero, suc, ◌+◌, ◌*◌, ◌^◌, ◌≤◌, ◌≡◌, String, false, leb, if_keeps, if_cases, List, [], ◌∷◌,
  ◌++◌, length, arith,
}
use fork_llama_swap.Capacity.{
  Amounts, ModelConfig, Found, plus, fits, total, usage, cost, improves, record_best, too_dear,
  search,
}

-- The nodes of the whole binary tree of that height.
abbrev pub visits : ℕ → ℕ
visits zero = 1
visits (suc n) = 1 + 2 * visits n

pub visits-power : (n : ℕ) → 1 + visits n ≡ 2 ^ (n + 1)
visits-power zero = omega arith
visits-power (suc n) = grind (arith, visits-power n, pow-suc 2 (n + 1))

visits-positive : (n : ℕ) → 1 ≤ visits n
visits-positive zero = omega arith
visits-positive (suc n) = omega arith

-- The limit was not met, and at most `n` nodes were visited.
abbrev pub InBudget : ℕ → Found → Found → Type 0
InBudget n st r = (r.limited ≡ false) × (r.nodes ≤ st.nodes + n)

module _ (models : String → ModelConfig) (pools : List String) (need : Amounts) (limit : ℕ) where
  visited-once :
      (n c : ℕ) (chosen : List String) (st : Found)
      → st.limited ≡ false
      → 1 ≤ n
      → InBudget n st
          (record_best models pools need limit c chosen (record st { nodes = st.nodes + 1 }))
  unfolding record_best
  visited-once n c chosen st e h =
      if_keeps (InBudget n st)
        (improves models pools need limit c chosen (record st { nodes = st.nodes + 1 })) _ _
        (e, omega arith) (e, omega arith)

  twice-InBudget :
      (n : ℕ) (st st2 r : Found)
      → InBudget n (record st { nodes = st.nodes + 1 }) st2
      → (st2.limited ≡ false → st2.nodes + n ≤ limit → InBudget n st2 r)
      → st.nodes + (1 + 2 * n) ≤ limit
      → InBudget (1 + 2 * n) st r
  twice-InBudget n st st2 r a f h =
      ((f a.0 (omega (arith, a.1))).0, omega (arith, a.1, (f a.0 (omega (arith, a.1))).1))

  pub search-InBudget :
      (rest : List String) (freed : Amounts) (chosen : List String) (c : ℕ) (st : Found)
      → st.limited ≡ false
      → st.nodes + visits (length rest) ≤ limit
      → InBudget (visits (length rest)) st (search models pools need limit rest freed chosen c st)
  unfolding search
  search-InBudget [] freed chosen c st e h =
      if_cases (InBudget 1 st) (leb limit st.nodes) _ _ (λ t. absurd (ground arith))
        (λ t.
          if_keeps (InBudget 1 st) (fits pools need freed) _ _
            (visited-once 1 c chosen st e (omega arith)) (e, omega arith))
  search-InBudget (id ∷ rest) freed chosen c st e h =
      if_cases (InBudget (visits (suc (length rest))) st) (leb limit st.nodes) _ _
        (λ t. absurd (ground (arith, visits-positive (length rest))))
        (λ t.
          if_keeps (InBudget (visits (suc (length rest))) st) (fits pools need freed) _ _
            (visited-once (visits (suc (length rest))) c chosen st e (omega arith))
            (if_keeps (InBudget (visits (suc (length rest))) st)
              (too_dear models pools need limit c chosen st1) _ _ (e, omega arith)
              (if_keeps (InBudget (visits (suc (length rest))) st)
                (fits pools need (plus freed (total models (id ∷ rest)))) _ _
                (twice-InBudget (visits (length rest)) st st2
                  (search models pools need limit rest freed chosen c st2)
                  (search-InBudget rest (plus freed (usage models id)) (chosen ++ id ∷ [])
                    (c + cost models id) st1 e (omega arith))
                  (search-InBudget rest freed chosen c st2) h)
                (e, omega arith))))
    where
      st1 : Found
      st1 = record st { nodes = st.nodes + 1 }

      st2 : Found
      st2 =
          search models pools need limit rest (plus freed (usage models id)) (chosen ++ id ∷ [])
            (c + cost models id) st1
