-- ===== src/Capacity/Search.antt =====
-- internal/router/capacity.go: the branch and bound search. What it returns covers the need, and
-- unless it ran into the node limit no choice of candidates that covers it is cheaper.
use fork_llama_swap.Base.{
  ℕ, ◌+◌, ◌≤◌, ◌<◌, ◌≡◌, refl, ◌⊎◌, inr, String, true, false, leb, if_keeps, if_cases, List, [],
  ◌∷◌, ◌++◌, length, length-append, arith,
}
use fork_llama_swap.Base.Sub.{Sub, keep, drop}
use fork_llama_swap.Capacity.{
  Amounts, ModelConfig, Found, plus, fits, total, total_cost, usage, cost, improves, record_best,
  too_dear, search,
}
use fork_llama_swap.Capacity.Vectors.{Covers, Covers→fits, Covers-mono, total-Sub}

-- What is found costs at most `c`, and where it costs `c` it has at most `n` models.
abbrev pub AtMost : ℕ → ℕ → Found → Type 0
AtMost c n st = (st.best_cost < c) ⊎ ((st.best_cost ≡ c) × (length st.best ≤ n))

-- The second is as good as the first.
abbrev NoWorse : Found → Found → Type 0
NoWorse st r = AtMost st.best_cost (length st.best) r

NoWorse-refl : (st : Found) → NoWorse st st
NoWorse-refl st = inr (refl, omega arith)

AtMost-NoWorse : (c n : ℕ) (st r : Found) → AtMost c n st → NoWorse st r → AtMost c n r
AtMost-NoWorse c n st r a w = ground arith

pub AtMost-mono : (c n c' n' : ℕ) (st : Found) → c ≤ c' → n ≤ n' → AtMost c n st → AtMost c' n' st
AtMost-mono c n c' n' st h k a = ground arith

module _ (models : String → ModelConfig) (pools : List String) (need : Amounts) (limit : ℕ) where
  record_best-NoWorse :
      (c : ℕ) (chosen : List String) (st : Found)
      → NoWorse st (record_best models pools need limit c chosen st)
  unfolding record_best improves
  record_best-NoWorse c chosen st = ground arith

  record_best-AtMost :
      (c : ℕ) (chosen : List String) (st : Found)
      → AtMost c (length chosen) (record_best models pools need limit c chosen st)
  unfolding record_best improves
  record_best-AtMost c chosen st = ground arith

  search-NoWorse :
      (rest : List String) (freed : Amounts) (chosen : List String) (c : ℕ) (st : Found)
      → NoWorse st (search models pools need limit rest freed chosen c st)
  unfolding search
  search-NoWorse [] freed chosen c st =
      if_keeps (NoWorse st) (leb limit st.nodes) _ _ (NoWorse-refl st) (
        if_keeps (NoWorse st) (fits pools need freed) _ _ (record_best-NoWorse c chosen _)
          (NoWorse-refl st))
  search-NoWorse (id ∷ rest) freed chosen c st =
      if_keeps (NoWorse st) (leb limit st.nodes) _ _ (NoWorse-refl st) (
        if_keeps (NoWorse st) (fits pools need freed) _ _ (record_best-NoWorse c chosen _) (
          if_keeps (NoWorse st) (too_dear models pools need limit c chosen st1) _ _
            (NoWorse-refl st)
            (if_keeps (NoWorse st) (fits pools need (plus freed (total models (id ∷ rest)))) _ _
              (AtMost-NoWorse st.best_cost (length st.best) st2
                (search models pools need limit rest freed chosen c st2)
                (search-NoWorse rest (plus freed (usage models id)) (chosen ++ id ∷ [])
                  (c + cost models id) st1)
                (search-NoWorse rest freed chosen c st2))
              (NoWorse-refl st))))
    where
      st1 : Found
      st1 = record st { nodes = st.nodes + 1 }

      st2 : Found
      st2 =
          search models pools need limit rest (plus freed (usage models id)) (chosen ++ id ∷ [])
            (c + cost models id) st1

  -- A search that has met its limit says so at its end.
  abbrev Unlimited : Found → Found → Type 0
  Unlimited st r = r.limited ≡ false → st.limited ≡ false

  record_best-Unlimited :
      (c : ℕ) (chosen : List String) (st : Found)
      → Unlimited st (record_best models pools need limit c chosen st)
  unfolding record_best
  record_best-Unlimited c chosen st =
      if_keeps (Unlimited st) (improves models pools need limit c chosen st) _ _ (λ h. h) (λ h. h)

  search-Unlimited :
      (rest : List String) (freed : Amounts) (chosen : List String) (c : ℕ) (st : Found)
      → Unlimited st (search models pools need limit rest freed chosen c st)
  unfolding search
  search-Unlimited [] freed chosen c st =
      if_keeps (Unlimited st) (leb limit st.nodes) _ _ (λ h. cc)
        (if_keeps (Unlimited st) (fits pools need freed) _ _ (record_best-Unlimited c chosen _)
          (λ h. h))
  search-Unlimited (id ∷ rest) freed chosen c st =
      if_keeps (Unlimited st) (leb limit st.nodes) _ _ (λ h. cc)
        (if_keeps (Unlimited st) (fits pools need freed) _ _ (record_best-Unlimited c chosen _) (
          if_keeps (Unlimited st) (too_dear models pools need limit c chosen st1) _ _ (λ h. h)
            (if_keeps (Unlimited st) (fits pools need (plus freed (total models (id ∷ rest)))) _ _
              (λ h.
                search-Unlimited rest (plus freed (usage models id)) (chosen ++ id ∷ [])
                  (c + cost models id) st1 (search-Unlimited rest freed chosen c st2 h))
              (λ h. h))))
    where
      st1 : Found
      st1 = record st { nodes = st.nodes + 1 }

      st2 : Found
      st2 =
          search models pools need limit rest (plus freed (usage models id)) (chosen ++ id ∷ [])
            (c + cost models id) st1

  -- Unless the limit was met, every completion that covers the need is at least as dear as the best.
  abbrev pub Optimal : List String → ℕ → List String → Found → Type 0
  Optimal chosen c ids r =
      r.limited ≡ false → AtMost (c + total_cost models ids) (length chosen + length ids) r

  too_dear-AtMost :
      (c : ℕ) (chosen : List String) (st : Found)
      → too_dear models pools need limit c chosen st ≡ true
      → AtMost c (length chosen) st
  unfolding too_dear
  too_dear-AtMost c chosen st h = ground arith

  -- To add models to a choice makes it no better.
  grown :
      (c : ℕ) (chosen ids : List String) (r : Found)
      → AtMost c (length chosen) r
      → AtMost (c + total_cost models ids) (length chosen + length ids) r
  grown c chosen ids r h =
      AtMost-mono c (length chosen) (c + total_cost models ids) (length chosen + length ids) r
        (omega arith) (omega arith) h

  Covers-rest :
      (freed : Amounts) (rest ids : List String)
      → Sub ids rest
      → Covers pools need (plus freed (total models ids))
      → fits pools need (plus freed (total models rest)) ≡ true
  Covers-rest freed rest ids s h = Covers→fits pools need (plus freed (total models rest)) (
      Covers-mono pools need (plus freed (total models ids)) (plus freed (total models rest))
        (λ p. omega (arith, total-Sub models s p)) h)

  Covers-now :
      (freed : Amounts) (ids : List String)
      → Sub ids []
      → Covers pools need (plus freed (total models ids))
      → fits pools need freed ≡ true
  unfolding total
  Covers-now freed ids s h = Covers→fits pools need freed (
      Covers-mono pools need (plus freed (total models ids)) freed
        (λ p. omega (arith, total-Sub models s p)) h)

  -- One level of the search, in terms of its last call.
  search_level :
      (id : String) (rest : List String) (freed : Amounts) (chosen : List String) (c : ℕ)
      (st : Found) (ids : List String)
      → fits pools need (plus freed (total models (id ∷ rest))) ≡ true
      → Optimal chosen c ids (
          search models pools need limit rest freed chosen c (
            search models pools need limit rest
              (plus freed (usage models id))
              (chosen ++ id ∷ [])
              (c + cost models id)
              (record st { nodes = st.nodes + 1 })))
      → Optimal chosen c ids (search models pools need limit (id ∷ rest) freed chosen c st)
  unfolding search
  search_level id rest freed chosen c st ids possible later =
      if_keeps (Optimal chosen c ids) (leb limit st.nodes) _ _ (λ e. cc)
        (if_keeps (Optimal chosen c ids) (fits pools need freed) _ _
          (λ e.
            grown c chosen ids (record_best models pools need limit c chosen st1)
              (record_best-AtMost c chosen st1))
          (if_cases (Optimal chosen c ids) (too_dear models pools need limit c chosen st1) _ _
            (λ d e. grown c chosen ids st1 (too_dear-AtMost c chosen st1 d))
            (λ d.
              if_cases (Optimal chosen c ids)
                (fits pools need (plus freed (total models (id ∷ rest)))) _ _ (λ f. later)
                (λ f. cc))))
    where
      st1 : Found
      st1 = record st { nodes = st.nodes + 1 }

  pub search-Optimal :
      (rest : List String) (freed : Amounts) (chosen : List String) (c : ℕ) (st : Found)
      (ids : List String)
      → Sub ids rest
      → Covers pools need (plus freed (total models ids))
      → Optimal chosen c ids (search models pools need limit rest freed chosen c st)
  unfolding search total total_cost
  search-Optimal [] freed chosen c st ids s h =
      if_keeps (Optimal chosen c ids) (leb limit st.nodes) _ _ (λ e. cc)
        (if_cases (Optimal chosen c ids) (fits pools need freed) _ _
          (λ f e.
            grown c chosen ids
              (record_best models pools need limit c chosen (record st { nodes = st.nodes + 1 }))
              (record_best-AtMost c chosen _))
          (λ f. absurd (ground (arith, Covers-now freed ids s h))))
  search-Optimal (id ∷ rest) freed chosen c st ids (drop _ s) h =
      search_level id rest freed chosen c st ids (Covers-rest freed (id ∷ rest) ids (drop id s) h)
        (search-Optimal rest freed chosen c _ ids s h)
  search-Optimal (id ∷ rest) freed chosen c st (_ ∷ ids) (keep _ s) h =
      search_level id rest freed chosen c st (id ∷ ids)
        (Covers-rest freed (id ∷ rest) (id ∷ ids) (keep id s) h)
        (λ e.
          AtMost-NoWorse _ _ st2 (search models pools need limit rest freed chosen c st2)
            (AtMost-mono _ _ _ _ st2 (omega arith) (omega (arith, length-append chosen (id ∷ []))) (
              search-Optimal rest (plus freed (usage models id)) (chosen ++ id ∷ [])
                (c + cost models id) st1 ids s
                (Covers-mono pools need (plus freed (total models (id ∷ ids)))
                  (plus (plus freed (usage models id)) (total models ids)) (λ p. omega arith) h)
                (search-Unlimited rest freed chosen c st2 e)))
            (search-NoWorse rest freed chosen c st2))
    where
      st1 : Found
      st1 = record st { nodes = st.nodes + 1 }

      st2 : Found
      st2 =
          search models pools need limit rest (plus freed (usage models id)) (chosen ++ id ∷ [])
            (c + cost models id) st1
