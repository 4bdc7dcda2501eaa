-- ===== src/Capacity/Sound.antt =====
-- internal/router/capacity.go: whatever the search finds are candidates that cover the need, at the
-- cost that it keeps with them.
use mathlib.Core.List.{append_assoc}
use fork_llama_swap.Base.{
  ℕ, ◌+◌, ◌≡◌, refl, sym, subst, String, Bool, true, leb, if_keeps, if_cases, List, [], ◌∷◌, ◌++◌,
  arith,
}
use fork_llama_swap.Base.Sub.{Sub, Sub-middle, Sub-trans, Sub-refl}
use fork_llama_swap.Capacity.{
  Amounts, ModelConfig, Found, plus, fits, total, total_cost, usage, cost, improves, record_best,
  too_dear, search,
}
use fork_llama_swap.Capacity.Vectors.{
  Covers, fits→Covers, Covers-mono, total-append, total_cost-append,
}

module _ (models : String → ModelConfig) (pools : List String) (need : Amounts) (limit : ℕ)
    (candidates : List String) where
  pub record IsSound (st : Found) : Type 0 where
    pub chosen : Sub st.best candidates
    pub covers : Covers pools need (total models st.best)
    pub priced : st.best_cost ≡ total_cost models st.best

  -- Where the search stands: what is chosen, what it frees and costs, and the candidates to come.
  pub record Stands (rest : List String) (freed : Amounts) (chosen : List String) (c : ℕ)
      : Type 0 where
    within : Sub (chosen ++ rest) candidates
    frees : (p : String) → freed p ≡ total models chosen p
    costs : c ≡ total_cost models chosen

  touched :
      (st : Found) (n : ℕ) (b : Bool) → IsSound st → IsSound (record st { nodes = n; limited = b })
  touched st n b v = record { chosen = v.chosen; covers = v.covers; priced = v.priced }

  record_best-IsSound :
      (rest : List String) (freed : Amounts) (chosen : List String) (c : ℕ) (st : Found)
      → Stands rest freed chosen c
      → fits pools need freed ≡ true
      → IsSound st
      → IsSound (record_best models pools need limit c chosen st)
  unfolding record_best
  record_best-IsSound rest freed chosen c st w f v =
      if_keeps IsSound (improves models pools need limit c chosen st) _ _
        (record {
          chosen = Sub-trans w.within (Sub-prefix chosen rest);
          covers =
              Covers-mono pools need freed (total models chosen) (λ p. omega (arith, w.frees p))
                (fits→Covers pools need freed f);
          priced = w.costs;
        })
        v
    where
      Sub-prefix : (xs ys : List String) → Sub xs (xs ++ ys)
      Sub-prefix [] [] = Sub.done
      Sub-prefix [] (y ∷ ys) = Sub.drop y (Sub-prefix [] ys)
      Sub-prefix (x ∷ xs) ys = Sub.keep x (Sub-prefix xs ys)

  skipped :
      (id : String) (rest : List String) (freed : Amounts) (chosen : List String) (c : ℕ)
      → Stands (id ∷ rest) freed chosen c
      → Stands rest freed chosen c
  skipped id rest freed chosen c w = record {
    within = Sub-trans w.within (Sub-middle chosen id rest);
    frees = w.frees;
    costs = w.costs;
  }

  taken :
      (id : String) (rest : List String) (freed : Amounts) (chosen : List String) (c : ℕ)
      → Stands (id ∷ rest) freed chosen c
      → Stands rest (plus freed (usage models id)) (chosen ++ id ∷ []) (c + cost models id)
  unfolding total total_cost
  taken id rest freed chosen c w = record {
    within = subst (λ x. Sub x candidates) (sym (append_assoc chosen (id ∷ []) rest)) w.within;
    frees = λ p. omega (arith, w.frees p, total-append models chosen (id ∷ []) p);
    costs = omega (arith, w.costs, total_cost-append models chosen (id ∷ []));
  }

  pub search-IsSound :
      (rest : List String) (freed : Amounts) (chosen : List String) (c : ℕ) (st : Found)
      → Stands rest freed chosen c
      → IsSound st
      → IsSound (search models pools need limit rest freed chosen c st)
  unfolding search
  search-IsSound [] freed chosen c st w v =
      if_keeps IsSound (leb limit st.nodes) _ _ (touched st _ _ v) (
        if_cases IsSound (fits pools need freed) _ _
          (λ f. record_best-IsSound [] freed chosen c _ w f (touched st _ _ v))
          (λ f. touched st _ _ v))
  search-IsSound (id ∷ rest) freed chosen c st w v =
      if_keeps IsSound (leb limit st.nodes) _ _ (touched st _ _ v) (
        if_cases IsSound (fits pools need freed) _ _
          (λ f. record_best-IsSound (id ∷ rest) freed chosen c st1 w f v1)
          (λ f. if_keeps IsSound (too_dear models pools need limit c chosen st1) _ _ v1 (
            if_keeps IsSound (fits pools need (plus freed (total models (id ∷ rest)))) _ _
              (search-IsSound rest freed chosen c _ (skipped id rest freed chosen c w) (
                search-IsSound rest (plus freed (usage models id)) (chosen ++ id ∷ [])
                  (c + cost models id) st1 (taken id rest freed chosen c w) v1))
              v1)))
    where
      st1 : Found
      st1 = record st { nodes = st.nodes + 1 }

      v1 : IsSound st1
      v1 = touched st _ _ v

  pub at_start : Stands candidates (λ p. 0) [] 0
  unfolding total total_cost
  at_start = record { within = Sub-refl candidates; frees = λ p. refl; costs = refl }
