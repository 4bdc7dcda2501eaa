-- ===== src/Capacity/Plan.antt =====
-- internal/router/capacity.go: the plan as a whole. What is evicted are candidates, it frees enough for
-- the target, and unless the search ran into the node limit no cheaper choice would do.
use mathlib.Core.List.{reverse, reverse-cons, reverse-reverse, append_assoc, append-nil}
use fork_llama_swap.Base.{
  ℕ, ◌+◌, ◌^◌, ◌≤◌, ◌<◌, ◌≡◌, refl, ap, ◌∙◌, sym, subst, ◌⊎◌, String, false, if_keeps, if_cases,
  List, [], ◌∷◌, ◌++◌, length, All, All-mono, Distinct, arith,
}
use fork_llama_swap.Base.Sub.{Sub, drop, Sub-refl, Sub-trans, Sub-middle, Sub-Distinct}
use fork_llama_swap.Capacity.{
  Amounts, ModelConfig, CapacitySwapper, Found, plus, minus, zeros, fits, total, total_cost, usage,
  seed, trim, finish, candidates_for, need_for, node_limit, search_from, plan,
}
use fork_llama_swap.Capacity.Candidates.{candidates_for-Distinct}
use fork_llama_swap.Capacity.Vectors.{Covers, fits→Covers, Covers-mono, total-reverse}
use fork_llama_swap.Capacity.Search.{AtMost, AtMost-mono, search-Optimal}
use fork_llama_swap.Capacity.Budget.{visits-power, search-InBudget}
use fork_llama_swap.Capacity.Sound.{IsSound, search-IsSound, at_start}
use fork_llama_swap.Capacity.Greedy.{seed-Sub, seed-Covers}

module _ (models : String → ModelConfig) (pools : List String) (need : Amounts) (limit : ℕ) where
  trim-Covers :
      (rev : List String) (freed : Amounts) (kept : List String)
      → ((p : String) → freed p ≤ total models rev p + total models kept p)
      → Covers pools need freed
      → Covers pools need (total models (trim models pools need limit rev freed kept))
  unfolding trim total
  trim-Covers [] freed kept le v =
      Covers-mono pools need freed (total models kept) (λ p. omega (arith, le p)) v
  trim-Covers (id ∷ rev) freed kept le v =
      if_cases (λ l. Covers pools need (total models l))
        (fits pools need (minus freed (usage models id))) _ _
        (λ f.
          trim-Covers rev (minus freed (usage models id)) kept (λ p. omega (arith, le p))
            (fits→Covers pools need (minus freed (usage models id)) f))
        (λ f. trim-Covers rev freed (id ∷ kept) (λ p. omega (arith, le p)) v)

  moved :
      (id : String) (rev kept : List String) → reverse (id ∷ rev) ++ kept ≡ reverse rev ++ id ∷ kept
  moved id rev kept =
      ap (λ l. l ++ kept) (reverse-cons id rev) ∙ append_assoc (reverse rev) (id ∷ []) kept

  trim-Sub :
      (rev : List String) (freed : Amounts) (kept : List String)
      → Sub (trim models pools need limit rev freed kept) (reverse rev ++ kept)
  unfolding trim
  trim-Sub [] freed kept = Sub-refl kept
  trim-Sub (id ∷ rev) freed kept =
      subst (λ l. Sub (trim models pools need limit (id ∷ rev) freed kept) l)
        (sym (moved id rev kept))
        (if_keeps (λ l. Sub l (reverse rev ++ id ∷ kept))
          (fits pools need (minus freed (usage models id))) _ _
          (Sub-trans (Sub-middle (reverse rev) id kept)
            (trim-Sub rev (minus freed (usage models id)) kept))
          (trim-Sub rev freed (id ∷ kept)))

  module _ (candidates : List String) (st : Found)
      (v : IsSound models pools need limit candidates st) where
    finish-Sub : Sub (finish models pools need limit st) candidates
    unfolding finish
    finish-Sub =
        if_keeps (λ l. Sub l candidates) st.limited _ _
          (Sub-trans v.chosen (
            subst
              (λ l.
                Sub (trim models pools need limit (reverse st.best) (total models st.best) []) l)
              (append-nil (reverse (reverse st.best)) ∙ reverse-reverse st.best)
              (trim-Sub (reverse st.best) (total models st.best) [])))
          v.chosen

    finish-Covers : Covers pools need (total models (finish models pools need limit st))
    unfolding finish total
    finish-Covers =
        if_keeps (λ l. Covers pools need (total models l)) st.limited _ _
          (trim-Covers (reverse st.best) (total models st.best) []
            (λ p. omega (arith, total-reverse models st.best p)) v.covers)
          v.covers

-- The target is declared to need no more than the pools have.
abbrev pub Admissible : CapacitySwapper → String → Type 0
Admissible s target = All (λ p. usage s.models target p ≤ s.totals p) s.pools

-- Evicting `ids` makes room for the target beside the candidates that stay.
abbrev pub MakesRoom : CapacitySwapper → String → List String → List String → Type 0
MakesRoom s target candidates ids =
    All
      (λ p.
        usage s.models target p + total s.models candidates p ≤ s.totals p + total s.models ids p)
      s.pools

MakesRoom→Covers :
    (s : CapacitySwapper) (target : String) (candidates ids : List String)
    → MakesRoom s target candidates ids
    → Covers s.pools (need_for s target candidates) (total s.models ids)
unfolding need_for
MakesRoom→Covers s target candidates ids h = All-mono _ _ (λ p k. omega arith) s.pools h

Covers→MakesRoom :
    (s : CapacitySwapper) (target : String) (candidates ids : List String)
    → Covers s.pools (need_for s target candidates) (total s.models ids)
    → MakesRoom s target candidates ids
unfolding need_for
Covers→MakesRoom s target candidates ids h = All-mono _ _ (λ p k. omega arith) s.pools h

all_suffice :
    (s : CapacitySwapper) (target : String) (candidates : List String)
    → Admissible s target
    → MakesRoom s target candidates candidates
all_suffice s target candidates h = All-mono _ _ (λ p k. omega arith) s.pools h

-- The search that the planner runs for the target.
unfoldable pub plan_search : CapacitySwapper → String → List String → Found
unfolding search_from
plan_search s target candidates =
    let need = need_for s target candidates in
    search_from s need candidates (seed s.models s.pools need candidates)

module _ (s : CapacitySwapper) (target : String) (candidates : List String)
    (h : Admissible s target) where
  plan_search-IsSound :
      IsSound s.models s.pools
        (need_for s target candidates)
        (node_limit s)
        candidates
        (plan_search s target candidates)
  unfolding plan_search search_from
  plan_search-IsSound =
      search-IsSound s.models s.pools (need_for s target candidates) (node_limit s) candidates
        candidates zeros [] 0 _
        (at_start s.models s.pools (need_for s target candidates) (node_limit s) candidates)
        (record {
          chosen = seed-Sub s.models s.pools (need_for s target candidates) candidates;
          covers =
              seed-Covers s.models s.pools (need_for s target candidates) candidates (
                MakesRoom→Covers s target candidates candidates
                  (all_suffice s target candidates h));
          priced = refl;
        })

pub plan-Sub :
    (s : CapacitySwapper) (target : String) (running : List String)
    → Admissible s target
    → Sub (plan s target running) (candidates_for target running)
      × MakesRoom s target (candidates_for target running) (plan s target running)
unfolding plan total plan_search
plan-Sub s target running h =
    if_cases
      (λ l.
        Sub l (candidates_for target running)
        × MakesRoom s target (candidates_for target running) l)
      (fits s.pools (need_for s target (candidates_for target running)) zeros) _ _
      (λ f. (
        none_of (candidates_for target running),
        Covers→MakesRoom s target (candidates_for target running) []
            (fits→Covers s.pools (need_for s target (candidates_for target running)) zeros f),
      ))
      (λ f. (
        finish-Sub s.models s.pools (need_for s target (candidates_for target running))
            (node_limit s) (candidates_for target running) _
            (plan_search-IsSound s target (candidates_for target running) h),
        Covers→MakesRoom s target (candidates_for target running) _ (
            finish-Covers s.models s.pools (need_for s target (candidates_for target running))
              (node_limit s) (candidates_for target running) _
              (plan_search-IsSound s target (candidates_for target running) h)),
      ))
  where
    none_of : (xs : List String) → Sub [] xs
    none_of [] = Sub.done
    none_of (x ∷ xs) = drop x (none_of xs)

-- If the target alone fits into the pools, then the plan evicts candidates only, in their order
-- and none of them twice, also where a model stands twice among the running ones, and its
-- evictions make room in every pool for the target beside the candidates that stay.
pub plan-MakesRoom :
    (s : CapacitySwapper) (target : String) (running : List String)
    → Admissible s target
    → Sub (plan s target running) (candidates_for target running)
      × Distinct (plan s target running)
      × MakesRoom s target (candidates_for target running) (plan s target running)
plan-MakesRoom s target running h =
    let r = plan-Sub s target running h in
    (r.0, Sub-Distinct r.0 (candidates_for-Distinct target running), r.1)

-- The first choice is cheaper, or as cheap and not of more models.
abbrev pub NoDearer : CapacitySwapper → List String → List String → Type 0
NoDearer s xs ys =
    (total_cost s.models xs < total_cost s.models ys)
    ⊎ ((total_cost s.models xs ≡ total_cost s.models ys) × (length xs ≤ length ys))

plan_search-AtMost :
    (s : CapacitySwapper) (target : String) (candidates ids : List String)
    → (plan_search s target candidates).limited ≡ false
    → Sub ids candidates
    → MakesRoom s target candidates ids
    → AtMost (total_cost s.models ids) (length ids) (plan_search s target candidates)
unfolding plan_search search_from
plan_search-AtMost s target candidates ids e c r =
    AtMost-mono _ _ _ _ (plan_search s target candidates) (omega arith) (omega arith) (
      search-Optimal s.models s.pools (need_for s target candidates) (node_limit s) candidates zeros
        [] 0 _ ids c
        (Covers-mono s.pools (need_for s target candidates) (total s.models ids)
          (plus zeros (total s.models ids)) (λ p. omega arith)
          (MakesRoom→Covers s target candidates ids r))
        e)

found-NoDearer :
    (s : CapacitySwapper) (target : String) (candidates ids : List String) (st : Found)
    → st.best_cost ≡ total_cost s.models st.best
    → st.limited ≡ false
    → AtMost (total_cost s.models ids) (length ids) st
    → NoDearer s (finish s.models s.pools (need_for s target candidates) (node_limit s) st) ids
unfolding finish
found-NoDearer s target candidates ids st priced l a =
    if_cases (λ p. NoDearer s p ids) st.limited _ _ (λ e. absurd (ground arith)) (λ e. ground arith)

-- If the target alone fits into the pools and the search has not met its limit, then no choice of
-- candidates that makes room for the target is cheaper than the plan, or as cheap with fewer models.
pub plan-NoDearer :
    (s : CapacitySwapper) (target : String) (running ids : List String)
    → Admissible s target
    → (plan_search s target (candidates_for target running)).limited ≡ false
    → Sub ids (candidates_for target running)
    → MakesRoom s target (candidates_for target running) ids
    → NoDearer s (plan s target running) ids
unfolding plan total total_cost plan_search
plan-NoDearer s target running ids h l c r =
    if_keeps (λ p. NoDearer s p ids)
      (fits s.pools (need_for s target (candidates_for target running)) zeros) _ _ (ground arith)
      (found-NoDearer s target (candidates_for target running) ids
        (plan_search s target (candidates_for target running))
        (plan_search-IsSound s target (candidates_for target running) h).priced l
        (plan_search-AtMost s target (candidates_for target running) ids l c r))

-- If the node limit is at least 2 ^ (n + 1) for the n candidates, then the search never meets its
-- limit.
pub plan_search-ends :
    (s : CapacitySwapper) (target : String) (candidates : List String)
    → 2 ^ (length candidates + 1) ≤ node_limit s
    → (plan_search s target candidates).limited ≡ false
unfolding plan_search search_from
plan_search-ends s target candidates h =
    (search-InBudget s.models s.pools (need_for s target candidates) (node_limit s) candidates zeros
      [] 0 _ refl (omega (arith, visits-power (length candidates)))).0
