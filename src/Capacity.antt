-- ===== src/Capacity.antt =====
-- internal/router/capacity.go: the planner that evicts models when the declared resources of the
-- target do not fit beside those of the running ones. A []int64 over the sorted pools is a function
-- of the pool's name; the amounts are validated to be nonnegative, and their sums to fit an int64.
pub mod Vectors
pub mod Search
pub mod Sound
pub mod Greedy
pub mod Budget
pub mod Candidates
pub mod Plan
pub mod Cached
pub mod Config
use Prim.Native.Nat.{Ordering}
use Prim.Native.String.{compare}
use mathlib.Core.List.{reverse}
use fork_llama_swap.Base.{
  ℕ, suc, ◌+◌, ◌-◌, String, Bool, true, false, not, ◌&&◌, ◌||◌, List, [], ◌∷◌, ◌++◌, length, ltb,
  leb, ◌==◌, ◌=ₛ◌, if◌then◌else◌,
}
use fork_llama_swap.Scheduler.Collision.{sort_strings}

abbrev pub Amounts : Type 0
Amounts = String → ℕ

-- What the planner reads of config.ModelConfig: Capacities and EvictCost, 0 at a missing key.
pub record ModelConfig : Type 0 where
  pub capacities : Amounts
  pub evict_cost : ℕ

-- capacitySwapper: the pools in the order of their names, with their totals, and the models. A model
-- that is missing from the map reads as one with no capacities and no cost.
pub record CapacitySwapper : Type 0 where
  pub pools : List String
  pub totals : Amounts
  pub search_limit : ℕ
  pub models : String → ModelConfig

abbrev pub plus : Amounts → Amounts → Amounts
plus f g p = f p + g p

abbrev pub minus : Amounts → Amounts → Amounts
minus f g p = f p - g p

abbrev pub zeros : Amounts
zeros p = 0

-- The closure `fits`: no pool is short of `need`.
unfoldable pub fits : List String → Amounts → Amounts → Bool
fits [] need freed = true
fits (p ∷ pools) need freed = if ltb (freed p) (need p) then false else fits pools need freed

-- slices.Compact: of equal neighbours one is kept.
unfoldable pub compact : List String → List String
compact [] = []
compact (x ∷ []) = x ∷ []
compact (x ∷ y ∷ xs) = let rest = compact (y ∷ xs) in if x =ₛ y then rest else x ∷ rest

unfoldable pub except : String → List String → List String
except target [] = []
except target (id ∷ ids) = if id =ₛ target then except target ids else id ∷ except target ids

-- slices.Compare(xs, ys) < 0.
unfoldable pub list_lt : List String → List String → Bool
list_lt [] [] = false
list_lt [] (y ∷ ys) = true
list_lt (x ∷ xs) [] = false
list_lt (x ∷ xs) (y ∷ ys) = elim (compare x y) [
  | Ordering.lt ↦ true
  | Ordering.eq ↦ list_lt xs ys
  | Ordering.gt ↦ false
]

-- The candidates with their indexes.
unfoldable pub enumerate : ℕ → List String → List (ℕ × String)
enumerate i [] = []
enumerate i (id ∷ ids) = (i, id) ∷ enumerate (suc i) ids

-- selected[i] = false.
abbrev pub deselect : ℕ → (ℕ → Bool) → ℕ → Bool
deselect i selected j = if j == i then false else selected j

unfoldable pub chosen_from : ℕ → (ℕ → Bool) → List String → List String
chosen_from i selected [] = []
chosen_from i selected (id ∷ ids) =
    if selected i then id ∷ chosen_from (suc i) selected ids else chosen_from (suc i) selected ids

-- What `search` assigns: best, bestCost, searchNodes and searchLimited.
pub record Found : Type 0 where
  pub best : List String
  pub best_cost : ℕ
  pub nodes : ℕ
  pub limited : Bool

module _ (models : String → ModelConfig) where
  abbrev pub usage : String → Amounts
  usage id = (models id).capacities

  abbrev pub cost : String → ℕ
  cost id = (models id).evict_cost

  -- The sums over a list of models: `suffix` at a suffix of the candidates.
  unfoldable pub total : List String → Amounts
  total [] p = 0
  total (id ∷ ids) p = usage id p + total ids p

  unfoldable pub total_cost : List String → ℕ
  total_cost [] = 0
  total_cost (id ∷ ids) = cost id + total_cost ids

  -- By falling cost, and by index where the costs are equal.
  unfoldable pub insert_by_cost : ℕ × String → List (ℕ × String) → List (ℕ × String)
  insert_by_cost c [] = c ∷ []
  insert_by_cost c (d ∷ order) =
      if leb (cost d.1) (cost c.1) then c ∷ d ∷ order else d ∷ insert_by_cost c order

  unfoldable pub sort_by_cost : List (ℕ × String) → List (ℕ × String)
  unfolding insert_by_cost
  sort_by_cost [] = []
  sort_by_cost (c ∷ order) = insert_by_cost c (sort_by_cost order)

  -- The loop over `order`, which retains a model whenever what is freed still fits.
  unfoldable pub retain :
      List String → Amounts → List (ℕ × String) → Amounts → (ℕ → Bool) → ℕ → Bool
  retain pools need [] freed selected = selected
  retain pools need ((i, id) ∷ order) freed selected =
      let freed' = minus freed (usage id) in
      let retained = retain pools need order freed' (deselect i selected) in
      let evicted = retain pools need order freed selected in
      if fits pools need freed' then retained else evicted

  -- The greedy seed.
  unfoldable pub seed : List String → Amounts → List String → List String
  unfolding retain chosen_from total enumerate sort_by_cost
  seed pools need candidates =
      chosen_from 0
        (retain pools need (sort_by_cost (enumerate 0 candidates)) (total candidates) (λ i. true))
        candidates

  module _ (pools : List String) (need : Amounts) (limit : ℕ) where
    -- Whether the chosen models replace the best ones.
    unfoldable pub improves : ℕ → List String → Found → Bool
    unfolding list_lt
    improves c chosen st =
        ltb c st.best_cost
        || (c == st.best_cost
            && (ltb (length chosen) (length st.best)
                || (length chosen == length st.best && list_lt chosen st.best)))

    unfoldable pub record_best : ℕ → List String → Found → Found
    record_best c chosen st =
        if improves c chosen st then record st { best = chosen; best_cost = c } else st

    -- Whether a partial choice that does not fit yet is too dear to be completed.
    unfoldable pub too_dear : ℕ → List String → Found → Bool
    too_dear c chosen st =
        ltb st.best_cost c || (c == st.best_cost && leb (length st.best) (length chosen))

    -- The closure `search`, at the candidates from index i on; `freed` and `chosen` are handed down,
    -- so what the source undoes after a call is not changed.
    unfoldable pub search : List String → Amounts → List String → ℕ → Found → Found
    search [] freed chosen c st =
        if leb limit st.nodes
        then record st { limited = true }
        else if fits pools need freed
        then record_best c chosen (record st { nodes = st.nodes + 1 })
        else record st { nodes = st.nodes + 1 }
    search (id ∷ rest) freed chosen c st =
        let st1 = record st { nodes = st.nodes + 1 } in
        let st2 = search rest (plus freed (usage id)) (chosen ++ id ∷ []) (c + cost id) st1 in
        let st3 = search rest freed chosen c st2 in
        if leb limit st.nodes
        then record st { limited = true }
        else if fits pools need freed
        then record_best c chosen st1
        else if too_dear c chosen st1
        then st1
        else if fits pools need (plus freed (total (id ∷ rest)))
        then st3
        else st1

    -- The last loop, from the end of `best`: what is not needed is retained after all.
    unfoldable pub trim : List String → Amounts → List String → List String
    trim [] freed kept = kept
    trim (id ∷ rev) freed kept =
        let freed' = minus freed (usage id) in
        let removed = trim rev freed' kept in
        let left = trim rev freed (id ∷ kept) in if fits pools need freed' then removed else left

  unfoldable pub finish : List String → Amounts → ℕ → Found → List String
  unfolding trim
  finish pools need limit st =
      if st.limited then trim pools need limit (reverse st.best) (total st.best) [] else st.best

unfoldable pub candidates_for : String → List String → List String
unfolding compact except
candidates_for target running = except target (compact (sort_strings running))

-- What has to be freed: the target and the candidates, less the totals. A negative need is met by
-- any amounts, and so is the need 0.
unfoldable pub need_for : CapacitySwapper → String → List String → Amounts
unfolding total
need_for s target candidates p =
    (usage s.models target p + total s.models candidates p) - s.totals p

unfoldable pub node_limit : CapacitySwapper → ℕ
node_limit s = if leb s.search_limit 0 then 100000 else s.search_limit

unfoldable pub search_from : CapacitySwapper → Amounts → List String → List String → Found
unfolding search node_limit total_cost
search_from s need candidates first =
    search s.models s.pools need (node_limit s) candidates zeros [] 0
      (record { best = first; best_cost = total_cost s.models first; nodes = 0; limited = false })

-- evictionFor.
unfoldable pub plan : CapacitySwapper → String → List String → List String
unfolding need_for candidates_for seed search_from finish
plan s target running =
    let candidates = candidates_for target running in
    let need = need_for s target candidates in
    if fits s.pools need zeros
    then []
    else finish s.models s.pools need (node_limit s)
        (search_from s need candidates (seed s.models s.pools need candidates))
