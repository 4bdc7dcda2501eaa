-- ===== src/Capacity/Cached.antt =====
-- internal/router/capacity.go: EvictionFor and OnSwapStart, which keep the last plan. What a call
-- returns is the plan, whatever calls came before.
use fork_llama_swap.Base.{
  ◌≡◌, refl, ap, ◌∙◌, subst, inl, inr, String, Bool, true, false, ◌&&◌, ◌=ₛ◌, names, if◌then◌else◌,
  if_cases, List, [], ◌∷◌, arith,
}
use fork_llama_swap.Capacity.{CapacitySwapper, plan}

-- slices.Equal.
unfoldable pub same_list : List String → List String → Bool
same_list [] [] = true
same_list [] (y ∷ ys) = false
same_list (x ∷ xs) [] = false
same_list (x ∷ xs) (y ∷ ys) = if x =ₛ y then same_list xs ys else false

-- The mutable fields of capacitySwapper that outlive a call.
pub record LastPlan : Type 0 where
  pub last_target : String
  pub last_running : List String
  pub last_evict : List String
  pub last_valid : Bool

abbrev pub no_plan : LastPlan
no_plan = record { last_target = ""; last_running = []; last_evict = []; last_valid = false }

-- EvictionFor.
unfoldable pub eviction_for :
    CapacitySwapper → LastPlan → String → List String → List String × LastPlan
unfolding same_list
eviction_for s l target running =
    let evict = plan s target running in
    if l.last_valid && ((l.last_target =ₛ target) && same_list l.last_running running)
    then (l.last_evict, l)
    else (
      evict,
      record {
        last_target = target;
        last_running = running;
        last_evict = evict;
        last_valid = true;
      },
    )

-- OnSwapStart, which only logs the plan.
unfoldable pub on_swap_start : CapacitySwapper → LastPlan → String → List String → LastPlan
unfolding eviction_for
on_swap_start s l target running = (eviction_for s l target running).1

-- A call of the planner: EvictionFor or OnSwapStart.
pub data PlannerCall : Type 0 where
  eviction : String → List String → PlannerCall
  swap_start : String → List String → PlannerCall

-- What the calls of EvictionFor return, in their order.
unfoldable pub answers : CapacitySwapper → LastPlan → List PlannerCall → List (List String)
unfolding eviction_for on_swap_start
answers s l [] = []
answers s l (PlannerCall.eviction t r ∷ calls) =
    (eviction_for s l t r).0 ∷ answers s (eviction_for s l t r).1 calls
answers s l (PlannerCall.swap_start t r ∷ calls) = answers s (on_swap_start s l t r) calls

-- The plans that the calls of EvictionFor ask for.
unfoldable pub plans : CapacitySwapper → List PlannerCall → List (List String)
plans s [] = []
plans s (PlannerCall.eviction t r ∷ calls) = plan s t r ∷ plans s calls
plans s (PlannerCall.swap_start t r ∷ calls) = plans s calls

pub same_list-eq : (xs ys : List String) → same_list xs ys ≡ true → xs ≡ ys
unfolding same_list
same_list-eq [] [] h = refl
same_list-eq [] (y ∷ ys) h = absurd (ground arith)
same_list-eq (x ∷ xs) [] h = absurd (ground arith)
same_list-eq (x ∷ xs) (y ∷ ys) h = ground (arith, names x y, same_list-eq xs ys)

-- The plan that is kept is that of its target and its running models.
abbrev Coherent : CapacitySwapper → LastPlan → Type 0
Coherent s l = l.last_valid ≡ true → l.last_evict ≡ plan s l.last_target l.last_running

agreed :
    (s : CapacitySwapper) (t u : String) (xs ys : List String)
    → (t =ₛ u) ≡ true
    → same_list xs ys ≡ true
    → plan s t xs ≡ plan s u ys
agreed s t u xs ys e f = elim (names t u) [
  | inl n ↦ subst (λ w. plan s t xs ≡ plan s w ys) n.1 (ap (plan s t) (same_list-eq xs ys f))
  | inr n ↦ absurd (ground arith)
]

eviction_for-plan :
    (s : CapacitySwapper) (l : LastPlan) (target : String) (running : List String)
    → Coherent s l
    → ((eviction_for s l target running).0 ≡ plan s target running)
      × Coherent s (eviction_for s l target running).1
unfolding eviction_for
eviction_for-plan s l target running c =
    if_cases (λ (r : List String × LastPlan). (r.0 ≡ plan s target running) × Coherent s r.1)
      (l.last_valid && ((l.last_target =ₛ target) && same_list l.last_running running)) _ _
      (λ e. (ground (arith, c, agreed s l.last_target target l.last_running running), c))
      (λ e. (refl, λ v. refl))

answers_from :
    (s : CapacitySwapper) (l : LastPlan) (calls : List PlannerCall)
    → Coherent s l
    → answers s l calls ≡ plans s calls
unfolding answers plans on_swap_start
answers_from s l [] c = refl
answers_from s l (PlannerCall.eviction t r ∷ calls) c =
    ap (λ e. e ∷ answers s (eviction_for s l t r).1 calls) (eviction_for-plan s l t r c).0
    ∙ ap (λ q. plan s t r ∷ q)
        (answers_from s (eviction_for s l t r).1 calls (eviction_for-plan s l t r c).1)
answers_from s l (PlannerCall.swap_start t r ∷ calls) c =
    answers_from s (eviction_for s l t r).1 calls (eviction_for-plan s l t r c).1

-- Whatever calls came before, and whether they were of EvictionFor or OnSwapStart, each call of
-- EvictionFor returns the plan for its own target and running models.
pub answers-plans :
    (s : CapacitySwapper) (calls : List PlannerCall) → answers s no_plan calls ≡ plans s calls
answers-plans s calls = answers_from s no_plan calls (λ v. absurd (ground arith))
