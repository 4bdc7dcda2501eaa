-- ===== src/Matrix/Costs.antt =====
-- internal/matrix/program.go: what a state costs, and which running models it lacks.
use native.Mathlib.Nat.{mod-eq_of_lt, add-mod-mod}
use fork_llama_swap.Base.{
  ℕ, ◌%◌, ◌^◌, ap, ◌+◌, ◌*◌, ◌≤◌, ◌<◌, ◌≡◌, refl, sym, ◌∙◌, ◌↔◌, String, true, if_cases,
  if◌then◌else◌, List, [], ◌∷◌, Occurs, All, Option, some, arith,
}
use fork_llama_swap.Scheduler.Collision.{contains_string}
use fork_llama_swap.Scheduler.Membership.{contains_string-Occurs}
use fork_llama_swap.Matrix.{ProjectedState, Evaluator, bit_of, new_evaluator}
use fork_llama_swap.Matrix.Combos.{project, leaves}
use fork_llama_swap.Matrix.Frontier.{Below}
use fork_llama_swap.Matrix.Exact.{Stands}
use fork_llama_swap.Matrix.Bits.{relevant-Known, project-has, project-only}
use fork_llama_swap.Matrix.Program.{has_model, eviction_cost, state_cost, missing}

-- The running models that are not among the models.
abbrev pub outside : List String → List String → List String
outside xs [] = []
outside xs (m ∷ running) =
    if contains_string xs m then outside xs running else m ∷ outside xs running

abbrev pub cost_of : (String → Option ℕ) → List String → ℕ
cost_of costs [] = 0
cost_of costs (m ∷ ms) = eviction_cost costs m + cost_of costs ms

has_model-bit :
    (e : Evaluator) (st : ProjectedState) (m : String) (b : ℕ)
    → bit_of e.model_bits m ≡ some b
    → has_model e st m ≡ st.mask b
unfolding has_model
has_model-bit e st m b h = rw (h, has_model) refl

pub state_cost-missing :
    (costs : String → Option ℕ) (e : Evaluator) (st : ProjectedState) (running : List String)
    → state_cost costs e st running ≡ cost_of costs (missing e st running) % 2 ^ 64
unfolding state_cost missing
state_cost-missing costs e st [] = omega arith
state_cost-missing costs e st (m ∷ running) =
    if_cases
      (λ l.
        (if has_model e st m
          then state_cost costs e st running
          else (eviction_cost costs m + state_cost costs e st running) % 2 ^ 64)
        ≡ cost_of costs l % 2 ^ 64)
      (has_model e st m) _ _ (λ t. rw t (state_cost-missing costs e st running))
      (λ f. rw f (
        ap (λ c. (eviction_cost costs m + c) % 2 ^ 64) (state_cost-missing costs e st running)
        ∙ add-mod-mod (eviction_cost costs m) (cost_of costs (missing e st running)) (2 ^ 64)))

pub cost_within :
    (costs : String → Option ℕ) (e : Evaluator) (st : ProjectedState) (running : List String)
    → cost_of costs (missing e st running) ≤ cost_of costs running
unfolding missing
cost_within costs e st [] = omega arith
cost_within costs e st (m ∷ running) = ground (arith, cost_within costs e st running)

-- Without a wrap the cost is the sum.
pub state_cost_of :
    (costs : String → Option ℕ) (e : Evaluator) (st : ProjectedState) (running : List String)
    → cost_of costs running < 2 ^ 63
    → state_cost costs e st running ≡ cost_of costs (missing e st running)
state_cost_of costs e st running h =
    state_cost-missing costs e st running
    ∙ mod-eq_of_lt (omega (arith, cost_within costs e st running))

module _ (relevant : List String) where
  abbrev pub query : Evaluator
  query = new_evaluator relevant

  -- A state has a relevant model exactly if it is a model of its witness.
  pub has_model-Stands :
      (P : List String → Type 0) (st : ProjectedState) (m : String)
      → Stands query P st
      → Occurs m relevant
      → (has_model query st m ≡ true) ↔ Occurs m (leaves st.witness)
  has_model-Stands P st m h o = (
    λ t.
        project-only query.model_bits (leaves st.witness) m k.0 k.1
          (sym (h.agrees k.0) ∙ sym (has_model-bit query st m k.0 k.1) ∙ t),
    λ i.
        has_model-bit query st m k.0 k.1
        ∙ h.agrees k.0
        ∙ project-has query.model_bits (leaves st.witness) m k.0 k.1 i,
  )
    where
      k :
          (b : ℕ) × (bit_of (new_evaluator relevant).model_bits m ≡ some b)
          × (b < 64 * (new_evaluator relevant).words)
      k = relevant-Known relevant m o

  pub missing-outside :
      (P : List String → Type 0) (st : ProjectedState) (running : List String)
      → Stands query P st
      → All (λ m. Occurs m relevant) running
      → missing query st running ≡ outside (leaves st.witness) running
  unfolding missing
  missing-outside P st [] h r = refl
  missing-outside P st (m ∷ running) h r = ground (
    arith,
    missing-outside P st running h r.1,
    has_model-Stands P st m h r.0,
    contains_string-Occurs (leaves st.witness) m,
  )

  -- A state with all bits of the models has those of them that are relevant.
  pub has_model-Below :
      (xs : List String) (st : ProjectedState) (m : String)
      → Below (64 * query.words) (project query.model_bits xs) st.mask
      → Occurs m relevant
      → Occurs m xs
      → has_model query st m ≡ true
  has_model-Below xs st m h o i =
      has_model-bit query st m (relevant-Known relevant m o).0 (relevant-Known relevant m o).1
      ∙ h (relevant-Known relevant m o).0 (relevant-Known relevant m o).2 (
          project-has query.model_bits xs m (relevant-Known relevant m o).0
            (relevant-Known relevant m o).1 i)

  pub missing_cost-outside :
      (costs : String → Option ℕ) (xs : List String) (st : ProjectedState) (running : List String)
      → Below (64 * query.words) (project query.model_bits xs) st.mask
      → All (λ m. Occurs m relevant) running
      → cost_of costs (missing query st running) ≤ cost_of costs (outside xs running)
  unfolding missing
  missing_cost-outside costs xs st [] h r = omega arith
  missing_cost-outside costs xs st (m ∷ running) h r = ground (
    arith,
    missing_cost-outside costs xs st running h r.1,
    has_model-Below xs st m h r.0,
    contains_string-Occurs xs m,
  )
