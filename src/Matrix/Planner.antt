-- ===== src/Matrix/Planner.antt =====
-- internal/router/matrix.go and matrix_solver.go: the planner of the matrix, which keeps the result of
-- the last call.
use fork_llama_swap.Base.{
  ℕ, ◌≡◌, refl, ap, ◌∙◌, subst, inl, inr, String, Bool, true, false, ◌&&◌, ◌=ₛ◌, names,
  if◌then◌else◌, if_cases, List, [], ◌∷◌, Option, arith,
}
use fork_llama_swap.Capacity.Cached.{same_list, same_list-eq, PlannerCall}
use fork_llama_swap.Matrix.Program.{Program, Decision, solve}

-- matrixSolver: the program and the costs of evictions.
pub record MatrixSolver : Type 0 where
  pub program : Program
  pub evict_costs : String → Option ℕ

-- Solve of matrixSolver.
abbrev pub solve_with : MatrixSolver → String → List String → Decision
solve_with s requested running = solve s.evict_costs s.program requested running

-- The mutable fields of matrixSwapper.
pub record LastResult : Type 0 where
  pub last_target : String
  pub last_running : List String
  pub last_result : Decision
  pub last_valid : Bool

abbrev pub no_result : LastResult
no_result = record {
  last_target = "";
  last_running = [];
  last_result = record { evict = []; target_set = []; set_name = ""; dsl = ""; total_cost = 0 };
  last_valid = false;
}

-- solve of matrixSwapper.
unfoldable pub cached_solve :
    MatrixSolver → LastResult → String → List String → Decision × LastResult
unfolding same_list
cached_solve s l target running =
    let result = solve_with s target running in
    if l.last_valid && ((l.last_target =ₛ target) && same_list l.last_running running)
    then (l.last_result, l)
    else (
      result,
      record {
        last_target = target;
        last_running = running;
        last_result = result;
        last_valid = true;
      },
    )

-- What the calls of EvictionFor return; OnSwapStart logs the result of its call.
unfoldable pub evictions : MatrixSolver → LastResult → List PlannerCall → List (List String)
unfolding cached_solve
evictions s l [] = []
evictions s l (PlannerCall.eviction t r ∷ calls) =
    (cached_solve s l t r).0.evict ∷ evictions s (cached_solve s l t r).1 calls
evictions s l (PlannerCall.swap_start t r ∷ calls) = evictions s (cached_solve s l t r).1 calls

-- What the solver tells to evict for them.
unfoldable pub solutions : MatrixSolver → List PlannerCall → List (List String)
solutions s [] = []
solutions s (PlannerCall.eviction t r ∷ calls) = (solve_with s t r).evict ∷ solutions s calls
solutions s (PlannerCall.swap_start t r ∷ calls) = solutions s calls

abbrev Coherent : MatrixSolver → LastResult → Type 0
Coherent s l = l.last_valid ≡ true → l.last_result ≡ solve_with s l.last_target l.last_running

agreed :
    (s : MatrixSolver) (t u : String) (xs ys : List String)
    → (t =ₛ u) ≡ true
    → same_list xs ys ≡ true
    → solve_with s t xs ≡ solve_with s u ys
agreed s t u xs ys e f = elim (names t u) [
  | inl n ↦
      subst (λ w. solve_with s t xs ≡ solve_with s w ys) n.1
        (ap (solve_with s t) (same_list-eq xs ys f))
  | inr n ↦ absurd (ground arith)
]

cached_solve-solve :
    (s : MatrixSolver) (l : LastResult) (target : String) (running : List String)
    → Coherent s l
    → ((cached_solve s l target running).0 ≡ solve_with s target running)
      × Coherent s (cached_solve s l target running).1
unfolding cached_solve
cached_solve-solve s l target running c =
    if_cases (λ (r : Decision × LastResult). (r.0 ≡ solve_with s target running) × Coherent s r.1)
      (l.last_valid && ((l.last_target =ₛ target) && same_list l.last_running running)) _ _
      (λ e. (ground (arith, c, agreed s l.last_target target l.last_running running), c))
      (λ e. (refl, λ v. refl))

evictions_from :
    (s : MatrixSolver) (l : LastResult) (calls : List PlannerCall)
    → Coherent s l
    → evictions s l calls ≡ solutions s calls
unfolding evictions solutions
evictions_from s l [] c = refl
evictions_from s l (PlannerCall.eviction t r ∷ calls) c =
    ap (λ (d : Decision). d.evict ∷ evictions s (cached_solve s l t r).1 calls)
      (cached_solve-solve s l t r c).0
    ∙ ap (λ q. (solve_with s t r).evict ∷ q)
        (evictions_from s (cached_solve s l t r).1 calls (cached_solve-solve s l t r c).1)
evictions_from s l (PlannerCall.swap_start t r ∷ calls) c =
    evictions_from s (cached_solve s l t r).1 calls (cached_solve-solve s l t r c).1

-- Whatever calls came before, each call of EvictionFor returns what Solve tells to evict for its own
-- target and running models.
pub evictions-solutions :
    (s : MatrixSolver) (calls : List PlannerCall) → evictions s no_result calls ≡ solutions s calls
evictions-solutions s calls = evictions_from s no_result calls (λ v. absurd (ground arith))
