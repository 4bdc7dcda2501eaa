-- ===== src/Tests/Matrix.antt =====
-- The theorems on internal/matrix/program.go, at the set "a & (b | c)".
use fork_llama_swap.Base.{
  ◌^◌, ◌%◌, ◌-◌, ◌+◌, ◌↔◌, ℕ, ◌≡◌, ◌≤◌, refl, inl, inr, String, Option, none, List, [], ◌∷◌, Occurs,
  All, arith,
}
use fork_llama_swap.Scheduler.Collision.{contains_string, insert_sorted, sort_strings}
use fork_llama_swap.Scheduler.Membership.{contains_string-Occurs}
use fork_llama_swap.Matrix.{
  Node, leaf, all_of, any_of, none_left, child, no_bits, subset_of, register, bit_from, mask_of_bit,
  Evaluator, new_evaluator, is_covered, keep_others, add_to_frontier, add_states, combine_one,
  combine, evaluate, Witness,
}
use fork_llama_swap.Matrix.Combos.{IsCombo, project}
use fork_llama_swap.Matrix.Frontier.{Covered}
use fork_llama_swap.Matrix.Exact.{Stands, evaluate_exact}
use fork_llama_swap.Matrix.Program.{
  is_negative, less_int, eviction_cost, CompiledSet, collect, register_sets, support_of,
  with_support, compute_support, has_support, eviction_cost, has_model, state_cost, missing, visit,
  flatten_witness, try_state, try_states, try_sets, decision_of, choose, solve,
}
use fork_llama_swap.Matrix.Contain.{can_contain_all_iff}
use fork_llama_swap.Matrix.{first_bits, full_mask}
use fork_llama_swap.Matrix.Program.{supports_all, covers_all, can_contain_in, can_contain_all}
use fork_llama_swap.Base.{true}
use fork_llama_swap.Capacity.Cached.{eviction, swap_start}
use fork_llama_swap.Matrix.Planner.{
  MatrixSolver, no_result, evictions, solutions, evictions-solutions,
}
use fork_llama_swap.Matrix.Costs.{outside, cost_of}
use fork_llama_swap.Matrix.Solve.{Keeps, solve-NoDearer, solve-Keeps, solve_alone}

abbrev expression : Node
expression =
    all_of
      (child (leaf "a") (child (any_of (child (leaf "b") (child (leaf "c") none_left))) none_left))

abbrev one_set : List CompiledSet
one_set = record { name = "full"; dsl = "a & (b | c)"; root = expression; support = no_bits } ∷ []

abbrev costs : String → Option ℕ
costs m = none

-- Of two running models that do not go together one is kept.
keeps_one : (solve costs (compute_support one_set) "a" ("b" ∷ "c" ∷ [])).evict ≡ "c" ∷ []
unfolding subset_of register bit_from mask_of_bit new_evaluator is_covered keep_others
    add_to_frontier add_states combine_one combine evaluate contains_string insert_sorted
    sort_strings collect register_sets support_of with_support compute_support has_support
    eviction_cost has_model state_cost missing visit flatten_witness try_state try_states try_sets
    decision_of choose solve
keeps_one = refl

abbrev asked : Evaluator
asked = new_evaluator ("a" ∷ "b" ∷ "c" ∷ [])

evaluate_exact_example :
    All (Stands asked (IsCombo expression)) (evaluate asked expression)
    × Covered asked (project asked.model_bits ("a" ∷ "c" ∷ [])) (evaluate asked expression)
unfolding IsCombo
evaluate_exact_example =
    evaluate_exact asked expression ("a" ∷ "c" ∷ [])
      (("a" ∷ []), ("c" ∷ []), refl, refl, (("c" ∷ []), [], refl, inr (inl refl), refl))

a_is_stopped : Occurs {A = String} "a" ("b" ∷ "c" ∷ []) → ⊥
unfolding contains_string
a_is_stopped o = ground (arith, (contains_string-Occurs ("b" ∷ "c" ∷ []) "a").1 o)

a_is_not_b : Occurs {A = String} "a" ("b" ∷ []) → ⊥
unfolding contains_string
a_is_not_b o = ground (arith, (contains_string-Occurs ("b" ∷ []) "a").1 o)

solve-NoDearer_example :
    cost_of costs (solve costs (compute_support one_set) "a" ("b" ∷ "c" ∷ [])).evict
    ≤ cost_of costs (outside ("a" ∷ "c" ∷ []) ("b" ∷ "c" ∷ []))
unfolding IsCombo eviction_cost
solve-NoDearer_example =
    solve-NoDearer costs one_set "a" ("b" ∷ "c" ∷ [])
      (record { name = "full"; dsl = "a & (b | c)"; root = expression; support = no_bits })
      ("a" ∷ "c" ∷ []) (omega arith) a_is_stopped (inl refl)
      (("a" ∷ []), ("c" ∷ []), refl, refl, (("c" ∷ []), [], refl, inr (inl refl), refl)) (inl refl)

solve-Keeps_example :
    (t : CompiledSet) × (w : Witness) × Keeps costs one_set "a"
      ("b" ∷ "c" ∷ [])
      (solve costs (compute_support one_set) "a" ("b" ∷ "c" ∷ []))
      t
      w
unfolding IsCombo
solve-Keeps_example =
    solve-Keeps costs one_set "a" ("b" ∷ "c" ∷ [])
      (record { name = "full"; dsl = "a & (b | c)"; root = expression; support = no_bits })
      ("a" ∷ "c" ∷ []) a_is_stopped (inl refl)
      (("a" ∷ []), ("c" ∷ []), refl, refl, (("c" ∷ []), [], refl, inr (inl refl), refl)) (inl refl)

solve_alone_example :
    ((solve costs (compute_support []) "a" ("b" ∷ [])).evict ≡ "b" ∷ [])
    × ((solve costs (compute_support []) "a" ("b" ∷ [])).target_set ≡ "a" ∷ [])
solve_alone_example = solve_alone costs [] "a" ("b" ∷ []) a_is_not_b (λ s w i c o. i)

contains_both : can_contain_all (compute_support one_set) ("c" ∷ "a" ∷ []) ≡ true
unfolding subset_of register bit_from mask_of_bit new_evaluator is_covered keep_others
    add_to_frontier add_states combine_one combine evaluate contains_string collect register_sets
    support_of with_support compute_support has_support first_bits full_mask supports_all covers_all
    can_contain_in can_contain_all
contains_both = refl

can_contain_all_iff_example :
    (can_contain_all (compute_support one_set) ("c" ∷ "a" ∷ []) ≡ true) ↔ (
      (s : CompiledSet) × (xs : List String) × Occurs s one_set
      × IsCombo s.root xs
      × All (λ k. Occurs k xs) ("c" ∷ "a" ∷ []))
can_contain_all_iff_example = can_contain_all_iff one_set "c" ("a" ∷ [])

abbrev solver : MatrixSolver
solver = record { program = compute_support one_set; evict_costs = costs }

evictions-solutions_example :
    evictions solver no_result
      (eviction "a" ("b" ∷ []) ∷ swap_start "a" ("b" ∷ []) ∷ eviction "c" ("b" ∷ []) ∷ [])
    ≡ solutions solver
        (eviction "a" ("b" ∷ []) ∷ swap_start "a" ("b" ∷ []) ∷ eviction "c" ("b" ∷ []) ∷ [])
evictions-solutions_example =
    evictions-solutions solver
      (eviction "a" ("b" ∷ []) ∷ swap_start "a" ("b" ∷ []) ∷ eviction "c" ("b" ∷ []) ∷ [])

-- Two costs near the largest int add up to a negative number, which is less than 1.
wrapped_cost :
    (is_negative (((2 ^ 63 - 1) + (2 ^ 63 - 1)) % 2 ^ 64) ≡ true)
    × (less_int (((2 ^ 63 - 1) + (2 ^ 63 - 1)) % 2 ^ 64) 1 ≡ true)
wrapped_cost = (refl, refl)
