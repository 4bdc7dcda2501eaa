-- ===== src/Matrix/Solve.antt =====
-- internal/matrix/program.go: Solve, against the combinations of the sets.
use fork_llama_swap.Base.{
  ℕ, ◌%◌, ◌^◌, ◌<◌, ◌↔◌, ◌⊎◌, ◌≢◌, inr, ◌=ₛ◌, names, name_of_test, ◌++◌, true, if_keeps, Distinct,
  Distinct-snoc, Occurs-snoc, ◌≤◌, ◌≡◌, refl, sym, ap, ◌∙◌, subst, inl, String, if_cases, List, [],
  ◌∷◌, Occurs, Option, none, some, arith,
}
use fork_llama_swap.Scheduler.Collision.{contains_string}
use fork_llama_swap.Scheduler.Membership.{contains_string-Occurs, sort_strings-Occurs}
use fork_llama_swap.Scheduler.Sorting.{sort_strings-Distinct}
use fork_llama_swap.Matrix.{new_evaluator, Witness, nothing, model, pair}
use fork_llama_swap.Matrix.Combos.{IsCombo, leaves}
use fork_llama_swap.Matrix.Program.{
  CompiledSet, register_sets, with_support, compute_support, Choice, Decision, flatten_witness,
  visit, choose, decision_of, solve,
}
use fork_llama_swap.Matrix.Optimal.{
  Meets, Chosen, AllChosen, try_sets-Meets, try_sets-Chosen, Lasts, any-Lasts, cheap-Lasts,
  running_relevant,
}
use fork_llama_swap.Matrix.Costs.{
  outside, cost_of, has_model-Stands, missing-outside, state_cost-missing, state_cost_of,
}
use fork_llama_swap.Matrix.Support.{
  mentions, register_sets-collect, supported, has_support-collect, with_support-Occurs,
  with_support-from, All-in,
}

Occurs-append_iff :
    (xs ys : List String) (a : String) → Occurs a (xs ++ ys) ↔ (Occurs a xs ⊎ Occurs a ys)
Occurs-append_iff [] ys a = (λ o. inr o, λ o. elim o [ inl h ↦ absurd h | inr h ↦ h ])
Occurs-append_iff (x ∷ xs) ys a = ground (arith, Occurs-append_iff xs ys a)

visit-Occurs :
    (models : List String) (w : Witness) (m : String)
    → Occurs m (visit models w) ↔ (Occurs m models ⊎ (Occurs m (leaves w) × (m ≢ "")))
unfolding visit
visit-Occurs models nothing m = ground arith
visit-Occurs models (model k) m =
    if_cases (λ l. Occurs m l ↔ (Occurs m models ⊎ (Occurs m (k ∷ []) × (m ≢ "")))) (k =ₛ "") _ _
      (λ t. (λ o. inl o, λ o. elim o [ inl h ↦ h | inr h ↦ absurd (unnamed t h) ]))
      (λ f.
        if_cases (λ l. Occurs m l ↔ (Occurs m models ⊎ (Occurs m (k ∷ []) × (m ≢ ""))))
          (contains_string models k) _ _
          (λ t. (
            λ o. inl o,
            λ o. elim o [
              | inl h ↦ h
              | inr h ↦ elim h.0 [
                | inl e ↦
                    subst (λ j. Occurs j models) (sym e) ((contains_string-Occurs models k).0 t)
                | inr i ↦ absurd i
              ]
            ],
          ))
          (λ g. (
            λ o. elim ((Occurs-snoc models k m).0 o) [
              | inl h ↦ inl h
              | inr e ↦ inr (inl e, λ q. ground (arith, f, names k "", e, q))
            ],
            λ o. elim o [
              | inl h ↦ (Occurs-snoc models k m).1 (inl h)
              | inr h ↦ elim h.0 [ inl e ↦ (Occurs-snoc models k m).1 (inr e) | inr i ↦ absurd i ]
            ],
          )))
  where
    unnamed : (k =ₛ "") ≡ true → (Occurs m (k ∷ []) × (m ≢ "")) → ⊥
    unnamed t h = elim h.0 [ inl e ↦ h.1 (e ∙ name_of_test k "" t) | inr i ↦ absurd i ]
visit-Occurs models (pair left right) m = ground (
  arith,
  visit-Occurs (visit models left) right m,
  visit-Occurs models left m,
  Occurs-append_iff (leaves left) (leaves right) m,
)

visit-Distinct : (models : List String) (w : Witness) → Distinct models → Distinct (visit models w)
unfolding visit
visit-Distinct models nothing d = d
visit-Distinct models (model k) d = if_keeps Distinct (k =ₛ "") _ _ d (
    if_cases Distinct (contains_string models k) _ _ (λ t. d)
      (λ f. Distinct-snoc models k (λ o. ground (arith, f, contains_string-Occurs models k, o)) d))
visit-Distinct models (pair left right) d =
    visit-Distinct (visit models left) right (visit-Distinct models left d)

flatten_witness-Occurs :
    (w : Witness) (m : String) → Occurs m (flatten_witness w) ↔ Occurs m (leaves w) × (m ≢ "")
unfolding flatten_witness
flatten_witness-Occurs w m = ground (arith, sort_strings-Occurs (visit [] w) m, visit-Occurs [] w m)

flatten_witness-Distinct : (w : Witness) → Distinct (flatten_witness w)
unfolding flatten_witness
flatten_witness-Distinct w = sort_strings-Distinct (visit [] w) (visit-Distinct [] w tt)

module _ (costs : String → Option ℕ) (sets : List CompiledSet) (target : String)
    (running : List String) where
  choose-Meets :
      (s : CompiledSet) (xs : List String) (P : Choice → Type 0)
      → Lasts costs target running xs P
      → Occurs s sets
      → IsCombo s.root xs
      → Occurs target xs
      → Meets P (choose costs (compute_support sets) target running)
  unfolding choose compute_support
  choose-Meets s xs P lasts i c o =
      try_sets-Meets costs target running xs P lasts o (register_sets [] sets)
        (supported (register_sets [] sets) s) none (with_support (register_sets [] sets) sets)
        (with_support-Occurs (register_sets [] sets) sets s i)
        (has_support-collect (register_sets [] sets) s target
          (register_sets-collect [] sets s target i (mentions s.root xs target c o))
          (mentions s.root xs target c o))
        c

  choose-Chosen :
      AllChosen costs target running
        (with_support (register_sets [] sets) sets)
        (choose costs (compute_support sets) target running)
  unfolding choose compute_support
  choose-Chosen =
      try_sets-Chosen costs target running (register_sets [] sets)
        (with_support (register_sets [] sets) sets) none (with_support (register_sets [] sets) sets)
        (All-in (with_support (register_sets [] sets) sets)) tt

  decision-NoDearer :
      (all : List CompiledSet) (o : Option Choice) (k : ℕ)
      → cost_of costs running < 2 ^ 63
      → Meets (λ best. best.cost ≤ k) o
      → AllChosen costs target running all o
      → cost_of costs (decision_of (new_evaluator (target ∷ running)) target running o).evict ≤ k
  unfolding decision_of
  decision-NoDearer all none k l h c = absurd h
  decision-NoDearer all (some best) k l h c = omega (
    arith,
    h,
    c.priced,
    state_cost_of costs (new_evaluator (target ∷ running)) best.state running l,
  )

  decides :
      (Occurs target running → ⊥)
      → solve costs (compute_support sets) target running
        ≡ decision_of
            (new_evaluator (target ∷ running))
            target
            running
            (choose costs (compute_support sets) target running)
  unfolding solve
  decides n =
      if_cases
        (λ d.
          d
          ≡ decision_of (new_evaluator (target ∷ running)) target running
              (choose costs (compute_support sets) target running))
        (contains_string running target) _ _
        (λ t. absurd (n ((contains_string-Occurs running target).0 t))) (λ f. refl)

  -- If the target is not running and the costs of the running models add up to less than 2 ^ 63,
  -- so that no sum of them wraps, then of all combinations of the sets that have the target, none
  -- would have cheaper running models outside of it than those that Solve evicts.
  pub solve-NoDearer :
      (s : CompiledSet) (xs : List String)
      → cost_of costs running < 2 ^ 63
      → (Occurs target running → ⊥)
      → Occurs s sets
      → IsCombo s.root xs
      → Occurs target xs
      → cost_of costs (solve costs (compute_support sets) target running).evict
        ≤ cost_of costs (outside xs running)
  solve-NoDearer s xs l n i c o =
      subst (λ (d : Decision). cost_of costs d.evict ≤ cost_of costs (outside xs running))
        (sym (decides n))
        (decision-NoDearer (with_support (register_sets [] sets) sets)
          (choose costs (compute_support sets) target running) (cost_of costs (outside xs running))
          l
          (choose-Meets s xs (λ best. best.cost ≤ cost_of costs (outside xs running))
            (cheap-Lasts costs target running xs l) i c o)
          choose-Chosen)

  -- The decision keeps a combination of a set with the target, and evicts the other running models.
  pub record Keeps (d : Decision) (s : CompiledSet) (w : Witness) : Type 0 where
    pub member : Occurs s sets
    pub combination : IsCombo s.root (leaves w)
    pub with_target : Occurs target (leaves w)
    pub evicts : d.evict ≡ outside (leaves w) running
    pub costs_it : d.total_cost ≡ cost_of costs d.evict % 2 ^ 64
    pub names_set : d.set_name ≡ s.name
    pub names_models : (m : String) → Occurs m d.target_set ↔ Occurs m (leaves w) × (m ≢ "")
    pub names_once : Distinct d.target_set

  Chosen-Keeps :
      (best : Choice)
      → Chosen costs target running (with_support (register_sets [] sets) sets) best
      → (s : CompiledSet) × Keeps
          (decision_of (new_evaluator (target ∷ running)) target running (some best))
          s
          best.state.witness
  unfolding decision_of
  Chosen-Keeps best c = (
    from.0,
    record {
      member = from.1;
      combination =
          subst (λ (u : CompiledSet). IsCombo u.root (leaves best.state.witness)) from.2
            c.stands.kind;
      with_target =
          (has_model-Stands (target ∷ running) (IsCombo best.set.root) best.state target c.stands
              (inl refl)).0
            c.has_target;
      evicts =
          missing-outside (target ∷ running) (IsCombo best.set.root) best.state running c.stands
            (running_relevant costs target running);
      costs_it =
          c.priced ∙ state_cost-missing costs (new_evaluator (target ∷ running)) best.state running;
      names_set = ap (λ (u : CompiledSet). u.name) from.2;
      names_models = flatten_witness-Occurs best.state.witness;
      names_once = flatten_witness-Distinct best.state.witness;
    },
  )
    where
      from : (s : CompiledSet) × Occurs s sets × (best.set ≡ supported (register_sets [] sets) s)
      from = with_support-from (register_sets [] sets) sets best.set c.member

  decision-Keeps :
      (o : Option Choice)
      → Meets (λ best. Unit) o
      → AllChosen costs target running (with_support (register_sets [] sets) sets) o
      → (s : CompiledSet) × (w : Witness) × Keeps
          (decision_of (new_evaluator (target ∷ running)) target running o)
          s
          w
  decision-Keeps none h c = absurd h
  decision-Keeps (some best) h c =
      ((Chosen-Keeps best c).0, best.state.witness, (Chosen-Keeps best c).1)

  -- If the target is not running and a combination of a set has it, then Solve keeps a combination
  -- of a set with the target: it evicts exactly the running models outside of that combination,
  -- names its set, names each model of it once and no other one (a model without a name is left
  -- out), and tells the sum of the costs of the evicted models, modulo 2 ^ 64 as an int wraps.
  pub solve-Keeps :
      (s : CompiledSet) (xs : List String)
      → (Occurs target running → ⊥)
      → Occurs s sets
      → IsCombo s.root xs
      → Occurs target xs
      → (t : CompiledSet) × (w : Witness) × Keeps
          (solve costs (compute_support sets) target running)
          t
          w
  solve-Keeps s xs n i c o =
      subst (λ (d : Decision). (t : CompiledSet) × (w : Witness) × Keeps d t w) (sym (decides n))
        (decision-Keeps (choose costs (compute_support sets) target running)
          (choose-Meets s xs (λ best. Unit) (any-Lasts costs target running xs) i c o)
          choose-Chosen)

  decision_alone :
      ((s : CompiledSet) (w : Witness)
        → Occurs s sets
        → IsCombo s.root (leaves w)
        → Occurs target (leaves w)
        → ⊥)
      → (o : Option Choice)
      → AllChosen costs target running (with_support (register_sets [] sets) sets) o
      → ((decision_of (new_evaluator (target ∷ running)) target running o).evict ≡ running)
        × ((decision_of (new_evaluator (target ∷ running)) target running o).target_set
            ≡ target ∷ [])
  unfolding decision_of
  decision_alone n none c = (refl, refl)
  decision_alone n (some best) c =
      absurd (n (Chosen-Keeps best c).0 best.state.witness k.member k.combination k.with_target)
    where
      k :
          Keeps
            (decision_of (new_evaluator (target ∷ running)) target running (some best))
            (Chosen-Keeps best c).0
            best.state.witness
      k = (Chosen-Keeps best c).1

  -- If the target is not running and no combination of any set has it, then Solve evicts all running
  -- models and runs the target alone.
  pub solve_alone :
      (Occurs target running → ⊥)
      → ((s : CompiledSet) (w : Witness)
          → Occurs s sets
          → IsCombo s.root (leaves w)
          → Occurs target (leaves w)
          → ⊥)
      → ((solve costs (compute_support sets) target running).evict ≡ running)
        × ((solve costs (compute_support sets) target running).target_set ≡ target ∷ [])
  solve_alone n u =
      subst (λ (d : Decision). (d.evict ≡ running) × (d.target_set ≡ target ∷ [])) (sym (decides n))
        (decision_alone u (choose costs (compute_support sets) target running) choose-Chosen)
