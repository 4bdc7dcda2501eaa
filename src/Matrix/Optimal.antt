-- ===== src/Matrix/Optimal.antt =====
-- internal/matrix/program.go: the search of Solve through the states of all sets, against the
-- combinations of the sets.
use native.Mathlib.Nat.{mod-eq_of_lt}
use fork_llama_swap.Base.{
  ℕ, ◌%◌, ◌^◌, Bool, Bool-cases, ◌||◌, ◌+◌, ◌*◌, ◌≤◌, ◌<◌, ◌≡◌, refl, subst, inl, inr, String, true,
  false, if_cases, if_keeps, if◌then◌else◌, List, [], ◌∷◌, Occurs, All, All-mono, Option, none,
  some, arith,
}
use fork_llama_swap.Matrix.{ProjectedState, Evaluator, new_evaluator, evaluate}
use fork_llama_swap.Matrix.Combos.{IsCombo, project}
use fork_llama_swap.Matrix.Frontier.{Below, Covered}
use fork_llama_swap.Matrix.Exact.{Stands, evaluate-Stands, evaluate-Covered}
use fork_llama_swap.Matrix.Program.{
  CompiledSet, Choice, has_model, has_support, state_cost, is_negative, less_int, better, try_state,
  try_states, try_sets,
}
use fork_llama_swap.Matrix.Costs.{
  outside, cost_of, cost_within, state_cost_of, has_model-Below, missing_cost-outside,
}

-- There is a choice, and it has the property.
abbrev pub Meets : (Choice → Type 0) → Option Choice → Type 0
Meets P none = ⊥
Meets P (some best) = P best

module _ (costs : String → Option ℕ) (target : String) (running : List String) where
  abbrev pub asked : Evaluator
  asked = new_evaluator (target ∷ running)

  -- The best choice after one more set.
  abbrev tried : List String → Option Choice → CompiledSet → Option Choice
  tried known best s =
      if has_support known s target
      then try_states costs asked target running s best (evaluate asked s.root)
      else best

  All-relevant : (ms : List String) → All (λ m. Occurs m ms) ms
  All-relevant [] = tt
  All-relevant (m ∷ ms) = (
    inl refl,
    All-mono (λ a. Occurs a ms) (λ a. Occurs a (m ∷ ms)) (λ a o. inr o) ms (All-relevant ms),
  )

  pub running_relevant : All (λ m. Occurs m (target ∷ running)) running
  running_relevant = (All-relevant (target ∷ running)).1

  abbrev pub choice_of : CompiledSet → ProjectedState → Choice
  choice_of s st = record { cost = state_cost costs asked st running; set = s; state = st }

  abbrev pub Improves : CompiledSet → ProjectedState → Choice → Bool → Type 0
  Improves s st best b =
      better costs asked target running (state_cost costs asked st running) (some best) ≡ b

  -- The state has all bits of the models.
  abbrev pub Has : List String → ProjectedState → Type 0
  Has xs st = Below (64 * asked.words) (project asked.model_bits xs) st.mask

  -- A property that the states with some models have, that a choice keeps where it is improved, and that
  -- it has where such a state does not improve it.
  pub record Lasts (xs : List String) (P : Choice → Type 0) : Type 0 where
    pub first : (s : CompiledSet) (st : ProjectedState) → Has xs st → P (choice_of s st)
    pub improved :
        (s : CompiledSet) (st : ProjectedState) (best : Choice)
        → Improves s st best true
        → P best
        → P (choice_of s st)
    pub stays :
        (s : CompiledSet) (st : ProjectedState) (best : Choice)
        → Has xs st
        → Improves s st best false
        → P best

  module _ (xs : List String) (P : Choice → Type 0) (lasts : Lasts xs P)
      (o : Occurs target xs) where
    try_state-keeps :
        (s : CompiledSet) (best : Option Choice) (st : ProjectedState)
        → Meets P best
        → Meets P (try_state costs asked target running s best st)
    unfolding try_state
    try_state-keeps s none st h = absurd h
    try_state-keeps s (some best) st h =
        if_keeps (Meets P) (has_model asked st target) _ _
          (if_cases (Meets P)
            (better costs asked target running (state_cost costs asked st running) (some best)) _ _
            (λ t. lasts.improved s st best t h) (λ f. h))
          h

    try_state-Meets :
        (s : CompiledSet) (best : Option Choice) (st : ProjectedState)
        → Has xs st
        → has_model asked st target ≡ true
        → Meets P (try_state costs asked target running s best st)
    unfolding try_state
    try_state-Meets s none st b h =
        if_cases (Meets P) (has_model asked st target) _ _ (λ t. lasts.first s st b)
          (λ f. absurd (ground arith))
    try_state-Meets s (some best) st b h =
        if_cases (Meets P) (has_model asked st target) _ _
          (λ t.
            if_cases (Meets P)
              (better costs asked target running (state_cost costs asked st running) (some best)) _
              _ (λ l. lasts.first s st b) (λ l. lasts.stays s st best b l))
          (λ f. absurd (ground arith))

    try_states-keeps :
        (s : CompiledSet) (best : Option Choice) (states : List ProjectedState)
        → Meets P best
        → Meets P (try_states costs asked target running s best states)
    unfolding try_states
    try_states-keeps s best [] h = h
    try_states-keeps s best (st ∷ states) h =
        try_states-keeps s (try_state costs asked target running s best st) states
          (try_state-keeps s best st h)

    try_sets-keeps :
        (known : List String) (best : Option Choice) (sets : List CompiledSet)
        → Meets P best
        → Meets P (try_sets costs asked target running known best sets)
    unfolding try_sets
    try_sets-keeps known best [] h = h
    try_sets-keeps known best (s ∷ sets) h = try_sets-keeps known (tried known best s) sets (
        if_keeps (Meets P) (has_support known s target) _ _
          (try_states-keeps s best (evaluate asked s.root) h) h)

    -- Among states that cover the models, one is found.
    try_states-Meets :
        (s : CompiledSet) (best : Option Choice) (states : List ProjectedState)
        → Covered asked (project asked.model_bits xs) states
        → Meets P (try_states costs asked target running s best states)
    unfolding try_states
    try_states-Meets s best [] h = absurd h
    try_states-Meets s best (st ∷ states) (inr h) =
        try_states-Meets s (try_state costs asked target running s best st) states h
    try_states-Meets s best (st ∷ states) (inl h) =
        try_states-keeps s (try_state costs asked target running s best st) states (
          try_state-Meets s best st h
            (has_model-Below (target ∷ running) xs st target h (inl refl) o))

    pub try_sets-Meets :
        (known : List String) (s : CompiledSet) (best : Option Choice) (sets : List CompiledSet)
        → Occurs s sets
        → has_support known s target ≡ true
        → IsCombo s.root xs
        → Meets P (try_sets costs asked target running known best sets)
    unfolding try_sets
    try_sets-Meets known s best [] i k c = absurd i
    try_sets-Meets known s best (t ∷ sets) (inr i) k c =
        try_sets-Meets known s (tried known best t) sets i k c
    try_sets-Meets known s best (t ∷ sets) (inl e) k c = try_sets-keeps known _ sets (
        if_cases (Meets P) (has_support known t target) _ _
          (λ q.
            try_states-Meets t best (evaluate asked t.root)
              (evaluate-Covered asked t.root xs (subst (λ u. IsCombo u.root xs) e c)))
          (λ q. absurd (unsupported q)))
      where
        unsupported : has_support known t target ≡ false → ⊥
        unsupported q = ground (arith, subst (λ u. has_support known u target ≡ true) e k)

  -- That there is a choice lasts.
  pub any-Lasts : (xs : List String) → Lasts xs (λ best. Unit)
  any-Lasts xs = record {
    first = λ s st h. tt;
    improved = λ s st best b h. tt;
    stays = λ s st best h b. tt;
  }

  improvement :
      (a b : ℕ)
      → b < 2 ^ 63
      → a < 2 ^ 63
      → ((is_negative b || less_int a b) ≡ true → a < b)
        × ((is_negative b || less_int a b) ≡ false → b ≤ a)
  improvement a b h k =
      let e : (a + 2 ^ 63) % 2 ^ 64 ≡ a + 2 ^ 63 = mod-eq_of_lt (omega (arith, k)) in
      let f : (b + 2 ^ 63) % 2 ^ 64 ≡ b + 2 ^ 63 = mod-eq_of_lt (omega (arith, h)) in
      rw (e, f) (ground (arith, h, k))

  outside_within : (xs ms : List String) → cost_of costs (outside xs ms) ≤ cost_of costs ms
  outside_within xs [] = omega arith
  outside_within xs (m ∷ ms) = ground (arith, outside_within xs ms)

  -- So does that it costs at most what the models would, without a wrap.
  pub cheap-Lasts :
      (xs : List String)
      → cost_of costs running < 2 ^ 63
      → Lasts xs (λ best. best.cost ≤ cost_of costs (outside xs running))
  cheap-Lasts xs bound = record {
    first = λ s st h. cheap st h;
    improved = λ s st best b h.
        let l =
          (improvement (state_cost costs asked st running) best.cost (within best h)
              (cost_bound st)).0
            b in
        omega (arith, l, h);
    stays = λ s st best h b. elim (Bool-cases (is_negative best.cost)) [
      | inl n ↦ absurd (negative_improves st best n b)
      | inr n ↦
          let l =
            (improvement (state_cost costs asked st running) best.cost (ground (arith, n))
                (cost_bound st)).1
              b in
          omega (arith, l, cheap st h)
    ];
  }
    where
      cost_bound : (st : ProjectedState) → state_cost costs asked st running < 2 ^ 63
      cost_bound st = omega (
        arith,
        state_cost_of costs asked st running bound,
        cost_within costs asked st running,
        bound,
      )

      negative_improves :
          (st : ProjectedState) (best : Choice)
          → is_negative best.cost ≡ true
          → (is_negative best.cost || less_int (state_cost costs asked st running) best.cost)
            ≡ false
          → ⊥
      negative_improves st best n b = cc (n, b)

      within : (best : Choice) → best.cost ≤ cost_of costs (outside xs running) → best.cost < 2 ^ 63
      within best h = omega (arith, h, bound, outside_within xs running)

      cheap :
          (st : ProjectedState)
          → Has xs st
          → state_cost costs asked st running ≤ cost_of costs (outside xs running)
      cheap st h = omega (
        arith,
        state_cost_of costs asked st running bound,
        missing_cost-outside (target ∷ running) costs xs st running h running_relevant,
      )

  -- What is chosen is a state of a set that has the target, at its cost.
  pub record Chosen (sets : List CompiledSet) (best : Choice) : Type 0 where
    pub member : Occurs best.set sets
    pub stands : Stands asked (IsCombo best.set.root) best.state
    pub has_target : has_model asked best.state target ≡ true
    pub priced : best.cost ≡ state_cost costs asked best.state running

  abbrev pub AllChosen : List CompiledSet → Option Choice → Type 0
  AllChosen sets none = Unit
  AllChosen sets (some best) = Chosen sets best

  try_state-Chosen :
      (sets : List CompiledSet) (s : CompiledSet) (best : Option Choice) (st : ProjectedState)
      → Occurs s sets
      → Stands asked (IsCombo s.root) st
      → AllChosen sets best
      → AllChosen sets (try_state costs asked target running s best st)
  unfolding try_state
  try_state-Chosen sets s best st o w h =
      if_cases (AllChosen sets) (has_model asked st target) _ _
        (λ t.
          if_keeps (AllChosen sets)
            (better costs asked target running (state_cost costs asked st running) best) _ _
            (record { member = o; stands = w; has_target = t; priced = refl }) h)
        (λ f. h)

  try_states-Chosen :
      (sets : List CompiledSet) (s : CompiledSet) (best : Option Choice)
      (states : List ProjectedState)
      → Occurs s sets
      → All (Stands asked (IsCombo s.root)) states
      → AllChosen sets best
      → AllChosen sets (try_states costs asked target running s best states)
  unfolding try_states
  try_states-Chosen sets s best [] o w h = h
  try_states-Chosen sets s best (st ∷ states) o w h =
      try_states-Chosen sets s (try_state costs asked target running s best st) states o w.1
        (try_state-Chosen sets s best st o w.0 h)

  pub try_sets-Chosen :
      (known : List String) (all : List CompiledSet) (best : Option Choice)
      (sets : List CompiledSet)
      → All (λ s. Occurs s all) sets
      → AllChosen all best
      → AllChosen all (try_sets costs asked target running known best sets)
  unfolding try_sets
  try_sets-Chosen known all best [] o h = h
  try_sets-Chosen known all best (s ∷ sets) o h =
      try_sets-Chosen known all (tried known best s) sets o.1 (
        if_keeps (AllChosen all) (has_support known s target) _ _
          (try_states-Chosen all s best (evaluate asked s.root) o.0 (evaluate-Stands asked s.root)
            h)
          h)
