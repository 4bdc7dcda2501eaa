-- ===== src/Matrix/Frontier.antt =====
-- internal/matrix/program.go: addToFrontier drops a state only for one that has all its bits.
use fork_llama_swap.Base.{
  ℕ, zero, suc, ◌*◌, ◌<◌, ◌≡◌, sym, subst, ◌⊎◌, inl, inr, true, Bool-cases, if_keeps, if_cases,
  List, [], ◌∷◌, ◌++◌, All, All-append, arith,
}
use fork_llama_swap.Matrix.{
  BitMask, ProjectedState, Evaluator, subset_of, is_covered, keep_others, add_to_frontier,
  add_states,
}

-- Below `k`, each bit of the first is one of the second.
abbrev pub Below : ℕ → BitMask → BitMask → Type 0
Below k m other = (b : ℕ) → b < k → m b ≡ true → other b ≡ true

at_top :
    (k : ℕ) (m other : BitMask)
    → subset_of (suc k) m other ≡ true
    → (m k ≡ true → other k ≡ true) × (subset_of k m other ≡ true)
unfolding subset_of
at_top k m other h = ground arith

last_or_before : (b k : ℕ) → b < suc k → (b ≡ k) ⊎ (b < k)
last_or_before b k l = ground arith

pub subset_of-Below : (k : ℕ) (m other : BitMask) → subset_of k m other ≡ true → Below k m other
subset_of-Below zero m other h b l e = absurd (omega arith)
subset_of-Below (suc k) m other h b l e = elim (last_or_before b k l) [
  | inl q ↦
      subst (λ i. other i ≡ true) (sym q) ((at_top k m other h).0 (subst (λ i. m i ≡ true) q e))
  | inr j ↦ subset_of-Below k m other (at_top k m other h).1 b j e
]

module _ (e : Evaluator) where
  -- Some state has all the bits.
  abbrev pub Covered : BitMask → List ProjectedState → Type 0
  Covered m [] = ⊥
  Covered m (st ∷ states) = Below (64 * e.words) m st.mask ⊎ Covered m states

  pub Covered-trans :
      (m n : BitMask) (states : List ProjectedState)
      → Below (64 * e.words) m n
      → Covered n states
      → Covered m states
  Covered-trans m n [] b h = absurd h
  Covered-trans m n (st ∷ states) b (inl k) = inl (λ i l o. k i l (b i l o))
  Covered-trans m n (st ∷ states) b (inr k) = inr (Covered-trans m n states b k)

  Covered-append-left :
      (m : BitMask) (xs ys : List ProjectedState) → Covered m xs → Covered m (xs ++ ys)
  Covered-append-left m [] ys h = absurd h
  Covered-append-left m (x ∷ xs) ys (inl h) = inl h
  Covered-append-left m (x ∷ xs) ys (inr h) = inr (Covered-append-left m xs ys h)

  Covered-append-right :
      (m : BitMask) (xs ys : List ProjectedState) → Covered m ys → Covered m (xs ++ ys)
  Covered-append-right m [] ys h = h
  Covered-append-right m (x ∷ xs) ys h = inr (Covered-append-right m xs ys h)

  is_covered-Covered :
      (c : ProjectedState) (states : List ProjectedState)
      → is_covered e c states ≡ true
      → Covered c.mask states
  unfolding is_covered
  is_covered-Covered c [] h = absurd (ground arith)
  is_covered-Covered c (st ∷ states) h =
      elim (Bool-cases (subset_of (64 * e.words) c.mask st.mask)) [
        | inl t ↦ inl (subset_of-Below (64 * e.words) c.mask st.mask t)
        | inr f ↦ inr (is_covered-Covered c states (ground arith))
      ]

  -- What the dropped states cover the candidate covers.
  keep_others-Covered :
      (m : BitMask) (c : ProjectedState) (states : List ProjectedState)
      → Covered m states
      → Below (64 * e.words) m c.mask ⊎ Covered m (keep_others e c states)
  unfolding keep_others
  keep_others-Covered m c [] h = absurd h
  keep_others-Covered m c (st ∷ states) h =
      if_cases (λ l. Below (64 * e.words) m c.mask ⊎ Covered m l)
        (subset_of (64 * e.words) st.mask c.mask) _ _
        (λ t. elim h [
          | inl b ↦ inl (λ i l o. subset_of-Below (64 * e.words) st.mask c.mask t i l (b i l o))
          | inr k ↦ keep_others-Covered m c states k
        ])
        (λ f. elim h [
          | inl b ↦ inr (inl b)
          | inr k ↦ elim (keep_others-Covered m c states k) [ inl b ↦ inl b | inr r ↦ inr (inr r) ]
        ])

  -- What the states or the candidate cover the frontier covers.
  pub add_to_frontier-Covered :
      (m : BitMask) (states : List ProjectedState) (c : ProjectedState)
      → Below (64 * e.words) m c.mask ⊎ Covered m states
      → Covered m (add_to_frontier e states c)
  unfolding add_to_frontier
  add_to_frontier-Covered m states c h =
      if_cases (Covered m) (is_covered e c states) _ _
        (λ t. elim h [ inl b ↦ by_states b (is_covered-Covered c states t) | inr k ↦ k ])
        (λ f. elim h [
          | inl b ↦ by_candidate b
          | inr k ↦ elim (keep_others-Covered m c states k) [
            | inl b ↦ by_candidate b
            | inr r ↦ Covered-append-left m (keep_others e c states) (c ∷ []) r
          ]
        ])
    where
      by_candidate : Below (64 * e.words) m c.mask → Covered m (keep_others e c states ++ c ∷ [])
      by_candidate b = Covered-append-right m (keep_others e c states) (c ∷ []) (inl b)

      by_states : Below (64 * e.words) m c.mask → Covered c.mask states → Covered m states
      by_states b k = Covered-trans m c.mask states b k

  pub add_states-Covered :
      (m : BitMask) (states more : List ProjectedState)
      → Covered m states ⊎ Covered m more
      → Covered m (add_states e states more)
  unfolding add_states
  add_states-Covered m states [] (inl h) = h
  add_states-Covered m states [] (inr h) = absurd h
  add_states-Covered m states (c ∷ more) (inl h) =
      add_states-Covered m (add_to_frontier e states c) more
        (inl (add_to_frontier-Covered m states c (inr h)))
  add_states-Covered m states (c ∷ more) (inr (inl b)) =
      add_states-Covered m (add_to_frontier e states c) more
        (inl (add_to_frontier-Covered m states c (inl b)))
  add_states-Covered m states (c ∷ more) (inr (inr k)) =
      add_states-Covered m (add_to_frontier e states c) more (inr k)

  module _ (P : ProjectedState → Type 0) where
    keep_others-All :
        (c : ProjectedState) (states : List ProjectedState)
        → All P states
        → All P (keep_others e c states)
    unfolding keep_others
    keep_others-All c [] h = tt
    keep_others-All c (st ∷ states) h =
        if_keeps (All P) (subset_of (64 * e.words) st.mask c.mask) _ _
          (keep_others-All c states h.1) (h.0, keep_others-All c states h.1)

    pub add_to_frontier-All :
        (states : List ProjectedState) (c : ProjectedState)
        → All P states
        → P c
        → All P (add_to_frontier e states c)
    unfolding add_to_frontier
    add_to_frontier-All states c h p =
        if_keeps (All P) (is_covered e c states) _ _ h
          (All-append P (keep_others e c states) (c ∷ []) (keep_others-All c states h) (p, tt))

    pub add_states-All :
        (states more : List ProjectedState)
        → All P states
        → All P more
        → All P (add_states e states more)
    unfolding add_states
    add_states-All states [] h k = h
    add_states-All states (c ∷ more) h k =
        add_states-All (add_to_frontier e states c) more (add_to_frontier-All states c h k.0) k.1
