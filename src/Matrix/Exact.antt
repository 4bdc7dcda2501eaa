-- ===== src/Matrix/Exact.antt =====
-- internal/matrix/program.go: the states of a node against its combinations.
use mathlib.Core.List.{append_assoc, append-nil}
use fork_llama_swap.Base.{
  ℕ, ◌*◌, ◌≡◌, refl, sym, ap, ◌∙◌, subst, ◌⊎◌, inl, inr, String, Bool, true, false, ◌||◌, List, [],
  ◌∷◌, ◌++◌, All, All-mono, arith,
}
use fork_llama_swap.Matrix.{
  Node, leaf, ref, all_of, any_of, empty, Nodes, none_left, child, BitMask, ProjectedState,
  Evaluator, joined, combine_one, combine, add_to_frontier, add_states, evaluate, evaluate_any,
  evaluate_all, mask_of_bit,
}
use fork_llama_swap.Matrix.Combos.{IsCombo, IsAnyCombo, IsAllCombo, project, project-append, leaves}
use fork_llama_swap.Matrix.Frontier.{
  Below, Covered, add_to_frontier-Covered, add_states-Covered, add_to_frontier-All, add_states-All,
}

module _ (e : Evaluator) where
  -- The state stands for models of the kind, which its witness names.
  pub record Stands (P : List String → Type 0) (st : ProjectedState) : Type 0 where
    pub kind : P (leaves st.witness)
    pub agrees : (b : ℕ) → st.mask b ≡ project e.model_bits (leaves st.witness) b

  -- The states stand for models of the kind, and cover all models of the kind.
  pub record IsExact (P : List String → Type 0) (states : List ProjectedState) : Type 0 where
    pub sound : All (Stands P) states
    pub full : (xs : List String) → P xs → Covered e (project e.model_bits xs) states

  abbrev Either : (List String → Type 0) → (List String → Type 0) → List String → Type 0
  Either P Q xs = P xs ⊎ Q xs

  abbrev Then : (List String → Type 0) → (List String → Type 0) → List String → Type 0
  Then P Q xs = (ys : List String) × (zs : List String) × (xs ≡ ys ++ zs) × P ys × Q zs

  Then-assoc :
      (P Q R : List String → Type 0) (xs : List String)
      → Then (Then P Q) R xs
      → Then P (Then Q R) xs
  Then-assoc P Q R xs o = (
    o.3.0,
    o.3.1 ++ o.1,
    o.2 ∙ ap (λ l. l ++ o.1) o.3.2 ∙ append_assoc o.3.0 o.3.1 o.1,
    o.3.3,
    (o.3.1, o.1, refl, o.3.4, o.4),
  )

  Then-assoc_back :
      (P Q R : List String → Type 0) (xs : List String)
      → Then P (Then Q R) xs
      → Then (Then P Q) R xs
  Then-assoc_back P Q R xs o = (
    o.0 ++ o.4.0,
    o.4.1,
    o.2 ∙ ap (λ l. o.0 ++ l) o.4.2 ∙ sym (append_assoc o.0 o.4.0 o.4.1),
    (o.0, o.4.0, refl, o.3, o.4.3),
    o.4.4,
  )

  Stands-mono :
      (P Q : List String → Type 0)
      → ((xs : List String) → P xs → Q xs)
      → (st : ProjectedState) → Stands P st
      → Stands Q st
  Stands-mono P Q f st h = record { kind = f (leaves st.witness) h.kind; agrees = h.agrees }

  IsExact-iff :
      (P Q : List String → Type 0)
      → ((xs : List String) → P xs → Q xs)
      → ((xs : List String) → Q xs → P xs)
      → (states : List ProjectedState) → IsExact P states
      → IsExact Q states
  IsExact-iff P Q f g states h = record {
    sound = All-mono (Stands P) (Stands Q) (Stands-mono P Q f) states h.sound;
    full = λ xs q. h.full xs (g xs q);
  }

  add_states-IsExact :
      (P Q : List String → Type 0) (states more : List ProjectedState)
      → IsExact P states
      → IsExact Q more
      → IsExact (Either P Q) (add_states e states more)
  add_states-IsExact P Q states more h k = record {
    sound =
        add_states-All e (Stands (Either P Q)) states more
          (All-mono (Stands P) (Stands (Either P Q)) (Stands-mono P (Either P Q) (λ xs p. inl p))
            states h.sound)
          (All-mono (Stands Q) (Stands (Either P Q)) (Stands-mono Q (Either P Q) (λ xs p. inr p))
            more k.sound);
    full = λ xs o. elim o [
      | inl p ↦ add_states-Covered e (project e.model_bits xs) states more (inl (h.full xs p))
      | inr q ↦ add_states-Covered e (project e.model_bits xs) states more (inr (k.full xs q))
    ];
  }

  joined-Stands :
      (P Q : List String → Type 0) (left right : ProjectedState)
      → Stands P left
      → Stands Q right
      → Stands (Then P Q) (joined e left right)
  joined-Stands P Q left right h k = record {
    kind = (leaves left.witness, leaves right.witness, refl, h.kind, k.kind);
    agrees = λ b. ground (
      arith,
      h.agrees b,
      k.agrees b,
      project-append e.model_bits (leaves left.witness) (leaves right.witness) b,
    );
  }

  combine_one-All :
      (P Q : List String → Type 0) (combined : List ProjectedState) (left : ProjectedState)
      (rights : List ProjectedState)
      → All (Stands (Then P Q)) combined
      → Stands P left
      → All (Stands Q) rights
      → All (Stands (Then P Q)) (combine_one e combined left rights)
  unfolding combine_one
  combine_one-All P Q combined left [] h l r = h
  combine_one-All P Q combined left (right ∷ rights) h l r =
      combine_one-All P Q (add_to_frontier e combined (joined e left right)) left rights
        (add_to_frontier-All e (Stands (Then P Q)) combined (joined e left right) h
          (joined-Stands P Q left right l r.0))
        l r.1

  combine-All :
      (P Q : List String → Type 0) (combined lefts rights : List ProjectedState)
      → All (Stands (Then P Q)) combined
      → All (Stands P) lefts
      → All (Stands Q) rights
      → All (Stands (Then P Q)) (combine e combined lefts rights)
  unfolding combine
  combine-All P Q combined [] rights h l r = h
  combine-All P Q combined (left ∷ lefts) rights h l r =
      combine-All P Q (combine_one e combined left rights) lefts rights
        (combine_one-All P Q combined left rights h l.0 r) l.1 r

  Below-union :
      (bits ys zs : List String) (left right : ProjectedState)
      → Below (64 * e.words) (project bits ys) left.mask
      → Below (64 * e.words) (project bits zs) right.mask
      → Below (64 * e.words) (project bits (ys ++ zs)) (joined e left right).mask
  Below-union bits ys zs left right h k b l o =
      elim (either_bit (project bits ys b) (project bits zs b)
        (sym (project-append bits ys zs b) ∙ o)) [
          | inl p ↦ ground (arith, h b l p)
          | inr p ↦ ground (arith, k b l p)
        ]
    where
      either_bit : (p q : Bool) → (p || q) ≡ true → (p ≡ true) ⊎ (q ≡ true)
      either_bit true q h = inl refl
      either_bit false q h = inr h

  combine_one-Covered :
      (m : BitMask) (combined : List ProjectedState) (left : ProjectedState)
      (rights : List ProjectedState)
      → Covered e m combined
      → Covered e m (combine_one e combined left rights)
  unfolding combine_one
  combine_one-Covered m combined left [] h = h
  combine_one-Covered m combined left (right ∷ rights) h =
      combine_one-Covered m (add_to_frontier e combined (joined e left right)) left rights
        (add_to_frontier-Covered e m combined (joined e left right) (inr h))

  combine-Covered :
      (m : BitMask) (combined lefts rights : List ProjectedState)
      → Covered e m combined
      → Covered e m (combine e combined lefts rights)
  unfolding combine
  combine-Covered m combined [] rights h = h
  combine-Covered m combined (left ∷ lefts) rights h =
      combine-Covered m (combine_one e combined left rights) lefts rights
        (combine_one-Covered m combined left rights h)

  module _ (ys zs : List String) where
    pairs_one :
        (combined : List ProjectedState) (left : ProjectedState) (rights : List ProjectedState)
        → Below (64 * e.words) (project e.model_bits ys) left.mask
        → Covered e (project e.model_bits zs) rights
        → Covered e (project e.model_bits (ys ++ zs)) (combine_one e combined left rights)
    unfolding combine_one
    pairs_one combined left [] h k = absurd k
    pairs_one combined left (right ∷ rights) h (inl k) =
        combine_one-Covered (project e.model_bits (ys ++ zs))
          (add_to_frontier e combined (joined e left right)) left rights
          (add_to_frontier-Covered e (project e.model_bits (ys ++ zs)) combined
            (joined e left right) (inl (Below-union e.model_bits ys zs left right h k)))
    pairs_one combined left (right ∷ rights) h (inr k) =
        pairs_one (add_to_frontier e combined (joined e left right)) left rights h k

    pairs :
        (combined lefts rights : List ProjectedState)
        → Covered e (project e.model_bits ys) lefts
        → Covered e (project e.model_bits zs) rights
        → Covered e (project e.model_bits (ys ++ zs)) (combine e combined lefts rights)
    unfolding combine
    pairs combined [] rights h k = absurd h
    pairs combined (left ∷ lefts) rights (inl h) k =
        combine-Covered (project e.model_bits (ys ++ zs)) (combine_one e combined left rights) lefts
          rights (pairs_one combined left rights h k)
    pairs combined (left ∷ lefts) rights (inr h) k =
        pairs (combine_one e combined left rights) lefts rights h k

  combine-IsExact :
      (P Q : List String → Type 0) (lefts rights : List ProjectedState)
      → IsExact P lefts
      → IsExact Q rights
      → IsExact (Then P Q) (combine e [] lefts rights)
  combine-IsExact P Q lefts rights h k = record {
    sound = combine-All P Q [] lefts rights tt h.sound k.sound;
    full = λ xs o.
        subst (λ l. Covered e (project e.model_bits l) (combine e [] lefts rights)) (sym o.2)
          (pairs o.0 o.1 [] lefts rights (h.full o.0 o.3) (k.full o.1 o.4));
  }

  abbrev ExactEach : Nodes → Type 0
  ExactEach none_left = Unit
  ExactEach (child n children) = IsExact (IsCombo n) (evaluate e n) × ExactEach children

  IsExact-any :
      (P : List String → Type 0) (states : List ProjectedState) (children : Nodes)
      → ExactEach children
      → IsExact P states
      → IsExact (Either P (IsAnyCombo children)) (evaluate_any e states children)
  unfolding evaluate IsCombo
  IsExact-any P states none_left each h =
      IsExact-iff P (Either P (IsAnyCombo none_left)) (λ xs p. inl p)
        (λ xs o. elim o [ inl p ↦ p | inr a ↦ absurd a ]) states h
  IsExact-any P states (child n children) each h =
      IsExact-iff (Either (Either P (IsCombo n)) (IsAnyCombo children))
        (Either P (IsAnyCombo (child n children)))
        (λ xs o. elim o [ inl (inl p) ↦ inl p | inl (inr c) ↦ inr (inl c) | inr a ↦ inr (inr a) ])
        (λ xs o. elim o [ inl p ↦ inl (inl p) | inr (inl c) ↦ inl (inr c) | inr (inr a) ↦ inr a ])
        (evaluate_any e (add_states e states (evaluate e n)) children)
        (IsExact-any (Either P (IsCombo n)) (add_states e states (evaluate e n)) children each.1
          (add_states-IsExact P (IsCombo n) states (evaluate e n) h each.0))

  IsExact-all :
      (P : List String → Type 0) (states : List ProjectedState) (children : Nodes)
      → ExactEach children
      → IsExact P states
      → IsExact (Then P (IsAllCombo children)) (evaluate_all e states children)
  unfolding evaluate IsCombo
  IsExact-all P states none_left each h =
      IsExact-iff P (Then P (IsAllCombo none_left)) (λ xs p. (xs, [], sym (append-nil xs), p, refl))
        (λ xs o. subst P (sym (o.2 ∙ ap (λ l. o.0 ++ l) o.4 ∙ append-nil o.0)) o.3) states h
  IsExact-all P states (child n children) each h =
      IsExact-iff (Then (Then P (IsCombo n)) (IsAllCombo children))
        (Then P (IsAllCombo (child n children)))
        (λ xs o. Then-assoc P (IsCombo n) (IsAllCombo children) xs o)
        (λ xs o. Then-assoc_back P (IsCombo n) (IsAllCombo children) xs o)
        (evaluate_all e (combine e [] states (evaluate e n)) children)
        (IsExact-all (Then P (IsCombo n)) (combine e [] states (evaluate e n)) children each.1
          (combine-IsExact P (IsCombo n) states (evaluate e n) h each.0))

  mutual
    unfolding evaluate IsCombo mask_of_bit

    exact : (n : Node) → IsExact (IsCombo n) (evaluate e n)
    exact empty = record { sound = tt; full = λ xs h. absurd h }
    exact (leaf m) = record {
      sound = (record { kind = refl; agrees = λ b. ground arith }, tt);
      full =
          λ xs h. inl (λ b l o. ground (arith, subst (λ k. project e.model_bits k b ≡ true) h o));
    }
    exact (ref name target) =
        IsExact-iff (IsCombo target) (IsCombo (ref name target)) (λ xs h. h) (λ xs h. h)
          (evaluate e target) (exact target)
    exact (any_of children) =
        IsExact-iff (Either (λ xs. ⊥) (IsAnyCombo children)) (IsCombo (any_of children))
          (λ xs h. elim h [ inl a ↦ absurd a | inr k ↦ k ]) (λ xs h. inr h)
          (evaluate_any e [] children)
          (IsExact-any (λ xs. ⊥) [] children (exact_each children)
            (record { sound = tt; full = λ xs h. absurd h }))
    exact (all_of children) =
        IsExact-iff (Then (λ xs. xs ≡ []) (IsAllCombo children)) (IsCombo (all_of children))
          (λ xs h. subst (IsAllCombo children) (sym (h.2 ∙ ap (λ l. l ++ h.1) h.3)) h.4)
          (λ xs h. ([], xs, refl, refl, h)) (evaluate_all e _ children)
          (IsExact-all (λ xs. xs ≡ []) _ children (exact_each children)
            (record {
              sound = (record { kind = refl; agrees = λ b. refl }, tt);
              full = λ xs h. inl (λ b l o. subst (λ k. project e.model_bits k b ≡ true) h o);
            }))

    exact_each : (children : Nodes) → ExactEach children
    exact_each none_left = tt
    exact_each (child n children) = (exact n, exact_each children)

  -- Each state of a node stands for a combination of it, whose models are those of its witness, and has
  -- exactly the bits of these models.
  pub evaluate-Stands : (n : Node) → All (Stands (IsCombo n)) (evaluate e n)
  evaluate-Stands n = (exact n).sound

  -- The bits of each combination of a node are among the bits of one of its states.
  pub evaluate-Covered :
      (n : Node) (xs : List String)
      → IsCombo n xs
      → Covered e (project e.model_bits xs) (evaluate e n)
  evaluate-Covered n xs h = (exact n).full xs h

  -- Each state of a node stands for a combination of it, whose models are those of its witness,
  -- and has exactly the bits of these models; and the bits of a combination of the node are among
  -- the bits of one of its states.
  pub evaluate_exact :
      (n : Node) (xs : List String)
      → IsCombo n xs
      → All (Stands (IsCombo n)) (evaluate e n) × Covered e (project e.model_bits xs) (evaluate e n)
  evaluate_exact n xs h = (evaluate-Stands n, evaluate-Covered n xs h)
