-- ===== src/Matrix/Contain.antt =====
-- internal/matrix/program.go: CanContainAll, against the combinations of the sets.
use fork_llama_swap.Base.{
  ℕ, zero, suc, ◌+◌, ◌*◌, ◌/◌, ◌<◌, ◌≡◌, refl, sym, ap, ◌∙◌, subst, ◌↔◌, ◌⊎◌, inl, inr, String,
  Bool, true, false, ◌=ₛ◌, names, Bool-cases, if_cases, if◌then◌else◌, List, [], ◌∷◌, ◌++◌, length,
  Occurs, Occurs-snoc, Distinct, Distinct-snoc, All, All-Occurs, some, arith,
}
use fork_llama_swap.Scheduler.Collision.{contains_string}
use fork_llama_swap.Scheduler.Membership.{contains_string-Occurs}
use fork_llama_swap.Matrix.{
  BitMask, subset_of, first_bits, full_mask, register, bit_from, bit_of, new_evaluator, Evaluator,
  ProjectedState, evaluate,
}
use fork_llama_swap.Matrix.Combos.{IsCombo, project, leaves}
use fork_llama_swap.Matrix.Frontier.{Below, Covered, subset_of-Below}
use fork_llama_swap.Matrix.Exact.{Stands, evaluate-Stands, evaluate-Covered}
use fork_llama_swap.Matrix.Bits.{Known, bit_of-Occurs, register-Occurs, project-has, project-only}
use fork_llama_swap.Matrix.Program.{
  CompiledSet, collect, register_sets, with_support, compute_support, supports_all, covers_all,
  can_contain_in, can_contain_all,
}
use fork_llama_swap.Matrix.Support.{
  mentions, register_sets-collect, supported, has_support-collect, with_support-Occurs,
  with_support-from,
}

first_bits_iff : (n b : ℕ) → (first_bits n b ≡ true) ↔ (b < n)
unfolding first_bits
first_bits_iff zero b = (λ h. absurd (ground arith), λ h. absurd (omega arith))
first_bits_iff (suc n) b = ground (arith, first_bits_iff n b)

Below-subset_of : (k : ℕ) (m other : BitMask) → Below k m other → subset_of k m other ≡ true
unfolding subset_of
Below-subset_of zero m other h = refl
Below-subset_of (suc k) m other h =
    ground (arith, h k (omega arith), Below-subset_of k m other (λ b l. h b (omega (arith, l))))

register-Distinct : (bits ms : List String) → Distinct bits → Distinct (register bits ms)
unfolding register
register-Distinct bits [] d = d
register-Distinct bits (m ∷ ms) d =
    register-Distinct (if contains_string bits m then bits else bits ++ m ∷ []) ms (
      if_cases Distinct (contains_string bits m) _ _ (λ t. d)
        (λ f. Distinct-snoc bits m (λ o. ground (arith, (contains_string-Occurs bits m).1 o)) d))

register-from :
    (bits ms : List String) (m : String) → Occurs m (register bits ms) → Occurs m bits ⊎ Occurs m ms
unfolding register
register-from bits [] m h = inl h
register-from bits (x ∷ ms) m h =
    elim (register-from (if contains_string bits x then bits else bits ++ x ∷ []) ms m h) [
      | inl o ↦ added (contains_string bits x) o
      | inr o ↦ inr (inr o)
    ]
  where
    added :
        (b : Bool)
        → Occurs m (if b then bits else bits ++ x ∷ [])
        → Occurs m bits ⊎ Occurs m (x ∷ ms)
    added true o = inl o
    added false o = elim ((Occurs-snoc bits x m).0 o) [ inl k ↦ inl k | inr e ↦ inr (inl e) ]

skipped :
    (i : ℕ) (x : String) (bits : List String) (m : String)
    → (x =ₛ m) ≡ false
    → bit_from i (x ∷ bits) m ≡ bit_from (suc i) bits m
unfolding bit_from
skipped i x bits m h = ground arith

past :
    (i : ℕ) (x : String) (bits : List String) (b : ℕ)
    → (Occurs x bits → ⊥)
    → (m : String) × Occurs m bits × (bit_from (suc i) bits m ≡ some (suc i + b))
    → (m : String) × Occurs m (x ∷ bits) × (bit_from i (x ∷ bits) m ≡ some (i + suc b))
past i x bits b n r = elim (names x r.0) [
  | inl e ↦ absurd (n (subst (λ k. Occurs k bits) (sym e.1) r.1))
  | inr e ↦ (r.0, inr r.1, skipped i x bits r.0 e.0 ∙ r.2 ∙ ap some (omega arith))
]

-- Each of the bits is that of a model.
model_at :
    (i : ℕ) (bits : List String) (b : ℕ)
    → Distinct bits
    → b < length bits
    → (m : String) × Occurs m bits × (bit_from i bits m ≡ some (i + b))
unfolding bit_from
model_at i [] b d l = absurd (omega arith)
model_at i (x ∷ bits) zero d l = (x, inl refl, ground (arith, names x x))
model_at i (x ∷ bits) (suc b) d l =
    past i x bits b d.0 (model_at (suc i) bits b d.1 (omega (arith, l)))

module _ (models : List String) where
  abbrev query : Evaluator
  query = new_evaluator models

  -- A bit of the full mask is that of a model.
  full_mask-model :
      (b : ℕ)
      → full_mask query b ≡ true
      → (m : String) × Occurs m models × (bit_of query.model_bits m ≡ some b)
  unfolding full_mask new_evaluator
  full_mask-model b h = (
    r.0,
    elim (register-from [] models r.0 r.1) [ inl o ↦ absurd o | inr o ↦ o ],
    r.2 ∙ ap some (omega arith),
  )
    where
      r :
          (m : String) × Occurs m (register [] models)
          × (bit_from 0 (register [] models) m ≡ some (0 + b))
      r =
          model_at 0 (register [] models) b (register-Distinct [] models tt)
            ((first_bits_iff (length (register [] models)) b).0 h)

  full_mask-Known :
      (m : String)
      → Occurs m models
      → (b : ℕ) × (bit_of query.model_bits m ≡ some b)
        × (b < 64 * query.words)
        × (full_mask query b ≡ true)
  unfolding full_mask new_evaluator
  full_mask-Known m o = (
    k.0,
    k.1,
    enough (length (register [] models)) k.0 k.2,
    (first_bits_iff (length (register [] models)) k.0).1 k.2,
  )
    where
      k : Known (register [] models) m
      k = bit_of-Occurs (register [] models) m (register-Occurs [] models m (inr o))

      enough : (n b : ℕ) → b < n → b < 64 * ((n + 63) / 64)
      enough n b l = omega arith

  -- A state that covers the full mask stands for a combination with all models.
  state-has :
      (P : List String → Type 0) (st : ProjectedState) (m : String)
      → Stands query P st
      → subset_of (64 * query.words) (full_mask query) st.mask ≡ true
      → Occurs m models
      → Occurs m (leaves st.witness)
  state-has P st m w h o = project-only query.model_bits (leaves st.witness) m k.0 k.1 (
      sym (w.agrees k.0)
      ∙ subset_of-Below (64 * query.words) (full_mask query) st.mask h k.0 k.2 k.3)
    where
      k :
          (b : ℕ) × (bit_of query.model_bits m ≡ some b)
          × (b < 64 * query.words)
          × (full_mask query b ≡ true)
      k = full_mask-Known m o

  covers_all-from :
      (P : List String → Type 0) (states : List ProjectedState)
      → All (Stands query P) states
      → covers_all query states ≡ true
      → (xs : List String) × P xs × ((m : String) → Occurs m models → Occurs m xs)
  unfolding covers_all
  covers_all-from P [] w h = absurd (ground arith)
  covers_all-from P (st ∷ states) w h =
      elim (Bool-cases (subset_of (64 * query.words) (full_mask query) st.mask)) [
        | inl t ↦ (leaves st.witness, w.0.kind, λ m o. state-has P st m w.0 t o)
        | inr f ↦ covers_all-from P states w.1 (ground arith)
      ]

  full_mask-Below :
      (xs : List String)
      → ((m : String) → Occurs m models → Occurs m xs)
      → (b : ℕ) → full_mask query b ≡ true
      → project query.model_bits xs b ≡ true
  full_mask-Below xs a b h =
      project-has query.model_bits xs (full_mask-model b h).0 b (full_mask-model b h).2
        (a (full_mask-model b h).0 (full_mask-model b h).1)

  covers_all-Covered :
      (xs : List String) (states : List ProjectedState)
      → ((m : String) → Occurs m models → Occurs m xs)
      → Covered query (project query.model_bits xs) states
      → covers_all query states ≡ true
  unfolding covers_all
  covers_all-Covered xs [] a h = absurd h
  covers_all-Covered xs (st ∷ states) a (inl h) = ground (
    arith,
    Below-subset_of (64 * query.words) (full_mask query) st.mask
        (λ b l f. h b l (full_mask-Below xs a b f)),
  )
  covers_all-Covered xs (st ∷ states) a (inr h) = ground (arith, covers_all-Covered xs states a h)

  module _ (known : List String) where
    can_contain_in-from :
        (sets : List CompiledSet)
        → can_contain_in known query models sets ≡ true
        → (s : CompiledSet) × (xs : List String) × Occurs s sets
          × IsCombo s.root xs
          × ((m : String) → Occurs m models → Occurs m xs)
    unfolding can_contain_in
    can_contain_in-from [] h = absurd (ground arith)
    can_contain_in-from (s ∷ sets) h =
        elim (Bool-cases (covers_all query (evaluate query s.root))) [
          | inl t ↦
              ((
                s,
                (covers_all-from (IsCombo s.root) (evaluate query s.root)
                    (evaluate-Stands query s.root) t).0,
                inl refl,
                (covers_all-from (IsCombo s.root) (evaluate query s.root)
                    (evaluate-Stands query s.root) t).1,
                (covers_all-from (IsCombo s.root) (evaluate query s.root)
                    (evaluate-Stands query s.root) t).2,
              ))
          | inr f ↦ later (can_contain_in-from sets (ground arith))
        ]
      where
        later :
            (s : CompiledSet) × (xs : List String) × Occurs s sets
              × IsCombo s.root xs
              × ((m : String) → Occurs m models → Occurs m xs)
            → (s' : CompiledSet) × (xs : List String) × Occurs s' (s ∷ sets)
              × IsCombo s'.root xs
              × ((m : String) → Occurs m models → Occurs m xs)
        later r = (r.0, r.1, inr r.2, r.3, r.4)

    can_contain_in-covers :
        (sets : List CompiledSet) (s : CompiledSet) (xs : List String)
        → Occurs s sets
        → supports_all known s models ≡ true
        → IsCombo s.root xs
        → ((m : String) → Occurs m models → Occurs m xs)
        → can_contain_in known query models sets ≡ true
    unfolding can_contain_in
    can_contain_in-covers [] s xs i k c a = absurd i
    can_contain_in-covers (t ∷ sets) s xs (inl e) k c a = ground (
      arith,
      subst (λ u. supports_all known u models ≡ true) e k,
      covers_all-Covered xs (evaluate query t.root) a
          (evaluate-Covered query t.root xs (subst (λ (u : CompiledSet). IsCombo u.root xs) e c)),
    )
    can_contain_in-covers (t ∷ sets) s xs (inr i) k c a =
        ground (arith, can_contain_in-covers sets s xs i k c a)

supports_all-collect :
    (bits : List String) (s : CompiledSet) (ms : List String)
    → ((m : String) → Occurs m ms → Occurs m bits)
    → ((m : String) → Occurs m ms → Occurs m (collect s.root))
    → supports_all bits (supported bits s) ms ≡ true
unfolding supports_all
supports_all-collect bits s [] k c = refl
supports_all-collect bits s (m ∷ ms) k c = ground (
  arith,
  has_support-collect bits s m (k m (inl refl)) (c m (inl refl)),
  supports_all-collect bits s ms (λ x o. k x (inr o)) (λ x o. c x (inr o)),
)

each_of : (P : String → Type 0) (ms : List String) → ((m : String) → Occurs m ms → P m) → All P ms
each_of P [] f = tt
each_of P (m ∷ ms) f = (f m (inl refl), each_of P ms (λ k o. f k (inr o)))

-- If CanContainAll holds of some models, then a set has a combination with all of them.
pub can_contain_all-IsCombo :
    (sets : List CompiledSet) (m : String) (ms : List String)
    → can_contain_all (compute_support sets) (m ∷ ms) ≡ true
    → (s : CompiledSet) × (xs : List String) × Occurs s sets
      × IsCombo s.root xs
      × All (λ k. Occurs k xs) (m ∷ ms)
unfolding can_contain_all compute_support
can_contain_all-IsCombo sets m ms h = (
  (with_support-from bits sets r.0 r.2).0,
  r.1,
  (with_support-from bits sets r.0 r.2).1,
  subst (λ (u : CompiledSet). IsCombo u.root r.1) (with_support-from bits sets r.0 r.2).2 r.3,
  each_of (λ k. Occurs k r.1) (m ∷ ms) r.4,
)
  where
    bits : List String
    bits = register_sets [] sets

    r :
        (s : CompiledSet) × (xs : List String) × Occurs s (with_support bits sets)
        × IsCombo s.root xs
        × ((k : String) → Occurs k (m ∷ ms) → Occurs k xs)
    r = can_contain_in-from (m ∷ ms) bits (with_support bits sets) h

-- If a set has a combination with all of the models, then CanContainAll holds of them.
pub IsCombo-can_contain_all :
    (sets : List CompiledSet) (ms : List String) (s : CompiledSet) (xs : List String)
    → Occurs s sets
    → IsCombo s.root xs
    → All (λ k. Occurs k xs) ms
    → can_contain_all (compute_support sets) ms ≡ true
unfolding can_contain_all compute_support
IsCombo-can_contain_all sets [] s xs i c a = refl
IsCombo-can_contain_all sets (m ∷ ms) s xs i c a =
    can_contain_in-covers (m ∷ ms) bits (with_support bits sets) (supported bits s) xs
      (with_support-Occurs bits sets s i)
      (supports_all-collect bits s (m ∷ ms)
        (λ k o. register_sets-collect [] sets s k i (mentions s.root xs k c (in_combination k o)))
        (λ k o. mentions s.root xs k c (in_combination k o)))
      c in_combination
  where
    bits : List String
    bits = register_sets [] sets

    in_combination : (k : String) → Occurs k (m ∷ ms) → Occurs k xs
    in_combination k o = All-Occurs (λ j. Occurs j xs) (m ∷ ms) k a o

-- CanContainAll holds of some models exactly if a set has a combination with all of them.
pub can_contain_all_iff :
    (sets : List CompiledSet) (m : String) (ms : List String)
    → (can_contain_all (compute_support sets) (m ∷ ms) ≡ true) ↔ (
        (s : CompiledSet) × (xs : List String) × Occurs s sets
        × IsCombo s.root xs
        × All (λ k. Occurs k xs) (m ∷ ms))
can_contain_all_iff sets m ms = (
  can_contain_all-IsCombo sets m ms,
  λ h. IsCombo-can_contain_all sets (m ∷ ms) h.0 h.1 h.2 h.3 h.4,
)
