-- ===== src/Matrix/Bits.antt =====
-- internal/matrix/program.go: the bits of an evaluator stand for its models, one for each.
use fork_llama_swap.Base.{
  ℕ, suc, ◌+◌, ◌*◌, ◌/◌, ◌≤◌, ◌<◌, ◌≡◌, sym, subst, ◌⊎◌, inl, inr, String, Bool, true, ◌||◌, names,
  if_cases, if◌then◌else◌, List, [], ◌∷◌, ◌++◌, length, Occurs, Occurs-snoc, some, Option-cases,
  arith,
}
use fork_llama_swap.Scheduler.Collision.{contains_string}
use fork_llama_swap.Scheduler.Membership.{contains_string-Occurs}
use fork_llama_swap.Matrix.{register, bit_from, bit_of, mask_of_bit, new_evaluator}
use fork_llama_swap.Matrix.Combos.{project}

-- The model has a bit.
abbrev pub Known : List String → String → Type 0
Known bits m = (b : ℕ) × (bit_of bits m ≡ some b) × (b < length bits)

bit_from-Occurs :
    (i : ℕ) (bits : List String) (m : String)
    → Occurs m bits
    → (b : ℕ) × (bit_from i bits m ≡ some b) × (b < i + length bits)
unfolding bit_from
bit_from-Occurs i [] m h = absurd h
bit_from-Occurs i (x ∷ bits) m h = elim (names x m) [
  | inl e ↦ (i, ground arith, omega arith)
  | inr e ↦ elim h [
    | inl q ↦ absurd (e.1 (sym q))
    | inr o ↦ (
      (bit_from-Occurs (suc i) bits m o).0,
      ground (arith, (bit_from-Occurs (suc i) bits m o).1),
      omega (arith, (bit_from-Occurs (suc i) bits m o).2),
    )
  ]
]

pub bit_of-Occurs : (bits : List String) (m : String) → Occurs m bits → Known bits m
bit_of-Occurs bits m h = (
  (bit_from-Occurs 0 bits m h).0,
  (bit_from-Occurs 0 bits m h).1,
  omega (arith, (bit_from-Occurs 0 bits m h).2),
)

bit_from-least :
    (i : ℕ) (bits : List String) (m : String) (b : ℕ) → bit_from i bits m ≡ some b → i ≤ b
unfolding bit_from
bit_from-least i [] m b h = absurd (ground arith)
bit_from-least i (x ∷ bits) m b h = ground (arith, bit_from-least (suc i) bits m b)

-- Two models with the same bit are the same model.
bit_from-injective :
    (i : ℕ) (bits : List String) (m n : String) (b : ℕ)
    → bit_from i bits m ≡ some b
    → bit_from i bits n ≡ some b
    → m ≡ n
unfolding bit_from
bit_from-injective i [] m n b h k = absurd (ground arith)
bit_from-injective i (x ∷ bits) m n b h k = ground (
  arith,
  names x m,
  names x n,
  bit_from-least (suc i) bits m b,
  bit_from-least (suc i) bits n b,
  bit_from-injective (suc i) bits m n b,
)

pub project-has :
    (bits xs : List String) (m : String) (b : ℕ)
    → bit_of bits m ≡ some b
    → Occurs m xs
    → project bits xs b ≡ true
unfolding mask_of_bit
project-has bits [] m b h o = absurd o
project-has bits (x ∷ xs) m b h (inl e) = ground (arith, subst (λ k. bit_of bits k ≡ some b) e h)
project-has bits (x ∷ xs) m b h (inr o) = ground (arith, project-has bits xs m b h o)

at_bit : (i b : ℕ) (p : Bool) → (mask_of_bit (some i) b || p) ≡ true → (b ≡ i) ⊎ (p ≡ true)
unfolding mask_of_bit
at_bit i b p h = ground arith

pub project-only :
    (bits xs : List String) (m : String) (b : ℕ)
    → bit_of bits m ≡ some b
    → project bits xs b ≡ true
    → Occurs m xs
unfolding mask_of_bit
project-only bits [] m b h o = absurd (ground arith)
project-only bits (x ∷ xs) m b h o = elim (Option-cases (bit_of bits x)) [
  | inl e ↦ inr (project-only bits xs m b h (ground arith))
  | inr (i, e) ↦
      elim (at_bit i b (project bits xs b)
        (subst (λ k. (mask_of_bit k b || project bits xs b) ≡ true) e o)) [
          | inl q ↦
              inl
                (bit_from-injective 0 bits m x b h (subst (λ k. bit_of bits x ≡ some k) (sym q) e))
          | inr p ↦ inr (project-only bits xs m b h p)
        ]
]

pub register-Occurs :
    (bits ms : List String) (m : String) → Occurs m bits ⊎ Occurs m ms → Occurs m (register bits ms)
unfolding register
register-Occurs bits [] m (inl h) = h
register-Occurs bits [] m (inr h) = absurd h
register-Occurs bits (x ∷ ms) m h =
    register-Occurs (if contains_string bits x then bits else bits ++ x ∷ []) ms m (
      if_cases (λ l. Occurs m l ⊎ Occurs m ms) (contains_string bits x) _ _
        (λ t. elim h [
          | inl o ↦ inl o
          | inr (inl e) ↦
              inl (subst (λ k. Occurs k bits) (sym e) ((contains_string-Occurs bits x).0 t))
          | inr (inr o) ↦ inr o
        ])
        (λ f. elim h [
          | inl o ↦ inl ((Occurs-snoc bits x m).1 (inl o))
          | inr (inl e) ↦ inl ((Occurs-snoc bits x m).1 (inr e))
          | inr (inr o) ↦ inr o
        ]))

-- A relevant model has a bit of the evaluator, which its words have.
pub relevant-Known :
    (relevant : List String) (m : String)
    → Occurs m relevant
    → (b : ℕ) × (bit_of (new_evaluator relevant).model_bits m ≡ some b)
      × (b < 64 * (new_evaluator relevant).words)
unfolding new_evaluator
relevant-Known relevant m h = (
  (bit_of-Occurs (register [] relevant) m (register-Occurs [] relevant m (inr h))).0,
  (bit_of-Occurs (register [] relevant) m (register-Occurs [] relevant m (inr h))).1,
  enough (length (register [] relevant)) _
      (bit_of-Occurs (register [] relevant) m (register-Occurs [] relevant m (inr h))).2,
)
  where
    enough : (n b : ℕ) → b < n → b < 64 * ((n + 63) / 64)
    enough n b l = omega arith
