-- ===== src/Capacity/Vectors.antt =====
-- internal/router/capacity.go: sums of capacities and costs, and when they cover what is needed.
use mathlib.Core.List.{reverse, reverse-cons}
use fork_llama_swap.Base.{◌+◌, ◌≤◌, ◌≡◌, refl, ap, String, true, List, [], ◌∷◌, ◌++◌, All, arith}
use fork_llama_swap.Base.Sub.{Sub, keep, drop}
use fork_llama_swap.Capacity.{Amounts, ModelConfig, fits, total, total_cost}

-- Each pool gets what it needs.
abbrev pub Covers : List String → Amounts → Amounts → Type 0
Covers pools need freed = All (λ p. need p ≤ freed p) pools

pub fits→Covers :
    (pools : List String) (need freed : Amounts)
    → fits pools need freed ≡ true
    → Covers pools need freed
unfolding fits
fits→Covers [] need freed h = tt
fits→Covers (p ∷ pools) need freed h = (ground arith, fits→Covers pools need freed (ground arith))

pub Covers→fits :
    (pools : List String) (need freed : Amounts)
    → Covers pools need freed
    → fits pools need freed ≡ true
unfolding fits
Covers→fits [] need freed h = refl
Covers→fits (p ∷ pools) need freed h = ground (arith, Covers→fits pools need freed h.1)

pub Covers-mono :
    (pools : List String) (need f g : Amounts)
    → ((p : String) → f p ≤ g p)
    → Covers pools need f
    → Covers pools need g
Covers-mono [] need f g le h = tt
Covers-mono (p ∷ pools) need f g le h =
    (omega (arith, h.0, le p), Covers-mono pools need f g le h.1)

module _ (models : String → ModelConfig) where
  pub total-append :
      (xs ys : List String) (p : String)
      → total models (xs ++ ys) p ≡ total models xs p + total models ys p
  unfolding total
  total-append [] ys p = omega arith
  total-append (x ∷ xs) ys p = omega (arith, total-append xs ys p)

  pub total_cost-append :
      (xs ys : List String)
      → total_cost models (xs ++ ys) ≡ total_cost models xs + total_cost models ys
  unfolding total_cost
  total_cost-append [] ys = omega arith
  total_cost-append (x ∷ xs) ys = omega (arith, total_cost-append xs ys)

  pub total-Sub :
      {xs ys : List String} → Sub xs ys → (p : String) → total models xs p ≤ total models ys p
  unfolding total
  total-Sub Sub.done p = omega arith
  total-Sub (keep x s) p = omega (arith, total-Sub s p)
  total-Sub (drop y s) p = omega (arith, total-Sub s p)

  pub total-reverse :
      (xs : List String) (p : String) → total models (reverse xs) p ≡ total models xs p
  unfolding total
  total-reverse [] p = refl
  total-reverse (x ∷ xs) p = omega (
    arith,
    ap (λ l. total models l p) (reverse-cons x xs),
    total-append (reverse xs) (x ∷ []) p,
    total-reverse xs p,
  )
