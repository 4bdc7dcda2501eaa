-- ===== src/Base/Lists.antt =====
-- Lists measured by native numbers, and predicates on them by recursion.
use Prim.Native.Nat.{ℕ, suc, ◌+◌}
use mathlib.Core.Path.{◌≡◌, refl, sym, subst}
use mathlib.Core.List.{List, [], ◌∷◌, ◌++◌}
use mathlib.Core.Logic.{◌⊎◌, ◌≢◌, ◌↔◌, inl, inr}
use native.Mathlib.Omega.{arith}

module _ {ℓ} {A : Type ℓ} where
  abbrev pub length : List A → ℕ
  length [] = 0
  length (x ∷ xs) = suc (length xs)

  pub length-append : (xs ys : List A) → length (xs ++ ys) ≡ length xs + length ys
  length-append [] ys = omega arith
  length-append (x ∷ xs) ys = omega (arith, length-append xs ys)

  abbrev pub All {κ} : (A → Type κ) → List A → Type κ
  All P [] = Unit
  All P (x ∷ xs) = P x × All P xs

abbrev pub Occurs : {A : Type 0} → A → List A → Type 0
Occurs a [] = ⊥
Occurs a (x ∷ xs) = (a ≡ x) ⊎ Occurs a xs

module _ {ℓ κ} {A : Type ℓ} (P : A → Type κ) where
  pub All-append : (xs ys : List A) → All P xs → All P ys → All P (xs ++ ys)
  All-append [] ys h k = k
  All-append (x ∷ xs) ys h k = (h.0, All-append xs ys h.1 k)

pub All-mono {ℓ κ μ} :
    {A : Type ℓ} (P : A → Type κ) (Q : A → Type μ)
    → ((a : A) → P a → Q a)
    → (xs : List A) → All P xs
    → All Q xs
All-mono P Q f [] h = tt
All-mono P Q f (x ∷ xs) h = (f x h.0, All-mono P Q f xs h.1)

pub length-ne : {A : Type 0} (xs ys : List A) → length xs ≡ length ys → xs ≢ [] → ys ≢ []
length-ne [] ys e n = λ _. n refl
length-ne (x ∷ xs) [] e n = absurd (omega arith)
length-ne (x ∷ xs) (y ∷ ys) e n = λ q. cc

pub All-Occurs : {A : Type 0} (P : A → Type 0) (xs : List A) (a : A) → All P xs → Occurs a xs → P a
All-Occurs P [] a h o = absurd o
All-Occurs P (x ∷ xs) a h (inl e) = subst P (sym e) h.0
All-Occurs P (x ∷ xs) a h (inr o) = All-Occurs P xs a h.1 o

pub Occurs-snoc :
    {A : Type 0} (xs : List A) (y a : A) → Occurs a (xs ++ y ∷ []) ↔ (Occurs a xs ⊎ (a ≡ y))
Occurs-snoc [] y a = ground arith
Occurs-snoc (x ∷ xs) y a = ground (arith, Occurs-snoc xs y a)

-- Nothing stands twice in the list.
abbrev pub Distinct : {A : Type 0} → List A → Type 0
Distinct [] = Unit
Distinct (x ∷ xs) = (Occurs x xs → ⊥) × Distinct xs

pub Distinct-snoc :
    {A : Type 0} (xs : List A) (y : A) → (Occurs y xs → ⊥) → Distinct xs → Distinct (xs ++ y ∷ [])
Distinct-snoc [] y n d = (λ h. h, tt)
Distinct-snoc (x ∷ xs) y n d = (
  λ o. elim ((Occurs-snoc xs y x).0 o) [ inl h ↦ d.0 h | inr e ↦ n (inl (sym e)) ],
  Distinct-snoc xs y (λ o. n (inr o)) d.1,
)
