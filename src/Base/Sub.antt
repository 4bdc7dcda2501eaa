-- ===== src/Base/Sub.antt =====
-- One list is what is left of another when elements are dropped.
use mathlib.Core.List.{List, [], ◌∷◌, ◌++◌}
use mathlib.Core.Logic.{inl, inr}
use fork_llama_swap.Base.Lists.{All, Occurs, Distinct}

pub data Sub {A : Type 0} : List A → List A → Type 0 where
  done : Sub [] []
  keep : (x : A) {xs ys : List A} → Sub xs ys → Sub (x ∷ xs) (x ∷ ys)
  drop : (y : A) {xs ys : List A} → Sub xs ys → Sub xs (y ∷ ys)

module _ {A : Type 0} where
  pub Sub-refl : (xs : List A) → Sub xs xs
  Sub-refl [] = done
  Sub-refl (x ∷ xs) = keep x (Sub-refl xs)

  pub Sub-trans : {ys zs : List A} → Sub ys zs → {xs : List A} → Sub xs ys → Sub xs zs
  Sub-trans done a = a
  Sub-trans (drop y b) a = drop y (Sub-trans b a)
  Sub-trans (keep _ b) (keep x a) = keep x (Sub-trans b a)
  Sub-trans (keep _ b) (drop y a) = drop y (Sub-trans b a)

  pub Sub-middle : (xs : List A) (r : A) (ys : List A) → Sub (xs ++ ys) (xs ++ r ∷ ys)
  Sub-middle [] r ys = drop r (Sub-refl ys)
  Sub-middle (x ∷ xs) r ys = keep x (Sub-middle xs r ys)

  pub All-Sub : (P : A → Type 0) {xs ys : List A} → Sub xs ys → All P ys → All P xs
  All-Sub P done h = h
  All-Sub P (keep x s) h = (h.0, All-Sub P s h.1)
  All-Sub P (drop y s) h = All-Sub P s h.1

  pub Sub-Occurs : {xs ys : List A} (a : A) → Sub xs ys → Occurs a xs → Occurs a ys
  Sub-Occurs a done o = o
  Sub-Occurs a (keep x s) (inl e) = inl e
  Sub-Occurs a (keep x s) (inr o) = inr (Sub-Occurs a s o)
  Sub-Occurs a (drop y s) o = inr (Sub-Occurs a s o)

  pub Sub-Distinct : {xs ys : List A} → Sub xs ys → Distinct ys → Distinct xs
  Sub-Distinct done d = d
  Sub-Distinct (keep x s) d = (λ o. d.0 (Sub-Occurs x s o), Sub-Distinct s d.1)
  Sub-Distinct (drop y s) d = Sub-Distinct s d.1
