-- ===== src/Base/TextOrder.antt =====
-- The order of texts, by the numbers of their characters: it is a total order, and `compare` decides it.
use Prim.Native.Nat.{Ordering, ◌<◌, compare as compare_ℕ}
use Prim.Native.Char.{Char, code}
use Prim.Native.String.compare
use Prim.Native.String.{String, [], ◌∷◌, compare, then}
use native.Mathlib.Omega.{arith, compare-lt, compare-eq, compare-gt}
use text.Mathlib.TextEquality.{Char-path}
use mathlib.Core.Path.{◌≡◌, refl, sym, ap, ◌∙◌, subst}
use mathlib.Core.Logic.{◌⊎◌, inl, inr}

abbrev pub AtMost : String → String → Type 0
AtMost [] t = Unit
AtMost (c ∷ s) [] = ⊥
AtMost (c ∷ s) (d ∷ t) = (code c < code d) ⊎ ((code c ≡ code d) × AtMost s t)

pub AtMost-trans : (r s t : String) → AtMost r s → AtMost s t → AtMost r t
AtMost-trans [] s t h k = tt
AtMost-trans (b ∷ r) [] t h k = absurd h
AtMost-trans (b ∷ r) (c ∷ s) [] h k = absurd k
AtMost-trans (b ∷ r) (c ∷ s) (d ∷ t) (inl h) (inl k) = inl (omega (arith, h, k))
AtMost-trans (b ∷ r) (c ∷ s) (d ∷ t) (inl h) (inr k) = inl (omega (arith, h, k.0))
AtMost-trans (b ∷ r) (c ∷ s) (d ∷ t) (inr h) (inl k) = inl (omega (arith, h.0, k))
AtMost-trans (b ∷ r) (c ∷ s) (d ∷ t) (inr h) (inr k) = inr (h.0 ∙ k.0, AtMost-trans r s t h.1 k.1)

pub AtMost-antisym : (s t : String) → AtMost s t → AtMost t s → s ≡ t
AtMost-antisym [] [] h k = refl
AtMost-antisym [] (d ∷ t) h k = absurd k
AtMost-antisym (c ∷ s) [] h k = absurd h
AtMost-antisym (c ∷ s) (d ∷ t) (inl h) (inl k) = absurd (omega (arith, h, k))
AtMost-antisym (c ∷ s) (d ∷ t) (inl h) (inr k) = absurd (omega (arith, h, k.0))
AtMost-antisym (c ∷ s) (d ∷ t) (inr h) (inl k) = absurd (omega (arith, h.0, k))
AtMost-antisym (c ∷ s) (d ∷ t) (inr h) (inr k) =
    ap (λ a. a ∷ s) (Char-path c d h.0) ∙ ap (λ u. d ∷ u) (AtMost-antisym s t h.1 k.1)

-- What the answer of `compare` tells.
abbrev pub Told : Ordering → String → String → Type 0
Told Ordering.lt s t = AtMost s t
Told Ordering.eq s t = AtMost s t
Told Ordering.gt s t = AtMost t s

same_head :
    (c d : Char) (s t : String) (o : Ordering)
    → code c ≡ code d
    → Told o s t
    → Told o (c ∷ s) (d ∷ t)
same_head c d s t Ordering.lt e h = inr (e, h)
same_head c d s t Ordering.eq e h = inr (e, h)
same_head c d s t Ordering.gt e h = inr (sym e, h)

by_head :
    (c d : Char) (s t : String) (o : Ordering)
    → compare_ℕ (code c) (code d) ≡ o
    → Told (compare s t) s t
    → Told (then o (compare s t)) (c ∷ s) (d ∷ t)
by_head c d s t Ordering.lt e h = inl (compare-lt (code c) (code d) e)
by_head c d s t Ordering.eq e h = same_head c d s t (compare s t) (compare-eq (code c) (code d) e) h
by_head c d s t Ordering.gt e h = inl (compare-gt (code c) (code d) e)

pub compare-Told : (s t : String) → Told (compare s t) s t
compare-Told [] [] = subst (λ o. Told o [] []) (sym compare.nil-nil) tt
compare-Told [] (d ∷ t) = subst (λ o. Told o [] (d ∷ t)) (sym (compare.nil-cons d t)) tt
compare-Told (c ∷ s) [] = subst (λ o. Told o (c ∷ s) []) (sym (compare.cons-nil c s)) tt
compare-Told (c ∷ s) (d ∷ t) =
    subst (λ o. Told o (c ∷ s) (d ∷ t)) (sym (compare.cons-cons c d s t))
      (by_head c d s t (compare_ℕ (code c) (code d)) refl (compare-Told s t))
