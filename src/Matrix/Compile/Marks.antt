-- ===== src/Matrix/Compile/Marks.antt =====
-- internal/matrix/program.go: the marks of topologicalOrder, of which each visit sets one.
use fork_llama_swap.Base.{
  ℕ, ◌+◌, ◌≤◌, ◌<◌, String, ◌≡◌, inl, inr, refl, sym, ap, subst, same_name, true, false, ◌=ₛ◌,
  if_cases, List, [], ◌∷◌, length, All, Occurs, arith,
}
use fork_llama_swap.Matrix.Compile.{Mark, unseen, visiting, visited, put}

-- How many of the names are unseen.
abbrev is_unseen : Mark → ℕ
is_unseen unseen = 1
is_unseen _ = 0

unfoldable pub unseen_in : List String → (String → Mark) → ℕ
unseen_in [] s = 0
unseen_in (n ∷ ns) s = is_unseen (s n) + unseen_in ns s

is_unseen-le : (m m' : Mark) → (m' ≡ unseen → m ≡ unseen) → is_unseen m' ≤ is_unseen m
is_unseen-le unseen unseen h = omega arith
is_unseen-le unseen visiting h = omega arith
is_unseen-le unseen visited h = omega arith
is_unseen-le visiting unseen h = cc (h refl)
is_unseen-le visited unseen h = cc (h refl)
is_unseen-le visiting visiting h = omega arith
is_unseen-le visiting visited h = omega arith
is_unseen-le visited visiting h = omega arith
is_unseen-le visited visited h = omega arith

pub unseen_in-le :
    (ns : List String) (s s' : String → Mark)
    → ((n : String) → s' n ≡ unseen → s n ≡ unseen)
    → unseen_in ns s' ≤ unseen_in ns s
unfolding unseen_in
unseen_in-le [] s s' h = omega arith
unseen_in-le (n ∷ ns) s s' h =
    omega (arith, is_unseen-le (s n) (s' n) (h n), unseen_in-le ns s s' h)

pub put-unseen :
    (s : String → Mark) (name : String) (n : String) → put s name visiting n ≡ unseen → s n ≡ unseen
put-unseen s name n =
    if_cases (λ m. m ≡ unseen → s n ≡ unseen) (name =ₛ n) _ _ (λ t h. cc) (λ f h. h)

-- A visit marks an unseen set.
pub unseen_in-lt :
    (ns : List String) (s : String → Mark) (name : String)
    → s name ≡ unseen
    → Occurs name ns
    → unseen_in ns (put s name visiting) < unseen_in ns s
unfolding unseen_in
unseen_in-lt [] s name u o = absurd o
unseen_in-lt (n ∷ ns) s name u (inl e) = omega (
  arith,
  unseen_in-le ns s (put s name visiting) (put-unseen s name),
  ap is_unseen put_there,
  ap is_unseen (subst (λ k. s k ≡ unseen) e u),
)
  where
    put_there : put s name visiting n ≡ visiting
    put_there = rw (← e) (rw (same_name name))
unseen_in-lt (n ∷ ns) s name u (inr o) = omega (
  arith,
  is_unseen-le (s n) (put s name visiting n) (put-unseen s name n),
  unseen_in-lt ns s name u o,
)

pub different : (name n : String) → (name =ₛ n) ≡ false → n ≡ name → ⊥
different name n f e = cc (subst (λ k. (name =ₛ k) ≡ true) (sym e) (same_name name))

pub All-from :
    (P : String → Type 0) (ns : List String) → ((n : String) → Occurs n ns → P n) → All P ns
All-from P [] f = tt
All-from P (n ∷ ns) f = (f n (inl refl), All-from P ns (λ m o. f m (inr o)))

pub put_there : {A : Type 0} (s : String → A) (name : String) (a : A) → put s name a name ≡ a
put_there s name a = rw (same_name name)

pub unseen_in-length : (ns : List String) → unseen_in ns (λ n. unseen) ≡ length ns
unfolding unseen_in
unseen_in-length [] = refl
unseen_in-length (n ∷ ns) = omega (arith, unseen_in-length ns)
