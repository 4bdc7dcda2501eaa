-- ===== src/Matrix/Support.antt =====
-- internal/matrix/program.go: which sets have a model, by their bits.
use fork_llama_swap.Base.{
  ℕ, ◌≡◌, refl, ap, ◌∙◌, subst, ◌⊎◌, inl, inr, String, true, List, [], ◌∷◌, ◌++◌, Occurs, All,
  All-mono, arith,
}
use fork_llama_swap.Matrix.{
  Node, leaf, ref, all_of, any_of, empty, Nodes, none_left, child, register,
}
use fork_llama_swap.Matrix.Combos.{IsCombo, IsAnyCombo, IsAllCombo, project}
use fork_llama_swap.Matrix.Bits.{bit_of-Occurs, register-Occurs, project-has}
use fork_llama_swap.Matrix.Program.{
  CompiledSet, collect, collect_all, register_sets, support_of, with_support, has_support,
}

Occurs-append : (xs ys : List String) (a : String) → Occurs a xs ⊎ Occurs a ys → Occurs a (xs ++ ys)
Occurs-append [] ys a (inl h) = absurd h
Occurs-append [] ys a (inr h) = h
Occurs-append (x ∷ xs) ys a (inl (inl e)) = inl e
Occurs-append (x ∷ xs) ys a (inl (inr o)) = inr (Occurs-append xs ys a (inl o))
Occurs-append (x ∷ xs) ys a (inr o) = inr (Occurs-append xs ys a (inr o))

Occurs-split : (xs ys : List String) (a : String) → Occurs a (xs ++ ys) → Occurs a xs ⊎ Occurs a ys
Occurs-split [] ys a h = inr h
Occurs-split (x ∷ xs) ys a (inl e) = inl (inl e)
Occurs-split (x ∷ xs) ys a (inr o) = elim (Occurs-split xs ys a o) [
  | inl h ↦ inl (inr h)
  | inr h ↦ inr h
]

-- A combination has only models that the node mentions.
mutual
  unfolding IsCombo collect

  pub mentions :
      (n : Node) (xs : List String) (m : String) → IsCombo n xs → Occurs m xs → Occurs m (collect n)
  mentions empty xs m c o = absurd c
  mentions (leaf k) xs m c o = subst (Occurs m) c o
  mentions (ref name target) xs m c o = mentions target xs m c o
  mentions (any_of children) xs m c o = mentions_any children xs m c o
  mentions (all_of children) xs m c o = mentions_all children xs m c o

  mentions_any :
      (children : Nodes) (xs : List String) (m : String)
      → IsAnyCombo children xs
      → Occurs m xs
      → Occurs m (collect_all children)
  mentions_any none_left xs m c o = absurd c
  mentions_any (child n children) xs m (inl c) o =
      Occurs-append (collect n) (collect_all children) m (inl (mentions n xs m c o))
  mentions_any (child n children) xs m (inr c) o =
      Occurs-append (collect n) (collect_all children) m (inr (mentions_any children xs m c o))

  mentions_all :
      (children : Nodes) (xs : List String) (m : String)
      → IsAllCombo children xs
      → Occurs m xs
      → Occurs m (collect_all children)
  mentions_all none_left xs m c o = absurd (subst (Occurs m) c o)
  mentions_all (child n children) xs m c o =
      Occurs-append (collect n) (collect_all children) m
        (elim (Occurs-split c.0 c.1 m (subst (Occurs m) c.2 o)) [
          | inl h ↦ inl (mentions n c.0 m c.3 h)
          | inr h ↦ inr (mentions_all children c.1 m c.4 h)
        ])

support_of-project : (bits ms : List String) (b : ℕ) → support_of bits ms b ≡ project bits ms b
unfolding support_of
support_of-project bits [] b = refl
support_of-project bits (m ∷ ms) b = ground (arith, support_of-project bits ms b)

register_sets-Occurs :
    (bits : List String) (sets : List CompiledSet) (m : String)
    → Occurs m bits
    → Occurs m (register_sets bits sets)
unfolding register_sets
register_sets-Occurs bits [] m h = h
register_sets-Occurs bits (s ∷ sets) m h =
    register_sets-Occurs (register bits (collect s.root)) sets m
      (register-Occurs bits (collect s.root) m (inl h))

pub register_sets-collect :
    (bits : List String) (sets : List CompiledSet) (s : CompiledSet) (m : String)
    → Occurs s sets
    → Occurs m (collect s.root)
    → Occurs m (register_sets bits sets)
unfolding register_sets
register_sets-collect bits [] s m i o = absurd i
register_sets-collect bits (t ∷ sets) s m (inl e) o =
    register_sets-Occurs (register bits (collect t.root)) sets m
      (register-Occurs bits (collect t.root) m (inr (subst (λ u. Occurs m (collect u.root)) e o)))
register_sets-collect bits (t ∷ sets) s m (inr i) o =
    register_sets-collect (register bits (collect t.root)) sets s m i o

abbrev pub supported : List String → CompiledSet → CompiledSet
supported bits s = record s { support = support_of bits (collect s.root) }

pub has_support-collect :
    (bits : List String) (s : CompiledSet) (m : String)
    → Occurs m bits
    → Occurs m (collect s.root)
    → has_support bits (supported bits s) m ≡ true
unfolding has_support
has_support-collect bits s m k o =
    rw ((bit_of-Occurs bits m k).1, has_support)
      (support_of-project bits (collect s.root) (bit_of-Occurs bits m k).0
        ∙ project-has bits (collect s.root) m (bit_of-Occurs bits m k).0 (bit_of-Occurs bits m k).1
            o)

pub with_support-Occurs :
    (bits : List String) (sets : List CompiledSet) (s : CompiledSet)
    → Occurs s sets
    → Occurs (supported bits s) (with_support bits sets)
unfolding with_support
with_support-Occurs bits [] s i = absurd i
with_support-Occurs bits (t ∷ sets) s (inl e) = inl (ap (supported bits) e)
with_support-Occurs bits (t ∷ sets) s (inr i) = inr (with_support-Occurs bits sets s i)

pub with_support-from :
    (bits : List String) (sets : List CompiledSet) (t : CompiledSet)
    → Occurs t (with_support bits sets)
    → (s : CompiledSet) × Occurs s sets × (t ≡ supported bits s)
unfolding with_support
with_support-from bits [] t i = absurd i
with_support-from bits (s ∷ sets) t (inl e) = (s, inl refl, e)
with_support-from bits (s ∷ sets) t (inr i) = (
  (with_support-from bits sets t i).0,
  inr (with_support-from bits sets t i).1,
  (with_support-from bits sets t i).2,
)

pub All-in : (sets : List CompiledSet) → All (λ s. Occurs s sets) sets
All-in [] = tt
All-in (s ∷ sets) = (
  inl refl,
  All-mono (λ a. Occurs a sets) (λ a. Occurs a (s ∷ sets)) (λ a o. inr o) sets (All-in sets),
)
