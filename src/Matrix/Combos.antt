-- ===== src/Matrix/Combos.antt =====
-- internal/matrix/program.go: the combinations of models that a compiled expression stands for, the
-- full Cartesian product, without an evaluator.
use fork_llama_swap.Base.{ℕ, ◌≡◌, refl, ◌⊎◌, String, false, arith, ◌||◌, List, [], ◌∷◌, ◌++◌}
use fork_llama_swap.Matrix.{
  Node, leaf, ref, all_of, any_of, empty, Nodes, none_left, child, BitMask, mask_of_bit, bit_of,
  Witness, nothing, model, pair,
}

unfoldable mutual
  -- The models are a combination of the node.
  pub IsCombo : Node → List String → Type 0
  IsCombo empty xs = ⊥
  IsCombo (leaf m) xs = xs ≡ m ∷ []
  IsCombo (ref name target) xs = IsCombo target xs
  IsCombo (any_of children) xs = IsAnyCombo children xs
  IsCombo (all_of children) xs = IsAllCombo children xs

  -- They are one of some child.
  pub IsAnyCombo : Nodes → List String → Type 0
  IsAnyCombo none_left xs = ⊥
  IsAnyCombo (child n children) xs = IsCombo n xs ⊎ IsAnyCombo children xs

  -- They are one of each child, one after another.
  pub IsAllCombo : Nodes → List String → Type 0
  IsAllCombo none_left xs = xs ≡ []
  IsAllCombo (child n children) xs =
      (ys : List String) × (zs : List String) × (xs ≡ ys ++ zs)
      × IsCombo n ys
      × IsAllCombo children zs

-- The bits of the models.
abbrev pub project : List String → List String → BitMask
project bits [] b = false
project bits (x ∷ xs) b = mask_of_bit (bit_of bits x) b || project bits xs b

-- The models of a witness, from left to right.
abbrev pub leaves : Witness → List String
leaves nothing = []
leaves (model m) = m ∷ []
leaves (pair left right) = leaves left ++ leaves right

pub project-append :
    (bits xs ys : List String) (b : ℕ)
    → project bits (xs ++ ys) b ≡ (project bits xs b || project bits ys b)
project-append bits [] ys b = refl
project-append bits (x ∷ xs) ys b = ground (arith, project-append bits xs ys b)
