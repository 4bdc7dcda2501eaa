-- ===== src/Dsl/Written.antt =====
-- internal/matrix/dsl.go: how an expression is written as tokens.
use fork_llama_swap.Base.{List, ◌∷◌}
use fork_llama_swap.Dsl.{
  Token, ident, and_sign, or_sign, left_paren, right_paren, set_ref, Expr, leaf, ref, all_of,
  any_of, Exprs, nil, child,
}

-- The tokens of a tree, before the others: as an operand of an operator, and with its operands.
unfoldable mutual
  pub as_atom : Expr → List Token → List Token
  as_atom (leaf n) rest = ident n ∷ rest
  as_atom (ref n) rest = set_ref n ∷ rest
  as_atom (any_of es) rest = left_paren ∷ or_joined es (right_paren ∷ rest)
  as_atom (all_of es) rest = left_paren ∷ and_joined es (right_paren ∷ rest)

  pub as_and : Expr → List Token → List Token
  as_and (leaf n) rest = ident n ∷ rest
  as_and (ref n) rest = set_ref n ∷ rest
  as_and (any_of es) rest = left_paren ∷ or_joined es (right_paren ∷ rest)
  as_and (all_of es) rest = and_joined es rest

  pub and_joined : Exprs → List Token → List Token
  and_joined nil rest = rest
  and_joined (child e es) rest = as_atom e (and_rest es rest)

  pub and_rest : Exprs → List Token → List Token
  and_rest nil rest = rest
  and_rest (child e es) rest = and_sign ∷ as_atom e (and_rest es rest)

  pub or_joined : Exprs → List Token → List Token
  or_joined nil rest = rest
  or_joined (child e es) rest = as_and e (or_rest es rest)

  pub or_rest : Exprs → List Token → List Token
  or_rest nil rest = rest
  or_rest (child e es) rest = or_sign ∷ as_and e (or_rest es rest)

abbrev pub as_or : Expr → List Token → List Token
as_or (any_of es) rest = or_joined es rest
as_or (all_of es) rest = and_joined es rest
as_or (leaf n) rest = ident n ∷ rest
as_or (ref n) rest = set_ref n ∷ rest

abbrev pub AtLeastTwo : Exprs → Type 0
AtLeastTwo nil = ⊥
AtLeastTwo (child e nil) = ⊥
AtLeastTwo (child e (child d es)) = Unit

unfoldable mutual
  -- Each operator has two operands or more.
  pub IsTree : Expr → Type 0
  IsTree (leaf n) = Unit
  IsTree (ref n) = Unit
  IsTree (any_of es) = AtLeastTwo es × AreTrees es
  IsTree (all_of es) = AtLeastTwo es × AreTrees es

  pub AreTrees : Exprs → Type 0
  AreTrees nil = Unit
  AreTrees (child e es) = IsTree e × AreTrees es
