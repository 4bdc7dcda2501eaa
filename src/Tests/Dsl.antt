-- ===== src/Tests/Dsl.antt =====
-- The parser of internal/matrix/dsl.go, at the tokens of "a & (b | +c)" and at others that it refuses.
use fork_llama_swap.Base.{◌≡◌, refl, List, [], ◌∷◌}
use fork_llama_swap.Dsl.{Expr}
use fork_llama_swap.Dsl.{
  Token, Expr, ident, and_sign, or_sign, left_paren, right_paren, set_ref, leaf, ref, all_of,
  any_of, nil, child, ok, failed, missing_paren, close, parse_or_expr, finish, parse_dsl,
}
use fork_llama_swap.Dsl.Print.{parse_dsl-as_or}
use fork_llama_swap.Dsl.Written.{as_or, IsTree}
use fork_llama_swap.Dsl.Total.{Leaves, parse_dsl-Leaves}

abbrev tokens : List Token
tokens = ident "a" ∷ and_sign ∷ left_paren ∷ ident "b" ∷ or_sign ∷ set_ref "c" ∷ right_paren ∷ []

parses :
    parse_dsl tokens
    ≡ ok
        (all_of (child (leaf "a") (child (any_of (child (leaf "b") (child (ref "c") nil))) nil)))
        []
unfolding close parse_or_expr finish parse_dsl
parses = refl

refuses : parse_dsl (left_paren ∷ ident "a" ∷ []) ≡ failed missing_paren
unfolding close parse_or_expr finish parse_dsl
refuses = refl

parse_dsl-Leaves_example : Leaves 1 (parse_dsl tokens)
parse_dsl-Leaves_example = parse_dsl-Leaves tokens

abbrev tree : Expr
tree = all_of (child (leaf "a") (child (any_of (child (leaf "b") (child (ref "c") nil))) nil))

parse_dsl-as_or_example : parse_dsl (as_or tree []) ≡ ok tree []
unfolding IsTree
parse_dsl-as_or_example = parse_dsl-as_or tree (tt, (tt, ((tt, (tt, (tt, tt))), tt)))
