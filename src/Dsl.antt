-- ===== src/Dsl.antt =====
-- internal/matrix/dsl.go: the parser of set expressions, from the tokens on. The end of the tokens stands
-- for the token tokEOF, which every list of tokens ends with.
pub mod Loops
pub mod Written
pub mod Total
pub mod Print
pub mod Tokens
use fork_llama_swap.Base.{ℕ, zero, suc, ◌+◌, ◌*◌, String, Bool, List, [], ◌∷◌, length}

pub data Token : Type 0 where
  ident : String → Token
  and_sign : Token
  or_sign : Token
  left_paren : Token
  right_paren : Token
  set_ref : String → Token

-- A node as it is parsed: no reference is linked, and nodeEmpty does not occur.
mutual
  pub data Expr : Type 0 where
    leaf : String → Expr
    ref : String → Expr
    all_of : Exprs → Expr
    any_of : Exprs → Expr

  pub data Exprs : Type 0 where
    nil : Exprs
    child : Expr → Exprs → Exprs

pub data Error : Type 0 where
  missing_paren : Error
  unexpected_token : Error
  trailing_token : Error

-- What a method of the parser returns, with the tokens from its position on.
pub data Parsed (A : Type 0) : Type 0 where
  ok : A → List Token → Parsed A
  failed : Error → Parsed A
  out_of_fuel : Parsed A

module _ {A B : Type 0} where
  abbrev pub bind : Parsed A → (A → List Token → Parsed B) → Parsed B
  bind (ok a rest) f = f a rest
  bind (failed e) f = failed e
  bind out_of_fuel f = out_of_fuel

-- The closing parenthesis after a root.
unfoldable pub close : Expr → List Token → Parsed Expr
close root (right_paren ∷ rest) = ok root rest
close root _ = failed missing_paren

-- A single operand is the node itself, more are the children of one.
abbrev pub any_node : Expr → Exprs → Expr
any_node left nil = left
any_node left (child e more) = any_of (child left (child e more))

abbrev pub all_node : Expr → Exprs → Expr
all_node left nil = left
all_node left (child e more) = all_of (child left (child e more))

-- Each call and each round of a loop spends one unit of fuel.
unfoldable mutual
  unfolding close

  pub parse_or_expr : ℕ → List Token → Parsed Expr
  parse_or_expr zero ts = out_of_fuel
  parse_or_expr (suc f) ts =
      bind (parse_and_expr f ts)
        (λ left rest. bind (or_operands f rest) (λ more rest'. ok (any_node left more) rest'))

  -- The loop of parseOrExpr.
  pub or_operands : ℕ → List Token → Parsed Exprs
  or_operands zero ts = out_of_fuel
  or_operands (suc f) (or_sign ∷ ts) =
      bind (parse_and_expr f ts)
        (λ right rest. bind (or_operands f rest) (λ more rest'. ok (child right more) rest'))
  or_operands (suc f) ts = ok nil ts

  pub parse_and_expr : ℕ → List Token → Parsed Expr
  parse_and_expr zero ts = out_of_fuel
  parse_and_expr (suc f) ts =
      bind (parse_atom f ts)
        (λ left rest. bind (and_operands f rest) (λ more rest'. ok (all_node left more) rest'))

  -- The loop of parseAndExpr.
  pub and_operands : ℕ → List Token → Parsed Exprs
  and_operands zero ts = out_of_fuel
  and_operands (suc f) (and_sign ∷ ts) =
      bind (parse_atom f ts)
        (λ right rest. bind (and_operands f rest) (λ more rest'. ok (child right more) rest'))
  and_operands (suc f) ts = ok nil ts

  pub parse_atom : ℕ → List Token → Parsed Expr
  parse_atom zero ts = out_of_fuel
  parse_atom (suc f) (ident name ∷ rest) = ok (leaf name) rest
  parse_atom (suc f) (set_ref name ∷ rest) = ok (ref name) rest
  parse_atom (suc f) (left_paren ∷ ts) = bind (parse_or_expr f ts) (λ root rest. close root rest)
  parse_atom (suc f) _ = failed unexpected_token

-- The end of parseDSL.
unfoldable pub finish : Expr → List Token → Parsed Expr
finish root [] = ok root []
finish root (t ∷ rest) = failed trailing_token

unfoldable pub parse_dsl : List Token → Parsed Expr
unfolding parse_or_expr finish
parse_dsl tokens = bind (parse_or_expr (3 * length tokens + 3) tokens) finish
