-- ===== src/Dsl/Print.antt =====
-- internal/matrix/dsl.go: the parser reads what is written.
use fork_llama_swap.Base.{zero, suc, ◌+◌, ◌*◌, ◌≡◌, refl, List, [], ◌∷◌, length, arith}
use fork_llama_swap.Dsl.{
  Token, ident, and_sign, or_sign, left_paren, right_paren, set_ref, Expr, leaf, ref, all_of,
  any_of, Exprs, nil, child, ok, parse_or_expr, finish, parse_dsl,
}
use fork_llama_swap.Dsl.Written.{
  as_atom, as_and, and_joined, and_rest, or_joined, or_rest, as_or, IsTree, AreTrees,
}
use fork_llama_swap.Dsl.Loops.{
  Atom, And, Ands, Or, Ors, And-of, Ands-of, Or-of, Ors-of, in_parens, leaf-Atom, ref-Atom,
}

-- The next token continues no conjunction, and no alternative either.
abbrev NoAnd : List Token → Type 0
NoAnd [] = Unit
NoAnd (and_sign ∷ ts) = ⊥
NoAnd (t ∷ ts) = Unit

abbrev NoOr : List Token → Type 0
NoOr [] = Unit
NoOr (or_sign ∷ ts) = ⊥
NoOr (t ∷ ts) = Unit

Ands-end : (rest : List Token) → NoAnd rest → Ands rest nil rest
unfolding parse_or_expr
Ands-end rest n zero h = absurd (omega (arith, h))
Ands-end [] n (suc f) h = refl
Ands-end (and_sign ∷ ts) n (suc f) h = absurd n
Ands-end (or_sign ∷ ts) n (suc f) h = refl
Ands-end (ident x ∷ ts) n (suc f) h = refl
Ands-end (set_ref x ∷ ts) n (suc f) h = refl
Ands-end (left_paren ∷ ts) n (suc f) h = refl
Ands-end (right_paren ∷ ts) n (suc f) h = refl

Ors-end : (rest : List Token) → NoOr rest → Ors rest nil rest
unfolding parse_or_expr
Ors-end rest n zero h = absurd (omega (arith, h))
Ors-end [] n (suc f) h = refl
Ors-end (or_sign ∷ ts) n (suc f) h = absurd n
Ors-end (and_sign ∷ ts) n (suc f) h = refl
Ors-end (ident x ∷ ts) n (suc f) h = refl
Ors-end (set_ref x ∷ ts) n (suc f) h = refl
Ors-end (left_paren ∷ ts) n (suc f) h = refl
Ors-end (right_paren ∷ ts) n (suc f) h = refl

or_rest-NoAnd : (es : Exprs) (rest : List Token) → NoAnd rest → NoAnd (or_rest es rest)
unfolding as_atom
or_rest-NoAnd nil rest n = n
or_rest-NoAnd (child e es) rest n = tt

mutual
  unfolding as_atom IsTree

  atoms : (e : Expr) → IsTree e → (rest : List Token) → Atom (as_atom e rest) e rest
  atoms (leaf n) t rest = leaf-Atom n rest
  atoms (ref n) t rest = ref-Atom n rest
  atoms (any_of (child a (child b es))) t rest =
      in_parens (or_joined (child a (child b es)) (right_paren ∷ rest)) rest
        (any_of (child a (child b es)))
        (Or-of (or_joined (child a (child b es)) (right_paren ∷ rest))
          (or_rest (child b es) (right_paren ∷ rest)) (right_paren ∷ rest) a (child b es)
          (ands a t.1.0 (or_rest (child b es) (right_paren ∷ rest)) tt)
          (Ors-rest (child b es) t.1.1 (right_paren ∷ rest) tt tt))
  atoms (any_of (child a nil)) t rest = absurd t.0
  atoms (any_of nil) t rest = absurd t.0
  atoms (all_of (child a (child b es))) t rest =
      in_parens (and_joined (child a (child b es)) (right_paren ∷ rest)) rest
        (all_of (child a (child b es)))
        (Or-of (and_joined (child a (child b es)) (right_paren ∷ rest)) (right_paren ∷ rest)
          (right_paren ∷ rest) (all_of (child a (child b es))) nil
          (And-of (and_joined (child a (child b es)) (right_paren ∷ rest))
            (and_rest (child b es) (right_paren ∷ rest)) (right_paren ∷ rest) a (child b es)
            (atoms a t.1.0 (and_rest (child b es) (right_paren ∷ rest)))
            (Ands-rest (child b es) t.1.1 (right_paren ∷ rest) tt))
          (Ors-end (right_paren ∷ rest) tt))
  atoms (all_of (child a nil)) t rest = absurd t.0
  atoms (all_of nil) t rest = absurd t.0

  ands : (e : Expr) → IsTree e → (rest : List Token) → NoAnd rest → And (as_and e rest) e rest
  ands (leaf n) t rest na =
      And-of (ident n ∷ rest) rest rest (leaf n) nil (leaf-Atom n rest) (Ands-end rest na)
  ands (ref n) t rest na =
      And-of (set_ref n ∷ rest) rest rest (ref n) nil (ref-Atom n rest) (Ands-end rest na)
  ands (any_of (child a (child b es))) t rest na =
      And-of (as_and (any_of (child a (child b es))) rest) rest rest (any_of (child a (child b es)))
        nil
        (in_parens (or_joined (child a (child b es)) (right_paren ∷ rest)) rest
          (any_of (child a (child b es)))
          (Or-of (or_joined (child a (child b es)) (right_paren ∷ rest))
            (or_rest (child b es) (right_paren ∷ rest)) (right_paren ∷ rest) a (child b es)
            (ands a t.1.0 (or_rest (child b es) (right_paren ∷ rest)) tt)
            (Ors-rest (child b es) t.1.1 (right_paren ∷ rest) tt tt)))
        (Ands-end rest na)
  ands (any_of (child a nil)) t rest na = absurd t.0
  ands (any_of nil) t rest na = absurd t.0
  ands (all_of (child a (child b es))) t rest na =
      And-of (and_joined (child a (child b es)) rest) (and_rest (child b es) rest) rest a
        (child b es) (atoms a t.1.0 (and_rest (child b es) rest))
        (Ands-rest (child b es) t.1.1 rest na)
  ands (all_of (child a nil)) t rest na = absurd t.0
  ands (all_of nil) t rest na = absurd t.0

  Ands-rest :
      (es : Exprs)
      → AreTrees es
      → (rest : List Token) → NoAnd rest
      → Ands (and_rest es rest) es rest
  Ands-rest nil t rest na = Ands-end rest na
  Ands-rest (child e es) t rest na =
      Ands-of (as_atom e (and_rest es rest)) (and_rest es rest) rest e es
        (atoms e t.0 (and_rest es rest)) (Ands-rest es t.1 rest na)

  Ors-rest :
      (es : Exprs)
      → AreTrees es
      → (rest : List Token) → NoAnd rest
      → NoOr rest
      → Ors (or_rest es rest) es rest
  Ors-rest nil t rest na nr = Ors-end rest nr
  Ors-rest (child e es) t rest na nr =
      Ors-of (as_and e (or_rest es rest)) (or_rest es rest) rest e es
        (ands e t.0 (or_rest es rest) (or_rest-NoAnd es rest na)) (Ors-rest es t.1 rest na nr)

ors : (e : Expr) → IsTree e → Or (as_or e []) e []
unfolding as_atom IsTree
ors (any_of (child a (child b es))) t =
    Or-of (or_joined (child a (child b es)) []) (or_rest (child b es) []) [] a (child b es)
      (ands a t.1.0 (or_rest (child b es) []) tt) (Ors-rest (child b es) t.1.1 [] tt tt)
ors (any_of (child a nil)) t = absurd t.0
ors (any_of nil) t = absurd t.0
ors (all_of es) t =
    Or-of (and_joined es []) [] [] (all_of es) nil (ands (all_of es) t [] tt) (Ors-end [] tt)
ors (leaf n) t = Or-of (ident n ∷ []) [] [] (leaf n) nil (ands (leaf n) tt [] tt) (Ors-end [] tt)
ors (ref n) t = Or-of (set_ref n ∷ []) [] [] (ref n) nil (ands (ref n) tt [] tt) (Ors-end [] tt)

-- The tokens of a tree, whose operators have two operands or more, are parsed to the tree.
pub parse_dsl-as_or : (e : Expr) → IsTree e → parse_dsl (as_or e []) ≡ ok e []
unfolding parse_dsl finish
parse_dsl-as_or e t = rw (ors e t (3 * length (as_or e []) + 3) (omega arith)) refl
