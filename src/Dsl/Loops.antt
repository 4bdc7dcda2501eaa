-- ===== src/Dsl/Loops.antt =====
-- internal/matrix/dsl.go: what one call of the parser, and one round of its loops, read.
use fork_llama_swap.Base.{
  ℕ, zero, suc, ◌+◌, ◌*◌, ◌≤◌, ◌<◌, ◌≡◌, refl, subst, String, List, ◌∷◌, length, arith,
}
use fork_llama_swap.Dsl.{
  Token, ident, and_sign, or_sign, left_paren, right_paren, set_ref, Expr, leaf, ref, Exprs, child,
  any_node, all_node, Parsed, ok, close, parse_or_expr, or_operands, parse_and_expr, and_operands,
  parse_atom,
}
use fork_llama_swap.Dsl.Total.{Leaves, suffices}

-- With fuel for the tokens, the method returns the tree and what is left.
abbrev pub Atom : List Token → Expr → List Token → Type 0
Atom ts e rest = (f : ℕ) → 3 * length ts + 1 ≤ f → parse_atom f ts ≡ ok e rest

abbrev pub And : List Token → Expr → List Token → Type 0
And ts e rest = (f : ℕ) → 3 * length ts + 2 ≤ f → parse_and_expr f ts ≡ ok e rest

abbrev pub Ands : List Token → Exprs → List Token → Type 0
Ands ts es rest = (f : ℕ) → 3 * length ts + 2 ≤ f → and_operands f ts ≡ ok es rest

abbrev pub Or : List Token → Expr → List Token → Type 0
Or ts e rest = (f : ℕ) → 3 * length ts + 3 ≤ f → parse_or_expr f ts ≡ ok e rest

abbrev pub Ors : List Token → Exprs → List Token → Type 0
Ors ts es rest = (f : ℕ) → 3 * length ts + 3 ≤ f → or_operands f ts ≡ ok es rest

shorter :
    {A : Type 0} (n : ℕ) (p : Parsed A) (a : A) (rest : List Token)
    → p ≡ ok a rest
    → Leaves n p
    → length rest < n
shorter n p a rest e h = subst (Leaves n) e h

pub And-of :
    (ts mid rest : List Token) (e : Expr) (es : Exprs)
    → Atom ts e mid
    → Ands mid es rest
    → And ts (all_node e es) rest
unfolding parse_or_expr
And-of ts mid rest e es a b zero h = absurd (omega (arith, h))
And-of ts mid rest e es a b (suc f) h =
    rw
      (
        a f (omega (arith, h)),
        b f (
            omega (
              arith,
              h,
              shorter (length ts) (parse_atom f ts) e mid (a f (omega (arith, h)))
                  ((suffices f).atom ts (omega (arith, h))),
            )),
      )
      refl

pub Ands-of :
    (ts mid rest : List Token) (e : Expr) (es : Exprs)
    → Atom ts e mid
    → Ands mid es rest
    → Ands (and_sign ∷ ts) (child e es) rest
unfolding parse_or_expr
Ands-of ts mid rest e es a b zero h = absurd (omega (arith, h))
Ands-of ts mid rest e es a b (suc f) h =
    rw
      (
        a f (omega (arith, h)),
        b f (
            omega (
              arith,
              h,
              shorter (length ts) (parse_atom f ts) e mid (a f (omega (arith, h)))
                  ((suffices f).atom ts (omega (arith, h))),
            )),
      )
      refl

pub Or-of :
    (ts mid rest : List Token) (e : Expr) (es : Exprs)
    → And ts e mid
    → Ors mid es rest
    → Or ts (any_node e es) rest
unfolding parse_or_expr
Or-of ts mid rest e es a b zero h = absurd (omega (arith, h))
Or-of ts mid rest e es a b (suc f) h =
    rw
      (
        a f (omega (arith, h)),
        b f (
            omega (
              arith,
              h,
              shorter (length ts) (parse_and_expr f ts) e mid (a f (omega (arith, h)))
                  ((suffices f).and_expr ts (omega (arith, h))),
            )),
      )
      refl

pub Ors-of :
    (ts mid rest : List Token) (e : Expr) (es : Exprs)
    → And ts e mid
    → Ors mid es rest
    → Ors (or_sign ∷ ts) (child e es) rest
unfolding parse_or_expr
Ors-of ts mid rest e es a b zero h = absurd (omega (arith, h))
Ors-of ts mid rest e es a b (suc f) h =
    rw
      (
        a f (omega (arith, h)),
        b f (
            omega (
              arith,
              h,
              shorter (length ts) (parse_and_expr f ts) e mid (a f (omega (arith, h)))
                  ((suffices f).and_expr ts (omega (arith, h))),
            )),
      )
      refl

pub in_parens :
    (ts rest : List Token) (e : Expr) → Or ts e (right_paren ∷ rest) → Atom (left_paren ∷ ts) e rest
unfolding parse_or_expr close
in_parens ts rest e a zero h = absurd (omega (arith, h))
in_parens ts rest e a (suc f) h = rw (a f (omega (arith, h))) refl

pub leaf-Atom : (n : String) (rest : List Token) → Atom (ident n ∷ rest) (leaf n) rest
unfolding parse_or_expr
leaf-Atom n rest zero h = absurd (omega (arith, h))
leaf-Atom n rest (suc f) h = refl

pub ref-Atom : (n : String) (rest : List Token) → Atom (set_ref n ∷ rest) (ref n) rest
unfolding parse_or_expr
ref-Atom n rest zero h = absurd (omega (arith, h))
ref-Atom n rest (suc f) h = refl
