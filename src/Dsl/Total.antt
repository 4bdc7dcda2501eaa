-- ===== src/Dsl/Total.antt =====
-- internal/matrix/dsl.go: the fuel of the parser is enough.
use fork_llama_swap.Base.{ℕ, zero, suc, ◌+◌, ◌*◌, ◌≤◌, ◌<◌, List, [], ◌∷◌, length, arith}
use fork_llama_swap.Dsl.{
  Token, ident, and_sign, or_sign, left_paren, right_paren, set_ref, Expr, Parsed, ok, failed,
  out_of_fuel, bind, close, parse_or_expr, or_operands, parse_and_expr, and_operands, parse_atom,
  finish, parse_dsl,
}

-- The parser has an answer, and leaves fewer than `n` tokens where it succeeds.
abbrev pub Leaves : {A : Type 0} → ℕ → Parsed A → Type 0
Leaves n (ok a rest) = length rest < n
Leaves n (failed e) = Unit
Leaves n out_of_fuel = ⊥

bind-Leaves :
    {A B : Type 0} (k n : ℕ) (p : Parsed A) (f : A → List Token → Parsed B)
    → Leaves k p
    → ((a : A) (rest : List Token) → length rest < k → Leaves n (f a rest))
    → Leaves n (bind p f)
bind-Leaves k n (ok a rest) f h g = g a rest h
bind-Leaves k n (failed e) f h g = tt
bind-Leaves k n out_of_fuel f h g = absurd h

Leaves-mono : {A : Type 0} (k n : ℕ) (p : Parsed A) → k ≤ n → Leaves k p → Leaves n p
Leaves-mono k n (ok a rest) l h = omega (arith, l, h)
Leaves-mono k n (failed e) l h = tt
Leaves-mono k n out_of_fuel l h = absurd h

close-Leaves :
    (root : Expr) (rest : List Token) (n : ℕ) → length rest < n → Leaves n (close root rest)
unfolding close
close-Leaves root (right_paren ∷ rest) n h = omega (arith, h)
close-Leaves root [] n h = tt
close-Leaves root (ident s ∷ rest) n h = tt
close-Leaves root (and_sign ∷ rest) n h = tt
close-Leaves root (or_sign ∷ rest) n h = tt
close-Leaves root (left_paren ∷ rest) n h = tt
close-Leaves root (set_ref s ∷ rest) n h = tt

-- The fuel that each method needs for its tokens, and what it leaves of them.
pub record Suffices (f : ℕ) : Type 0 where
  pub or_expr : (ts : List Token) → 3 * length ts + 3 ≤ f → Leaves (length ts) (parse_or_expr f ts)
  pub or_more :
      (ts : List Token) → 3 * length ts + 3 ≤ f → Leaves (suc (length ts)) (or_operands f ts)
  pub and_expr :
      (ts : List Token) → 3 * length ts + 2 ≤ f → Leaves (length ts) (parse_and_expr f ts)
  and_more :
      (ts : List Token) → 3 * length ts + 2 ≤ f → Leaves (suc (length ts)) (and_operands f ts)
  pub atom : (ts : List Token) → 3 * length ts + 1 ≤ f → Leaves (length ts) (parse_atom f ts)

module _ (f : ℕ) (s : Suffices f) where
  or_expr-Leaves :
      (ts : List Token) → 3 * length ts + 3 ≤ suc f → Leaves (length ts) (parse_or_expr (suc f) ts)
  unfolding parse_or_expr
  or_expr-Leaves ts h =
      bind-Leaves (length ts) (length ts) (parse_and_expr f ts) _ (s.and_expr ts (omega (arith, h)))
        (λ left rest l.
          bind-Leaves (suc (length rest)) (length ts) (or_operands f rest) _
            (s.or_more rest (omega (arith, h, l))) (λ more rest' k. omega (arith, k, l)))

  and_expr-Leaves :
      (ts : List Token) → 3 * length ts + 2 ≤ suc f → Leaves (length ts) (parse_and_expr (suc f) ts)
  unfolding parse_or_expr
  and_expr-Leaves ts h =
      bind-Leaves (length ts) (length ts) (parse_atom f ts) _ (s.atom ts (omega (arith, h)))
        (λ left rest l.
          bind-Leaves (suc (length rest)) (length ts) (and_operands f rest) _
            (s.and_more rest (omega (arith, h, l))) (λ more rest' k. omega (arith, k, l)))

  or_more-Leaves :
      (ts : List Token)
      → 3 * length ts + 3 ≤ suc f
      → Leaves (suc (length ts)) (or_operands (suc f) ts)
  unfolding parse_or_expr
  or_more-Leaves (or_sign ∷ ts) h =
      bind-Leaves (length ts) (suc (suc (length ts))) (parse_and_expr f ts) _
        (s.and_expr ts (omega (arith, h)))
        (λ right rest l.
          bind-Leaves (suc (length rest)) (suc (suc (length ts))) (or_operands f rest) _
            (s.or_more rest (omega (arith, h, l))) (λ more rest' k. omega (arith, k, l)))
  or_more-Leaves [] h = omega arith
  or_more-Leaves (ident x ∷ ts) h = omega arith
  or_more-Leaves (and_sign ∷ ts) h = omega arith
  or_more-Leaves (left_paren ∷ ts) h = omega arith
  or_more-Leaves (right_paren ∷ ts) h = omega arith
  or_more-Leaves (set_ref x ∷ ts) h = omega arith

  and_more-Leaves :
      (ts : List Token)
      → 3 * length ts + 2 ≤ suc f
      → Leaves (suc (length ts)) (and_operands (suc f) ts)
  unfolding parse_or_expr
  and_more-Leaves (and_sign ∷ ts) h =
      bind-Leaves (length ts) (suc (suc (length ts))) (parse_atom f ts) _
        (s.atom ts (omega (arith, h)))
        (λ right rest l.
          bind-Leaves (suc (length rest)) (suc (suc (length ts))) (and_operands f rest) _
            (s.and_more rest (omega (arith, h, l))) (λ more rest' k. omega (arith, k, l)))
  and_more-Leaves [] h = omega arith
  and_more-Leaves (ident x ∷ ts) h = omega arith
  and_more-Leaves (or_sign ∷ ts) h = omega arith
  and_more-Leaves (left_paren ∷ ts) h = omega arith
  and_more-Leaves (right_paren ∷ ts) h = omega arith
  and_more-Leaves (set_ref x ∷ ts) h = omega arith

  atom-Leaves :
      (ts : List Token) → 3 * length ts + 1 ≤ suc f → Leaves (length ts) (parse_atom (suc f) ts)
  unfolding parse_or_expr
  atom-Leaves (left_paren ∷ ts) h =
      bind-Leaves (length ts) (suc (length ts)) (parse_or_expr f ts) _
        (s.or_expr ts (omega (arith, h)))
        (λ root rest l. close-Leaves root rest (suc (length ts)) (omega (arith, l)))
  atom-Leaves [] h = tt
  atom-Leaves (ident x ∷ ts) h = omega arith
  atom-Leaves (set_ref x ∷ ts) h = omega arith
  atom-Leaves (and_sign ∷ ts) h = tt
  atom-Leaves (or_sign ∷ ts) h = tt
  atom-Leaves (right_paren ∷ ts) h = tt

pub suffices : (f : ℕ) → Suffices f
suffices zero = record {
  or_expr = λ ts h. absurd (omega (arith, h));
  or_more = λ ts h. absurd (omega (arith, h));
  and_expr = λ ts h. absurd (omega (arith, h));
  and_more = λ ts h. absurd (omega (arith, h));
  atom = λ ts h. absurd (omega (arith, h));
}
suffices (suc f) = record {
  or_expr = or_expr-Leaves f (suffices f);
  or_more = or_more-Leaves f (suffices f);
  and_expr = and_expr-Leaves f (suffices f);
  and_more = and_more-Leaves f (suffices f);
  atom = atom-Leaves f (suffices f);
}

finish_answers : (root : Expr) (rest : List Token) → Leaves 1 (finish root rest)
unfolding finish
finish_answers root [] = omega arith
finish_answers root (t ∷ rest) = tt

-- The parser has an answer for any tokens, a tree or an error: its fuel does not run out. With a tree all
-- tokens are read.
pub parse_dsl-Leaves : (tokens : List Token) → Leaves 1 (parse_dsl tokens)
unfolding parse_dsl
parse_dsl-Leaves tokens =
    bind-Leaves (length tokens) 1 (parse_or_expr (3 * length tokens + 3) tokens) finish
      ((suffices (3 * length tokens + 3)).or_expr tokens (omega arith))
      (λ root rest l. finish_answers root rest)
