-- ===== src/Dsl/Tokens.antt =====
-- internal/matrix/dsl.go: tokenize, over the code points of the runes. The letters and digits of Unicode
-- are the parameters `is_letter` and `is_digit`.
use fork_llama_swap.Base.{
  ℕ, zero, suc, ◌+◌, ◌≤◌, ◌<◌, Bool, ◌||◌, ◌==◌, if◌then◌else◌, if_keeps, List, [], ◌∷◌, length,
  arith,
}
use fork_llama_swap.Capacity.Config.{is_space}

-- A token, with the code points of its text.
pub data Lexeme : Type 0 where
  ident : List ℕ → Lexeme
  and_sign : Lexeme
  or_sign : Lexeme
  left_paren : Lexeme
  right_paren : Lexeme
  set_ref : List ℕ → Lexeme

pub data Lexed : Type 0 where
  lexed : List Lexeme → Lexed
  expected_set_name : Lexed
  unexpected_character : ℕ → Lexed
  out_of_fuel : Lexed

-- A token before those of the rest.
abbrev pub before : Lexeme → Lexed → Lexed
before t (lexed ts) = lexed (t ∷ ts)
before t expected_set_name = expected_set_name
before t (unexpected_character c) = unexpected_character c
before t out_of_fuel = out_of_fuel

-- The loop over the characters of a name: what it reads and what is left.
unfoldable pub span : (ℕ → Bool) → List ℕ → List ℕ × List ℕ
span p [] = ([], [])
span p (c ∷ cs) = let rest = span p cs in if p c then (c ∷ rest.0, rest.1) else ([], c ∷ cs)

-- The token of a reference, unless its name is empty.
abbrev pub reference : List ℕ → Lexed → Lexed
reference [] rest = expected_set_name
reference (c ∷ name) rest = before (set_ref (c ∷ name)) rest

module _ (is_letter is_digit : ℕ → Bool) where
  -- isIdentChar: '_', '-' and '.' besides letters and digits.
  unfoldable pub is_ident_char : ℕ → Bool
  is_ident_char c = is_letter c || (is_digit c || ((c == 95) || ((c == 45) || (c == 46))))

  -- A name of a set may have ':'.
  abbrev pub is_ref_char : ℕ → Bool
  is_ref_char c = is_ident_char c || (c == 58)

  -- The loop of tokenize; each round spends one unit of fuel. The cases are those of '&', '|', '(', ')'
  -- and '+'.
  unfoldable pub tokens_from : ℕ → List ℕ → Lexed
  unfolding span
  tokens_from zero cs = out_of_fuel
  tokens_from (suc f) [] = lexed []
  tokens_from (suc f) (c ∷ cs) =
      let next = tokens_from f cs in
      let name = span is_ref_char cs in
      let word = span is_ident_char cs in
      let after_name = tokens_from f name.1 in
      let after_word = tokens_from f word.1 in
      if is_space c
      then next
      else if c == 38
      then before and_sign next
      else if c == 124
      then before or_sign next
      else if c == 40
      then before left_paren next
      else if c == 41
      then before right_paren next
      else if c == 43
      then reference name.0 after_name
      else if is_ident_char c
      then before (ident (c ∷ word.0)) after_word
      else unexpected_character c

  -- tokenize.
  unfoldable pub tokenize : List ℕ → Lexed
  unfolding tokens_from
  tokenize cs = tokens_from (length cs + 1) cs

-- There is an answer.
abbrev pub Answers : Lexed → Type 0
Answers out_of_fuel = ⊥
Answers r = Unit

span-le : (p : ℕ → Bool) (cs : List ℕ) → length (span p cs).1 ≤ length cs
unfolding span
span-le p [] = omega arith
span-le p (c ∷ cs) =
    if_keeps (λ (r : List ℕ × List ℕ). length r.1 ≤ suc (length cs)) (p c) _ _
      (omega (arith, span-le p cs)) (omega arith)

before-Answers : (t : Lexeme) (r : Lexed) → Answers r → Answers (before t r)
before-Answers t (lexed ts) h = tt
before-Answers t expected_set_name h = tt
before-Answers t (unexpected_character c) h = tt
before-Answers t out_of_fuel h = absurd h

reference-Answers : (name : List ℕ) (r : Lexed) → Answers r → Answers (reference name r)
reference-Answers [] r h = tt
reference-Answers (c ∷ name) r h = before-Answers (set_ref (c ∷ name)) r h

module _ (is_letter is_digit : ℕ → Bool) where
  tokens_from-Answers :
      (f : ℕ) (cs : List ℕ) → length cs < f → Answers (tokens_from is_letter is_digit f cs)
  unfolding tokens_from
  tokens_from-Answers zero cs h = absurd (omega (arith, h))
  tokens_from-Answers (suc f) [] h = tt
  tokens_from-Answers (suc f) (c ∷ cs) h =
      if_keeps Answers (is_space c) _ _ (tokens_from-Answers f cs (omega (arith, h))) (
        if_keeps Answers (c == 38) _ _
          (before-Answers and_sign _ (tokens_from-Answers f cs (omega (arith, h))))
          (if_keeps Answers (c == 124) _ _
            (before-Answers or_sign _ (tokens_from-Answers f cs (omega (arith, h))))
            (if_keeps Answers (c == 40) _ _
              (before-Answers left_paren _ (tokens_from-Answers f cs (omega (arith, h))))
              (if_keeps Answers (c == 41) _ _
                (before-Answers right_paren _ (tokens_from-Answers f cs (omega (arith, h))))
                (if_keeps Answers (c == 43) _ _
                  (reference-Answers (span (is_ref_char is_letter is_digit) cs).0 _ (
                    tokens_from-Answers f (span (is_ref_char is_letter is_digit) cs).1
                      (omega (arith, h, span-le (is_ref_char is_letter is_digit) cs))))
                  (if_keeps Answers (is_ident_char is_letter is_digit c) _ _
                    (before-Answers (ident (c ∷ (span (is_ident_char is_letter is_digit) cs).0)) _ (
                      tokens_from-Answers f (span (is_ident_char is_letter is_digit) cs).1
                        (omega (arith, h, span-le (is_ident_char is_letter is_digit) cs))))
                    tt))))))

-- Whatever counts as a letter or a digit, tokenize has an answer for any text, tokens or an error: its
-- fuel does not run out.
pub tokenize-Answers :
    (is_letter is_digit : ℕ → Bool) (cs : List ℕ) → Answers (tokenize is_letter is_digit cs)
unfolding tokenize
tokenize-Answers is_letter is_digit cs =
    tokens_from-Answers is_letter is_digit (length cs + 1) cs (omega arith)
