-- ===== src/Tests/Text.antt =====
-- tokenize of internal/matrix/dsl.go with the letters and digits of ASCII, and the chains of
-- internal/chain/chain.go over texts.
use fork_llama_swap.Base.{ℕ, suc, ◌+◌, ◌≡◌, refl, Bool, leb, ◌&&◌, ◌||◌, List, [], ◌∷◌}
use fork_llama_swap.Chain.{new_chain, append, apply, apply-append}
use fork_llama_swap.Dsl.Tokens.{
  ident, and_sign, set_ref, lexed, expected_set_name, span, is_ident_char, tokens_from, tokenize,
  Answers, tokenize-Answers,
}

abbrev ascii_letter : ℕ → Bool
ascii_letter c = (leb 65 c && leb c 90) || (leb 97 c && leb c 122)

abbrev ascii_digit : ℕ → Bool
ascii_digit c = leb 48 c && leb c 57

-- "a1 &+b".
abbrev text : List ℕ
text = 97 ∷ 49 ∷ 32 ∷ 38 ∷ 43 ∷ 98 ∷ []

reads :
    tokenize ascii_letter ascii_digit text
    ≡ lexed (ident (97 ∷ 49 ∷ []) ∷ and_sign ∷ set_ref (98 ∷ []) ∷ [])
unfolding span is_ident_char tokens_from tokenize
reads = refl

no_name : tokenize ascii_letter ascii_digit (43 ∷ 32 ∷ []) ≡ expected_set_name
unfolding span is_ident_char tokens_from tokenize
no_name = refl

tokenize-Answers_example : Answers (tokenize ascii_letter ascii_digit text)
tokenize-Answers_example = tokenize-Answers ascii_letter ascii_digit text

apply-append_example :
    (apply (append (new_chain (suc ∷ [])) ((λ n. n + n) ∷ [])) 3
      ≡ apply (new_chain (suc ∷ [])) (apply (new_chain ((λ n. n + n) ∷ [])) 3))
    × (apply {Handler = ℕ} (new_chain []) 3 ≡ 3)
    × (apply (new_chain (suc ∷ [])) 3 ≡ suc 3)
    × (apply (append (new_chain (suc ∷ [])) (suc ∷ [])) 3 ≡ apply (new_chain (suc ∷ [])) (suc 3))
apply-append_example = apply-append (new_chain (suc ∷ [])) ((λ n. n + n) ∷ []) suc 3
