-- ===== src/Chain.antt =====
-- internal/chain/chain.go: stacks of middleware, over the handlers of any type.
use fork_llama_swap.Base.{◌≡◌, refl, ap, List, [], ◌∷◌, ◌++◌}

-- New and Append copy their arguments, so that a chain is a list.
pub record Chain (Handler : Type 0) : Type 0 where
  pub mws : List (Handler → Handler)

module _ {Handler : Type 0} where
  -- New.
  abbrev pub new_chain : List (Handler → Handler) → Chain Handler
  new_chain mws = record { mws = mws }

  -- Append.
  unfoldable pub append : Chain Handler → List (Handler → Handler) → Chain Handler
  append c mws = record { mws = c.mws ++ mws }

  -- The loop of Then, from the last middleware to the first.
  unfoldable pub wrap : List (Handler → Handler) → Handler → Handler
  wrap [] final = final
  wrap (mw ∷ mws) final = mw (wrap mws final)

  -- Then.
  unfoldable pub apply : Chain Handler → Handler → Handler
  unfolding wrap
  apply c final = wrap c.mws final

  wrap-append :
      (xs ys : List (Handler → Handler)) (final : Handler)
      → wrap (xs ++ ys) final ≡ wrap xs (wrap ys final)
  unfolding wrap
  wrap-append [] ys final = refl
  wrap-append (x ∷ xs) ys final = ap x (wrap-append xs ys final)

  -- A chain of no middleware leaves the handler as it is, a chain of one wraps it by that one
  -- once, and to append middleware to a chain is to wrap the handler by it first, and then by the
  -- chain, for one and for many.
  pub apply-append :
      (c : Chain Handler) (mws : List (Handler → Handler)) (mw : Handler → Handler)
      (final : Handler)
      → (apply (append c mws) final ≡ apply c (apply (new_chain mws) final))
        × (apply (new_chain []) final ≡ final)
        × (apply (new_chain (mw ∷ [])) final ≡ mw final)
        × (apply (append c (mw ∷ [])) final ≡ apply c (mw final))
  unfolding apply append wrap
  apply-append c mws mw final =
      (wrap-append c.mws mws final, refl, refl, wrap-append c.mws (mw ∷ []) final)
