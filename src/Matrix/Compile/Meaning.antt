-- ===== src/Matrix/Compile/Meaning.antt =====
-- internal/matrix/program.go: which combinations of models an expression means, from the roots of the
-- sets by name. A reference to a set without models is left out of the expression that it stands in,
-- where the code simplifies.
use fork_llama_swap.Base.{String, Bool, true, ◌≡◌, ◌≢◌, List, [], ◌∷◌, ◌++◌, Option, some, Occurs}
use fork_llama_swap.Dsl.{Expr, leaf, ref, all_of, any_of, Exprs, nil, child}
use fork_llama_swap.Matrix.Compile.{Root, written, made}

module _ (roots : String → Option Root) where
  mutual
    -- Nothing is left of the expression.
    pub data Vanishes : Expr → Type 0 where
      no_models : (n : String) → roots n ≡ some (made []) → Vanishes (ref n)
      no_set : (n : String) (e : Expr) → roots n ≡ some (written e) → Vanishes e → Vanishes (ref n)
      nothing_of_all : (es : Exprs) → AllVanish es → Vanishes (all_of es)
      nothing_of_any : (es : Exprs) → AllVanish es → Vanishes (any_of es)

    pub data AllVanish : Exprs → Type 0 where
      no_more : AllVanish nil
      one_less : (e : Expr) (es : Exprs) → Vanishes e → AllVanish es → AllVanish (child e es)

module _ (simplified : Bool) (roots : String → Option Root) where
  mutual
    -- The models are a combination of the expression.
    pub data Means : Expr → List String → Type 0 where
      model : (m : String) (xs : List String) → xs ≡ m ∷ [] → Means (leaf m) xs
      orphan :
          (n m : String) (ms xs : List String)
          → roots n ≡ some (made ms)
          → Occurs m ms
          → xs ≡ m ∷ []
          → Means (ref n) xs
      set :
          (n : String) (e : Expr) (xs : List String)
          → roots n ≡ some (written e)
          → Means e xs
          → Means (ref n) xs
      any : (es : Exprs) (xs : List String) → MeansAny es xs → Means (any_of es) xs
      all :
          (es : Exprs) (xs : List String)
          → (simplified ≡ true → xs ≢ [])
          → MeansAll es xs
          → Means (all_of es) xs

    -- They are one of some child.
    pub data MeansAny : Exprs → List String → Type 0 where
      this : (e : Expr) (es : Exprs) (xs : List String) → Means e xs → MeansAny (child e es) xs
      that : (e : Expr) (es : Exprs) (xs : List String) → MeansAny es xs → MeansAny (child e es) xs

    -- They are one of each child, one after another, but for those that are left out.
    pub data MeansAll : Exprs → List String → Type 0 where
      none_more : (xs : List String) → xs ≡ [] → MeansAll nil xs
      joined :
          (e : Expr) (es : Exprs) (xs ys zs : List String)
          → xs ≡ ys ++ zs
          → Means e ys
          → MeansAll es zs
          → MeansAll (child e es) xs
      left_out :
          (e : Expr) (es : Exprs) (xs : List String)
          → simplified ≡ true
          → Vanishes roots e
          → MeansAll es xs
          → MeansAll (child e es) xs
