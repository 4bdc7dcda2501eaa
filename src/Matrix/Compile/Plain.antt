-- ===== src/Matrix/Compile/Plain.antt =====
-- internal/matrix/program.go: a root that is linked and not simplified stands for the combinations that
-- its expression means.
use fork_llama_swap.Base.{
  String, false, ◌≡◌, ◌↔◌, ◌⊎◌, inl, inr, List, [], ◌∷◌, ◌++◌, Option, Whenever, Whenever-mono,
}
use fork_llama_swap.Dsl.{Expr, Exprs, nil}
use fork_llama_swap.Matrix.{Node, ref, all_of, any_of, Nodes, child}
use fork_llama_swap.Matrix.Combos.{IsCombo, IsAnyCombo, IsAllCombo}
use fork_llama_swap.Matrix.Compile.{Root, link, link_all}
use fork_llama_swap.Matrix.Compile.Meaning.{
  Means, model, any, all, MeansAny, this, that, MeansAll, none_more, joined, left_out,
}
use fork_llama_swap.Matrix.Compile.Simplify.{Whenever-map, Whenever-child}

module _ (roots : String → Option Root) where
  -- Where nothing is simplified, no child is left out.
  abbrev pub Stands : Expr → Node → Type 0
  Stands e n = (xs : List String) → IsCombo n xs ↔ Means false roots e xs

  record StandsAll (es : Exprs) (ns : Nodes) : Type 0 where
    any_combos : (xs : List String) → IsAnyCombo ns xs ↔ MeansAny false roots es xs
    all_combos : (xs : List String) → IsAllCombo ns xs ↔ MeansAll false roots es xs

  of_leaf : (m : String) (xs : List String) → Means false roots (Expr.leaf m) xs → xs ≡ m ∷ []
  of_leaf _ _ (model m xs e) = e

  of_any :
      (es : Exprs) (xs : List String)
      → Means false roots (Expr.any_of es) xs
      → MeansAny false roots es xs
  of_any _ _ (any es xs h) = h

  of_all :
      (es : Exprs) (xs : List String)
      → Means false roots (Expr.all_of es) xs
      → MeansAll false roots es xs
  of_all _ _ (all es xs n h) = h

  of_none : (xs : List String) → MeansAll false roots nil xs → xs ≡ []
  of_none _ (none_more xs e) = e

  of_alternatives :
      (e : Expr) (es : Exprs) (xs : List String)
      → MeansAny false roots (Exprs.child e es) xs
      → Means false roots e xs ⊎ MeansAny false roots es xs
  of_alternatives _ _ _ (this e es xs h) = inl h
  of_alternatives _ _ _ (that e es xs h) = inr h

  of_conjunction :
      (e : Expr) (es : Exprs) (xs : List String)
      → MeansAll false roots (Exprs.child e es) xs
      → (ys : List String) × (zs : List String) × (xs ≡ ys ++ zs)
        × Means false roots e ys
        × MeansAll false roots es zs
  of_conjunction _ _ _ (joined e es xs ys zs q h k) = (ys, zs, q, h, k)
  of_conjunction _ _ _ (left_out e es xs t v h) = cc

  StandsAll-child :
      (e : Expr) (es : Exprs) (n : Node) (ns : Nodes)
      → Stands e n
      → StandsAll es ns
      → StandsAll (Exprs.child e es) (child n ns)
  unfolding IsCombo
  StandsAll-child e es n ns a b = record {
    any_combos = λ xs. (
      λ h. elim h [
        | inl k ↦ this e es xs ((a xs).0 k)
        | inr k ↦ that e es xs ((b.any_combos xs).0 k)
      ],
      λ h. elim (of_alternatives e es xs h) [
        | inl k ↦ inl ((a xs).1 k)
        | inr k ↦ inr ((b.any_combos xs).1 k)
      ],
    );
    all_combos = λ xs. (
      λ h. joined e es xs h.0 h.1 h.2 ((a h.0).0 h.3) ((b.all_combos h.1).0 h.4),
      λ h.
          let k = of_conjunction e es xs h in
          (k.0, k.1, k.2, (a k.0).1 k.3, (b.all_combos k.1).1 k.4),
    );
  }

  module _ (linked : String → Option Node)
      (before : (n : String) → Whenever (Stands (Expr.ref n)) (linked n)) where
    mutual
      unfolding link IsCombo

      pub link-Stands : (e : Expr) → Whenever (Stands e) (link linked e)
      link-Stands (Expr.leaf m) = λ xs. (λ h. model m xs h, λ h. of_leaf m xs h)
      link-Stands (Expr.ref m) = Whenever-map (Stands (Expr.ref m)) (ref m) (linked m) (
          Whenever-mono (Stands (Expr.ref m)) (λ t. Stands (Expr.ref m) (ref m t)) (linked m)
            (λ t a. a) (before m))
      link-Stands (Expr.all_of es) =
          Whenever-map (Stands (Expr.all_of es)) all_of (link_all linked es) (
            Whenever-mono (StandsAll es) (λ ns. Stands (Expr.all_of es) (all_of ns))
              (link_all linked es)
              (λ ns a xs. (
                λ h. all es xs (λ t. cc) ((a.all_combos xs).0 h),
                λ h. (a.all_combos xs).1 (of_all es xs h),
              ))
              (link_all-StandsAll es))
      link-Stands (Expr.any_of es) =
          Whenever-map (Stands (Expr.any_of es)) any_of (link_all linked es) (
            Whenever-mono (StandsAll es) (λ ns. Stands (Expr.any_of es) (any_of ns))
              (link_all linked es)
              (λ ns a xs.
                (λ h. any es xs ((a.any_combos xs).0 h), λ h. (a.any_combos xs).1 (of_any es xs h)))
              (link_all-StandsAll es))

      link_all-StandsAll : (es : Exprs) → Whenever (StandsAll es) (link_all linked es)
      link_all-StandsAll nil = record {
        any_combos = λ xs. (λ h. absurd h, λ h. elim h [ ]);
        all_combos = λ xs. (λ h. none_more xs h, λ h. of_none xs h);
      }
      link_all-StandsAll (Exprs.child e es) =
          Whenever-child (Stands e) (StandsAll es) (StandsAll (Exprs.child e es)) (link linked e)
            (link_all linked es) (λ n ns a b. StandsAll-child e es n ns a b) (link-Stands e)
            (link_all-StandsAll es)
