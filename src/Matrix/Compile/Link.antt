-- ===== src/Matrix/Compile/Link.antt =====
-- internal/matrix/program.go: the linked sets stand for the combinations that their definitions mean.
use fork_llama_swap.Base.{
  String, Bool, true, false, ◌≡◌, ◌↔◌, ◌&&◌, ◌=ₛ◌, if◌then◌else◌, if_cases, if_keeps, name_of_test,
  refl, ap, ◌∙◌, subst, List, [], ◌∷◌, Option, none, some, Occurs, All, All-append, Whenever,
  Whenever-mono,
}
use fork_llama_swap.Dsl.{Expr}
use fork_llama_swap.Matrix.{Node, no_bits}
use fork_llama_swap.Matrix.Combos.{IsCombo}
use fork_llama_swap.Matrix.Compile.{
  Root, written, made, link, build_model_set, put, Result, bad, link_root, link_sets, tidy,
  unlinked, Parts, set_of, sets_of, OrphanMode, is_made, orphan_set_name,
}
use fork_llama_swap.Matrix.Program.{CompiledSet}
use fork_llama_swap.Matrix.Compile.Results.{Given}
use fork_llama_swap.Matrix.Compile.Meaning.{Vanishes, no_models, no_set, Means, orphan, set}
use fork_llama_swap.Matrix.Compile.Simplify.{Agrees, Whenever-map, link-Agrees}
use fork_llama_swap.Matrix.Compile.Plain.{Stands, link-Stands}
use fork_llama_swap.Matrix.Compile.Orphans.{IsOneOf, build_model_set-IsCombo, simple_orphans}

module _ (roots : String → Option Root) where
  -- What a node has of its expression, where the roots are simplified and where they are not.
  abbrev pub Fits : Bool → Expr → Node → Type 0
  Fits true e n = Agrees roots e n
  Fits false e n = Stands roots e n

  abbrev pub AllFit : Bool → (String → Option Node) → Type 0
  AllFit b linked = (n : String) → Whenever (Fits b (Expr.ref n)) (linked n)

  Fits-combos :
      (b : Bool) (e : Expr) (n : Node)
      → Fits b e n
      → (xs : List String) → IsCombo n xs ↔ Means b roots e xs
  Fits-combos true e n h = h.combos
  Fits-combos false e n h = h

  same_written :
      (o : Option Root) (e e' : Expr) → o ≡ some (written e) → o ≡ some (written e') → e ≡ e'
  same_written o e e' p q = cc

  same_made :
      (o : Option Root) (ms ks : List String) → o ≡ some (made ms) → o ≡ some (made ks) → ms ≡ ks
  same_made o ms ks p q = cc

  -- What a reference means, by its root.
  of_written :
      (b : Bool) (n : String) (e : Expr) (xs : List String)
      → roots n ≡ some (written e)
      → Means b roots (Expr.ref n) xs
      → Means b roots e xs
  of_written b n e xs r (orphan _ m ms _ q o t) = cc
  of_written b n e xs r (set _ e' _ q h) =
      subst (λ k. Means b roots k xs) (same_written (roots n) e' e q r) h

  of_made :
      (b : Bool) (n : String) (ms xs : List String)
      → roots n ≡ some (made ms)
      → Means b roots (Expr.ref n) xs
      → IsOneOf ms xs
  of_made b n ms xs r (orphan _ m ks _ q o t) =
      (m, subst (Occurs m) (same_made (roots n) ks ms q r) o, t)
  of_made b n ms xs r (set _ e' _ q h) = cc

  Vanishes-written :
      (n : String) (e : Expr)
      → roots n ≡ some (written e)
      → Vanishes roots (Expr.ref n)
      → Vanishes roots e
  Vanishes-written n e r (no_models _ q) = cc
  Vanishes-written n e r (no_set _ e' q h) =
      subst (Vanishes roots) (same_written (roots n) e' e q r) h

  Vanishes-made :
      (n : String) (ms : List String)
      → roots n ≡ some (made ms)
      → Vanishes roots (Expr.ref n)
      → ms ≡ []
  Vanishes-made n ms r (no_models _ q) = cc
  Vanishes-made n ms r (no_set _ e' q h) = cc

  -- The node of a root is that of a reference to it.
  written-Fits :
      (b : Bool) (n : String) (e : Expr) (t : Node)
      → roots n ≡ some (written e)
      → Fits b e t
      → Fits b (Expr.ref n) t
  written-Fits true n e t r h = record {
    combos = λ xs.
        (λ k. set n e xs r ((h.combos xs).0 k), λ k. (h.combos xs).1 (of_written true n e xs r k));
    vanishes = (λ k. no_set n e r (h.vanishes.0 k), λ k. h.vanishes.1 (Vanishes-written n e r k));
  }
  written-Fits false n e t r h =
      λ xs. (λ k. set n e xs r ((h xs).0 k), λ k. (h xs).1 (of_written false n e xs r k))

  made-Fits :
      (b : Bool) (n : String) (ms : List String)
      → roots n ≡ some (made ms)
      → Fits b (Expr.ref n) (tidy b roots (build_model_set ms))
  made-Fits true n ms r = record {
    combos = λ xs. (
      λ k. let h = (simple_orphans ms xs).0.0 k in orphan n h.0 ms xs r h.1 h.2,
      λ k. (simple_orphans ms xs).0.1 (of_made true n ms xs r k),
    );
    vanishes = (
      λ k. no_models n (r ∙ ap (λ l. some (made l)) ((simple_orphans ms []).1.0 k)),
      λ k. (simple_orphans ms []).1.1 (Vanishes-made n ms r k),
    );
  }
  made-Fits false n ms r = λ xs. (
    λ k. let h = (build_model_set-IsCombo ms xs).0 k in orphan n h.0 ms xs r h.1 h.2,
    λ k. (build_model_set-IsCombo ms xs).1 (of_made false n ms xs r k),
  )

  link-Fits :
      (b : Bool) (linked : String → Option Node) (e : Expr)
      → AllFit b linked
      → Whenever (λ n. Fits b e (tidy b roots n)) (link linked e)
  link-Fits true linked e h = link-Agrees roots linked h e
  link-Fits false linked e h = link-Stands roots linked h e

  link_root-Fits :
      (b : Bool) (linked : String → Option Node) (n : String) (r : Option Root)
      → roots n ≡ r
      → AllFit b linked
      → Whenever (Fits b (Expr.ref n)) (link_root b roots linked r)
  link_root-Fits b linked n none q h = tt
  link_root-Fits b linked n (some (made ms)) q h = made-Fits b n ms q
  link_root-Fits b linked n (some (written e)) q h =
      Whenever-map (Fits b (Expr.ref n)) (tidy b roots) (link linked e) (
        Whenever-mono (λ t. Fits b e (tidy b roots t)) (λ t. Fits b (Expr.ref n) (tidy b roots t))
          (link linked e) (λ t k. written-Fits b n e (tidy b roots t) q k) (link-Fits b linked e h))

  put-AllFit :
      (b : Bool) (linked : String → Option Node) (n : String) (t : Node)
      → AllFit b linked
      → Fits b (Expr.ref n) t
      → AllFit b (put linked n (some t))
  put-AllFit b linked n t h k m =
      if_cases (Whenever (Fits b (Expr.ref m))) (n =ₛ m) _ _
        (λ q. subst (λ j. Fits b (Expr.ref j) t) (name_of_test n m q) k) (λ q. h m)

  linked_next :
      {A : Type 0} (b : Bool) (n : String) (P : A → Type 0) (o : Option Node) (k : Node → Result A)
      → Whenever (Fits b (Expr.ref n)) o
      → ((t : Node) → Fits b (Expr.ref n) t → Given P (k t))
      → Given P (elim o [ none ↦ bad unlinked | some node ↦ k node ])
  linked_next b n P none k h f = tt
  linked_next b n P (some t) k h f = f t h

  pub link_sets-AllFit :
      (b : Bool) (ns : List String) (linked : String → Option Node)
      → AllFit b linked
      → Given (AllFit b) (link_sets b roots ns linked)
  unfolding link_sets
  link_sets-AllFit b [] linked h = h
  link_sets-AllFit b (n ∷ ns) linked h =
      linked_next b n (AllFit b) (link_root b roots linked (roots n))
        (λ t. link_sets b roots ns (put linked n (some t)))
        (link_root-Fits b linked n (roots n) refl h)
        (λ t k. link_sets-AllFit b ns (put linked n (some t)) (put-AllFit b linked n t h k))

  -- What a compiled set has: it stands for the combinations that a reference to it means.
  abbrev pub SetMeans : Bool → CompiledSet → Type 0
  SetMeans b s = (xs : List String) → IsCombo s.root xs ↔ Means b roots (Expr.ref s.name) xs

  module _ (b : Bool) (p : Parts) (linked : String → Option Node) (h : AllFit b linked) where
    set_of-Means : (n : String) → All (SetMeans b) (set_of p linked n)
    set_of-Means n = of_node (linked n) (h n)
      where
        of_node :
            (o : Option Node)
            → Whenever (Fits b (Expr.ref n)) o
            → All (SetMeans b) (elim o [
              | none ↦ []
              | some root ↦
                  record { name = n; dsl = p.dsl_by_name n; root = root; support = no_bits } ∷ []
            ])
        of_node none k = tt
        of_node (some t) k = (Fits-combos b (Expr.ref n) t k, tt)

    pub sets_of-Means :
        (mode : OrphanMode) (ns : List String) → All (SetMeans b) (sets_of p mode linked ns)
    unfolding sets_of
    sets_of-Means mode [] = tt
    sets_of-Means mode (n ∷ ns) =
        All-append (SetMeans b)
          (if is_made mode && (n =ₛ orphan_set_name) then [] else set_of p linked n)
          (sets_of p mode linked ns)
          (if_keeps (All (SetMeans b)) (is_made mode && (n =ₛ orphan_set_name)) _ _ tt
            (set_of-Means n))
          (sets_of-Means mode ns)
