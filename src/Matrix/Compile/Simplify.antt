-- ===== src/Matrix/Compile/Simplify.antt =====
-- internal/matrix/program.go: a root that is linked and simplified stands for the combinations that its
-- expression means.
use fork_llama_swap.Base.{
  String, true, ◌≡◌, ◌≢◌, ◌↔◌, ◌⊎◌, inl, inr, refl, sym, ap, ◌∙◌, subst, List, [], ◌∷◌, ◌++◌,
  Option, none, some, Whenever, Whenever-mono,
}
use mathlib.Core.List.{append-nil}
use fork_llama_swap.Dsl.{Expr, Exprs, nil}
use fork_llama_swap.Matrix.{Node, leaf, ref, all_of, any_of, empty, Nodes, none_left, child}
use fork_llama_swap.Matrix.Combos.{IsCombo, IsAnyCombo, IsAllCombo}
use fork_llama_swap.Matrix.Compile.{
  Root, link, link_all, map_some, simplify_empty_refs, simplify_all, lone, keep_full, to_full,
}
use fork_llama_swap.Matrix.Compile.Meaning.{
  Vanishes, nothing_of_all, nothing_of_any, AllVanish, no_more, one_less, Means, model, orphan, set,
  any, all, MeansAny, this, that, MeansAll, none_more, joined, left_out,
}

pub Whenever-map :
    {A B : Type 0} (P : B → Type 0) (f : A → B) (o : Option A)
    → Whenever (λ a. P (f a)) o
    → Whenever P (map_some f o)
Whenever-map P f none h = tt
Whenever-map P f (some a) h = h

pub Whenever-child :
    (P : Node → Type 0) (Q R : Nodes → Type 0) (o : Option Node) (q : Option Nodes)
    → ((n : Node) (ns : Nodes) → P n → Q ns → R (child n ns))
    → Whenever P o
    → Whenever Q q
    → Whenever R (elim o [ none ↦ none | some n ↦ map_some (child n) q ])
Whenever-child P Q R none q k h l = tt
Whenever-child P Q R (some n) none k h l = tt
Whenever-child P Q R (some n) (some ns) k h l = k n ns h l

abbrev pub IsEmpty : Node → Type 0
IsEmpty empty = Unit
IsEmpty _ = ⊥

-- No child is empty.
abbrev IsFull : Nodes → Type 0
IsFull none_left = Unit
IsFull (child n ns) = (IsEmpty n → ⊥) × IsFull ns

abbrev IsNone : Nodes → Type 0
IsNone none_left = Unit
IsNone (child n ns) = ⊥

module _ (roots : String → Option Root) where
  -- The node is what is left of the expression.
  pub record Agrees (e : Expr) (n : Node) : Type 0 where
    pub combos : (xs : List String) → IsCombo n xs ↔ Means true roots e xs
    pub vanishes : IsEmpty n ↔ Vanishes roots e

  record AgreesAll (es : Exprs) (ns : Nodes) : Type 0 where
    any_combos : (xs : List String) → IsAnyCombo ns xs ↔ MeansAny true roots es xs
    all_combos : (xs : List String) → IsAllCombo ns xs ↔ MeansAll true roots es xs
    none_stay : IsNone ns ↔ AllVanish roots es
    full : IsFull ns

  -- A combination is never without models.
  mutual
    Means-nonempty : (e : Expr) (xs : List String) → Means true roots e xs → xs ≢ []
    Means-nonempty _ xs (model m _ e) = λ q. cc
    Means-nonempty _ xs (orphan n m ms _ r o e) = λ q. cc
    Means-nonempty _ xs (set n e _ r h) = Means-nonempty e xs h
    Means-nonempty _ xs (any es _ h) = MeansAny-nonempty es xs h
    Means-nonempty _ xs (all es _ n h) = n refl

    MeansAny-nonempty : (es : Exprs) (xs : List String) → MeansAny true roots es xs → xs ≢ []
    MeansAny-nonempty _ xs (this e es _ h) = Means-nonempty e xs h
    MeansAny-nonempty _ xs (that e es _ h) = MeansAny-nonempty es xs h

  -- A child that is empty is left out.
  keep_full-cases :
      (n : Node) (ns : Nodes)
      → (IsEmpty n × (keep_full n ns ≡ ns)) ⊎ ((IsEmpty n → ⊥) × (keep_full n ns ≡ child n ns))
  keep_full-cases (leaf m) ns = inr (λ h. h, refl)
  keep_full-cases (ref m t) ns = inr (λ h. h, refl)
  keep_full-cases (all_of ms) ns = inr (λ h. h, refl)
  keep_full-cases (any_of ms) ns = inr (λ h. h, refl)
  keep_full-cases empty ns = inl (tt, refl)

  empty_combos : (n : Node) (xs : List String) → IsEmpty n → IsCombo n xs → ⊥
  unfolding IsCombo
  empty_combos (leaf m) xs e h = e
  empty_combos (ref m t) xs e h = e
  empty_combos (all_of ms) xs e h = e
  empty_combos (any_of ms) xs e h = e
  empty_combos empty xs e h = h

  MeansAny-of :
      (es : Exprs) (xs : List String)
      → Means true roots (Expr.any_of es) xs
      → MeansAny true roots es xs
  MeansAny-of _ _ (any es xs h) = h

  MeansAll-of :
      (es : Exprs) (xs : List String)
      → Means true roots (Expr.all_of es) xs
      → MeansAll true roots es xs
  MeansAll-of _ _ (all es xs n h) = h

  AllVanish-any : (es : Exprs) → Vanishes roots (Expr.any_of es) → AllVanish roots es
  AllVanish-any _ (nothing_of_any es h) = h

  AllVanish-all : (es : Exprs) → Vanishes roots (Expr.all_of es) → AllVanish roots es
  AllVanish-all _ (nothing_of_all es h) = h

  MeansAll-nil : (xs : List String) → MeansAll true roots nil xs → xs ≡ []
  MeansAll-nil _ (none_more xs e) = e

  MeansAny-child :
      (e : Expr) (es : Exprs) (xs : List String)
      → MeansAny true roots (Exprs.child e es) xs
      → Means true roots e xs ⊎ MeansAny true roots es xs
  MeansAny-child _ _ _ (this e es xs h) = inl h
  MeansAny-child _ _ _ (that e es xs h) = inr h

  abbrev Joined : Expr → Exprs → List String → Type 0
  Joined e es xs =
      (ys : List String) × (zs : List String) × (xs ≡ ys ++ zs)
      × Means true roots e ys
      × MeansAll true roots es zs

  MeansAll-child :
      (e : Expr) (es : Exprs) (xs : List String)
      → MeansAll true roots (Exprs.child e es) xs
      → Joined e es xs ⊎ (Vanishes roots e × MeansAll true roots es xs)
  MeansAll-child _ _ _ (joined e es xs ys zs q h k) = inl (ys, zs, q, h, k)
  MeansAll-child _ _ _ (left_out e es xs t v h) = inr (v, h)

  AllVanish-child :
      (e : Expr) (es : Exprs)
      → AllVanish roots (Exprs.child e es)
      → Vanishes roots e × AllVanish roots es
  AllVanish-child _ _ (one_less e es v w) = (v, w)

  AgreesAll-nil : AgreesAll nil none_left
  unfolding IsCombo
  AgreesAll-nil = record {
    any_combos = λ xs. (λ h. absurd h, λ h. elim h [ ]);
    all_combos = λ xs. (λ h. none_more xs h, λ h. MeansAll-nil xs h);
    none_stay = (λ h. no_more, λ h. tt);
    full = tt;
  }

  AgreesAll-empty :
      (e : Expr) (n : Node) (es : Exprs) (ns : Nodes)
      → IsEmpty n
      → Agrees e n
      → AgreesAll es ns
      → AgreesAll (Exprs.child e es) ns
  AgreesAll-empty e n es ns i a b = record {
    any_combos = λ xs. (
      λ h. that e es xs ((b.any_combos xs).0 h),
      λ h. elim (MeansAny-child e es xs h) [
        | inl k ↦ absurd (empty_combos n xs i ((a.combos xs).1 k))
        | inr k ↦ (b.any_combos xs).1 k
      ],
    );
    all_combos = λ xs. (
      λ h. left_out e es xs refl (a.vanishes.0 i) ((b.all_combos xs).0 h),
      λ h. elim (MeansAll-child e es xs h) [
        | inl k ↦ absurd (empty_combos n k.0 i ((a.combos k.0).1 k.3))
        | inr k ↦ (b.all_combos xs).1 k.1
      ],
    );
    none_stay = (
      λ h. one_less e es (a.vanishes.0 i) (b.none_stay.0 h),
      λ h. b.none_stay.1 (AllVanish-child e es h).1,
    );
    full = b.full;
  }

  AgreesAll-child :
      (e : Expr) (n : Node) (es : Exprs) (ns : Nodes)
      → (IsEmpty n → ⊥)
      → Agrees e n
      → AgreesAll es ns
      → AgreesAll (Exprs.child e es) (child n ns)
  unfolding IsCombo
  AgreesAll-child e n es ns i a b = record {
    any_combos = λ xs. (
      λ h. elim h [
        | inl k ↦ this e es xs ((a.combos xs).0 k)
        | inr k ↦ that e es xs ((b.any_combos xs).0 k)
      ],
      λ h. elim (MeansAny-child e es xs h) [
        | inl k ↦ inl ((a.combos xs).1 k)
        | inr k ↦ inr ((b.any_combos xs).1 k)
      ],
    );
    all_combos = λ xs. (
      λ h. joined e es xs h.0 h.1 h.2 ((a.combos h.0).0 h.3) ((b.all_combos h.1).0 h.4),
      λ h. elim (MeansAll-child e es xs h) [
        | inl k ↦ (k.0, k.1, k.2, (a.combos k.0).1 k.3, (b.all_combos k.1).1 k.4)
        | inr k ↦ absurd (i (a.vanishes.1 k.0))
      ],
    );
    none_stay = (λ h. absurd h, λ h. absurd (i (a.vanishes.1 (AllVanish-child e es h).0)));
    full = (i, b.full);
  }

  AgreesAll-keep_full :
      (e : Expr) (n : Node) (es : Exprs) (ns : Nodes)
      → Agrees e n
      → AgreesAll es ns
      → AgreesAll (Exprs.child e es) (keep_full n ns)
  AgreesAll-keep_full e n es ns a b = elim (keep_full-cases n ns) [
    | inl h ↦ subst (AgreesAll (Exprs.child e es)) (sym h.1) (AgreesAll-empty e n es ns h.0 a b)
    | inr h ↦ subst (AgreesAll (Exprs.child e es)) (sym h.1) (AgreesAll-child e n es ns h.0 a b)
  ]

  -- What is left of the children of an alternative, and of a conjunction.
  lone_any-Agrees :
      (es : Exprs) (ns : Nodes) → AgreesAll es ns → Agrees (Expr.any_of es) (lone any_of ns)
  unfolding IsCombo
  lone_any-Agrees es none_left a = record {
    combos = λ xs. (λ h. absurd h, λ h. (a.any_combos xs).1 (MeansAny-of es xs h));
    vanishes = (λ h. nothing_of_any es (a.none_stay.0 tt), λ h. tt);
  }
  lone_any-Agrees es (child n none_left) a = record {
    combos = λ xs. (
      λ h. any es xs ((a.any_combos xs).0 (inl h)),
      λ h. elim ((a.any_combos xs).1 (MeansAny-of es xs h)) [ inl k ↦ k | inr k ↦ absurd k ],
    );
    vanishes = (λ h. absurd (a.full.0 h), λ h. absurd (a.none_stay.1 (AllVanish-any es h)));
  }
  lone_any-Agrees es (child n (child m more)) a = record {
    combos = λ xs.
        (λ h. any es xs ((a.any_combos xs).0 h), λ h. (a.any_combos xs).1 (MeansAny-of es xs h));
    vanishes = (λ h. absurd h, λ h. absurd (a.none_stay.1 (AllVanish-any es h)));
  }

  -- A single combination is that of the only child.
  single : (n : Node) (xs : List String) → IsAllCombo (child n none_left) xs → IsCombo n xs
  unfolding IsCombo
  single n xs h = subst (IsCombo n) (sym (h.2 ∙ ap (λ zs. h.0 ++ zs) h.4 ∙ append-nil h.0)) h.3

  alone : (n : Node) (xs : List String) → IsCombo n xs → IsAllCombo (child n none_left) xs
  unfolding IsCombo
  alone n xs h = (xs, [], sym (append-nil xs), h, refl)

  first_nonempty :
      (es : Exprs) (n m : Node) (more : Nodes) (xs : List String)
      → AgreesAll es (child n (child m more))
      → IsAllCombo (child n (child m more)) xs
      → xs ≢ []
  unfolding IsCombo
  first_nonempty es n m more xs a h =
      left_nonempty h.0 h.1 xs h.2 (MeansAny-nonempty es h.0 ((a.any_combos h.0).0 (inl h.3)))
    where
      left_nonempty : (ys zs xs : List String) → xs ≡ ys ++ zs → ys ≢ [] → xs ≢ []
      left_nonempty [] zs xs q k = absurd (k refl)
      left_nonempty (y ∷ ys) zs xs q k = λ r. cc

  lone_all-Agrees :
      (es : Exprs) (ns : Nodes) → AgreesAll es ns → Agrees (Expr.all_of es) (lone all_of ns)
  unfolding IsCombo
  lone_all-Agrees es none_left a = record {
    combos = λ xs. (
      λ h. absurd h,
      λ h. Means-nonempty (Expr.all_of es) xs h ((a.all_combos xs).1 (MeansAll-of es xs h)),
    );
    vanishes = (λ h. nothing_of_all es (a.none_stay.0 tt), λ h. tt);
  }
  lone_all-Agrees es (child n none_left) a = record {
    combos = λ xs. (
      λ h.
          all es xs (λ t. MeansAny-nonempty es xs ((a.any_combos xs).0 (inl h)))
            ((a.all_combos xs).0 (alone n xs h)),
      λ h. single n xs ((a.all_combos xs).1 (MeansAll-of es xs h)),
    );
    vanishes = (λ h. absurd (a.full.0 h), λ h. absurd (a.none_stay.1 (AllVanish-all es h)));
  }
  lone_all-Agrees es (child n (child m more)) a = record {
    combos = λ xs. (
      λ h. all es xs (λ t. first_nonempty es n m more xs a h) ((a.all_combos xs).0 h),
      λ h. (a.all_combos xs).1 (MeansAll-of es xs h),
    );
    vanishes = (λ h. absurd h, λ h. absurd (a.none_stay.1 (AllVanish-all es h)));
  }

  to_full-Agrees :
      (n : String) (t : Node) → Agrees (Expr.ref n) t → Agrees (Expr.ref n) (to_full n t)
  unfolding IsCombo
  to_full-Agrees n (leaf m) a = record { combos = a.combos; vanishes = a.vanishes }
  to_full-Agrees n (ref m t) a = record { combos = a.combos; vanishes = a.vanishes }
  to_full-Agrees n (all_of ns) a = record { combos = a.combos; vanishes = a.vanishes }
  to_full-Agrees n (any_of ns) a = record { combos = a.combos; vanishes = a.vanishes }
  to_full-Agrees n empty a = a

  Means-leaf : (m : String) (xs : List String) → Means true roots (Expr.leaf m) xs → xs ≡ m ∷ []
  Means-leaf _ _ (model m xs e) = e

  leaf-Agrees : (m : String) → Agrees (Expr.leaf m) (leaf m)
  unfolding IsCombo
  leaf-Agrees m = record {
    combos = λ xs. (λ h. model m xs h, λ h. Means-leaf m xs h);
    vanishes = (λ h. absurd h, λ h. elim h [ ]);
  }

  -- The nodes of the sets that are linked before agree with them.
  module _ (linked : String → Option Node)
      (before : (n : String) → Whenever (Agrees (Expr.ref n)) (linked n)) where
    mutual
      unfolding link simplify_empty_refs

      pub link-Agrees :
          (e : Expr) → Whenever (λ n. Agrees e (simplify_empty_refs n)) (link linked e)
      link-Agrees (Expr.leaf m) = leaf-Agrees m
      link-Agrees (Expr.ref m) =
          Whenever-map (λ n. Agrees (Expr.ref m) (simplify_empty_refs n)) (ref m) (linked m)
            (Whenever-mono (Agrees (Expr.ref m)) (λ t. Agrees (Expr.ref m) (to_full m t)) (linked m)
              (to_full-Agrees m) (before m))
      link-Agrees (Expr.all_of es) =
          Whenever-map (λ n. Agrees (Expr.all_of es) (simplify_empty_refs n)) all_of
            (link_all linked es)
            (Whenever-mono (λ ns. AgreesAll es (simplify_all ns))
              (λ ns. Agrees (Expr.all_of es) (lone all_of (simplify_all ns))) (link_all linked es)
              (λ ns a. lone_all-Agrees es (simplify_all ns) a) (link_all-Agrees es))
      link-Agrees (Expr.any_of es) =
          Whenever-map (λ n. Agrees (Expr.any_of es) (simplify_empty_refs n)) any_of
            (link_all linked es)
            (Whenever-mono (λ ns. AgreesAll es (simplify_all ns))
              (λ ns. Agrees (Expr.any_of es) (lone any_of (simplify_all ns))) (link_all linked es)
              (λ ns a. lone_any-Agrees es (simplify_all ns) a) (link_all-Agrees es))

      link_all-Agrees :
          (es : Exprs) → Whenever (λ ns. AgreesAll es (simplify_all ns)) (link_all linked es)
      link_all-Agrees nil = AgreesAll-nil
      link_all-Agrees (Exprs.child e es) =
          Whenever-child (λ n. Agrees e (simplify_empty_refs n))
            (λ ns. AgreesAll es (simplify_all ns))
            (λ ns. AgreesAll (Exprs.child e es) (simplify_all ns)) (link linked e)
            (link_all linked es)
            (λ n ns a b. AgreesAll-keep_full e (simplify_empty_refs n) es (simplify_all ns) a b)
            (link-Agrees e) (link_all-Agrees es)
