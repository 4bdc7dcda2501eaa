-- ===== src/Matrix/Compile/Total.antt =====
-- internal/matrix/program.go: in the order of the references every root is linked, and no reference is left
-- without a node.
use fork_llama_swap.Base.{
  String, Bool, true, ◌≡◌, inl, inr, refl, sym, subst, ◌=ₛ◌, if_cases, same_name, List, [], ◌∷◌,
  ◌++◌, Option, none, some, Occurs, Occurs-snoc, All, All-Occurs, Ensures,
}
use fork_llama_swap.Dsl.{Expr, Exprs, nil}
use fork_llama_swap.Matrix.{Node, child}
use fork_llama_swap.Matrix.Compile.{
  Result, good, bad, ◌>>=◌, unlinked, put, Root, written, made, map_some, link, link_all, tidy,
  link_root, link_sets,
}
use fork_llama_swap.Matrix.Compile.Order.{Ordered, nothing, next}
use fork_llama_swap.Matrix.Compile.Walk.{RefsIn, AllRefsIn}

abbrev pub IsThere : {A : Type 0} → Option A → Type 0
IsThere o = Ensures (λ a. Unit {0}) o

map_some-IsThere : {A B : Type 0} (f : A → B) (o : Option A) → IsThere o → IsThere (map_some f o)
map_some-IsThere f none h = h
map_some-IsThere f (some a) h = tt

child-IsThere :
    {A B C : Type 0} (f : A → B → C) (o : Option A) (q : Option B)
    → IsThere o
    → IsThere q
    → IsThere (elim o [ none ↦ none | some a ↦ map_some (f a) q ])
child-IsThere f none q h k = h
child-IsThere f (some a) q h k = map_some-IsThere (f a) q k

module _ (refs : List String) (linked : String → Option Node)
    (there : (n : String) → Occurs n refs → IsThere (linked n)) where
  mutual
    unfolding link

    link-IsThere : (e : Expr) → RefsIn refs e → IsThere (link linked e)
    link-IsThere (Expr.leaf m) h = tt
    link-IsThere (Expr.ref n) h = map_some-IsThere (Node.ref n) (linked n) (there n h)
    link-IsThere (Expr.all_of es) h =
        map_some-IsThere Node.all_of (link_all linked es) (link_all-IsThere es h)
    link-IsThere (Expr.any_of es) h =
        map_some-IsThere Node.any_of (link_all linked es) (link_all-IsThere es h)

    link_all-IsThere : (es : Exprs) → AllRefsIn refs es → IsThere (link_all linked es)
    link_all-IsThere nil h = tt
    link_all-IsThere (Exprs.child e es) h =
        child-IsThere child (link linked e) (link_all linked es) (link-IsThere e h.0)
          (link_all-IsThere es h.1)

All-left : (P : String → Type 0) (xs ys : List String) → All P (xs ++ ys) → All P xs
All-left P [] ys h = tt
All-left P (x ∷ xs) ys h = (h.0, All-left P xs ys h.1)

All-last : (P : String → Type 0) (xs : List String) (y : String) → All P (xs ++ y ∷ []) → P y
All-last P [] y h = h.0
All-last P (x ∷ xs) y h = All-last P xs y h.1

module _ (simplified : Bool) (roots : String → Option Root) (deps : String → List String) where
  -- The root of a set, of which all references are found.
  abbrev pub RootIn : List String → Option Root → Type 0
  RootIn refs none = ⊥
  RootIn refs (some (written e)) = RefsIn refs e
  RootIn refs (some (made ms)) = Unit

  link_root-IsThere :
      (refs : List String) (linked : String → Option Node) (r : Option Root)
      → ((n : String) → Occurs n refs → IsThere (linked n))
      → RootIn refs r
      → IsThere (link_root simplified roots linked r)
  link_root-IsThere refs linked none t h = h
  link_root-IsThere refs linked (some (made ms)) t h = tt
  link_root-IsThere refs linked (some (written e)) t h =
      map_some-IsThere (tidy simplified roots) (link linked e) (link-IsThere refs linked t e h)

  link_sets-snoc :
      (ns : List String) (n : String) (linked : String → Option Node)
      → link_sets simplified roots (ns ++ n ∷ []) linked
        ≡ (link_sets simplified roots ns linked >>= λ l. link_sets simplified roots (n ∷ []) l)
  unfolding link_sets
  link_sets-snoc [] n linked = refl
  link_sets-snoc (m ∷ ns) n linked =
      by_root (link_root simplified roots linked (roots m))
        (λ t. link_sets simplified roots (ns ++ n ∷ []) (put linked m (some t)))
        (λ t. link_sets simplified roots ns (put linked m (some t)))
        (λ l. link_sets simplified roots (n ∷ []) l)
        (λ t. link_sets-snoc ns n (put linked m (some t)))
    where
      by_root :
          (o : Option Node) (f g : Node → Result (String → Option Node))
          (k : (String → Option Node) → Result (String → Option Node))
          → ((t : Node) → f t ≡ (g t >>= k))
          → elim o [ none ↦ bad unlinked | some t ↦ f t ]
            ≡ ((elim o [ none ↦ bad unlinked | some t ↦ g t ]) >>= k)
      by_root none f g k h = refl
      by_root (some t) f g k h = h t

  -- A result that is good.
  abbrev pub IsGood : {A : Type 0} → (A → Type 0) → Result A → Type 0
  IsGood P (good a) = P a
  IsGood P (bad e) = ⊥

  IsGood-bind :
      {A B : Type 0} (P : A → Type 0) (Q : B → Type 0) (r : Result A) (k : A → Result B)
      → IsGood P r
      → ((a : A) → P a → IsGood Q (k a))
      → IsGood Q (r >>= k)
  IsGood-bind P Q (good a) k h f = f a h
  IsGood-bind P Q (bad e) k h f = h

  abbrev pub Holds : List String → (String → Option Node) → Type 0
  Holds ns linked = (n : String) → Occurs n ns → IsThere (linked n)

  put-Holds :
      (ns : List String) (n : String) (t : Node) (linked : String → Option Node)
      → Holds ns linked
      → Holds (ns ++ n ∷ []) (put linked n (some t))
  put-Holds ns n t linked h m o =
      if_cases IsThere (n =ₛ m) _ _ (λ q. tt)
        (λ q. elim ((Occurs-snoc ns n m).0 o) [
          | inl k ↦ h m k
          | inr e ↦ absurd (cc (subst (λ k. (n =ₛ k) ≡ true) (sym e) (same_name n), q))
        ])

  one_more :
      (ns : List String) (n : String) (linked : String → Option Node)
      → Holds ns linked
      → IsThere (link_root simplified roots linked (roots n))
      → IsGood (Holds (ns ++ n ∷ [])) (link_sets simplified roots (n ∷ []) linked)
  unfolding link_sets
  one_more ns n linked h t = of_root (link_root simplified roots linked (roots n)) t
    where
      of_root :
          (o : Option Node)
          → IsThere o
          → IsGood
              (Holds (ns ++ n ∷ []))
              (elim o [ none ↦ bad unlinked | some t ↦ good (put linked n (some t)) ])
      of_root none k = k
      of_root (some t) k = put-Holds ns n t linked h

  -- In the order of the references every root is linked.
  pub link_sets-IsGood :
      (ns : List String)
      → Ordered deps ns
      → All (λ n. RootIn (deps n) (roots n)) ns
      → IsGood (Holds ns) (link_sets simplified roots ns (λ n. none))
  unfolding link_sets
  link_sets-IsGood _ nothing r = λ n o. absurd o
  link_sets-IsGood _ (next ns n o d f) r =
      subst (IsGood (Holds (ns ++ n ∷ []))) (sym (link_sets-snoc ns n (λ m. none))) (
        IsGood-bind (Holds ns) (Holds (ns ++ n ∷ [])) (link_sets simplified roots ns (λ m. none))
          (λ l. link_sets simplified roots (n ∷ []) l)
          (link_sets-IsGood ns o (All-left (λ m. RootIn (deps m) (roots m)) ns (n ∷ []) r))
          (λ l h. one_more ns n l h (
            link_root-IsThere (deps n) l (roots n)
              (λ m i. h m (All-Occurs (λ k. Occurs k ns) (deps n) m d i))
              (All-last (λ m. RootIn (deps m) (roots m)) ns n r))))
