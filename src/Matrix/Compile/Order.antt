-- ===== src/Matrix/Compile/Order.antt =====
-- internal/matrix/program.go: what an order of the sets by their references is, and a circular reference.
use fork_llama_swap.Base.{
  String, inl, inr, sym, subst, List, [], ◌∷◌, ◌++◌, All, All-mono, All-Occurs, Occurs, Occurs-snoc,
}
use fork_llama_swap.Matrix.Compile.{Error, circular}

module _ (deps : String → List String) where
  -- A set leads to another by one reference or more.
  pub data Leads (a : String) : String → Type 0 where
    at_once : (b : String) → Occurs b (deps a) → Leads a b
    further : (b c : String) → Leads a b → Occurs c (deps b) → Leads a c

  -- Each name stands behind all that it refers to, and not twice.
  pub data Ordered : List String → Type 0 where
    nothing : Ordered []
    next :
        (ns : List String) (n : String)
        → Ordered ns
        → All (λ d. Occurs d ns) (deps n)
        → (Occurs n ns → ⊥)
        → Ordered (ns ++ n ∷ [])

  -- A circular reference is told of a set that leads to itself, and nothing else goes wrong.
  abbrev pub IsCircular : Error → Type 0
  IsCircular (circular n) = Leads n n
  IsCircular _ = ⊥

  deps-Ordered :
      (ns : List String) (a : String) → Ordered ns → Occurs a ns → All (λ d. Occurs d ns) (deps a)
  deps-Ordered _ a nothing i = absurd i
  deps-Ordered _ a (next ns n o d f) i = elim ((Occurs-snoc ns n a).0 i) [
    | inl h ↦ more a (deps-Ordered ns a o h)
    | inr e ↦ more a (subst (λ k. All (λ d. Occurs d ns) (deps k)) (sym e) d)
  ]
    where
      more :
          (b : String)
          → All (λ d. Occurs d ns) (deps b)
          → All (λ d. Occurs d (ns ++ n ∷ [])) (deps b)
      more b h =
          All-mono (λ d. Occurs d ns) (λ d. Occurs d (ns ++ n ∷ []))
            (λ d k. (Occurs-snoc ns n d).1 (inl k)) (deps b) h

  Leads-closed :
      (ns : List String) (a b : String) → Ordered ns → Occurs a ns → Leads a b → Occurs b ns
  Leads-closed ns a _ o i (at_once b h) =
      All-Occurs (λ d. Occurs d ns) (deps a) b (deps-Ordered ns a o i) h
  Leads-closed ns a _ o i (further c b l h) =
      All-Occurs (λ d. Occurs d ns) (deps c) b (deps-Ordered ns c o (Leads-closed ns a c o i l)) h

  -- In an order no set leads to itself.
  Leads-last :
      (ns : List String) (n b : String)
      → Ordered ns
      → All (λ d. Occurs d ns) (deps n)
      → Leads n b
      → Occurs b ns
  Leads-last ns n _ o d (at_once b h) = All-Occurs (λ k. Occurs k ns) (deps n) b d h
  Leads-last ns n _ o d (further c b l h) =
      All-Occurs (λ k. Occurs k ns) (deps c) b (deps-Ordered ns c o (Leads-last ns n c o d l)) h

  pub Ordered-acyclic : (ns : List String) (a : String) → Ordered ns → Occurs a ns → Leads a a → ⊥
  Ordered-acyclic _ a nothing i l = absurd i
  Ordered-acyclic _ a (next ns n o d f) i l = elim ((Occurs-snoc ns n a).0 i) [
    | inl h ↦ Ordered-acyclic ns a o h l
    | inr e ↦ f (
        subst (λ k. Occurs k ns) e
          (Leads-last ns a a o (subst (λ k. All (λ d. Occurs d ns) (deps k)) (sym e) d) l))
  ]
