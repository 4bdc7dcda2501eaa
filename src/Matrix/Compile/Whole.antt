-- ===== src/Matrix/Compile/Whole.antt =====
-- internal/matrix/program.go: a compiled program has a set for each definition.
use fork_llama_swap.Base.{
  String, Bool, false, ◌&&◌, ◌≡◌, ◌⊎◌, inl, inr, refl, sym, subst, ◌=ₛ◌, names, if◌then◌else◌, List,
  [], ◌∷◌, ◌++◌, Option, none, some, Occurs,
}
use fork_llama_swap.Matrix.{Node, no_bits}
use fork_llama_swap.Matrix.Program.{CompiledSet, register_sets, compute_support}
use fork_llama_swap.Matrix.Support.{supported, with_support-Occurs}
use fork_llama_swap.Matrix.Compile.{
  Result, good, bad, unlinked, Parts, Root, put, link_root, link_sets, OrphanMode, is_made, set_of,
  sets_of, orphan_set_name,
}
use fork_llama_swap.Matrix.Compile.Results.{Given}

abbrev pub Linked : (String → Option Node) → String → Type 0
Linked l n = (t : Node) × (l n ≡ some t)

abbrev pub HasSet : List CompiledSet → String → Type 0
HasSet sets n = (s : CompiledSet) × Occurs s sets × (s.name ≡ n)

-- What was linked stays linked, and each name of the list is.
abbrev pub LinksAll : (String → Option Node) → List String → (String → Option Node) → Type 0
LinksAll linked ns l = (n : String) → Linked linked n ⊎ Occurs n ns → Linked l n

put-Linked :
    (linked : String → Option Node) (n m : String) (t : Node)
    → Linked linked m ⊎ (m ≡ n)
    → Linked (put linked n (some t)) m
put-Linked linked n m t h = elim (names n m) [
  | inl e ↦ rw e.0 (t, refl)
  | inr e ↦ rw e.0 (elim h [ inl k ↦ k | inr q ↦ absurd (e.1 (sym q)) ])
]

LinksAll-next :
    (linked : String → Option Node) (n : String) (ns : List String) (t : Node)
    (l : String → Option Node)
    → LinksAll (put linked n (some t)) ns l
    → LinksAll linked (n ∷ ns) l
LinksAll-next linked n ns t l h m (inl k) = h m (inl (put-Linked linked n m t (inl k)))
LinksAll-next linked n ns t l h m (inr (inl e)) = h m (inl (put-Linked linked n m t (inr e)))
LinksAll-next linked n ns t l h m (inr (inr o)) = h m (inr o)

module _ (b : Bool) (roots : String → Option Root) where
  pub link_sets-LinksAll :
      (ns : List String) (linked : String → Option Node)
      → Given (LinksAll linked ns) (link_sets b roots ns linked)
  unfolding link_sets
  link_sets-LinksAll [] linked = λ n h. elim h [ inl k ↦ k | inr o ↦ absurd o ]
  link_sets-LinksAll (n ∷ ns) linked =
      next (link_root b roots linked (roots n)) (λ t. link_sets-LinksAll ns (put linked n (some t)))
    where
      then_all :
          (t : Node) (r : Result (String → Option Node))
          → Given (LinksAll (put linked n (some t)) ns) r
          → Given (LinksAll linked (n ∷ ns)) r
      then_all t (good l) h = LinksAll-next linked n ns t l h
      then_all t (bad e) h = tt

      next :
          (o : Option Node)
          → ((t : Node)
              → Given
                  (LinksAll (put linked n (some t)) ns)
                  (link_sets b roots ns (put linked n (some t))))
          → Given (LinksAll linked (n ∷ ns)) (elim o [
            | none ↦ bad unlinked
            | some node ↦ link_sets b roots ns (put linked n (some node))
          ])
      next none f = tt
      next (some t) f = then_all t (link_sets b roots ns (put linked n (some t))) (f t)

HasSet-left : (xs ys : List CompiledSet) (n : String) → HasSet xs n → HasSet (xs ++ ys) n
HasSet-left xs ys n h = (h.0, left xs h.1, h.2)
  where
    left : (xs : List CompiledSet) → Occurs h.0 xs → Occurs h.0 (xs ++ ys)
    left [] o = absurd o
    left (x ∷ xs) (inl e) = inl e
    left (x ∷ xs) (inr o) = inr (left xs o)

HasSet-right : (xs ys : List CompiledSet) (n : String) → HasSet ys n → HasSet (xs ++ ys) n
HasSet-right [] ys n h = h
HasSet-right (x ∷ xs) ys n h = let r = HasSet-right xs ys n h in (r.0, inr r.1, r.2)

module _ (p : Parts) (mode : OrphanMode) (linked : String → Option Node) where
  set_of-HasSet : (n : String) → Linked linked n → HasSet (set_of p linked n) n
  set_of-HasSet n h =
      rw (h.1, set_of)
        (record { name = n; dsl = p.dsl_by_name n; root = h.0; support = no_bits }, inl refl, refl)

  sets_of-HasSet :
      (ns : List String) (n : String)
      → Occurs n ns
      → Linked linked n
      → (is_made mode && (n =ₛ orphan_set_name)) ≡ false
      → HasSet (sets_of p mode linked ns) n
  unfolding sets_of
  sets_of-HasSet [] n o h f = absurd o
  sets_of-HasSet (m ∷ ns) n (inr o) h f =
      HasSet-right (if is_made mode && (m =ₛ orphan_set_name) then [] else set_of p linked m)
        (sets_of p mode linked ns) n (sets_of-HasSet ns n o h f)
  sets_of-HasSet (m ∷ ns) n (inl e) h f =
      HasSet-left (if is_made mode && (m =ₛ orphan_set_name) then [] else set_of p linked m)
        (sets_of p mode linked ns) n
        (subst
          (λ k. HasSet (if is_made mode && (k =ₛ orphan_set_name) then [] else set_of p linked k) n)
          e (rw f (set_of-HasSet n h)))

  pub program-HasSet :
      (ns : List String) (n : String)
      → Occurs n ns
      → Linked linked n
      → (is_made mode && (n =ₛ orphan_set_name)) ≡ false
      → HasSet (compute_support (sets_of p mode linked ns)).sets n
  unfolding compute_support
  program-HasSet ns n o h f =
      let sets = sets_of p mode linked ns in
      let r = sets_of-HasSet ns n o h f in
      (
        supported (register_sets [] sets) r.0,
        with_support-Occurs (register_sets [] sets) sets r.0 r.1,
        r.2,
      )
