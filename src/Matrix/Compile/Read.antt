-- ===== src/Matrix/Compile/Read.antt =====
-- internal/matrix/program.go: the loop of Compile over the definitions. If it succeeds, there is a root of
-- each, whose references are found.
use fork_llama_swap.Base.{
  String, Bool, true, ◌≡◌, ◌⊎◌, inl, inr, refl, sym, ◌=ₛ◌, names, if_cases, List, [], ◌∷◌, Option,
  some, Occurs, All, All-mono, arith,
}
use fork_llama_swap.Dsl.{Expr}
use fork_llama_swap.Matrix.Compile.{
  Definition, Result, good, bad, ◌>>=◌, Walked, Parts, add_part, parsed, read_all, walk, names_of,
}
use fork_llama_swap.Matrix.Compile.Walk.{RefsIn, Known, AllKnown, Extends, Finds, walk-Finds}

module _ (resolve : String → Option String) (set_names : List String) where
  -- What the maps have of the sets in `Done`.
  pub record Reads (Done : String → Type 0) (p : Parts) : Type 0 where
    pub rooted : (n : String) → Done n → (e : Expr) × (p.roots n ≡ some e) × RefsIn (p.deps n) e
    pub deps_known : (n : String) → All (Known resolve set_names p.orphans_referenced) (p.deps n)

  Known-mono :
      (f g : Bool) (n : String)
      → (f ≡ true → g ≡ true)
      → Known resolve set_names f n
      → Known resolve set_names g n
  Known-mono f g n h (inl o) = inl o
  Known-mono f g n h (inr k) = inr (k.0, h k.1)

  abbrev start_of : Parts → Walked
  start_of p = record {
    seen_models = p.seen_models;
    orphans_referenced = p.orphans_referenced;
    refs = [];
  }

  Reads-add :
      (Done : String → Type 0) (d : Definition) (p : Parts) (r : Expr × Walked)
      → Reads Done p
      → RefsIn r.1.refs r.0
      → AllKnown resolve set_names r.1
      → Extends resolve set_names (start_of p) r.1
      → Reads (λ n. (n ≡ d.name) ⊎ Done n) (add_part d p r)
  Reads-add Done d p r h i k x = record {
    rooted = λ n o. root_of n o;
    deps_known = λ n.
        if_cases (All (Known resolve set_names r.1.orphans_referenced)) (d.name =ₛ n) _ _ (λ t. k)
          (λ t.
            All-mono (Known resolve set_names p.orphans_referenced)
              (Known resolve set_names r.1.orphans_referenced)
              (λ m. Known-mono p.orphans_referenced r.1.orphans_referenced m x.keeps_flag)
              (p.deps n) (h.deps_known n));
  }
    where
      root_of :
          (n : String)
          → (n ≡ d.name) ⊎ Done n
          → (e : Expr) × ((add_part d p r).roots n ≡ some e) × RefsIn ((add_part d p r).deps n) e
      root_of n o = elim (names d.name n) [
        | inl t ↦ rw (t.0) (r.0, refl, i)
        | inr t ↦ rw (t.0) (h.rooted n (elim o [ inl e ↦ absurd (t.1 (sym e)) | inr q ↦ q ]))
      ]

  abbrev pub ReadsAll : (String → Type 0) → Result Parts → Type 0
  ReadsAll Done (good p) = Reads Done p
  ReadsAll Done (bad e) = Unit

  Reads-mono :
      (P Q : String → Type 0) (p : Parts) → ((n : String) → Q n → P n) → Reads P p → Reads Q p
  Reads-mono P Q p f h = record { rooted = λ n q. h.rooted n (f n q); deps_known = h.deps_known }

  -- One definition, and then the others.
  read_next :
      (Done : String → Type 0) (d : Definition) (ds : List Definition) (p : Parts)
      (root : Result Expr)
      → Reads Done p
      → ((q : Parts)
          → Reads (λ n. (n ≡ d.name) ⊎ Done n) q
          → ReadsAll
              (λ n. Occurs n (names_of ds) ⊎ ((n ≡ d.name) ⊎ Done n))
              (read_all resolve set_names ds q))
      → ReadsAll
          (λ n. Occurs n (names_of (d ∷ ds)) ⊎ Done n)
          (root >>= λ e. walk resolve set_names d.name e (start_of p) >>= λ r.
            read_all resolve set_names ds (add_part d p r))
  read_next Done d ds p (bad f) h rest = tt
  read_next Done d ds p (good e) h rest =
      after_walk (walk resolve set_names d.name e (start_of p))
        (walk-Finds resolve set_names d.name e (start_of p) tt)
    where
      more :
          (o : Result Parts)
          → ReadsAll (λ n. Occurs n (names_of ds) ⊎ ((n ≡ d.name) ⊎ Done n)) o
          → ReadsAll (λ n. Occurs n (names_of (d ∷ ds)) ⊎ Done n) o
      more (good q) g =
          Reads-mono (λ n. Occurs n (names_of ds) ⊎ ((n ≡ d.name) ⊎ Done n))
            (λ n. Occurs n (names_of (d ∷ ds)) ⊎ Done n) q (λ n o. ground (arith, o)) g
      more (bad f) g = tt

      after_walk :
          (o : Result (Expr × Walked))
          → Finds resolve set_names (start_of p) o
          → ReadsAll
              (λ n. Occurs n (names_of (d ∷ ds)) ⊎ Done n)
              (o >>= λ r. read_all resolve set_names ds (add_part d p r))
      after_walk (bad f) g = tt
      after_walk (good r) g =
          more (read_all resolve set_names ds (add_part d p r))
            (rest (add_part d p r) (Reads-add Done d p r h g.0 g.1 g.2))

  pub read_all-ReadsAll :
      (Done : String → Type 0) (ds : List Definition) (p : Parts)
      → Reads Done p
      → ReadsAll (λ n. Occurs n (names_of ds) ⊎ Done n) (read_all resolve set_names ds p)
  unfolding read_all
  read_all-ReadsAll Done [] p h =
      Reads-mono Done (λ n. Occurs n [] ⊎ Done n) p (λ n o. elim o [ inl q ↦ absurd q | inr q ↦ q ])
        h
  read_all-ReadsAll Done (d ∷ ds) p h =
      read_next Done d ds p (parsed d) h
        (λ q g. read_all-ReadsAll (λ n. (n ≡ d.name) ⊎ Done n) ds q g)
