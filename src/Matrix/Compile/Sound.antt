-- ===== src/Matrix/Compile/Sound.antt =====
-- internal/matrix/program.go: the sets of a compiled program stand for what their definitions mean.
use fork_llama_swap.Base.{
  String, Bool, Bool-cases, false, ◌&&◌, ◌≡◌, ◌⊎◌, ◌↔◌, inl, inr, subst, ◌=ₛ◌, name_of_test, List,
  [], ◌∷◌, Option, none, All, All-Occurs, Occurs,
}
use fork_llama_swap.Scheduler.Collision.{sort_strings}
use fork_llama_swap.Scheduler.Membership.{sort_strings-Occurs}
use fork_llama_swap.Matrix.{Node}
use fork_llama_swap.Matrix.Program.{register_sets, compute_support}
use fork_llama_swap.Matrix.Compile.{
  Definition, Result, good, bad, ◌>>=◌, Parts, no_parts, Compiled, names_of, orphans_of, mode_of,
  all_roots, all_deps, Root, orphan_set_name, is_made, OrphanMode, orphans_reported,
  topological_order, link_sets, sets_of, link_program, read_all, compile,
}
use fork_llama_swap.Matrix.Compile.Results.{Given}
use fork_llama_swap.Matrix.Compile.Source.{IsNamed, IsReading}
use fork_llama_swap.Matrix.Compile.Reading.{Read, read_all-Read, no_parts-IsReading}
use fork_llama_swap.Matrix.Compile.Read.{Reads, ReadsAll, read_all-ReadsAll}
use fork_llama_swap.Matrix.Compile.Marks.{All-from}
use fork_llama_swap.Matrix.Compile.Visit.{Orders}
use fork_llama_swap.Matrix.Compile.Explain.{universe, order-Orders}
use fork_llama_swap.Matrix.Compile.Whole.{HasSet, LinksAll, link_sets-LinksAll, program-HasSet}
use fork_llama_swap.Matrix.Compile.Link.{AllFit, SetMeans, link_sets-AllFit, sets_of-Means}
use fork_llama_swap.Matrix.Compile.Founded.{
  IsFounded, with_support-Means, ProgramMeans, orphans_of-Occurs, mode_of-MadeBy, both_true,
  founded,
}

-- The sets mean what references to them mean, and each name has one.
abbrev Stands : Parts → List String → List String → Compiled → Type 0
Stands p names orphans c = ProgramMeans p names orphans c × All (HasSet c.program.sets) names

link_program-Stands :
    (resolve : String → Option String) (p : Parts) (names orphans : List String)
    → Reads resolve names (λ n. Occurs n names ⊎ ⊥) p
    → Given (Stands p names orphans) (link_program p names orphans)
unfolding link_program compute_support
link_program-Stands resolve p names orphans reads =
    after_order (topological_order (all_deps p mode) names)
      (order-Orders resolve names orphans p reads)
  where
    mode : OrphanMode
    mode = mode_of p names orphans

    roots : String → Option Root
    roots = all_roots p mode orphans

    compiled : List String → (String → Option Node) → Compiled
    compiled order linked = record {
      program = compute_support (sets_of p mode linked order);
      orphan_models = orphans_reported mode orphans;
      orphan_mode = mode;
    }

    means :
        (order : List String) (linked : String → Option Node)
        → AllFit roots p.orphans_referenced linked
        → ProgramMeans p names orphans (compiled order linked)
    means order linked h =
        with_support-Means roots p.orphans_referenced
          (register_sets [] (sets_of p mode linked order)) (sets_of p mode linked order)
          (sets_of-Means roots p.orphans_referenced p linked h mode order)

    -- A name of a definition is not that of a set which is made.
    defined : (n : String) → Occurs n names → (is_made mode && (n =ₛ orphan_set_name)) ≡ false
    defined n o = elim (Bool-cases (is_made mode && (n =ₛ orphan_set_name))) [
      | inl t ↦
          let both = both_true (is_made mode) (n =ₛ orphan_set_name) t in
          absurd (
            ((mode_of-MadeBy p names orphans).0 both.0).1
              (subst (λ m. Occurs m names) (name_of_test n orphan_set_name both.1) o))
      | inr f ↦ f
    ]

    linked_all :
        (order : List String)
        → All (λ n. Occurs n order) names
        → (r : Result (String → Option Node)) → Given (AllFit roots p.orphans_referenced) r
        → Given (LinksAll (λ n. none) order) r
        → Given (Stands p names orphans) (r >>= λ linked. good (compiled order linked))
    linked_all order a (bad e) h k = tt
    linked_all order a (good linked) h k = (
      means order linked h,
      All-from (HasSet (compiled order linked).program.sets) names (λ n o.
          let i = All-Occurs (λ m. Occurs m order) names n a o in
          program-HasSet p mode linked order n i (k n (inr i)) (defined n o)),
    )

    after_order :
        (r : Result (List String))
        → Orders (all_deps p mode) (universe resolve names orphans p reads) names r
        → Given (Stands p names orphans) (
            r >>= λ order. link_sets p.orphans_referenced roots order (λ n. none) >>= λ linked.
            good (compiled order linked))
    after_order (bad e) h = tt
    after_order (good order) h =
        linked_all order h.1 (link_sets p.orphans_referenced roots order (λ n. none))
          (link_sets-AllFit roots p.orphans_referenced order (λ n. none) (λ n. tt))
          (link_sets-LinksAll p.orphans_referenced roots order (λ n. none))

-- If Compile succeeds, then the program has a set for the name of each definition, and each set of
-- it stands for exactly the combinations that a reference to it means: those of the expression
-- that the last definition of the name parses to, in the same shape, with each identifier replaced
-- by the model that it resolves to, and the same for the sets that it refers to. Where some
-- definition refers to the orphans and none defines them, they are the models that no definition
-- names; where some refers to them, a reference of which nothing is left is left out.
pub compile_Means :
    (d : Definition) (ds : List Definition) (resolve : String → Option String)
    (all_models : List String) (c : Compiled)
    → compile (d ∷ ds) resolve all_models ≡ good c
    → (simplified : Bool) × (orphans : List String) × (roots : String → Option Root) × IsFounded
        resolve
        (d ∷ ds)
        all_models
        simplified
        orphans
        roots
      × All (SetMeans roots simplified) c.program.sets
      × All (HasSet c.program.sets) (names_of (d ∷ ds))
unfolding compile
compile_Means d ds resolve all_models c e =
    from (read_all resolve (names_of (d ∷ ds)) (d ∷ ds) no_parts)
      (read_all-Read resolve (names_of (d ∷ ds)) [] (d ∷ ds) no_parts
        (no_parts-IsReading resolve (names_of (d ∷ ds))))
      (read_all-ReadsAll resolve (names_of (d ∷ ds)) (λ n. ⊥) (d ∷ ds) no_parts
        (record { rooted = λ n o. absurd o; deps_known = λ n. tt }))
      e
  where
    from :
        (r : Result Parts)
        → Read resolve (names_of (d ∷ ds)) (d ∷ ds) r
        → ReadsAll resolve (names_of (d ∷ ds)) (λ n. Occurs n (names_of (d ∷ ds)) ⊎ ⊥) r
        → (r >>= λ p.
            link_program p (names_of (d ∷ ds)) (sort_strings (orphans_of p.seen_models all_models)))
          ≡ good c
        → (simplified : Bool) × (orphans : List String) × (roots : String → Option Root) × IsFounded
            resolve
            (d ∷ ds)
            all_models
            simplified
            orphans
            roots
          × All (SetMeans roots simplified) c.program.sets
          × All (HasSet c.program.sets) (names_of (d ∷ ds))
    from (good p) q reads h =
        let orphans = sort_strings (orphans_of p.seen_models all_models) in
        let stands =
          subst (Given (Stands p (names_of (d ∷ ds)) orphans)) h
            (link_program-Stands resolve p (names_of (d ∷ ds)) orphans reads) in
        (
          p.orphans_referenced,
          orphans,
          all_roots p (mode_of p (names_of (d ∷ ds)) orphans) orphans,
          founded resolve (d ∷ ds) all_models orphans p q (λ m. left p q m),
          stands.0,
          stands.1,
        )
      where
        left :
            (p : Parts)
            → IsReading resolve (d ∷ ds) p
            → (m : String)
            → Occurs m (sort_strings (orphans_of p.seen_models all_models))
              ↔ (Occurs m all_models × (IsNamed resolve (d ∷ ds) m → ⊥))
        left p q m = (
          λ o.
              let r =
                (orphans_of-Occurs p.seen_models all_models m).0
                  ((sort_strings-Occurs (orphans_of p.seen_models all_models) m).0 o) in
              (r.0, λ k. r.1 ((q.named m).1 k)),
          λ k.
              (sort_strings-Occurs (orphans_of p.seen_models all_models) m).1 (
                (orphans_of-Occurs p.seen_models all_models m).1 (k.0, λ o. k.1 ((q.named m).0 o))),
        )
    from (bad f) q reads h = cc
