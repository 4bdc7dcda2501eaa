-- ===== src/Matrix/Compile/Explain.antt =====
-- internal/matrix/program.go: Compile fails for a reason only.
use fork_llama_swap.Base.{
  ◌+◌, ◌≤◌, String, Bool, true, false, ◌&&◌, ◌≡◌, ◌⊎◌, inl, inr, refl, sym, ◌∙◌, subst, ◌=ₛ◌,
  if◌then◌else◌, if_cases, if_keeps, Bool-cases, same_name, length, List, [], ◌∷◌, Option, none,
  some, Occurs, All, All-mono, arith,
}
use fork_llama_swap.Scheduler.Collision.{contains_string, sort_strings}
use fork_llama_swap.Scheduler.Membership.{contains_string-Occurs}
use fork_llama_swap.Matrix.{Node}
use fork_llama_swap.Matrix.Compile.{
  Definition, Result, good, bad, ◌>>=◌, Error, no_sets, no_tokens, no_tree, unknown_model,
  undefined_set, circular, unlinked, too_deep, Parts, no_parts, read_all, names_of, made, link_sets,
  OrphanMode, mode_of, mode_of_orphans, is_made, all_roots, all_deps, written_root,
  topological_order, link_program, orphans_of, sets_of, orphans_reported, compile, Compiled,
  orphan_set_name,
}
use fork_llama_swap.Matrix.Program.{compute_support}
use fork_llama_swap.Matrix.Compile.Marks.{All-from}
use fork_llama_swap.Matrix.Compile.Order.{Leads, at_once, further, IsCircular}
use fork_llama_swap.Matrix.Compile.Visit.{Orders, topological_order-Orders}
use fork_llama_swap.Matrix.Compile.Walk.{Known}
use fork_llama_swap.Matrix.Compile.Read.{Reads, ReadsAll, read_all-ReadsAll}
use fork_llama_swap.Matrix.Compile.Source.{Refers, Chain, one, more, IsReading, Faults}
use fork_llama_swap.Matrix.Compile.Reading.{Read, read_all-Read, no_parts-IsReading}
use fork_llama_swap.Matrix.Compile.Total.{RootIn, IsGood, Holds, link_sets-IsGood}

is_made-orphans : (orphans : List String) → is_made (mode_of_orphans orphans) ≡ true
is_made-orphans [] = refl
is_made-orphans (m ∷ ms) = refl

and_true : (a b : Bool) → a ≡ true → b ≡ true → (a && b) ≡ true
and_true true b h k = k
and_true false b h k = cc

both_cases :
    {A B : Type 0} (P : A → B → Type 0) (b : Bool) (x y : A) (u v : B)
    → (b ≡ true → P x u)
    → (b ≡ false → P y v)
    → P (if b then x else y) (if b then u else v)
both_cases P true x y u v h k = h refl
both_cases P false x y u v h k = k refl

module _ (resolve : String → Option String) (names : List String) (orphans : List String)
    (p : Parts) (reads : Reads resolve names (λ n. Occurs n names ⊎ ⊥) p) where
  abbrev pub mode : OrphanMode
  mode = mode_of p names orphans

  -- The names of all sets.
  abbrev pub universe : List String
  universe = if is_made mode then orphan_set_name ∷ names else names

  names-universe : (n : String) → Occurs n names → Occurs n universe
  names-universe n o = if_cases (Occurs n) (is_made mode) _ _ (λ t. inr o) (λ t. o)

  -- Where the orphans are referenced, their set was defined or is made.
  orphans-universe : p.orphans_referenced ≡ true → Occurs orphan_set_name universe
  orphans-universe f = elim (Bool-cases (contains_string names orphan_set_name)) [
    | inl c ↦ names-universe orphan_set_name ((contains_string-Occurs names orphan_set_name).0 c)
    | inr c ↦
        if_cases (Occurs orphan_set_name) (is_made mode) _ _ (λ t. inl refl)
          (λ t. absurd (cc (sym t ∙ made_here c)))
  ]
    where
      made_here : contains_string names orphan_set_name ≡ false → is_made mode ≡ true
      made_here c = rw f (rw c (is_made-orphans orphans))

  Known-universe : (n : String) → Known resolve names p.orphans_referenced n → Occurs n universe
  Known-universe n (inl o) = names-universe n o
  Known-universe n (inr h) = subst (λ k. Occurs k universe) (sym h.0) (orphans-universe h.1)

  closed : (n : String) → All (λ d. Occurs d universe) (all_deps p mode n)
  closed n =
      if_cases (All (λ d. Occurs d universe)) (is_made mode && (orphan_set_name =ₛ n)) _ _ (λ t. tt)
        (λ t.
          All-mono (Known resolve names p.orphans_referenced) (λ d. Occurs d universe)
            (λ d. Known-universe d) (p.deps n) (reads.deps_known n))

  length-universe : length universe ≤ length names + 1
  length-universe =
      if_cases (λ l. length l ≤ length names + 1) (is_made mode) _ _ (λ t. omega arith)
        (λ t. omega arith)

  -- A set has the root of its definition, unless it is that of the orphans.
  universe-names :
      (n : String)
      → (is_made mode && (orphan_set_name =ₛ n)) ≡ false
      → Occurs n universe
      → Occurs n names
  universe-names n f =
      if_cases (λ l. Occurs n l → Occurs n names) (is_made mode) _ _
        (λ t o. elim o [
          | inl e ↦ absurd (
              cc (
                sym f
                ∙ and_true (is_made mode) (orphan_set_name =ₛ n) t
                    (subst (λ k. (k =ₛ n) ≡ true) e (same_name n))))
          | inr q ↦ q
        ])
        (λ t o. o)

  written_RootIn :
      (n : String)
      → Occurs n names
      → RootIn p.orphans_referenced
          (all_roots p mode orphans)
          (all_deps p mode)
          (p.deps n)
          (written_root (p.roots n))
  written_RootIn n o =
      let r = reads.rooted n (inl o) in
      subst
        (λ w.
          RootIn p.orphans_referenced (all_roots p mode orphans) (all_deps p mode) (p.deps n)
            (written_root w))
        (sym r.1) r.2

  rooted :
      (n : String)
      → Occurs n universe
      → RootIn p.orphans_referenced
          (all_roots p mode orphans)
          (all_deps p mode)
          (all_deps p mode n)
          (all_roots p mode orphans n)
  rooted n o =
      both_cases
        (λ refs r. RootIn p.orphans_referenced (all_roots p mode orphans) (all_deps p mode) refs r)
        (is_made mode && (orphan_set_name =ₛ n)) [] (p.deps n) (some (made orphans))
        (written_root (p.roots n)) (λ t. tt) (λ t. written_RootIn n (universe-names n t o))

  -- Linking fails at a circular reference only.
  abbrev pub Fails : Result Compiled → Type 0
  Fails (good c) = Unit
  Fails (bad e) = IsCircular (all_deps p mode) e

  after_order :
      (r : Result (List String)) (k : (String → Option Node) → List String → Compiled)
      → Orders (all_deps p mode) universe names r
      → Fails (
          r >>= λ order.
          link_sets p.orphans_referenced (all_roots p mode orphans) order (λ n. none) >>= λ linked.
          good (k linked order))
  after_order (bad e) k h = h
  after_order (good order) k h =
      linked_all (link_sets p.orphans_referenced (all_roots p mode orphans) order (λ n. none)) (
        link_sets-IsGood p.orphans_referenced (all_roots p mode orphans) (all_deps p mode) order h.0
          (All-mono (λ n. Occurs n universe)
            (λ n.
              RootIn p.orphans_referenced (all_roots p mode orphans) (all_deps p mode)
                (all_deps p mode n) (all_roots p mode orphans n))
            (λ n o. rooted n o) order h.2))
    where
      linked_all :
          (r : Result (String → Option Node))
          → IsGood p.orphans_referenced
              (all_roots p mode orphans)
              (all_deps p mode)
              (Holds p.orphans_referenced (all_roots p mode orphans) (all_deps p mode) order)
              r
          → Fails (r >>= λ linked. good (k linked order))
      linked_all (good l) g = tt
      linked_all (bad e) g = absurd g

  pub order-Orders :
      Orders (all_deps p mode) universe names (topological_order (all_deps p mode) names)
  order-Orders =
      topological_order-Orders (all_deps p mode) universe names
        (All-from (λ n. Occurs n universe) names names-universe) length-universe closed

  pub link_program-Fails : Fails (link_program p names orphans)
  unfolding link_program
  link_program-Fails =
      after_order (topological_order (all_deps p mode) names)
        (λ linked order. record {
          program = compute_support (sets_of p mode linked order);
          orphan_models = orphans_reported mode orphans;
          orphan_mode = mode;
        })
        order-Orders

-- Why Compile fails: the definition whose text is not an expression, the identifier in one that is no model,
-- the reference in one to a set that is not defined, or a set that leads to itself by references.
abbrev pub Explains : List Definition → (String → Option String) → Error → Type 0
Explains ds resolve e = Faults resolve (names_of ds) ds e

Leads-Chain :
    (resolve : String → Option String) (ds : List Definition) (orphans : List String) (p : Parts)
    → IsReading resolve ds p
    → (a b : String) → Leads (all_deps p (mode_of p (names_of ds) orphans)) a b
    → Chain ds a b
Leads-Chain resolve ds orphans p h a b l = along b l
  where
    refers :
        (n m : String) → Occurs m (all_deps p (mode_of p (names_of ds) orphans) n) → Refers ds n m
    refers n m =
        if_keeps (λ l. Occurs m l → Refers ds n m)
          (is_made (mode_of p (names_of ds) orphans) && (orphan_set_name =ₛ n)) [] (p.deps n)
          (λ o. absurd o) (λ o. h.referring n m o)

    along : (b : String) → Leads (all_deps p (mode_of p (names_of ds) orphans)) a b → Chain ds a b
    along b (at_once _ o) = one b (refers a b o)
    along c (further b _ l o) = more b c (along b l) (refers b c o)

circular-Explains :
    (ds : List Definition) (resolve : String → Option String) (orphans : List String) (p : Parts)
    (e : Error)
    → IsReading resolve ds p
    → IsCircular (all_deps p (mode_of p (names_of ds) orphans)) e
    → Explains ds resolve e
circular-Explains ds resolve orphans p (circular n) q h = Leads-Chain resolve ds orphans p q n n h
circular-Explains ds resolve orphans p no_sets q h = absurd h
circular-Explains ds resolve orphans p (no_tokens n) q h = absurd h
circular-Explains ds resolve orphans p (no_tree n f) q h = absurd h
circular-Explains ds resolve orphans p (unknown_model k n) q h = absurd h
circular-Explains ds resolve orphans p (undefined_set k n) q h = absurd h
circular-Explains ds resolve orphans p unlinked q h = absurd h
circular-Explains ds resolve orphans p too_deep q h = absurd h

-- If Compile of one definition or more fails, then as the error says there is a definition of the
-- name in it whose text has no tokens or no tree, or in whose tree the identifier in it stands and
-- resolves to no model, or in whose tree the reference in it stands, is not that to the orphans
-- and no definition has its name; or the set in it leads to itself by references that stand in the
-- last definitions of the names. It never fails for want of fuel, or of a node for a reference.
pub compile-Explains :
    (d : Definition) (ds : List Definition) (resolve : String → Option String)
    (all_models : List String) (e : Error)
    → compile (d ∷ ds) resolve all_models ≡ bad e
    → Explains (d ∷ ds) resolve e
unfolding compile
compile-Explains d ds resolve all_models e h =
    from (read_all resolve (names_of (d ∷ ds)) (d ∷ ds) no_parts)
      (read_all-Read resolve (names_of (d ∷ ds)) [] (d ∷ ds) no_parts
        (no_parts-IsReading resolve (names_of (d ∷ ds))))
      (read_all-ReadsAll resolve (names_of (d ∷ ds)) (λ n. ⊥) (d ∷ ds) no_parts
        (record { rooted = λ n o. absurd o; deps_known = λ n. tt }))
      h
  where
    orphans : Parts → List String
    orphans p = sort_strings (orphans_of p.seen_models all_models)

    linked :
        (p : Parts) (r : Result Compiled)
        → IsReading resolve (d ∷ ds) p
        → (reads : Reads resolve (names_of (d ∷ ds)) (λ n. Occurs n (names_of (d ∷ ds)) ⊎ ⊥) p)
        → Fails resolve (names_of (d ∷ ds)) (orphans p) p reads r
        → r ≡ bad e
        → Explains (d ∷ ds) resolve e
    linked p (good c) q i f k = cc
    linked p (bad g) q i f k =
        subst (Explains (d ∷ ds) resolve) (cc k)
          (circular-Explains (d ∷ ds) resolve (orphans p) p g q f)

    from :
        (r : Result Parts)
        → Read resolve (names_of (d ∷ ds)) (d ∷ ds) r
        → ReadsAll resolve (names_of (d ∷ ds)) (λ n. Occurs n (names_of (d ∷ ds)) ⊎ ⊥) r
        → (r >>= λ p. link_program p (names_of (d ∷ ds)) (orphans p)) ≡ bad e
        → Explains (d ∷ ds) resolve e
    from (good p) q i k =
        linked p (link_program p (names_of (d ∷ ds)) (orphans p)) q i
          (link_program-Fails resolve (names_of (d ∷ ds)) (orphans p) p i) k
    from (bad g) q i k = subst (Explains (d ∷ ds) resolve) (cc k) q
