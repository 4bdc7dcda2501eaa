-- ===== src/Matrix/Compile/Source.antt =====
-- internal/matrix/program.go: what the texts of the definitions say: their trees, the identifiers and the
-- references in them, and the trees with the models that the identifiers stand for.
use fork_llama_swap.Base.{
  String, ◌≡◌, ◌≢◌, ◌↔◌, List, [], ◌∷◌, ◌++◌, Option, none, some, true, Occurs,
}
use fork_llama_swap.Dsl.{Token, Expr, Exprs, nil, ok, failed, parse_dsl}
use fork_llama_swap.Matrix.Compile.{
  Definition, Error, no_tokens, no_tree, unknown_model, undefined_set, circular, Parts, names_of,
  orphan_set_name,
}

abbrev mutual
  pub idents_in : Expr → List String
  idents_in (Expr.leaf n) = n ∷ []
  idents_in (Expr.ref n) = []
  idents_in (Expr.all_of es) = all_idents_in es
  idents_in (Expr.any_of es) = all_idents_in es

  pub all_idents_in : Exprs → List String
  all_idents_in nil = []
  all_idents_in (Exprs.child e es) = idents_in e ++ all_idents_in es

abbrev mutual
  pub refs_in : Expr → List String
  refs_in (Expr.leaf n) = []
  refs_in (Expr.ref n) = n ∷ []
  refs_in (Expr.all_of es) = all_refs_in es
  refs_in (Expr.any_of es) = all_refs_in es

  pub all_refs_in : Exprs → List String
  all_refs_in nil = []
  all_refs_in (Exprs.child e es) = refs_in e ++ all_refs_in es

-- The text of a definition is an expression.
abbrev pub Parses : Definition → Expr → Type 0
Parses d t =
    (ts : List Token) × (rest : List Token) × (d.tokens ≡ some ts) × (parse_dsl ts ≡ ok t rest)

-- The last definition of a name.
abbrev pub SourceOf : List Definition → String → Definition → Type 0
SourceOf ds n d =
    (before : List Definition) × (after : List Definition) × (ds ≡ before ++ d ∷ after)
    × (d.name ≡ n)
    × (Occurs n (names_of after) → ⊥)

-- The definition of a set refers to another.
abbrev pub Refers : List Definition → String → String → Type 0
Refers ds n m = (d : Definition) × (t : Expr) × SourceOf ds n d × Parses d t × Occurs m (refs_in t)

-- A set leads to another by one reference or more.
pub data Chain (ds : List Definition) (a : String) : String → Type 0 where
  one : (b : String) → Refers ds a b → Chain ds a b
  more : (b c : String) → Chain ds a b → Refers ds b c → Chain ds a c

-- Some definition refers to the orphans.
abbrev pub WantsOrphans : List Definition → Type 0
WantsOrphans ds =
    (d : Definition) × (t : Expr) × Occurs d ds × Parses d t × Occurs orphan_set_name (refs_in t)

module _ (resolve : String → Option String) where
  mutual
    -- The second tree is the first with the models of its identifiers.
    pub data Resolves : Expr → Expr → Type 0 where
      leaf_to : (n m : String) → resolve n ≡ some m → Resolves (Expr.leaf n) (Expr.leaf m)
      ref_to : (n : String) → Resolves (Expr.ref n) (Expr.ref n)
      all_to : (es fs : Exprs) → AllResolve es fs → Resolves (Expr.all_of es) (Expr.all_of fs)
      any_to : (es fs : Exprs) → AllResolve es fs → Resolves (Expr.any_of es) (Expr.any_of fs)

    pub data AllResolve : Exprs → Exprs → Type 0 where
      nil_to : AllResolve nil nil
      child_to :
          (e f : Expr) (es fs : Exprs)
          → Resolves e f
          → AllResolve es fs
          → AllResolve (Exprs.child e es) (Exprs.child f fs)

  -- An identifier of the list stands for the model.
  abbrev pub Names : List String → String → Type 0
  Names idents m = (n : String) × Occurs n idents × (resolve n ≡ some m)

  -- Some definition names the model.
  abbrev pub IsNamed : List Definition → String → Type 0
  IsNamed ds m = (d : Definition) × (t : Expr) × Occurs d ds × Parses d t × Names (idents_in t) m

  -- The maps of Compile have what the definitions say.
  pub record IsReading (ds : List Definition) (p : Parts) : Type 0 where
    pub from_source :
        (n : String) (e : Expr)
        → p.roots n ≡ some e
        → (d : Definition) × (t : Expr) × SourceOf ds n d × Parses d t × Resolves t e
    pub rooted : (n : String) → Occurs n (names_of ds) → (e : Expr) × (p.roots n ≡ some e)
    pub referring : (n m : String) → Occurs m (p.deps n) → Refers ds n m
    pub named : (m : String) → Occurs m p.seen_models ↔ IsNamed ds m
    pub wanted : (p.orphans_referenced ≡ true) ↔ WantsOrphans ds

  -- What is wrong with the definitions, by the error, among sets of some names.
  abbrev pub Faults : List String → List Definition → Error → Type 0
  Faults set_names ds (no_tokens n) =
      (d : Definition) × Occurs d ds × (d.name ≡ n) × (d.tokens ≡ none)
  Faults set_names ds (no_tree n e) =
      (d : Definition) × (ts : List Token) × Occurs d ds
      × (d.name ≡ n)
      × (d.tokens ≡ some ts)
      × (parse_dsl ts ≡ failed e)
  Faults set_names ds (unknown_model set n) =
      (d : Definition) × (t : Expr) × Occurs d ds
      × (d.name ≡ set)
      × Parses d t
      × Occurs n (idents_in t)
      × (resolve n ≡ none)
  Faults set_names ds (undefined_set set n) =
      (d : Definition) × (t : Expr) × Occurs d ds
      × (d.name ≡ set)
      × Parses d t
      × Occurs n (refs_in t)
      × (Occurs n set_names → ⊥)
      × (n ≢ orphan_set_name)
  Faults set_names ds (circular n) = Chain ds n n
  Faults set_names ds _ = ⊥
