-- ===== src/Matrix/Compile.antt =====
-- internal/matrix/program.go: Compile, which checks the definitions of the sets, orders them by their
-- references, and links them. The tokens of a definition are those of tokenize.
pub mod Founded
pub mod Results
pub mod Order
pub mod Marks
pub mod Visit
pub mod Meaning
pub mod Simplify
pub mod Plain
pub mod Orphans
pub mod Link
pub mod Sound
pub mod Walk
pub mod Read
pub mod Source
pub mod Gather
pub mod Reading
pub mod Total
pub mod Explain
pub mod Whole
use fork_llama_swap.Base.{
  ℕ, zero, suc, ◌+◌, String, Bool, true, false, not, ◌&&◌, ◌||◌, ◌=ₛ◌, if◌then◌else◌, List, [], ◌∷◌,
  ◌++◌, length, Option, none, some,
}
use fork_llama_swap.Scheduler.Collision.{contains_string, sort_strings}
use fork_llama_swap.Dsl.{Token, Expr, Exprs, nil, Parsed, ok, failed, out_of_fuel, parse_dsl}
use fork_llama_swap.Dsl
use fork_llama_swap.Matrix.{
  Node, leaf, ref, all_of, any_of, empty, Nodes, none_left, child, no_bits,
}
use fork_llama_swap.Matrix.Program.{CompiledSet, Program, compute_support}

-- OrphanSetName.
abbrev pub orphan_set_name : String
orphan_set_name = "auto:orphans"

-- Definition. No tokens are an error of tokenize.
pub record Definition : Type 0 where
  pub name : String
  pub dsl : String
  pub tokens : Option (List Token)

pub data Error : Type 0 where
  no_sets : Error
  no_tokens : String → Error
  no_tree : String → Dsl.Error → Error
  unknown_model : String → String → Error
  undefined_set : String → String → Error
  circular : String → Error
  unlinked : Error
  too_deep : Error

pub data Result (A : Type 0) : Type 0 where
  good : A → Result A
  bad : Error → Result A

infixl 5 ◌>>=◌
abbrev pub ◌>>=◌ : {A B : Type 0} → Result A → (A → Result B) → Result B
good a >>= f = f a
bad e >>= f = bad e

-- What the walks over the roots find: the models of all leaves, whether the orphans are referenced, and
-- the references of one root.
pub record Walked : Type 0 where
  pub seen_models : List String
  pub orphans_referenced : Bool
  pub refs : List String

abbrev pub add_ref : String → List String → List String
add_ref n refs = if contains_string refs n then refs else refs ++ n ∷ []

module _ (resolve : String → Option String) (set_names : List String) (set : String) where
  abbrev pub resolved : String → Option String → Walked → Result (Expr × Walked)
  resolved n none w = bad (unknown_model set n)
  resolved n (some m) w = good (Expr.leaf m, record w { seen_models = w.seen_models ++ m ∷ [] })

  -- A reference to the orphans is fine also where no set has their name.
  abbrev pub is_defined : String → Bool
  is_defined n =
      (n =ₛ orphan_set_name) && not (contains_string set_names orphan_set_name)
      || contains_string set_names n

  abbrev pub referenced : String → Walked → Result (Expr × Walked)
  referenced n w =
      if is_defined n
      then good (
        Expr.ref n,
        record w {
          orphans_referenced = w.orphans_referenced || (n =ₛ orphan_set_name);
          refs = add_ref n w.refs;
        },
      )
      else bad (undefined_set set n)

  -- walk, with the function that Compile visits each node by: a leaf is given the name of its model.
  unfoldable mutual
    pub walk : Expr → Walked → Result (Expr × Walked)
    walk (Expr.leaf n) w = resolved n (resolve n) w
    walk (Expr.ref n) w = referenced n w
    walk (Expr.all_of es) w = walk_all es w >>= λ r. good (Expr.all_of r.0, r.1)
    walk (Expr.any_of es) w = walk_all es w >>= λ r. good (Expr.any_of r.0, r.1)

    pub walk_all : Exprs → Walked → Result (Exprs × Walked)
    walk_all nil w = good (nil, w)
    walk_all (Exprs.child e es) w =
        walk e w >>= λ r. walk_all es r.1 >>= λ q. good (Exprs.child r.0 q.0, q.1)

-- The maps of Compile by name, where a later entry hides an earlier one.
pub record Parts : Type 0 where
  pub roots : String → Option Expr
  pub dsl_by_name : String → String
  pub deps : String → List String
  pub seen_models : List String
  pub orphans_referenced : Bool

abbrev pub no_parts : Parts
no_parts = record {
  roots = λ n. none;
  dsl_by_name = λ n. "";
  deps = λ n. [];
  seen_models = [];
  orphans_referenced = false;
}

abbrev pub put : {A : Type 0} → (String → A) → String → A → String → A
put f k v j = if k =ₛ j then v else f j

abbrev pub add_part : Definition → Parts → Expr × Walked → Parts
add_part d p r = record {
  roots = put p.roots d.name (some r.0);
  dsl_by_name = put p.dsl_by_name d.name d.dsl;
  deps = put p.deps d.name r.1.refs;
  seen_models = r.1.seen_models;
  orphans_referenced = r.1.orphans_referenced;
}

abbrev pub tree_of : String → Parsed Expr → Result Expr
tree_of set (ok e rest) = good e
tree_of set (failed e) = bad (no_tree set e)
tree_of set out_of_fuel = bad too_deep

abbrev pub parsed : Definition → Result Expr
parsed d = elim d.tokens [
  | none ↦ bad (no_tokens d.name)
  | some tokens ↦ tree_of d.name (parse_dsl tokens)
]

-- The loop over the definitions.
module _ (resolve : String → Option String) (set_names : List String) where
  unfoldable pub read_all : List Definition → Parts → Result Parts
  unfolding walk
  read_all [] p = good p
  read_all (d ∷ ds) p = parsed d >>= λ root.
      walk resolve set_names d.name root (record {
        seen_models = p.seen_models;
        orphans_referenced = p.orphans_referenced;
        refs = [];
      })
      >>= λ r. read_all ds (add_part d p r)

-- state: a set that is being visited has its references visited, one that is visited is in the order.
pub data Mark : Type 0 where
  unseen visiting visited : Mark

pub record Visits : Type 0 where
  pub state : String → Mark
  pub order : List String

-- The loop over the references of a set, or over the definitions.
abbrev pub visit_each : (String → Visits → Result Visits) → List String → Visits → Result Visits
visit_each visit [] v = good v
visit_each visit (n ∷ ns) v = visit n v >>= λ v'. visit_each visit ns v'

abbrev pub visit_marked : Mark → String → (Visits → Result Visits) → Visits → Result Visits
visit_marked visiting name inside v = bad (circular name)
visit_marked visited name inside v = good v
visit_marked unseen name inside v =
    inside (record v { state = put v.state name visiting }) >>= λ v'.
    good (record { state = put v'.state name visited; order = v'.order ++ name ∷ [] })

-- topologicalOrder. A visit within a visit spends one unit of fuel; each marks another set.
module _ (deps : String → List String) where
  unfoldable pub visit : ℕ → String → Visits → Result Visits
  visit zero name v = bad too_deep
  visit (suc f) name v =
      visit_marked (v.state name) name (λ u. visit_each (visit f) (deps name) u) v

  -- The marks at the outset, and the sets from each of which that is unseen a visit starts.
  abbrev pub unvisited : Visits
  unvisited = record { state = λ n. unseen; order = [] }

  abbrev pub visit_unseen : ℕ → String → Visits → Result Visits
  visit_unseen f name v = elim (v.state name) [ unseen ↦ visit f name v | _ ↦ good v ]

  unfoldable pub topological_order : List String → Result (List String)
  unfolding visit
  topological_order names =
      visit_each (visit_unseen (length names + 2)) names unvisited >>= λ v. good v.order

-- buildModelSet, of models in order.
abbrev pub leaves_of : List String → Nodes
leaves_of [] = none_left
leaves_of (m ∷ ms) = child (leaf m) (leaves_of ms)

unfoldable pub build_model_set : List String → Node
build_model_set [] = empty
build_model_set (m ∷ ms) = any_of (leaves_of (sort_strings (m ∷ ms)))

abbrev pub map_some : {A B : Type 0} → (A → B) → Option A → Option B
map_some f none = none
map_some f (some a) = some (f a)

-- The references of a root are linked to the roots of their sets. None is a reference without a node.
unfoldable mutual
  pub link : (String → Option Node) → Expr → Option Node
  link roots (Expr.leaf m) = some (leaf m)
  link roots (Expr.ref n) = map_some (ref n) (roots n)
  link roots (Expr.all_of es) = map_some all_of (link_all roots es)
  link roots (Expr.any_of es) = map_some any_of (link_all roots es)

  pub link_all : (String → Option Node) → Exprs → Option Nodes
  link_all roots nil = some none_left
  link_all roots (Exprs.child e es) = elim (link roots e) [
    | none ↦ none
    | some n ↦ map_some (child n) (link_all roots es)
  ]

-- simplifyEmptyRefs, of a root whose references are linked to simplified nodes.
abbrev pub lone : (Nodes → Node) → Nodes → Node
lone many none_left = empty
lone many (child n none_left) = n
lone many (child n (child m more)) = many (child n (child m more))

abbrev pub keep_full : Node → Nodes → Nodes
keep_full empty more = more
keep_full n more = child n more

abbrev pub to_full : String → Node → Node
to_full n empty = empty
to_full n target = ref n target

unfoldable mutual
  pub simplify_empty_refs : Node → Node
  simplify_empty_refs (ref n target) = to_full n target
  simplify_empty_refs (leaf m) = leaf m
  simplify_empty_refs empty = empty
  simplify_empty_refs (all_of ns) = lone all_of (simplify_all ns)
  simplify_empty_refs (any_of ns) = lone any_of (simplify_all ns)

  pub simplify_all : Nodes → Nodes
  simplify_all none_left = none_left
  simplify_all (child n ns) = keep_full (simplify_empty_refs n) (simplify_all ns)

-- A root that was parsed, or that of the orphans, from their models.
pub data Root : Type 0 where
  written : Expr → Root
  made : List String → Root

-- The roots in the order of the sets, each linked to those before it.
module _ (simplified : Bool) (roots : String → Option Root) where
  abbrev pub tidy : Node → Node
  tidy n = if simplified then simplify_empty_refs n else n

  abbrev pub link_root : (String → Option Node) → Option Root → Option Node
  link_root linked none = none
  link_root linked (some (written e)) = map_some tidy (link linked e)
  link_root linked (some (made models)) = some (tidy (build_model_set models))

  unfoldable pub link_sets : List String → (String → Option Node) → Result (String → Option Node)
  unfolding link simplify_empty_refs build_model_set
  link_sets [] linked = good linked
  link_sets (n ∷ ns) linked =
      let rest = λ (node : Node). link_sets ns (put linked n (some node)) in
      elim (link_root linked (roots n)) [ none ↦ bad unlinked | some node ↦ rest node ]

-- The names of orphanMode: "" and "user-defined", "empty", "synthesized".
pub data OrphanMode : Type 0 where
  not_referenced user_defined no_orphans synthesized : OrphanMode

-- Program, with what SynthesizedOrphans reports.
pub record Compiled : Type 0 where
  pub program : Program
  pub orphan_models : List String
  pub orphan_mode : OrphanMode

abbrev pub names_of : List Definition → List String
names_of [] = []
names_of (d ∷ ds) = d.name ∷ names_of ds

unfoldable pub orphans_of : List String → List String → List String
orphans_of seen [] = []
orphans_of seen (m ∷ ms) =
    let rest = orphans_of seen ms in if contains_string seen m then rest else m ∷ rest

abbrev pub mode_of_orphans : List String → OrphanMode
mode_of_orphans [] = no_orphans
mode_of_orphans (m ∷ ms) = synthesized

abbrev pub mode_of : Parts → List String → List String → OrphanMode
mode_of p names orphans =
    if p.orphans_referenced
    then if contains_string names orphan_set_name then user_defined else mode_of_orphans orphans
    else not_referenced

-- Whether the root of the orphans was made.
abbrev pub is_made : OrphanMode → Bool
is_made not_referenced = false
is_made user_defined = false
is_made no_orphans = true
is_made synthesized = true

abbrev pub written_root : Option Expr → Option Root
written_root none = none
written_root (some e) = some (written e)

-- roots, with that of the orphans.
abbrev pub all_roots : Parts → OrphanMode → List String → String → Option Root
all_roots p mode orphans n =
    if is_made mode && (orphan_set_name =ₛ n) then some (made orphans) else written_root (p.roots n)

abbrev pub all_deps : Parts → OrphanMode → String → List String
all_deps p mode n = if is_made mode && (orphan_set_name =ₛ n) then [] else p.deps n

abbrev pub set_of : Parts → (String → Option Node) → String → List CompiledSet
set_of p linked n = elim (linked n) [
  | none ↦ []
  | some root ↦ record { name = n; dsl = p.dsl_by_name n; root = root; support = no_bits } ∷ []
]

-- The compiled sets in the order, without that of the orphans if it was made.
unfoldable pub sets_of :
    Parts → OrphanMode → (String → Option Node) → List String → List CompiledSet
sets_of p mode linked [] = []
sets_of p mode linked (n ∷ ns) =
    (if is_made mode && (n =ₛ orphan_set_name) then [] else set_of p linked n)
    ++ sets_of p mode linked ns

abbrev pub orphans_reported : OrphanMode → List String → List String
orphans_reported synthesized orphans = orphans
orphans_reported _ orphans = []

-- Compile, from the maps on.
unfoldable pub link_program : Parts → List String → List String → Result Compiled
unfolding topological_order link_sets sets_of
link_program p names orphans =
    let mode = mode_of p names orphans in
    topological_order (all_deps p mode) names >>= λ order.
    link_sets p.orphans_referenced (all_roots p mode orphans) order (λ n. none) >>= λ linked.
    good (record {
      program = compute_support (sets_of p mode linked order);
      orphan_models = orphans_reported mode orphans;
      orphan_mode = mode;
    })

-- Compile.
unfoldable pub compile : List Definition → (String → Option String) → List String → Result Compiled
unfolding read_all link_program orphans_of
compile [] resolve all_models = bad no_sets
compile (d ∷ ds) resolve all_models =
    read_all resolve (names_of (d ∷ ds)) (d ∷ ds) no_parts >>= λ p.
    link_program p (names_of (d ∷ ds)) (sort_strings (orphans_of p.seen_models all_models))
