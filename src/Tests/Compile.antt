-- ===== src/Tests/Compile.antt =====
-- internal/matrix/program.go: Compile at the sets "a & +part" and "b | +auto:orphans" of the models a to d,
-- and at a circular reference.
use fork_llama_swap.Base.{
  Bool, ◌≡◌, refl, inl, inr, String, List, [], ◌∷◌, Option, some, Occurs, All, arith, if_keeps,
  if◌then◌else◌, ◌=ₛ◌,
}
use fork_llama_swap.Scheduler.Collision.{contains_string, insert_sorted, sort_strings}
use fork_llama_swap.Dsl.{Token, parse_dsl}
use fork_llama_swap.Matrix.Program.{
  CompiledSet, collect, register_sets, with_support, compute_support,
}
use fork_llama_swap.Matrix.Compile.{
  Definition, Result, good, bad, circular, Root, Compiled, synthesized, read_all, names_of,
  topological_order, link_program, orphans_of, compile,
}
use fork_llama_swap.Matrix.Compile.Sound.{compile_Means}
use fork_llama_swap.Matrix.Compile.Founded.{IsFounded}
use fork_llama_swap.Matrix.Compile.Link.{SetMeans}
use fork_llama_swap.Matrix.Compile.Whole.{HasSet}
use fork_llama_swap.Matrix.Compile.Visit.{Orders, topological_order-Orders}
use fork_llama_swap.Matrix.Compile.Explain.{Explains, compile-Explains}

abbrev full : Definition
full = record {
  name = "full";
  dsl = "a & +part";
  tokens = some (Token.ident "a" ∷ Token.and_sign ∷ Token.set_ref "part" ∷ []);
}

abbrev part : Definition
part = record {
  name = "part";
  dsl = "b | +auto:orphans";
  tokens = some (Token.ident "b" ∷ Token.or_sign ∷ Token.set_ref "auto:orphans" ∷ []);
}

abbrev models : List String
models = "d" ∷ "b" ∷ "a" ∷ "c" ∷ []

abbrev itself : String → Option String
itself n = some n

abbrev empty_compiled : Compiled
empty_compiled = record {
  program = record { sets = []; known = []; words = 0 };
  orphan_models = [];
  orphan_mode = synthesized;
}

abbrev compiled_of : Result Compiled → Compiled
compiled_of (good c) = c
compiled_of (bad e) = empty_compiled

abbrev compiled : Compiled
compiled = compiled_of (compile (full ∷ part ∷ []) itself models)

abbrev set_names : List CompiledSet → List String
set_names [] = []
set_names (s ∷ sets) = s.name ∷ set_names sets

-- A set stands behind the one that it refers to, and the orphans are the models that no set names.
ordered :
    (set_names compiled.program.sets ≡ "part" ∷ "full" ∷ [])
    × (compiled.orphan_models ≡ "c" ∷ "d" ∷ [])
unfolding compile read_all link_program orphans_of contains_string insert_sorted sort_strings
    collect register_sets with_support compute_support parse_dsl
ordered = (refl, refl)

compiles : compile (full ∷ part ∷ []) itself models ≡ good compiled
unfolding compile read_all link_program orphans_of contains_string insert_sorted sort_strings
    collect register_sets with_support compute_support parse_dsl
compiles = refl

compile_Means_example :
    (simplified : Bool) × (orphans : List String) × (roots : String → Option Root) × IsFounded
      itself
      (full ∷ part ∷ [])
      models
      simplified
      orphans
      roots
    × All (SetMeans roots simplified) compiled.program.sets
    × All (HasSet compiled.program.sets) (names_of (full ∷ part ∷ []))
compile_Means_example = compile_Means full (part ∷ []) itself models compiled compiles

-- A set that refers to itself.
abbrev knot : Definition
knot = record {
  name = "knot";
  dsl = "+knot | a";
  tokens = some (Token.set_ref "knot" ∷ Token.or_sign ∷ Token.ident "a" ∷ []);
}

knotted : compile (knot ∷ []) itself models ≡ bad (circular "knot")
unfolding compile read_all link_program orphans_of contains_string insert_sorted sort_strings
    parse_dsl
knotted = refl

compile-Explains_example : Explains (knot ∷ []) itself (circular "knot")
compile-Explains_example = compile-Explains knot [] itself models (circular "knot") knotted

abbrev refers : String → List String
refers n = if n =ₛ "full" then "part" ∷ [] else []

topological_order-Orders_example :
    Orders refers
      ("full" ∷ "part" ∷ [])
      ("full" ∷ "part" ∷ [])
      (topological_order refers ("full" ∷ "part" ∷ []))
topological_order-Orders_example =
    topological_order-Orders refers ("full" ∷ "part" ∷ []) ("full" ∷ "part" ∷ [])
      (inl refl, (inr (inl refl), tt)) (omega arith)
      (λ n.
        if_keeps (All (λ d. Occurs d ("full" ∷ "part" ∷ []))) (n =ₛ "full") _ _ (inr (inl refl), tt)
          tt)
