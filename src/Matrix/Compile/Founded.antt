-- ===== src/Matrix/Compile/Founded.antt =====
-- internal/matrix/program.go: the roots that Compile links are those of the definitions and the orphans.
use fork_llama_swap.Base.{
  String, Bool, Bool-cases, true, false, ◌&&◌, ◌≡◌, ◌↔◌, inl, inr, refl, sym, ap, subst, ◌=ₛ◌,
  name_of_test, if◌then◌else◌, if_cases, List, [], ◌∷◌, Option, none, some, All, Occurs,
}
use fork_llama_swap.Scheduler.Collision.{contains_string}
use fork_llama_swap.Scheduler.Membership.{contains_string-Occurs}
use fork_llama_swap.Dsl.{Expr}
use fork_llama_swap.Matrix.Program.{CompiledSet, with_support}
use fork_llama_swap.Matrix.Compile.{
  Definition, Parts, Compiled, names_of, orphans_of, mode_of, all_roots, Root, written, made,
  orphan_set_name, is_made, mode_of_orphans, written_root, OrphanMode,
}
use fork_llama_swap.Matrix.Compile.Source.{
  SourceOf, Parses, Resolves, IsNamed, WantsOrphans, IsReading,
}
use fork_llama_swap.Matrix.Compile.Link.{SetMeans}

-- The supports do not change what a set stands for.
pub with_support-Means :
    (roots : String → Option Root) (b : Bool) (bits : List String) (sets : List CompiledSet)
    → All (SetMeans roots b) sets
    → All (SetMeans roots b) (with_support bits sets)
unfolding with_support
with_support-Means roots b bits [] h = tt
with_support-Means roots b bits (s ∷ sets) h = (h.0, with_support-Means roots b bits sets h.1)

abbrev pub ProgramMeans : Parts → List String → List String → Compiled → Type 0
ProgramMeans p names orphans c =
    All (SetMeans (all_roots p (mode_of p names orphans) orphans) p.orphans_referenced)
      c.program.sets

-- The roots are those of the definitions as they are written, with the models of the identifiers, and that
-- of the orphans: the models that no definition names. It is there if some definition refers to it and
-- none defines it.
pub record IsFounded (resolve : String → Option String) (ds : List Definition)
    (all_models : List String) (simplified : Bool) (orphans : List String)
    (roots : String → Option Root) : Type 0 where
  pub written_by :
      (n : String) (e : Expr)
      → roots n ≡ some (written e)
      → (d : Definition) × (t : Expr) × SourceOf ds n d × Parses d t × Resolves resolve t e
  pub made_of :
      (n : String) (ms : List String)
      → roots n ≡ some (made ms)
      → (n ≡ orphan_set_name) × (ms ≡ orphans) × (Occurs n (names_of ds) → ⊥)
  pub all_written :
      (n : String) → Occurs n (names_of ds) → (e : Expr) × (roots n ≡ some (written e))
  pub made_where_wanted :
      simplified ≡ true
      → (Occurs orphan_set_name (names_of ds) → ⊥)
      → roots orphan_set_name ≡ some (made orphans)
  pub left_over :
      (m : String) → Occurs m orphans ↔ (Occurs m all_models × (IsNamed resolve ds m → ⊥))
  pub simplifies : (simplified ≡ true) ↔ WantsOrphans ds

pub orphans_of-Occurs :
    (seen all : List String) (m : String)
    → Occurs m (orphans_of seen all) ↔ (Occurs m all × (Occurs m seen → ⊥))
unfolding orphans_of
orphans_of-Occurs seen [] m = (λ o. absurd o, λ h. absurd h.0)
orphans_of-Occurs seen (a ∷ all) m =
    if_cases (λ l. Occurs m l ↔ (Occurs m (a ∷ all) × (Occurs m seen → ⊥))) (contains_string seen a)
      _ _
      (λ t. (
        λ o. let r = (orphans_of-Occurs seen all m).0 o in (inr r.0, r.1),
        λ h. elim h.0 [
          | inl e ↦
              absurd
                (h.1 (subst (λ k. Occurs k seen) (sym e) ((contains_string-Occurs seen a).0 t)))
          | inr o ↦ (orphans_of-Occurs seen all m).1 (o, h.1)
        ],
      ))
      (λ f. (
        λ o. elim o [
          | inl e ↦ (inl e, λ i. unseen f e i)
          | inr k ↦ let r = (orphans_of-Occurs seen all m).0 k in (inr r.0, r.1)
        ],
        λ h. elim h.0 [ inl e ↦ inl e | inr o ↦ inr ((orphans_of-Occurs seen all m).1 (o, h.1)) ],
      ))
  where
    unseen : contains_string seen a ≡ false → m ≡ a → Occurs m seen → ⊥
    unseen f e i =
        let t : contains_string seen a ≡ true =
          (contains_string-Occurs seen a).1 (subst (λ k. Occurs k seen) e i) in
        cc

-- Whether the root of the orphans is made.
abbrev MadeBy : Parts → List String → OrphanMode → Type 0
MadeBy p names mode =
    (is_made mode ≡ true) ↔ ((p.orphans_referenced ≡ true) × (Occurs orphan_set_name names → ⊥))

pub mode_of-MadeBy :
    (p : Parts) (names orphans : List String) → MadeBy p names (mode_of p names orphans)
mode_of-MadeBy p names orphans =
    if_cases (MadeBy p names) p.orphans_referenced _ _
      (λ r.
        if_cases (MadeBy p names) (contains_string names orphan_set_name) _ _
          (λ t. (λ e. cc, λ h. absurd (h.1 ((contains_string-Occurs names orphan_set_name).0 t))))
          (λ f. (λ e. (r, λ o. absent f o), λ h. of_orphans orphans)))
      (λ r. (λ e. cc, λ h. cc (h.0, r)))
  where
    absent : contains_string names orphan_set_name ≡ false → Occurs orphan_set_name names → ⊥
    absent f o =
        let t : contains_string names orphan_set_name ≡ true =
          (contains_string-Occurs names orphan_set_name).1 o in
        cc

    of_orphans : (ms : List String) → is_made (mode_of_orphans ms) ≡ true
    of_orphans [] = refl
    of_orphans (m ∷ ms) = refl

pub both_true : (a b : Bool) → (a && b) ≡ true → (a ≡ true) × (b ≡ true)
both_true true b h = (refl, h)
both_true false b h = cc

written_root-inv : (o : Option Expr) (e : Expr) → written_root o ≡ some (written e) → o ≡ some e
written_root-inv none e h = cc
written_root-inv (some f) e h = let q : f ≡ e = cc in ap some q

not_made : (o : Option Expr) (ms : List String) → written_root o ≡ some (made ms) → ⊥
not_made none ms h = cc
not_made (some f) ms h = cc

pub founded :
    (resolve : String → Option String) (ds : List Definition) (all_models orphans : List String)
    (p : Parts)
    → IsReading resolve ds p
    → ((m : String) → Occurs m orphans ↔ (Occurs m all_models × (IsNamed resolve ds m → ⊥)))
    → IsFounded resolve ds all_models p.orphans_referenced orphans
        (all_roots p (mode_of p (names_of ds) orphans) orphans)
founded resolve ds all_models orphans p h left = record {
  written_by = λ n e q. from n e q;
  made_of = λ n ms q. of_made n ms q;
  all_written = λ n o. all_of_them n o;
  made_where_wanted = λ w o. rw ((mode_of-MadeBy p (names_of ds) orphans).1 (w, o)) refl;
  left_over = left;
  simplifies = h.wanted;
}
  where
    made_here : Bool
    made_here = is_made (mode_of p (names_of ds) orphans)

    root_by : Bool → String → Option Root
    root_by b n = if b then some (made orphans) else written_root (p.roots n)

    from :
        (n : String) (e : Expr)
        → root_by (made_here && (orphan_set_name =ₛ n)) n ≡ some (written e)
        → (d : Definition) × (t : Expr) × SourceOf ds n d × Parses d t × Resolves resolve t e
    from n e q = elim (Bool-cases (made_here && (orphan_set_name =ₛ n))) [
      | inl t ↦
          let k : some (made orphans) ≡ some (written e) =
            subst (λ b. root_by b n ≡ some (written e)) t q in
          absurd cc
      | inr f ↦
          h.from_source n e
            (written_root-inv (p.roots n) e (subst (λ b. root_by b n ≡ some (written e)) f q))
    ]

    of_made :
        (n : String) (ms : List String)
        → root_by (made_here && (orphan_set_name =ₛ n)) n ≡ some (made ms)
        → (n ≡ orphan_set_name) × (ms ≡ orphans) × (Occurs n (names_of ds) → ⊥)
    of_made n ms q = elim (Bool-cases (made_here && (orphan_set_name =ₛ n))) [
      | inl t ↦
          let k : some (made orphans) ≡ some (made ms) =
            subst (λ b. root_by b n ≡ some (made ms)) t q in
          let both = both_true made_here (orphan_set_name =ₛ n) t in
          let e = name_of_test orphan_set_name n both.1 in
          let same : orphans ≡ ms = cc in
          (
            sym e,
            sym same,
            subst (λ m. Occurs m (names_of ds) → ⊥) e
                ((mode_of-MadeBy p (names_of ds) orphans).0 both.0).1,
          )
      | inr f ↦ absurd (not_made (p.roots n) ms (subst (λ b. root_by b n ≡ some (made ms)) f q))
    ]

    all_of_them :
        (n : String)
        → Occurs n (names_of ds)
        → (e : Expr) × (root_by (made_here && (orphan_set_name =ₛ n)) n ≡ some (written e))
    all_of_them n o = elim (Bool-cases (made_here && (orphan_set_name =ₛ n))) [
      | inl t ↦
          let both = both_true made_here (orphan_set_name =ₛ n) t in
          absurd (
            ((mode_of-MadeBy p (names_of ds) orphans).0 both.0).1
              (subst (λ m. Occurs m (names_of ds)) (sym (name_of_test orphan_set_name n both.1)) o))
      | inr f ↦ let r = h.rooted n o in (r.0, rw f (ap written_root r.1))
    ]
