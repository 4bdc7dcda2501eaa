-- ===== src/Matrix/Compile/Walk.antt =====
-- internal/matrix/program.go: the walks of Compile over the roots find their references, which are to sets
-- that are defined, or to the orphans.
use fork_llama_swap.Base.{
  String, Bool, true, false, not, ◌&&◌, ◌||◌, ◌≡◌, ◌⊎◌, inl, inr, refl, ◌=ₛ◌, if_cases, Bool-cases,
  names, List, [], ◌∷◌, Option, none, some, Occurs, Occurs-snoc, All, All-mono, All-append,
}
use fork_llama_swap.Scheduler.Collision.{contains_string}
use fork_llama_swap.Scheduler.Membership.{contains_string-Occurs}
use fork_llama_swap.Dsl.{Expr, Exprs, nil}
use fork_llama_swap.Matrix.Compile.{
  Result, good, bad, ◌>>=◌, Walked, add_ref, orphan_set_name, is_defined, resolved, referenced,
  walk, walk_all,
}

-- The references of an expression are in a list.
abbrev mutual
  pub RefsIn : List String → Expr → Type 0
  RefsIn refs (Expr.leaf m) = Unit
  RefsIn refs (Expr.ref n) = Occurs n refs
  RefsIn refs (Expr.all_of es) = AllRefsIn refs es
  RefsIn refs (Expr.any_of es) = AllRefsIn refs es

  pub AllRefsIn : List String → Exprs → Type 0
  AllRefsIn refs nil = Unit
  AllRefsIn refs (Exprs.child e es) = RefsIn refs e × AllRefsIn refs es

mutual
  RefsIn-mono :
      (refs more : List String) (e : Expr)
      → ((n : String) → Occurs n refs → Occurs n more)
      → RefsIn refs e
      → RefsIn more e
  RefsIn-mono refs more (Expr.leaf m) f h = tt
  RefsIn-mono refs more (Expr.ref n) f h = f n h
  RefsIn-mono refs more (Expr.all_of es) f h = AllRefsIn-mono refs more es f h
  RefsIn-mono refs more (Expr.any_of es) f h = AllRefsIn-mono refs more es f h

  AllRefsIn-mono :
      (refs more : List String) (es : Exprs)
      → ((n : String) → Occurs n refs → Occurs n more)
      → AllRefsIn refs es
      → AllRefsIn more es
  AllRefsIn-mono refs more nil f h = tt
  AllRefsIn-mono refs more (Exprs.child e es) f h =
      (RefsIn-mono refs more e f h.0, AllRefsIn-mono refs more es f h.1)

add_ref-Occurs :
    (n : String) (refs : List String)
    → Occurs n (add_ref n refs) × ((m : String) → Occurs m refs → Occurs m (add_ref n refs))
add_ref-Occurs n refs =
    if_cases (λ l. Occurs n l × ((m : String) → Occurs m refs → Occurs m l))
      (contains_string refs n) _ _ (λ t. ((contains_string-Occurs refs n).0 t, λ m o. o))
      (λ f. ((Occurs-snoc refs n n).1 (inr refl), λ m o. (Occurs-snoc refs n m).1 (inl o)))

pub or_right : (a b : Bool) → b ≡ true → (a || b) ≡ true
or_right true b h = refl
or_right false b h = h

pub or_left : (a b : Bool) → a ≡ true → (a || b) ≡ true
or_left true b h = refl
or_left false b h = cc

neither : (a b c : Bool) → a ≡ false → c ≡ false → (a && b || c) ≡ true → ⊥
neither true b c h k e = cc
neither false b c h k e = cc

last_false : (a b : Bool) → (a || b) ≡ false → b ≡ true → ⊥
last_false true b h k = cc
last_false false b h k = cc

module _ (resolve : String → Option String) (set_names : List String) where
  -- A name that may be referenced, once the flag tells whether the orphans are.
  abbrev pub Known : Bool → String → Type 0
  Known flag n = Occurs n set_names ⊎ ((n ≡ orphan_set_name) × (flag ≡ true))

  abbrev pub AllKnown : Walked → Type 0
  AllKnown w = All (Known w.orphans_referenced) w.refs

  Known-or : (f g : Bool) (n : String) → Known f n → Known (f || g) n
  Known-or f g n (inl o) = inl o
  Known-or true g n (inr h) = inr (h.0, refl)
  Known-or false g n (inr h) = cc (h.1)

  -- What was found stays found.
  pub record Extends (w w' : Walked) : Type 0 where
    pub keeps_refs : (n : String) → Occurs n w.refs → Occurs n w'.refs
    pub keeps_flag : w.orphans_referenced ≡ true → w'.orphans_referenced ≡ true

  Extends-trans : (u v w : Walked) → Extends u v → Extends v w → Extends u w
  Extends-trans u v w g h = record {
    keeps_refs = λ n o. h.keeps_refs n (g.keeps_refs n o);
    keeps_flag = λ e. h.keeps_flag (g.keeps_flag e);
  }

  abbrev pub Finds : Walked → Result (Expr × Walked) → Type 0
  Finds w (good r) = RefsIn r.1.refs r.0 × AllKnown r.1 × Extends w r.1
  Finds w (bad e) = Unit

  abbrev pub FindsAll : Walked → Result (Exprs × Walked) → Type 0
  FindsAll w (good r) = AllRefsIn r.1.refs r.0 × AllKnown r.1 × Extends w r.1
  FindsAll w (bad e) = Unit

  resolved-Finds :
      (set n : String) (o : Option String) (w : Walked)
      → resolve n ≡ o
      → AllKnown w
      → Finds w (resolved resolve set_names set n o w)
  resolved-Finds set n none w e k = tt
  resolved-Finds set n (some m) w e k =
      (tt, k, record { keeps_refs = λ j o. o; keeps_flag = λ h. h })

  -- What is_defined tells.
  is_defined-Known :
      (set n : String) (f : Bool)
      → is_defined resolve set_names set n ≡ true
      → Known (f || (n =ₛ orphan_set_name)) n
  is_defined-Known set n f h = elim (Bool-cases (contains_string set_names n)) [
    | inl c ↦ inl ((contains_string-Occurs set_names n).0 c)
    | inr c ↦ elim (names n orphan_set_name) [
      | inl t ↦ inr (t.1, or_right f (n =ₛ orphan_set_name) t.0)
      | inr t ↦ absurd (
          neither (n =ₛ orphan_set_name) (not (contains_string set_names orphan_set_name))
            (contains_string set_names n) t.0 c h)
    ]
  ]

  pub is_defined-false :
      (set n : String) → is_defined resolve set_names set n ≡ false → Occurs n set_names → ⊥
  is_defined-false set n h o =
      last_false ((n =ₛ orphan_set_name) && not (contains_string set_names orphan_set_name))
        (contains_string set_names n) h ((contains_string-Occurs set_names n).1 o)

  add_ref-Known :
      (f g : Bool) (n : String) (refs : List String)
      → Known (f || g) n
      → All (Known f) refs
      → All (Known (f || g)) (add_ref n refs)
  add_ref-Known f g n refs k h =
      if_cases (All (Known (f || g))) (contains_string refs n) _ _ (λ t. old)
        (λ t. All-append (Known (f || g)) refs (n ∷ []) old (k, tt))
    where
      old : All (Known (f || g)) refs
      old = All-mono (Known f) (Known (f || g)) (λ m. Known-or f g m) refs h

  referenced-Finds :
      (set n : String) (w : Walked) → AllKnown w → Finds w (referenced resolve set_names set n w)
  referenced-Finds set n w k =
      if_cases (Finds w) (is_defined resolve set_names set n) _ _
        (λ t. (
          (add_ref-Occurs n w.refs).0,
          add_ref-Known w.orphans_referenced (n =ₛ orphan_set_name) n w.refs
              (is_defined-Known set n w.orphans_referenced t) k,
          record {
            keeps_refs = (add_ref-Occurs n w.refs).1;
            keeps_flag = λ e. or_left w.orphans_referenced (n =ₛ orphan_set_name) e;
          },
        ))
        (λ f. tt)

  -- The end of a conjunction or an alternative.
  wrap-Finds :
      (f : Exprs → Expr) (w : Walked) (r : Result (Exprs × Walked))
      → ((refs : List String) (es : Exprs) → AllRefsIn refs es → RefsIn refs (f es))
      → FindsAll w r
      → Finds w (r >>= λ q. good (f q.0, q.1))
  wrap-Finds f w (good q) k h = (k q.1.refs q.0 h.0, h.1, h.2)
  wrap-Finds f w (bad e) k h = h

  -- A child, and then the others.
  then-FindsAll :
      (w : Walked) (r : Result (Expr × Walked)) (k : Walked → Result (Exprs × Walked))
      → Finds w r
      → ((v : Walked) → AllKnown v → FindsAll v (k v))
      → FindsAll w (r >>= λ q. k q.1 >>= λ p. good (Exprs.child q.0 p.0, p.1))
  then-FindsAll w (bad e) k h f = h
  then-FindsAll w (good q) k h f = ends (k q.1) (f q.1 h.1)
    where
      ends :
          (o : Result (Exprs × Walked))
          → FindsAll q.1 o
          → FindsAll w (o >>= λ p. good (Exprs.child q.0 p.0, p.1))
      ends (bad e) g = g
      ends (good p) g = (
        (RefsIn-mono q.1.refs p.1.refs q.0 g.2.keeps_refs h.0, g.0),
        g.1,
        Extends-trans w q.1 p.1 h.2 g.2,
      )

  mutual
    unfolding walk

    pub walk-Finds :
        (set : String) (e : Expr) (w : Walked)
        → AllKnown w
        → Finds w (walk resolve set_names set e w)
    walk-Finds set (Expr.leaf n) w k = resolved-Finds set n (resolve n) w refl k
    walk-Finds set (Expr.ref n) w k = referenced-Finds set n w k
    walk-Finds set (Expr.all_of es) w k =
        wrap-Finds Expr.all_of w (walk_all resolve set_names set es w) (λ refs es h. h)
          (walk_all-Finds set es w k)
    walk-Finds set (Expr.any_of es) w k =
        wrap-Finds Expr.any_of w (walk_all resolve set_names set es w) (λ refs es h. h)
          (walk_all-Finds set es w k)

    walk_all-Finds :
        (set : String) (es : Exprs) (w : Walked)
        → AllKnown w
        → FindsAll w (walk_all resolve set_names set es w)
    walk_all-Finds set nil w k = (tt, k, record { keeps_refs = λ n o. o; keeps_flag = λ h. h })
    walk_all-Finds set (Exprs.child e es) w k =
        then-FindsAll w (walk resolve set_names set e w) (λ v. walk_all resolve set_names set es v)
          (walk-Finds set e w k) (λ v g. walk_all-Finds set es v g)
