-- ===== src/Matrix/Compile/Gather.antt =====
-- internal/matrix/program.go: the walk of Compile over a root keeps its shape, gathers its models and
-- references, and fails at an identifier or a reference in it.
use fork_llama_swap.Base.{
  String, Bool, true, false, not, ◌&&◌, ◌||◌, ◌≡◌, ◌≢◌, ◌↔◌, ◌⊎◌, inl, inr, refl, sym, ap, ◌∙◌,
  ◌=ₛ◌, subst, same_name, if_cases, names, List, [], ◌∷◌, ◌++◌, Option, none, some, Occurs,
  Occurs-snoc, arith,
}
use fork_llama_swap.Scheduler.Collision.{contains_string}
use fork_llama_swap.Scheduler.Membership.{contains_string-Occurs}
use fork_llama_swap.Dsl.{Expr, Exprs, nil}
use fork_llama_swap.Matrix.Compile.{
  Result, good, bad, ◌>>=◌, Error, no_sets, no_tokens, no_tree, circular, unlinked, too_deep,
  unknown_model, undefined_set, Walked, add_ref, orphan_set_name, is_defined, resolved, referenced,
  walk, walk_all,
}
use fork_llama_swap.Matrix.Compile.Walk.{is_defined-false}
use fork_llama_swap.Matrix.Compile.Source.{
  idents_in, all_idents_in, refs_in, all_refs_in, Resolves, leaf_to, ref_to, all_to, any_to,
  AllResolve, nil_to, child_to, Names,
}

occurs_append :
    (xs ys : List String) (a : String) → Occurs a (xs ++ ys) ↔ (Occurs a xs ⊎ Occurs a ys)
occurs_append [] ys a = (λ o. inr o, λ o. elim o [ inl h ↦ absurd h | inr h ↦ h ])
occurs_append (x ∷ xs) ys a = ground (arith, occurs_append xs ys a)

reject : (a c d : Bool) → a ≡ true → d ≡ false → (a && not d || c) ≡ false → ⊥
reject true c false h k e = cc
reject true c true h k e = cc
reject false c d h k e = cc

not_contained : (xs : List String) (a : String) → (Occurs a xs → ⊥) → contains_string xs a ≡ false
not_contained xs a n = ground (arith, n, contains_string-Occurs xs a)

add_ref-holds :
    (n : String) (refs : List String) (m : String)
    → Occurs m (add_ref n refs) ↔ (Occurs m refs ⊎ Occurs m (n ∷ []))
add_ref-holds n refs m =
    if_cases (λ l. Occurs m l ↔ (Occurs m refs ⊎ Occurs m (n ∷ []))) (contains_string refs n) _ _
      (λ t. (
        λ o. inl o,
        λ o. elim o [
          | inl h ↦ h
          | inr h ↦ elim h [
            | inl e ↦
                ground (arith, e, t, contains_string-Occurs refs m, contains_string-Occurs refs n)
            | inr i ↦ absurd i
          ]
        ],
      ))
      (λ f. ground (arith, Occurs-snoc refs n m))

module _ (resolve : String → Option String) (set_names : List String) (set : String) where
  -- After a walk over these identifiers and references.
  pub record Gathers (idents refs : List String) (w v : Walked) : Type 0 where
    pub models :
        (m : String) → Occurs m v.seen_models ↔ (Occurs m w.seen_models ⊎ Names resolve idents m)
    pub links : (m : String) → Occurs m v.refs ↔ (Occurs m w.refs ⊎ Occurs m refs)
    pub flag :
        (v.orphans_referenced ≡ true)
        ↔ ((w.orphans_referenced ≡ true) ⊎ Occurs orphan_set_name refs)

  Gathers-none : (w : Walked) → Gathers [] [] w w
  Gathers-none w = record {
    models = λ m. (λ o. inl o, λ o. elim o [ inl h ↦ h | inr h ↦ absurd h.1 ]);
    links = λ m. (λ o. inl o, λ o. elim o [ inl h ↦ h | inr h ↦ absurd h ]);
    flag = (λ o. inl o, λ o. elim o [ inl h ↦ h | inr h ↦ absurd h ]);
  }

  Names-append :
      (is js : List String) (m : String)
      → Names resolve (is ++ js) m ↔ (Names resolve is m ⊎ Names resolve js m)
  Names-append is js m = (
    λ h. elim ((occurs_append is js h.0).0 h.1) [
      | inl o ↦ inl (h.0, o, h.2)
      | inr o ↦ inr (h.0, o, h.2)
    ],
    λ h. elim h [
      | inl k ↦ (k.0, (occurs_append is js k.0).1 (inl k.1), k.2)
      | inr k ↦ (k.0, (occurs_append is js k.0).1 (inr k.1), k.2)
    ],
  )

  Gathers-then :
      (is js rs ss : List String) (u v w : Walked)
      → Gathers is rs u v
      → Gathers js ss v w
      → Gathers (is ++ js) (rs ++ ss) u w
  Gathers-then is js rs ss u v w h k = record {
    models = λ m. or_assoc (h.models m) (k.models m) (Names-append is js m);
    links = λ m. or_assoc (h.links m) (k.links m) (occurs_append rs ss m);
    flag = or_assoc h.flag k.flag (occurs_append rs ss orphan_set_name);
  }
    where
      or_assoc : {A B C D E F : Type 0} → B ↔ (A ⊎ C) → D ↔ (B ⊎ E) → F ↔ (C ⊎ E) → D ↔ (A ⊎ F)
      or_assoc p q r = (
        λ d. elim (q.0 d) [
          | inl b ↦ elim (p.0 b) [ inl a ↦ inl a | inr c ↦ inr (r.1 (inl c)) ]
          | inr e ↦ inr (r.1 (inr e))
        ],
        λ o. elim o [
          | inl a ↦ q.1 (inl (p.1 (inl a)))
          | inr f ↦ elim (r.0 f) [ inl c ↦ q.1 (inl (p.1 (inr c))) | inr e ↦ q.1 (inr e) ]
        ],
      )

  -- The error names an identifier without a model, or a reference without a set.
  abbrev pub IsFault : List String → List String → Error → Type 0
  IsFault idents refs (unknown_model s n) = (set ≡ s) × Occurs n idents × (resolve n ≡ none)
  IsFault idents refs (undefined_set s n) =
      (set ≡ s) × Occurs n refs × (Occurs n set_names → ⊥) × (n ≢ orphan_set_name)
  IsFault idents refs _ = ⊥

  IsFault-mono :
      (is js rs ss : List String) (e : Error)
      → ((n : String) → Occurs n is → Occurs n js)
      → ((n : String) → Occurs n rs → Occurs n ss)
      → IsFault is rs e
      → IsFault js ss e
  IsFault-mono is js rs ss (unknown_model s n) f g h = (h.0, f n h.1, h.2)
  IsFault-mono is js rs ss (undefined_set s n) f g h = (h.0, g n h.1, h.2, h.3)
  IsFault-mono is js rs ss no_sets f g h = h
  IsFault-mono is js rs ss (no_tokens n) f g h = h
  IsFault-mono is js rs ss (no_tree n e) f g h = h
  IsFault-mono is js rs ss (circular n) f g h = h
  IsFault-mono is js rs ss unlinked f g h = h
  IsFault-mono is js rs ss too_deep f g h = h

  abbrev pub Gathered : Expr → Walked → Result (Expr × Walked) → Type 0
  Gathered e w (good r) = Resolves resolve e r.0 × Gathers (idents_in e) (refs_in e) w r.1
  Gathered e w (bad f) = IsFault (idents_in e) (refs_in e) f

  abbrev AllGathered : Exprs → Walked → Result (Exprs × Walked) → Type 0
  AllGathered es w (good r) =
      AllResolve resolve es r.0 × Gathers (all_idents_in es) (all_refs_in es) w r.1
  AllGathered es w (bad f) = IsFault (all_idents_in es) (all_refs_in es) f

  resolved-Gathered :
      (n : String) (o : Option String) (w : Walked)
      → resolve n ≡ o
      → Gathered (Expr.leaf n) w (resolved resolve set_names set n o w)
  resolved-Gathered n none w e = (refl, inl refl, e)
  resolved-Gathered n (some m) w e = (
    leaf_to n m e,
    record {
      models = λ j. (
        λ o. elim ((Occurs-snoc w.seen_models m j).0 o) [
          | inl h ↦ inl h
          | inr q ↦ inr (n, inl refl, e ∙ ap some (sym q))
        ],
        λ o. elim o [
          | inl h ↦ (Occurs-snoc w.seen_models m j).1 (inl h)
          | inr h ↦ elim h.1 [
            | inl q ↦
                let k : some j ≡ some m = sym h.2 ∙ ap resolve q ∙ e in
                (Occurs-snoc w.seen_models m j).1 (inr cc)
            | inr i ↦ absurd i
          ]
        ],
      );
      links = λ j. (λ o. inl o, λ o. elim o [ inl h ↦ h | inr h ↦ absurd h ]);
      flag = (λ o. inl o, λ o. elim o [ inl h ↦ h | inr h ↦ absurd h ]);
    },
  )

  undefined-IsFault :
      (n : String)
      → is_defined resolve set_names set n ≡ false
      → IsFault [] (n ∷ []) (undefined_set set n)
  undefined-IsFault n h = (
    refl,
    inl refl,
    is_defined-false resolve set_names set n h,
    λ q.
        reject (n =ₛ orphan_set_name) (contains_string set_names n)
          (contains_string set_names orphan_set_name) (subst (λ k. (n =ₛ k) ≡ true) q (same_name n))
          (not_contained set_names orphan_set_name
            (subst (λ k. Occurs k set_names → ⊥) q (is_defined-false resolve set_names set n h)))
          h,
  )

  flag_of :
      {n : String} (f b : Bool)
      → ((b ≡ true) × (n ≡ orphan_set_name)) ⊎ ((b ≡ false) × (n ≢ orphan_set_name))
      → ((f || b) ≡ true) ↔ ((f ≡ true) ⊎ Occurs orphan_set_name (n ∷ []))
  flag_of true b h = (λ e. inl refl, λ o. refl)
  flag_of false b (inl h) = (λ e. inr (inl (sym h.1)), λ o. h.0)
  flag_of false b (inr h) = (
    λ e. cc (e, h.0),
    λ o. elim o [ inl e ↦ cc | inr i ↦ elim i [ inl q ↦ absurd (h.1 (sym q)) | inr k ↦ absurd k ] ],
  )

  referenced-Gathered :
      (n : String) (w : Walked) → Gathered (Expr.ref n) w (referenced resolve set_names set n w)
  referenced-Gathered n w =
      if_cases (Gathered (Expr.ref n) w) (is_defined resolve set_names set n) _ _
        (λ t. (
          ref_to n,
          record {
            models = λ m. (λ o. inl o, λ o. elim o [ inl h ↦ h | inr h ↦ absurd h.1 ]);
            links = add_ref-holds n w.refs;
            flag = flag_of w.orphans_referenced (n =ₛ orphan_set_name) (names n orphan_set_name);
          },
        ))
        (λ f. undefined-IsFault n f)

  all-Gathered :
      (es : Exprs) (w : Walked) (r : Result (Exprs × Walked))
      → AllGathered es w r
      → Gathered (Expr.all_of es) w (r >>= λ q. good (Expr.all_of q.0, q.1))
  all-Gathered es w (good q) h = (all_to es q.0 h.0, h.1)
  all-Gathered es w (bad f) h = h

  any-Gathered :
      (es : Exprs) (w : Walked) (r : Result (Exprs × Walked))
      → AllGathered es w r
      → Gathered (Expr.any_of es) w (r >>= λ q. good (Expr.any_of q.0, q.1))
  any-Gathered es w (good q) h = (any_to es q.0 h.0, h.1)
  any-Gathered es w (bad f) h = h

  -- A child, and then the others.
  then-Gathered :
      (e : Expr) (es : Exprs) (w : Walked) (r : Result (Expr × Walked))
      (k : Walked → Result (Exprs × Walked))
      → Gathered e w r
      → ((v : Walked) → AllGathered es v (k v))
      → AllGathered (Exprs.child e es) w (r >>= λ q. k q.1 >>= λ p. good (Exprs.child q.0 p.0, p.1))
  then-Gathered e es w (bad f) k h g =
      IsFault-mono (idents_in e) (idents_in e ++ all_idents_in es) (refs_in e)
        (refs_in e ++ all_refs_in es) f
        (λ n o. (occurs_append (idents_in e) (all_idents_in es) n).1 (inl o))
        (λ n o. (occurs_append (refs_in e) (all_refs_in es) n).1 (inl o)) h
  then-Gathered e es w (good q) k h g = rest (k q.1) (g q.1)
    where
      rest :
          (o : Result (Exprs × Walked))
          → AllGathered es q.1 o
          → AllGathered (Exprs.child e es) w (o >>= λ p. good (Exprs.child q.0 p.0, p.1))
      rest (good p) i = (
        child_to e q.0 es p.0 h.0 i.0,
        Gathers-then (idents_in e) (all_idents_in es) (refs_in e) (all_refs_in es) w q.1 p.1 h.1
            i.1,
      )
      rest (bad f) i =
          IsFault-mono (all_idents_in es) (idents_in e ++ all_idents_in es) (all_refs_in es)
            (refs_in e ++ all_refs_in es) f
            (λ n o. (occurs_append (idents_in e) (all_idents_in es) n).1 (inr o))
            (λ n o. (occurs_append (refs_in e) (all_refs_in es) n).1 (inr o)) i

  mutual
    unfolding walk

    pub walk-Gathered : (e : Expr) (w : Walked) → Gathered e w (walk resolve set_names set e w)
    walk-Gathered (Expr.leaf n) w = resolved-Gathered n (resolve n) w refl
    walk-Gathered (Expr.ref n) w = referenced-Gathered n w
    walk-Gathered (Expr.all_of es) w =
        all-Gathered es w (walk_all resolve set_names set es w) (walk_all-Gathered es w)
    walk-Gathered (Expr.any_of es) w =
        any-Gathered es w (walk_all resolve set_names set es w) (walk_all-Gathered es w)

    walk_all-Gathered :
        (es : Exprs) (w : Walked) → AllGathered es w (walk_all resolve set_names set es w)
    walk_all-Gathered nil w = (nil_to, Gathers-none w)
    walk_all-Gathered (Exprs.child e es) w =
        then-Gathered e es w (walk resolve set_names set e w)
          (λ v. walk_all resolve set_names set es v) (walk-Gathered e w)
          (λ v. walk_all-Gathered es v)
