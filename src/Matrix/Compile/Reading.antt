-- ===== src/Matrix/Compile/Reading.antt =====
-- internal/matrix/program.go: the loop of Compile over the definitions gets from them what they say, or fails
-- at what is wrong with one.
use mathlib.Core.List.{append_assoc, append-nil}
use fork_llama_swap.Base.{
  String, ◌≡◌, ◌≢◌, ◌↔◌, ◌⊎◌, inl, inr, refl, sym, ap, ◌∙◌, subst, if◌then◌else◌, names, List, [],
  ◌∷◌, ◌++◌, Option, none, some, Occurs, Occurs-snoc, arith,
}
use fork_llama_swap.Dsl.{Token, Expr, Parsed, ok, failed, out_of_fuel, parse_dsl}
use fork_llama_swap.Dsl.Total.{Leaves, parse_dsl-Leaves}
use fork_llama_swap.Matrix.Compile.{
  Definition, Result, good, bad, ◌>>=◌, Error, no_sets, no_tokens, no_tree, unknown_model,
  undefined_set, circular, unlinked, too_deep, Walked, Parts, no_parts, add_part, tree_of, parsed,
  read_all, walk, names_of, orphan_set_name,
}
use fork_llama_swap.Matrix.Compile.Source.{
  idents_in, refs_in, Parses, SourceOf, Refers, Resolves, Names, IsReading, Faults,
}
use fork_llama_swap.Matrix.Compile.Gather.{Gathers, IsFault, Gathered, walk-Gathered}

-- A text is one expression.
Parses-one : (d : Definition) (s t : Expr) → Parses d s → Parses d t → s ≡ t
Parses-one d s t h k = cc (h.2, h.3, k.2, k.3)

names_of-snoc :
    (ds : List Definition) (d : Definition) (n : String)
    → Occurs n (names_of (ds ++ d ∷ [])) ↔ (Occurs n (names_of ds) ⊎ (n ≡ d.name))
names_of-snoc [] d n = ground arith
names_of-snoc (x ∷ ds) d n = ground (arith, names_of-snoc ds d n)

SourceOf-here : (ds : List Definition) (d : Definition) → SourceOf (ds ++ d ∷ []) d.name d
SourceOf-here ds d = (ds, [], refl, refl, λ o. o)

SourceOf-snoc :
    (ds : List Definition) (d x : Definition) (n : String)
    → n ≢ d.name
    → SourceOf ds n x
    → SourceOf (ds ++ d ∷ []) n x
SourceOf-snoc ds d x n f h = (
  h.0,
  h.1 ++ d ∷ [],
  ap (λ l. l ++ d ∷ []) h.2 ∙ append_assoc h.0 (x ∷ h.1) (d ∷ []),
  h.3,
  λ o. elim ((names_of-snoc h.1 d n).0 o) [ inl k ↦ h.4 k | inr e ↦ f e ],
)

module _ (resolve : String → Option String) (set_names : List String) where
  abbrev start_of : Parts → Walked
  start_of p = record {
    seen_models = p.seen_models;
    orphans_referenced = p.orphans_referenced;
    refs = [];
  }

  -- One more definition among some: what has the last one, or one before it.
  some_more :
      (P : Definition → Expr → Type 0) (ds : List Definition) (d : Definition) (t : Expr)
      → Parses d t
      → ((x : Definition) × (s : Expr) × Occurs x (ds ++ d ∷ []) × Parses x s × P x s)
        ↔ (((x : Definition) × (s : Expr) × Occurs x ds × Parses x s × P x s) ⊎ P d t)
  some_more P ds d t h = (
    λ k. elim ((Occurs-snoc ds d k.0).0 k.2) [
      | inl o ↦ inl (k.0, k.1, o, k.3, k.4)
      | inr e ↦
          let q : Parses d k.1 = subst (λ x. Parses x k.1) e k.3 in
          inr (subst (λ s. P d s) (Parses-one d k.1 t q h) (subst (λ x. P x k.1) e k.4))
    ],
    λ o. elim o [
      | inl k ↦ (k.0, k.1, (Occurs-snoc ds d k.0).1 (inl k.2), k.3, k.4)
      | inr k ↦ (d, t, (Occurs-snoc ds d d).1 (inr refl), h, k)
    ],
  )

  either : {A B C D : Type 0} → A ↔ (B ⊎ D) → B ↔ C → {E : Type 0} → E ↔ (C ⊎ D) → A ↔ E
  either p q r = (
    λ a. elim (p.0 a) [ inl b ↦ r.1 (inl (q.0 b)) | inr d ↦ r.1 (inr d) ],
    λ e. elim (r.0 e) [ inl c ↦ p.1 (inl (q.1 c)) | inr d ↦ p.1 (inr d) ],
  )

  IsReading-add :
      (ds : List Definition) (d : Definition) (p : Parts) (t : Expr) (r : Expr × Walked)
      → IsReading resolve ds p
      → Parses d t
      → Resolves resolve t r.0
      → Gathers resolve set_names d.name (idents_in t) (refs_in t) (start_of p) r.1
      → IsReading resolve (ds ++ d ∷ []) (add_part d p r)
  IsReading-add ds d p t r h k v g = record {
    from_source = λ n e. from n e;
    rooted = λ n o. root_of n o;
    referring = λ n m o. refer n m o;
    named = λ m.
        either (g.models m) (h.named m) (some_more (λ x s. Names resolve (idents_in s) m) ds d t k);
    wanted =
        either g.flag h.wanted (some_more (λ x s. Occurs orphan_set_name (refs_in s)) ds d t k);
  }
    where
      from :
          (n : String) (e : Expr)
          → (add_part d p r).roots n ≡ some e
          → (x : Definition) × (s : Expr) × SourceOf (ds ++ d ∷ []) n x
            × Parses x s
            × Resolves resolve s e
      from n e q = elim (names d.name n) [
        | inl i ↦
            let j : some r.0 ≡ some e =
              subst (λ b. (if b then some r.0 else p.roots n) ≡ some e) i.0 q in
            let same : r.0 ≡ e = cc in
            (
              d,
              t,
              subst (λ m. SourceOf (ds ++ d ∷ []) m d) i.1 (SourceOf-here ds d),
              k,
              subst (Resolves resolve t) same v,
            )
        | inr i ↦
            let f =
              h.from_source n e (subst (λ b. (if b then some r.0 else p.roots n) ≡ some e) i.0 q) in
            (f.0, f.1, SourceOf-snoc ds d f.0 n (λ s. i.1 (sym s)) f.2, f.3, f.4)
      ]

      root_of :
          (n : String)
          → Occurs n (names_of (ds ++ d ∷ []))
          → (e : Expr) × ((add_part d p r).roots n ≡ some e)
      root_of n o = elim (names d.name n) [
        | inl i ↦ rw i.0 (r.0, refl)
        | inr i ↦ rw i.0 (
            h.rooted n
              (elim ((names_of-snoc ds d n).0 o) [ inl s ↦ s | inr s ↦ absurd (i.1 (sym s)) ]))
      ]

      refer : (n m : String) → Occurs m ((add_part d p r).deps n) → Refers (ds ++ d ∷ []) n m
      refer n m o = elim (names d.name n) [
        | inl i ↦ (
          d,
          t,
          subst (λ j. SourceOf (ds ++ d ∷ []) j d) i.1 (SourceOf-here ds d),
          k,
          elim ((g.links m).0 (subst (λ b. Occurs m (if b then r.1.refs else p.deps n)) i.0 o)) [
            | inl s ↦ absurd s
            | inr s ↦ s
          ],
        )
        | inr i ↦
            let f =
              h.referring n m (subst (λ b. Occurs m (if b then r.1.refs else p.deps n)) i.0 o) in
            (f.0, f.1, SourceOf-snoc ds d f.0 n (λ s. i.1 (sym s)) f.2, f.3, f.4)
      ]

  abbrev pub Read : List Definition → Result Parts → Type 0
  Read ds (good p) = IsReading resolve ds p
  Read ds (bad e) = Faults resolve set_names ds e

  -- A fault of a definition is one of the definitions that have it.
  fault_of :
      (ds : List Definition) (d : Definition) (t : Expr) (e : Error)
      → Occurs d ds
      → Parses d t
      → IsFault resolve set_names d.name (idents_in t) (refs_in t) e
      → Faults resolve set_names ds e
  fault_of ds d t (unknown_model s n) o h k = (d, t, o, k.0, h, k.1, k.2)
  fault_of ds d t (undefined_set s n) o h k = (d, t, o, k.0, h, k.1, k.2, k.3)
  fault_of ds d t no_sets o h k = absurd k
  fault_of ds d t (no_tokens n) o h k = absurd k
  fault_of ds d t (no_tree n f) o h k = absurd k
  fault_of ds d t (circular n) o h k = absurd k
  fault_of ds d t unlinked o h k = absurd k
  fault_of ds d t too_deep o h k = absurd k

  abbrev ParsedOr : List Definition → Definition → Result Expr → Type 0
  ParsedOr ds d (good t) = Parses d t
  ParsedOr ds d (bad f) = Faults resolve set_names ds f

  tree_of-ParsedOr :
      (ds : List Definition) (d : Definition) (ts : List Token) (r : Parsed Expr)
      → Occurs d ds
      → d.tokens ≡ some ts
      → parse_dsl ts ≡ r
      → Leaves 1 r
      → ParsedOr ds d (tree_of d.name r)
  tree_of-ParsedOr ds d ts (ok e rest) o t q l = (ts, rest, t, q)
  tree_of-ParsedOr ds d ts (failed e) o t q l = (d, ts, o, refl, t, q)
  tree_of-ParsedOr ds d ts out_of_fuel o t q l = absurd l

  parsed-ParsedOr : (ds : List Definition) (d : Definition) → Occurs d ds → ParsedOr ds d (parsed d)
  parsed-ParsedOr ds d o = of_tokens d.tokens refl
    where
      of_tokens :
          (ts : Option (List Token))
          → d.tokens ≡ ts
          → ParsedOr ds d
              (elim ts [ none ↦ bad (no_tokens d.name) | some ts ↦ tree_of d.name (parse_dsl ts) ])
      of_tokens none e = (d, o, refl, e)
      of_tokens (some ts) e = tree_of-ParsedOr ds d ts (parse_dsl ts) o e refl (parse_dsl-Leaves ts)

  after_walk :
      (done ds : List Definition) (d : Definition) (p : Parts) (t : Expr)
      (o : Result (Expr × Walked))
      → IsReading resolve done p
      → Parses d t
      → Gathered resolve set_names d.name t (start_of p) o
      → ((q : Parts)
          → IsReading resolve (done ++ d ∷ []) q
          → Read (done ++ d ∷ ds) (read_all resolve set_names ds q))
      → Read (done ++ d ∷ ds) (o >>= λ r. read_all resolve set_names ds (add_part d p r))
  after_walk done ds d p t (good r) h k g rest =
      rest (add_part d p r) (IsReading-add done d p t r h k g.0 g.1)
  after_walk done ds d p t (bad f) h k g rest = fault_of (done ++ d ∷ ds) d t f (among done) k g
    where
      among : (xs : List Definition) → Occurs d (xs ++ d ∷ ds)
      among [] = inl refl
      among (x ∷ xs) = inr (among xs)

  after_parse :
      (done ds : List Definition) (d : Definition) (p : Parts) (root : Result Expr)
      → IsReading resolve done p
      → ParsedOr (done ++ d ∷ ds) d root
      → ((q : Parts)
          → IsReading resolve (done ++ d ∷ []) q
          → Read (done ++ d ∷ ds) (read_all resolve set_names ds q))
      → Read (done ++ d ∷ ds) (
          root >>= λ e. walk resolve set_names d.name e (start_of p) >>= λ r.
          read_all resolve set_names ds (add_part d p r))
  after_parse done ds d p (bad f) h k rest = k
  after_parse done ds d p (good t) h k rest =
      after_walk done ds d p t (walk resolve set_names d.name t (start_of p)) h k
        (walk-Gathered resolve set_names d.name t (start_of p)) rest

  pub read_all-Read :
      (done ds : List Definition) (p : Parts)
      → IsReading resolve done p
      → Read (done ++ ds) (read_all resolve set_names ds p)
  unfolding read_all
  read_all-Read done [] p h = subst (λ l. IsReading resolve l p) (sym (append-nil done)) h
  read_all-Read done (d ∷ ds) p h =
      after_parse done ds d p (parsed d) h (parsed-ParsedOr (done ++ d ∷ ds) d (among done)) (λ q k.
        subst (λ l. Read l (read_all resolve set_names ds q)) (append_assoc done (d ∷ []) ds)
          (read_all-Read (done ++ d ∷ []) ds q k))
    where
      among : (xs : List Definition) → Occurs d (xs ++ d ∷ ds)
      among [] = inl refl
      among (x ∷ xs) = inr (among xs)

  pub no_parts-IsReading : IsReading resolve [] no_parts
  no_parts-IsReading = record {
    from_source = λ n e q. cc;
    rooted = λ n o. absurd o;
    referring = λ n m o. absurd o;
    named = λ m. (λ o. absurd o, λ h. absurd h.2);
    wanted = (λ e. cc, λ h. absurd h.2);
  }
