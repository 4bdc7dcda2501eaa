-- ===== src/Matrix/Compile/Visit.antt =====
-- internal/matrix/program.go: topologicalOrder. It ends with an order of the sets, or with a circular reference.
use fork_llama_swap.Base.{
  ℕ, zero, suc, ◌+◌, ◌≤◌, ◌<◌, String, ◌≡◌, ◌≢◌, ◌↔◌, inl, inr, refl, sym, subst, name_of_test,
  true, ◌=ₛ◌, if_cases, List, [], ◌∷◌, ◌++◌, length, All, All-mono, All-append, Occurs, Occurs-snoc,
  arith,
}
use fork_llama_swap.Matrix.Compile.{
  Mark, unseen, visiting, visited, Visits, Result, good, bad, ◌>>=◌, put, visit, visit_marked,
  visit_each, visit_unseen, unvisited, topological_order,
}
use fork_llama_swap.Matrix.Compile.Order.{
  Leads, at_once, further, Ordered, nothing, next, IsCircular, Ordered-acyclic,
}
use fork_llama_swap.Matrix.Compile.Marks.{
  unseen_in, unseen_in-le, unseen_in-lt, different, All-from, put_there, unseen_in-length,
}

module _ (deps : String → List String) (universe : List String) where
  -- In the order are exactly the sets that were visited.
  pub record Sound (v : Visits) : Type 0 where
    pub ordered : Ordered deps v.order
    pub marked : (n : String) → (v.state n ≡ visited) ↔ Occurs n v.order
    pub within : All (λ n. Occurs n universe) v.order

  -- What visits leave as it is.
  pub record Grows (v v' : Visits) : Type 0 where
    pub same_visiting : (n : String) → (v.state n ≡ visiting) ↔ (v'.state n ≡ visiting)
    pub unseen_before : (n : String) → v'.state n ≡ unseen → v.state n ≡ unseen
    pub visited_after : (n : String) → v.state n ≡ visited → v'.state n ≡ visited

  Grows-refl : (v : Visits) → Grows v v
  Grows-refl v = record {
    same_visiting = λ n. (λ h. h, λ h. h);
    unseen_before = λ n h. h;
    visited_after = λ n h. h;
  }

  Grows-trans : (u v w : Visits) → Grows u v → Grows v w → Grows u w
  Grows-trans u v w g h = record {
    same_visiting = λ n. (
      λ k. (h.same_visiting n).0 ((g.same_visiting n).0 k),
      λ k. (g.same_visiting n).1 ((h.same_visiting n).1 k),
    );
    unseen_before = λ n k. g.unseen_before n (h.unseen_before n k);
    visited_after = λ n k. h.visited_after n (g.visited_after n k);
  }

  -- The sets that are being visited lead to the one that is to be visited.
  abbrev Above : Visits → String → Type 0
  Above v name = (m : String) → v.state m ≡ visiting → Leads deps m name

  abbrev Ends : Visits → (Visits → Type 0) → Result Visits → Type 0
  Ends v P (good v') = Sound v' × Grows v v' × P v'
  Ends v P (bad e) = IsCircular deps e

  -- The set that is marked is the end of the chain of those that are being visited.
  Above-mark :
      (v : Visits) (name d : String)
      → Above v name
      → Occurs d (deps name)
      → Above (record v { state = put v.state name visiting }) d
  Above-mark v name d a o m =
      if_cases (λ k. k ≡ visiting → Leads deps m d) (name =ₛ m) _ _
        (λ t h. subst (λ n. Leads deps n d) (name_of_test name m t) (at_once d o))
        (λ f h. further name d (a m h) o)

  Sound-mark :
      (v : Visits) (name : String)
      → v.state name ≡ unseen
      → Sound v
      → Sound (record v { state = put v.state name visiting })
  Sound-mark v name u s = record {
    ordered = s.ordered;
    marked = λ n.
        if_cases (λ k. (k ≡ visited) ↔ Occurs n v.order) (name =ₛ n) _ _
          (λ t. (λ h. cc, λ o. cc ((s.marked n).1 o, u, name_of_test name n t))) (λ f. s.marked n);
    within = s.within;
  }

  -- At the end of a visit the set enters the order.
  finished : Visits → String → Visits
  finished v name = record { state = put v.state name visited; order = v.order ++ name ∷ [] }

  Sound-finished :
      (v : Visits) (name : String)
      → v.state name ≡ visiting
      → All (λ d. v.state d ≡ visited) (deps name)
      → Occurs name universe
      → Sound v
      → Sound (finished v name)
  unfolding finished
  Sound-finished v name u a k s = record {
    ordered =
        next v.order name s.ordered
          (All-mono (λ d. v.state d ≡ visited) (λ d. Occurs d v.order) (λ d h. (s.marked d).0 h)
            (deps name) a)
          (λ o. cc ((s.marked name).1 o, u));
    marked = λ n.
        if_cases (λ k. (k ≡ visited) ↔ Occurs n (v.order ++ name ∷ [])) (name =ₛ n) _ _
          (λ t.
            (λ h. (Occurs-snoc v.order name n).1 (inr (sym (name_of_test name n t))), λ o. refl))
          (λ f. (
            λ h. (Occurs-snoc v.order name n).1 (inl ((s.marked n).0 h)),
            λ o. elim ((Occurs-snoc v.order name n).0 o) [
              | inl h ↦ (s.marked n).1 h
              | inr e ↦ absurd (different name n f e)
            ],
          ));
    within = All-append (λ n. Occurs n universe) v.order (name ∷ []) s.within (k, tt);
  }

  -- The marks before a visit and after it, which differ from those within it at the set alone.
  Grows-visit :
      (v u : Visits) (name : String)
      → v.state name ≡ unseen
      → Grows (record v { state = put v.state name visiting }) u
      → Grows v (finished u name)
  unfolding finished
  Grows-visit v u name e g = record {
    same_visiting = λ n. ground (arith, g.same_visiting n, at_name n);
    unseen_before = λ n. ground (arith, g.unseen_before n, at_name n);
    visited_after = λ n. ground (arith, g.visited_after n, at_name n);
  }
    where
      at_name : (n : String) → (name =ₛ n) ≡ true → v.state n ≡ unseen
      at_name n t = subst (λ k. v.state k ≡ unseen) (name_of_test name n t) e

  abbrev AllVisited : List String → Visits → Type 0
  AllVisited ns v = All (λ n. v.state n ≡ visited) ns

  Ends-bind :
      (v : Visits) (P Q : Visits → Type 0) (r : Result Visits) (k : Visits → Result Visits)
      → Ends v P r
      → ((v' : Visits) → Sound v' → Grows v v' → P v' → Ends v Q (k v'))
      → Ends v Q (r >>= k)
  Ends-bind v P Q (good v') k h f = f v' h.0 h.1 h.2
  Ends-bind v P Q (bad e) k h f = h

  -- What ends well after more visits ends well after fewer.
  Ends-after :
      (u v : Visits) (P Q : Visits → Type 0) (r : Result Visits)
      → Grows u v
      → Ends v P r
      → ((w : Visits) → Grows v w → P w → Q w)
      → Ends u Q r
  Ends-after u v P Q (good w) g h f = (h.0, Grows-trans u v w g h.1, f w h.1 h.2)
  Ends-after u v P Q (bad e) g h f = h

  -- The end of the visit of a set, after the loop over its references.
  finish-Ends :
      (v : Visits) (name : String) (r : Result Visits)
      → v.state name ≡ unseen
      → Occurs name universe
      → Ends (record v { state = put v.state name visiting }) (AllVisited (deps name)) r
      → Ends v
          (λ v'. v'.state name ≡ visited)
          (r >>= λ u.
            good (record { state = put u.state name visited; order = u.order ++ name ∷ [] }))
  unfolding finished
  finish-Ends v name (bad e) u k h = h
  finish-Ends v name (good w) u k h = (
    Sound-finished w name ((h.1.same_visiting name).0 (put_there v.state name visiting)) h.2 k h.0,
    Grows-visit v w name u h.1,
    put_there w.state name visited,
  )

  -- What a visit has to be given.
  record Given (f : ℕ) (v : Visits) (name : String) : Type 0 where
    fuel_left : unseen_in universe v.state < f
    known : Occurs name universe
    sound : Sound v
    above : Above v name

  abbrev VisitEnds : ℕ → (String → Visits → Result Visits) → Type 0
  VisitEnds f visitor =
      (name : String) (v : Visits)
      → Given f v name
      → Ends v (λ v'. v'.state name ≡ visited) (visitor name v)

  Above-grown : (v v' : Visits) (n : String) → Grows v v' → Above v n → Above v' n
  Above-grown v v' n g a m h = a m ((g.same_visiting m).1 h)

  fuel-grown :
      (f : ℕ) (v v' : Visits)
      → Grows v v'
      → unseen_in universe v.state < f
      → unseen_in universe v'.state < f
  fuel-grown f v v' g h = omega (arith, h, unseen_in-le universe v.state v'.state g.unseen_before)

  -- The loop over the references of a set.
  each-Ends :
      (f : ℕ) (visitor : String → Visits → Result Visits)
      → VisitEnds f visitor
      → (ns : List String) (v : Visits) → unseen_in universe v.state < f
      → All (λ n. Occurs n universe) ns
      → Sound v
      → All (Above v) ns
      → Ends v (AllVisited ns) (visit_each visitor ns v)
  each-Ends f visitor h [] v l k s a = (s, Grows-refl v, tt)
  each-Ends f visitor h (n ∷ ns) v l k s a =
      Ends-bind v (λ v'. v'.state n ≡ visited) (AllVisited (n ∷ ns)) (visitor n v)
        (visit_each visitor ns)
        (h n v (record { fuel_left = l; known = k.0; sound = s; above = a.0 }))
        (λ v' s' g e.
          Ends-after v v' (AllVisited ns) (AllVisited (n ∷ ns)) (visit_each visitor ns v') g
            (each-Ends f visitor h ns v' (fuel-grown f v v' g l) k.1 s'
              (All-mono (Above v) (Above v') (λ m b. Above-grown v v' m g b) ns a.1))
            (λ w g' q. (g'.visited_after n e, q)))

  -- A visit.
  module _ (closed : (n : String) → All (λ d. Occurs d universe) (deps n)) where
    marked-Ends :
        (f : ℕ) (name : String) (v : Visits) (m : Mark)
        → VisitEnds f (visit deps f)
        → Given (suc f) v name
        → v.state name ≡ m
        → Ends v
            (λ v'. v'.state name ≡ visited)
            (visit_marked m name (λ u. visit_each (visit deps f) (deps name) u) v)
    marked-Ends f name v visiting h g e = g.above name e
    marked-Ends f name v visited h g e = (g.sound, Grows-refl v, e)
    marked-Ends f name v unseen h g e =
        finish-Ends v name
          (visit_each (visit deps f) (deps name) (record v { state = put v.state name visiting })) e
          g.known
          (each-Ends f (visit deps f) h (deps name) (record v { state = put v.state name visiting })
            (omega (arith, g.fuel_left, unseen_in-lt universe v.state name e g.known)) (closed name)
            (Sound-mark v name e g.sound)
            (All-from (Above (record v { state = put v.state name visiting })) (deps name)
              (λ d o. Above-mark v name d g.above o)))

    visit-Ends : (f : ℕ) → VisitEnds f (visit deps f)
    unfolding visit
    visit-Ends zero name v g = absurd (omega (arith, g.fuel_left))
    visit-Ends (suc f) name v g = marked-Ends f name v (v.state name) (visit-Ends f) g refl

    -- The loop over the definitions, where no set is being visited.
    abbrev Rests : Visits → Type 0
    Rests v = (n : String) → v.state n ≢ visiting

    unseen-Ends :
        (f : ℕ) (name : String) (v : Visits) (m : Mark)
        → Given f v name
        → v.state name ≡ m
        → m ≢ visiting
        → Ends v
            (λ v'. v'.state name ≡ visited)
            (elim m [ unseen ↦ visit deps f name v | _ ↦ good v ])
    unseen-Ends f name v unseen g e r = visit-Ends f name v g
    unseen-Ends f name v visiting g e r = absurd (r refl)
    unseen-Ends f name v visited g e r = (g.sound, Grows-refl v, e)

    roots_end :
        (f : ℕ) (ns : List String) (v : Visits)
        → unseen_in universe v.state < f
        → All (λ n. Occurs n universe) ns
        → Sound v
        → Rests v
        → Ends v (AllVisited ns) (visit_each (visit_unseen deps f) ns v)
    roots_end f [] v l k s r = (s, Grows-refl v, tt)
    roots_end f (n ∷ ns) v l k s r =
        Ends-bind v (λ v'. v'.state n ≡ visited) (AllVisited (n ∷ ns)) (visit_unseen deps f n v)
          (visit_each (visit_unseen deps f) ns)
          (unseen-Ends f n v (v.state n)
            (record { fuel_left = l; known = k.0; sound = s; above = λ m h. absurd (r m h) }) refl
            (r n))
          (λ v' s' g e.
            Ends-after v v' (AllVisited ns) (AllVisited (n ∷ ns))
              (visit_each (visit_unseen deps f) ns v') g
              (roots_end f ns v' (fuel-grown f v v' g l) k.1 s'
                (λ m h. r m ((g.same_visiting m).1 h)))
              (λ w g' q. (g'.visited_after n e, q)))

  -- What topologicalOrder promises for the names of the definitions: an order that has them, or a
  -- circular reference.
  abbrev pub Orders : List String → Result (List String) → Type 0
  Orders ns (good order) =
      Ordered deps order
      × All (λ n. Occurs n order) ns
      × All (λ n. Occurs n universe) order
      × All (λ n. Leads deps n n → ⊥) order
  Orders ns (bad e) = IsCircular deps e

  Orders-Ends :
      (ns : List String) (v : Visits) (r : Result Visits)
      → Ends v (AllVisited ns) r
      → Orders ns (r >>= λ w. good w.order)
  Orders-Ends ns v (bad e) h = h
  Orders-Ends ns v (good w) h = (
    h.0.ordered,
    All-mono (λ n. w.state n ≡ visited) (λ n. Occurs n w.order) (λ n e. (h.0.marked n).0 e) ns h.2,
    h.0.within,
    All-from (λ n. Leads deps n n → ⊥) w.order
        (λ n o. Ordered-acyclic deps w.order n h.0.ordered o),
  )

  -- If the references of all sets are among some names, which have the definitions and at most one
  -- name more, then topologicalOrder returns an order of such names that has all definitions, in
  -- which each name stands once and behind all that it refers to, and no name leads to itself; or
  -- it fails and names a set that does lead to itself.
  pub topological_order-Orders :
      (ns : List String)
      → All (λ n. Occurs n universe) ns
      → length universe ≤ length ns + 1
      → ((n : String) → All (λ d. Occurs d universe) (deps n))
      → Orders ns (topological_order deps ns)
  unfolding topological_order
  topological_order-Orders ns known l closed =
      Orders-Ends ns (unvisited deps)
        (visit_each (visit_unseen deps (length ns + 2)) ns (unvisited deps))
        (roots_end closed (length ns + 2) ns (unvisited deps)
          (omega (arith, l, unseen_in-length universe)) known
          (record { ordered = nothing; marked = λ n. (λ h. cc, λ h. absurd h); within = tt })
          (λ n h. cc))
