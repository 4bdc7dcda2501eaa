-- ===== src/Selector/Reservations.antt =====
-- internal/server/selector.go: the counts of a selector are those of the requests it holds.
use fork_llama_swap.Base.{
  ℕ, ◌+◌, ◌-◌, ◌<◌, String, false, ltb, ◌&&◌, ◌=ₛ◌, names, same_name, if◌then◌else◌, if_cases,
  if_keeps, ◌≡◌, ◌≢◌, inl, inr, refl, sym, ap, ◌∙◌, subst, List, [], ◌∷◌, ◌++◌, map, Option, none,
  some, ◌>>=◌, All, Occurs, Ensures, arith,
}
use fork_llama_swap.Selector.{
  SpilloverTarget, SpilloverState, Reading, target_of, new_state, Chosen, chose, refused, update,
  strategy_pin, strategy_warm, strategy_spillover, release_in, release,
}
use fork_llama_swap.Selector.Choice.{Chooses, Reserved, strategy_spillover-Chooses}
use fork_llama_swap.Selector.Middleware.{
  SelectorConfig, Circumstances, Begun, holds, passes, bad_request, unreserved, reserved,
  begin_with, begin, Strategy, pin, warm, spillover, unknown,
}

All-middle :
    (P : String → Type 0) (before : List String) (n : String) (after : List String)
    → All P (before ++ n ∷ after)
    → P n × All P (before ++ after)
All-middle P [] n after h = h
All-middle P (b ∷ before) n after h = let r = All-middle P before n after h.1 in (r.0, (h.0, r.1))

module _ (read : Reading) where
  abbrev model_of : String → String
  model_of n = (read n).0

  abbrev weight : String → String → ℕ
  weight m n = if model_of n =ₛ m then 1 else 0

  -- How many of the targets stand for a model.
  unfoldable pub tally : String → List String → ℕ
  tally m [] = 0
  tally m (n ∷ ns) = weight m n + tally m ns

  tally-middle :
      (m n : String) (before after : List String)
      → tally m (before ++ n ∷ after) ≡ weight m n + tally m (before ++ after)
  unfolding tally
  tally-middle m n [] after = refl
  tally-middle m n (b ∷ before) after = omega (arith, tally-middle m n before after)

  held_counts :
      (f : String → ℕ) (n : String) (before after : List String)
      → ((m : String) → f m ≡ tally m (before ++ n ∷ after))
      → 0 < f (model_of n)
  held_counts f n before after c =
      let w : weight (model_of n) n ≡ 1 = rw (same_name (model_of n)) refl in
      omega (arith, w, c (model_of n), tally-middle (model_of n) n before after)

  more :
      (f : String → ℕ) (i m : String) (held : List String)
      → ((j : String) → f j ≡ tally j held)
      → (if i =ₛ m then f i + 1 else f m) ≡ (if i =ₛ m then 1 else 0) + tally m held
  more f i m held c = elim (names i m) [
    | inl q ↦ let e : f i ≡ f m = ap f q.1 in rw q.0 (omega (arith, e, c m))
    | inr q ↦ rw q.0 (omega (arith, c m))
  ]

  fewer :
      (f : String → ℕ) (n m : String) (before after : List String)
      → ((j : String) → f j ≡ tally j (before ++ n ∷ after))
      → update f (model_of n) (f (model_of n) - 1) m ≡ tally m (before ++ after)
  fewer f n m before after c = elim (names (model_of n) m) [
    | inl q ↦
        let w : weight m n ≡ 1 = rw q.0 refl in
        let e : f (model_of n) ≡ f m = ap f q.1 in
        rw q.0 (omega (arith, w, e, c m, tally-middle m n before after))
    | inr q ↦
        let w : weight m n ≡ 0 = rw q.0 refl in
        rw q.0 (omega (arith, w, c m, tally-middle m n before after))
  ]

  target-Occurs :
      (ns : List String) (t : SpilloverTarget)
      → Occurs t (map (target_of read) ns)
      → Occurs t.target ns × (t.model_id ≡ model_of t.target)
  target-Occurs [] t o = absurd o
  target-Occurs (n ∷ ns) t (inl e) =
      (inl (ap (λ u. u.target) e), subst (λ u. u.model_id ≡ model_of u.target) (sym e) refl)
  target-Occurs (n ∷ ns) t (inr o) = let r = target-Occurs ns t o in (inr r.0, r.1)

  -- To release a held target takes one from the count of its model.
  release_in-held :
      (ns : List String) (n : String) (inflight : String → ℕ)
      → Occurs n ns
      → 0 < inflight (model_of n)
      → release_in (map (target_of read) ns) n inflight
        ≡ update inflight (model_of n) (inflight (model_of n) - 1)
  unfolding release_in
  release_in-held [] n inflight o l = absurd o
  release_in-held (x ∷ ns) n inflight o l = elim (names x n) [
    | inl q ↦
        if_cases (λ g. g ≡ update inflight (model_of n) (inflight (model_of n) - 1))
          ((x =ₛ n) && ltb 0 (inflight (model_of x)))
          (update inflight (model_of x) (inflight (model_of x) - 1))
          (release_in (map (target_of read) ns) n inflight)
          (λ e. ap (λ y. update inflight (model_of y) (inflight (model_of y) - 1)) q.1)
          (λ e. absurd (
            let k : ltb 0 (inflight (model_of x)) ≡ false =
              subst (λ b. (b && ltb 0 (inflight (model_of x))) ≡ false) q.0 e in
            let h : 0 < inflight (model_of x) =
              subst (λ y. 0 < inflight (model_of y)) (sym q.1) l in
            ground (arith, k, h)))
    | inr q ↦
        rw q.0 (elim o [ inl e ↦ absurd (q.1 (sym e)) | inr e ↦ release_in-held ns n inflight e l ])
  ]

  module _ (sel : SelectorConfig) where
    -- The counts and what is held fit the configuration.
    record Accounted (s : SpilloverState) (held : List String) : Type 0 where
      configured : s.targets ≡ map (target_of read) sel.targets
      known : All (λ n. Occurs n sel.targets) held
      counted : (m : String) → s.inflight m ≡ tally m held

    Reserved-Accounted :
        (s : SpilloverState) (held : List String) (t : SpilloverTarget) (name : String)
        (s' : SpilloverState)
        → Accounted s held
        → Occurs t s.targets
        → Reserved s t name s'
        → Accounted s' (name ∷ held)
    unfolding tally
    Reserved-Accounted s held t name s' a o r =
        let k = target-Occurs sel.targets t (subst (Occurs t) a.configured o) in
        record {
          configured = r.2 ∙ a.configured;
          known = (subst (λ n. Occurs n sel.targets) (sym r.0) k.0, a.known);
          counted = λ m.
              r.1 m
              ∙ more s.inflight t.model_id m held a.counted
              ∙ ap (λ i. (if i =ₛ m then 1 else 0) + tally m held) (k.1 ∙ ap model_of (sym r.0));
        }

    Accounted-release :
        (s : SpilloverState) (n : String) (before after : List String)
        → Accounted s (before ++ n ∷ after)
        → Accounted (release n s) (before ++ after)
    unfolding release
    Accounted-release s n before after a = record {
      configured = a.configured;
      known = (All-middle (λ j. Occurs j sel.targets) before n after a.known).1;
      counted = λ m.
          ap (λ g. g m)
            (subst
              (λ ts.
                release_in ts n s.inflight
                ≡ update s.inflight (model_of n) (s.inflight (model_of n) - 1))
              (sym a.configured)
              (release_in-held sel.targets n s.inflight
                (All-middle (λ j. Occurs j sel.targets) before n after a.known).0
                (held_counts s.inflight n before after a.counted)))
          ∙ fewer s.inflight n m before after a.counted;
    }

    -- What is held after a request began.
    abbrev kept : Begun → List String → List String
    kept (holds n) held = n ∷ held
    kept _ held = held

    -- A request that begins, between the calls of the mutex, or one that held its target and ends. A
    -- target released at once is one held that ends next.
    pub data Reachable : SpilloverState → List String → Type 0 where
      starts : Reachable (new_state read sel.spillover_limit sel.targets) []
      begins :
          {s : SpilloverState} {held : List String} (q : Circumstances) {b : Begun}
          {s' : SpilloverState}
          → Reachable s held
          → begin sel model_of q s ≡ some (b, s')
          → Reachable s' (kept b held)
      ends :
          {s : SpilloverState} (before : List String) (n : String) (after : List String)
          → Reachable s (before ++ n ∷ after)
          → Reachable (release n s) (before ++ after)

    abbrev Keeps : List String → Begun × SpilloverState → Type 0
    Keeps held r = Accounted r.1 (kept r.0 held)

    unreserved-Keeps :
        (s : SpilloverState) (held : List String) (o : Option String) (q : Circumstances)
        → Accounted s held
        → Keeps held (unreserved o q, s)
    unreserved-Keeps s held none q a = a
    unreserved-Keeps s held (some t) q a =
        if_keeps (λ b. Keeps held (b, s)) q.replaced (passes t) bad_request a a

    reserved-Keeps :
        (s : SpilloverState) (held : List String) (q : Circumstances) (o : Option Chosen)
        → Accounted s held
        → Chooses s q.running o
        → Ensures (Keeps held) (o >>= λ c. some (reserved c q s))
    reserved-Keeps s held q none a h = absurd h
    reserved-Keeps s held q (some (refused e)) a h = a
    reserved-Keeps s held q (some (chose t s')) a h =
        let k = Reserved-Accounted s held h.0 t s' a h.1 h.2 in
        let released = Accounted-release s' t [] held k in
        if_keeps (Keeps held) q.replaced
          (if q.ignored then (passes t, release t s') else (holds t, s'))
          (bad_request, release t s')
          (if_keeps (Keeps held) q.ignored (passes t, release t s') (holds t, s') released k)
          released

    begin_with-Keeps :
        (g : Strategy) (s : SpilloverState) (held : List String) (q : Circumstances)
        → Accounted s held
        → Ensures (Keeps held) (begin_with g sel.targets model_of q s)
    begin_with-Keeps pin s held q a = unreserved-Keeps s held (strategy_pin sel.targets) q a
    begin_with-Keeps warm s held q a =
        unreserved-Keeps s held (strategy_warm model_of sel.targets q.running) q a
    begin_with-Keeps spillover s held q a =
        reserved-Keeps s held q (strategy_spillover (some s) q.running) a
          (strategy_spillover-Chooses s q.running)
    begin_with-Keeps unknown s held q a = a

    Reachable-Accounted :
        {s : SpilloverState} {held : List String} → Reachable s held → Accounted s held
    unfolding new_state tally
    Reachable-Accounted starts = record { configured = refl; known = tt; counted = λ m. refl }
    Reachable-Accounted (begins {s} {held} q r e) =
        subst (Ensures (Keeps held)) e
          (begin_with-Keeps sel.strategy s held q (Reachable-Accounted r))
    Reachable-Accounted (ends {s} before n after r) =
        Accounted-release s n before after (Reachable-Accounted r)

    -- In every state that the counts of a selector reach, where requests come to the middleware
    -- and end in any order and under any answers, the count of each model is the number of the
    -- requests that hold a target of it, and a further request is handled without a panic.
    pub Reachable-counts :
        (s : SpilloverState) (held : List String) (m : String) (q : Circumstances)
        → Reachable s held
        → (s.inflight m ≡ tally m held) × (begin sel model_of q s ≢ none)
    Reachable-counts s held m q r =
        let a = Reachable-Accounted r in
        (
          a.counted m,
          λ e. subst (Ensures (Keeps held)) e (begin_with-Keeps sel.strategy s held q a),
        )
