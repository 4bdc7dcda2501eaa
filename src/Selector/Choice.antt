-- ===== src/Selector/Choice.antt =====
-- internal/server/selector.go: which target the spillover strategy chooses.
use fork_llama_swap.Base.{
  ℕ, ◌+◌, ◌≤◌, ◌<◌, String, true, false, ltb, ◌=ₛ◌, if◌then◌else◌, if_cases, ◌≡◌, ◌≢◌, ◌⊎◌, inl,
  inr, refl, sym, subst, List, [], ◌∷◌, Option, none, some, ◌>>=◌, All, All-mono, All-Occurs,
  Occurs, arith,
}
use fork_llama_swap.Selector.{
  SpilloverTarget, SpilloverState, no_available_target, Running, Class, active, cold, skipped,
  class_of, of_class, minimum, reserve, reserve_least_busy, Chosen, chose, refused, as_chosen,
  below, pick, strategy_spillover,
}
use fork_llama_swap.Selector.LeastBusy.{count, minimum_lem, LeastOf, reserve_least_busy_lem}
use fork_llama_swap.Selector.Classes.{
  of_class_sound, of_class_complete, FirstOf, of_class-first, Is, class_of-Is, Is-class_of,
}

-- The choice of the spillover strategy: which target, and what changes, for a meaning of the classes.
abbrev Shares : (Class → SpilloverTarget → Type 0) → SpilloverState → SpilloverTarget → Type 0
Shares is s t =
    is active t
    × All (λ u. is active u → count s.inflight t ≤ count s.inflight u) s.targets
    × ((count s.inflight t < s.spillover) ⊎ All (λ u. is cold u → ⊥) s.targets)

abbrev Spills : (Class → SpilloverTarget → Type 0) → SpilloverState → SpilloverTarget → Type 0
Spills is s t =
    FirstOf (is cold) s.targets t
    × All (λ u. is active u → s.spillover ≤ count s.inflight u) s.targets

abbrev pub Reserved : SpilloverState → SpilloverTarget → String → SpilloverState → Type 0
Reserved s t name s' =
    (name ≡ t.target)
    × ((m : String)
        → s'.inflight m ≡ (if t.model_id =ₛ m then s.inflight t.model_id + 1 else s.inflight m))
    × (s'.targets ≡ s.targets)
    × (s'.spillover ≡ s.spillover)

abbrev ChoosesBy : (Class → SpilloverTarget → Type 0) → SpilloverState → Option Chosen → Type 0
ChoosesBy is s none = ⊥
ChoosesBy is s (some (refused e)) = (e ≡ no_available_target) × All (is skipped) s.targets
ChoosesBy is s (some (chose name s')) =
    (t : SpilloverTarget) × Occurs t s.targets
    × Reserved s t name s'
    × (Shares is s t ⊎ Spills is s t)

abbrev pub Chooses : SpilloverState → Running → Option Chosen → Type 0
Chooses s running o = ChoosesBy (Is s running) s o

-- Two meanings of the classes that agree make the same choices.
ChoosesBy-same :
    (is js : Class → SpilloverTarget → Type 0)
    → ((c : Class) (u : SpilloverTarget) → is c u → js c u)
    → ((c : Class) (u : SpilloverTarget) → js c u → is c u)
    → (s : SpilloverState) (o : Option Chosen) → ChoosesBy is s o
    → ChoosesBy js s o
ChoosesBy-same is js f g s none h = h
ChoosesBy-same is js f g s (some (refused e)) h =
    (h.0, All-mono (is skipped) (js skipped) (f skipped) s.targets h.1)
ChoosesBy-same is js f g s (some (chose name s')) h =
    (h.0, h.1, h.2, elim h.3 [ inl k ↦ inl (shared k) | inr k ↦ inr (spilled k) ])
  where
    apart :
        (c : Class) (ts : List SpilloverTarget)
        → All (λ u. is c u → ⊥) ts
        → All (λ u. js c u → ⊥) ts
    apart c ts = All-mono (λ u. is c u → ⊥) (λ u. js c u → ⊥) (λ u n k. n (g c u k)) ts

    busy :
        (m n : SpilloverTarget → ℕ)
        → All (λ u. is active u → m u ≤ n u) s.targets
        → All (λ u. js active u → m u ≤ n u) s.targets
    busy m n =
        All-mono (λ u. is active u → m u ≤ n u) (λ u. js active u → m u ≤ n u)
          (λ u n k. n (g active u k)) s.targets

    shared : Shares is s h.0 → Shares js s h.0
    shared k = (
      f active h.0 k.0,
      busy (λ u. count s.inflight h.0) (count s.inflight) k.1,
      elim k.2 [ inl l ↦ inl l | inr l ↦ inr (apart cold s.targets l) ],
    )

    spilled : Spills is s h.0 → Spills js s h.0
    spilled k = (
      (k.0.0, k.0.1, k.0.2, apart cold k.0.0 k.0.3, f cold h.0 k.0.4),
      busy (λ u. s.spillover) (count s.inflight) k.1,
    )

skipped_left :
    (class : SpilloverTarget → Class) (ts : List SpilloverTarget)
    → All (λ u. class u ≡ active → ⊥) ts
    → All (λ u. class u ≡ cold → ⊥) ts
    → All (λ u. class u ≡ skipped) ts
skipped_left class [] h k = tt
skipped_left class (t ∷ ts) h k = (left (class t) h.0 k.0, skipped_left class ts h.1 k.1)
  where
    left : (c : Class) → (c ≡ active → ⊥) → (c ≡ cold → ⊥) → c ≡ skipped
    left active h k = absurd (h refl)
    left cold h k = absurd (k refl)
    left skipped h k = refl

module _ (s : SpilloverState) (running : Running) where
  abbrev class : SpilloverTarget → Class
  class = class_of s running

  abbrev By : Class → SpilloverTarget → Type 0
  By c u = class u ≡ c

  none_of : (c : Class) → of_class c class s.targets ≡ [] → All (λ u. class u ≡ c → ⊥) s.targets
  none_of c e = of_class_complete c class (λ _. ⊥) s.targets (subst (All (λ _. ⊥)) (sym e) tt)

  spills :
      (t : SpilloverTarget) (ts : List SpilloverTarget)
      → of_class cold class s.targets ≡ t ∷ ts
      → All (λ u. class u ≡ active → s.spillover ≤ count s.inflight u) s.targets
      → ChoosesBy By s (some (as_chosen (reserve t s)))
  spills t ts e h = (
    t,
    (of_class_sound cold class s.targets t (subst (Occurs t) (sym e) (inl refl))).0,
    (refl, λ m. refl, refl, refl),
    inr (of_class-first cold class s.targets t ts e, h),
  )

  shares :
      (us : List SpilloverTarget)
      → of_class active class s.targets ≡ us
      → us ≢ []
      → ((t : SpilloverTarget)
          → LeastOf s.inflight us t
          → (count s.inflight t < s.spillover) ⊎ All (λ u. class u ≡ cold → ⊥) s.targets)
      → ChoosesBy By s (reserve_least_busy us s >>= λ r. some (as_chosen r))
  shares us e n h =
      let r = reserve_least_busy_lem us s n in
      let among = of_class_sound active class s.targets r.0 (subst (Occurs r.0) (sym e) r.2.0) in
      rw r.1 (
        r.0,
        among.0,
        (refl, λ m. refl, refl, refl),
        inl (
          among.1,
          of_class_complete active class (λ u. count s.inflight r.0 ≤ count s.inflight u) s.targets
              (subst (All (λ u. count s.inflight r.0 ≤ count s.inflight u)) (sym e) r.2.1),
          h r.0 r.2,
        ),
      )

  pick_lem :
      (us cs : List SpilloverTarget)
      → of_class active class s.targets ≡ us
      → of_class cold class s.targets ≡ cs
      → ChoosesBy By s (pick us cs s)
  pick_lem [] [] d e = (refl, skipped_left class s.targets (none_of active d) (none_of cold e))
  pick_lem [] (t ∷ ts) d e = spills t ts e (
      All-mono (λ u. class u ≡ active → ⊥)
        (λ u. class u ≡ active → s.spillover ≤ count s.inflight u) (λ u f q. absurd (f q)) s.targets
        (none_of active d))
  pick_lem (a ∷ us) [] d e = shares (a ∷ us) d (λ q. cc) (λ t l. inr (none_of cold e))
  pick_lem (a ∷ us) (t ∷ ts) d e =
      let k = minimum_lem s.inflight (a ∷ us) (λ q. cc) in
      if_cases (ChoosesBy By s) (below (minimum s.inflight (a ∷ us)) s.spillover)
        (reserve_least_busy (a ∷ us) s >>= λ r. some (as_chosen r)) (some (as_chosen (reserve t s)))
        (λ b.
          shares (a ∷ us) d (λ q. cc)
            (λ u l. inl (
              let least = k.2.1 in
              let h =
                All-Occurs (λ v. count s.inflight u ≤ count s.inflight v) (a ∷ us) least.0 l.1
                  least.1 in
              let c : ltb k.0 s.spillover ≡ true = subst (λ o. below o s.spillover ≡ true) k.1 b in
              ground (arith, h, c, least.2))))
        (λ b. spills t ts e (
          let c : ltb k.0 s.spillover ≡ false = subst (λ o. below o s.spillover ≡ false) k.1 b in
          of_class_complete active class (λ u. s.spillover ≤ count s.inflight u) s.targets
            (subst (All (λ u. s.spillover ≤ count s.inflight u)) (sym d) (
              All-mono (λ u. k.0 ≤ count s.inflight u) (λ u. s.spillover ≤ count s.inflight u)
                (λ u l. ground (arith, c, l)) (a ∷ us) k.2.0))))

  -- For a configured selector strategySpillover does not panic. It fails exactly with the error
  -- that no target is available, and then every target is local and its process is stopping or
  -- shut down. Of the targets, one is active if it is local and its process is ready or starting,
  -- and one that is not local, whose process does not run or whose process is stopped, is active
  -- if its model holds a request, and cold if not. Otherwise it adds one to the count of the model
  -- of a target of the selector, answers the target, and changes no other count; the target is an
  -- active one as little busy as any other active one, whose count is below the limit or beside
  -- which there is no cold target, or it is the first cold target and every active one has reached
  -- the limit.
  pub strategy_spillover-Chooses : Chooses s running (strategy_spillover (some s) running)
  unfolding strategy_spillover
  strategy_spillover-Chooses =
      ChoosesBy-same By (Is s running)
        (λ c u e. subst (λ d. Is s running d u) e (class_of-Is s running u))
        (λ c u k. Is-class_of s running c u k) s (strategy_spillover (some s) running)
        (pick_lem (of_class active class s.targets) (of_class cold class s.targets) refl refl)
