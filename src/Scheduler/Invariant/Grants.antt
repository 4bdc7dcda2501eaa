-- ===== src/Scheduler/Invariant/Grants.antt =====
-- internal/router/scheduler/fifo.go: release, grantHandler, grantError and admit keep the books.
use fork_llama_swap.Base.{
  ℕ, ◌+◌, ◌<◌, ◌≡◌, refl, inl, inr, String, List, [], ◌∷◌, Bool-cases, leb, subst, sym, same_name,
  names, All, Occurs, Ensures, Ensures-bind, Ensures-mono, arith,
}
use fork_llama_swap.Scheduler.Model.{
  HandlerReq, World, Error, Fifo, ActiveSwap, grant_serve, limit, release, call, update,
}
use fork_llama_swap.Scheduler.Grant.{grant_handler, refuse}
use fork_llama_swap.Scheduler.Invariant.{
  Holds, HoldsAt, Keeps, KeepsAt, Keeps-of-KeepsAt, Spares, hits,
}

-- A request leaves the books: its model is held once less.
abbrev pub OneLess : (String → ℕ) → (String → ℕ) → String → Type 0
OneLess held held' m = (j : String) → held j ≡ held' j + hits m j

module _ (active : List ActiveSwap) (held held' : String → ℕ) (s : Fifo) (m : String)
    (less : OneLess held held' m) where
  reserved_pos : HoldsAt active held s → 0 < s.reserved m
  reserved_pos v = ground (arith, v.accounted m, less m, same_name m)

  pub release-KeepsAt : HoldsAt active held s → Ensures (KeepsAt active held' s) (release s m)
  unfolding release limit
  release-KeepsAt v = elim (Bool-cases (leb (s.reserved m) 0)) [
    | inl z ↦ absurd (ground (arith, reserved_pos v))
    | inr p ↦ rw p (
      record {
        accounted = λ j. elim (names m j) [
          | inl (t, e) ↦ ground (arith, v.accounted j, v.accounted m, less j, less m, same_name m)
          | inr (t, e) ↦ ground (arith, v.accounted j, less j)
        ];
        bounded = λ j. ground (arith, v.bounded j, v.bounded m, names m j);
        own = v.own;
        apart = v.apart;
        unbusy = v.unbusy;
      },
      refl,
      refl,
    )
  ]

module _ (held held' : String → ℕ) (s : Fifo) (m : String) (less : OneLess held held' m) where
  pub release-Keeps : Holds held s → Ensures (Keeps held' s) (release s m)
  release-Keeps v =
      Ensures-mono (KeepsAt s.active held' s) (Keeps held' s) _ (Keeps-of-KeepsAt held' s)
        (release-KeepsAt s.active held held' s m less v)

module _ (active : List ActiveSwap) (held held' : String → ℕ) (s : Fifo) (m : String)
    (less : OneLess held held' m) where
  -- A granted request moves to the requests in flight, or leaves; nobody may be evicting its model.
  pub grant_handler-KeepsAt :
      (w : World) (req : HandlerReq)
      → HoldsAt active held s
      → All (λ (sw : ActiveSwap). ¬ Occurs m sw.evict) active
      → Ensures (KeepsAt active held' s) (grant_handler w s req m)
  unfolding grant_handler limit
  grant_handler-KeepsAt w req v free = elim (Bool-cases (w.receives_grant req)) [
    | inl t ↦ rw t (
      record {
        accounted = λ j. ground (arith, names m j, v.accounted j, less j);
        bounded = v.bounded;
        own = v.own;
        apart = v.apart;
        unbusy = still_unbusy active v.unbusy free;
      },
      refl,
      refl,
    )
    | inr t ↦ rw t (release-KeepsAt active held held' (call (grant_serve req m) s) m less v)
  ]
    where
      still_unbusy :
          (swaps : List ActiveSwap)
          → All (Spares s.in_flight) swaps
          → All (λ (sw : ActiveSwap). ¬ Occurs m sw.evict) swaps
          → All (Spares (update s.in_flight m (s.in_flight m + 1))) swaps
      still_unbusy [] h k = tt
      still_unbusy (sw ∷ swaps) h k = (
        λ j o. elim (names m j) [
          | inl (t, e) ↦ absurd (k.0 (subst (λ x. Occurs x sw.evict) (sym e) o))
          | inr (t, e) ↦ rw t (h.0 j o)
        ],
        still_unbusy swaps h.1 k.1,
      )

module _ (held held' : String → ℕ) (s : Fifo) (m : String) (less : OneLess held held' m) where
  pub grant_handler-Keeps :
      (w : World) (req : HandlerReq)
      → Holds held s
      → All (λ (sw : ActiveSwap). ¬ Occurs m sw.evict) s.active
      → Ensures (Keeps held' s) (grant_handler w s req m)
  grant_handler-Keeps w req v free =
      Ensures-mono (KeepsAt s.active held' s) (Keeps held' s) _ (Keeps-of-KeepsAt held' s)
        (grant_handler-KeepsAt s.active held held' s m less w req v free)

module _ (held held' : String → ℕ) (s : Fifo) (req : HandlerReq)
    (less : OneLess held held' req.model) where
  pub refuse-KeepsAt :
      (active : List ActiveSwap) (err : Error)
      → HoldsAt active held s
      → Ensures (KeepsAt active held' s) (refuse s req err)
  unfolding refuse limit
  refuse-KeepsAt active err v =
      Ensures-bind (KeepsAt active held' s) (KeepsAt active held' s) (release s req.model) _
        (release-KeepsAt active held held' s req.model less v) (λ s' k. k)

  pub refuse-Keeps : (err : Error) → Holds held s → Ensures (Keeps held' s) (refuse s req err)
  refuse-Keeps err v =
      Ensures-mono (KeepsAt s.active held' s) (Keeps held' s) _ (Keeps-of-KeepsAt held' s)
        (refuse-KeepsAt s.active err v)
