-- ===== src/Scheduler/Invariant/Drain.antt =====
-- internal/router/scheduler/fifo.go: drainQueue returns, and keeps the books.
use fork_llama_swap.Base.{
  ℕ, ◌+◌, ◌≡◌, refl, ap, String, Bool, true, false, Bool-cases, List, [], ◌∷◌, ◌++◌, some, none,
  Option-cases, All, All-mono, Occurs, Ensures, Ensures-bind, inl, inr, arith,
}
use fork_llama_swap.Scheduler.Model.{
  HandlerReq, World, ProcessState, Fifo, ActiveSwap, limit, model_not_found,
}
use fork_llama_swap.Scheduler.Collision.{collides_with, conflicts_with_in_flight}
use fork_llama_swap.Scheduler.Grant.{broadcast_keeps}
use fork_llama_swap.Scheduler.Decide.{
  Verdict, join, serve, wait, swap, find_active, new_swap, slow_path, weigh, decide, on_pending,
  drain_one, drain_from, drain_pending, drain_queue,
}
use fork_llama_swap.Scheduler.Invariant.{
  Holds, Keeps, Inv, NoClash, hits, count, count-append, queued_for, Holds-congr,
}
use fork_llama_swap.Scheduler.Invariant.Grants.{OneLess, grant_handler-Keeps, refuse-Keeps}
use fork_llama_swap.Scheduler.Invariant.Swaps.{
  join-Holds, begin_swap-Holds, collides_with-NoClash, find_active-none,
}

-- What a verdict may rely on.
abbrev pub Justified : Fifo → String → Verdict → Type 0
Justified s m join = (sw : ActiveSwap) × (find_active m s.active ≡ some sw)
Justified s m serve = All (λ (sw : ActiveSwap). ¬ Occurs m sw.evict) s.active
Justified s m wait = Unit {0}
Justified s m (swap evict running) =
    (find_active m s.active ≡ none)
    × (collides_with m evict s.active ≡ false)
    × (conflicts_with_in_flight evict s.in_flight ≡ false)

All-spared :
    (req : HandlerReq) (active : List ActiveSwap)
    → find_active req.model active ≡ none
    → collides_with req.model [] active ≡ false
    → All (λ (sw : ActiveSwap). ¬ Occurs req.model sw.evict) active
All-spared req active h c =
    All-mono (NoClash (new_swap req 0 [])) (λ (sw : ActiveSwap). ¬ Occurs req.model sw.evict)
      (λ sw n. n.1) active
      (collides_with-NoClash (new_swap req 0 []) active c (find_active-none req.model active h))

module _ (s : Fifo) (req : HandlerReq) (fresh : find_active req.model s.active ≡ none) where
  slow_path-Justified :
      (running evict : List String) → Justified s req.model (slow_path s req.model running evict)
  unfolding slow_path
  slow_path-Justified running evict = elim (Bool-cases (collides_with req.model evict s.active)) [
    | inl c ↦ rw c tt
    | inr c ↦ elim (Bool-cases (conflicts_with_in_flight evict s.in_flight)) [
      | inl k ↦ rw (c, k) tt
      | inr k ↦ rw (c, k) (fresh, c, k)
    ]
  ]

  weigh-Justified :
      (at_ready : Bool) (running evict : List String)
      → Justified s req.model (weigh s req.model at_ready running evict)
  unfolding weigh
  weigh-Justified true running [] = elim (Bool-cases (collides_with req.model [] s.active)) [
    | inl c ↦ rw c tt
    | inr c ↦ rw c (All-spared req s.active fresh c)
  ]
  weigh-Justified true running (e ∷ evict) = slow_path-Justified running (e ∷ evict)
  weigh-Justified false running evict = slow_path-Justified running evict

module _ (eviction_for : String → List String → List String) where
  pub decide-Justified :
      (w : World) (s : Fifo) (req : HandlerReq) (state : ProcessState)
      → Justified s req.model (decide eviction_for w s req.model state)
  unfolding decide
  decide-Justified w s req state = elim (Option-cases (find_active req.model s.active)) [
    | inl e ↦ rw e (weigh-Justified s req e _ _ _)
    | inr (sw, e) ↦ rw e (sw, e)
  ]

abbrev Drained : (String → ℕ) → Fifo × List HandlerReq → Type 0
Drained rest r = Holds (λ j. count j r.1 + rest j) r.0

module _ (w : World) (s : Fifo) (remaining : List HandlerReq) (req : HandlerReq)
    (rest : String → ℕ) where
  abbrev before : String → ℕ
  before j = count j remaining + (hits req.model j + rest j)

  abbrev after : String → ℕ
  after j = count j remaining + rest j

  less : OneLess before after req.model
  less j = omega arith

  requeued : Holds before s → Holds (λ j. count j (remaining ++ req ∷ []) + rest j) s
  unfolding limit
  requeued v = record {
    accounted = λ j. omega (arith, v.accounted j, count-append j remaining (req ∷ []));
    bounded = v.bounded;
    own = v.own;
    apart = v.apart;
    unbusy = v.unbusy;
  }

  on_pending-Drained :
      (v : Verdict)
      → Justified s req.model v
      → Holds before s
      → Ensures (Drained rest) (on_pending w s remaining req v)
  unfolding on_pending
  on_pending-Drained join (sw, h) v = join-Holds req before after s less sw h v
  on_pending-Drained serve free v =
      Ensures-bind (Keeps after s) (Drained rest) _ _
        (grant_handler-Keeps before after s req.model less w req v free) (λ s' k. k.0)
  on_pending-Drained wait h v = requeued v
  on_pending-Drained (swap evict running) h v =
      begin_swap-Holds req before after s less evict running h.0 h.1 h.2 v

  drain_one-Drained :
      (eviction_for : String → List String → List String)
      → Holds before s
      → Ensures (Drained rest) (drain_one eviction_for w s remaining req)
  unfolding drain_one
  drain_one-Drained eviction_for v = elim (Option-cases (w.model_state req.model)) [
    | inl e ↦
        rw (e, drain_one)
          (Ensures-bind (Keeps after s) (Drained rest) _ _
            (refuse-Keeps before after s req less model_not_found v) (λ s' k. k.0))
    | inr (state, e) ↦
        rw (e, drain_one)
          (on_pending-Drained (decide eviction_for w s req.model state)
            (decide-Justified eviction_for w s req state) v)
  ]

module _ (eviction_for : String → List String → List String) (ws : ℕ → World) where
  drain_from-Drained :
      (i : ℕ) (s : Fifo) (remaining pending : List HandlerReq)
      → Holds (λ j. count j remaining + count j pending) s
      → Ensures (Drained (λ j. 0)) (drain_from eviction_for ws i s remaining pending)
  unfolding drain_from
  drain_from-Drained i s remaining [] v = v
  drain_from-Drained i s remaining (req ∷ pending) v =
      Ensures-bind (Drained (λ j. count j pending)) (Drained (λ j. 0)) _ _
        (drain_one-Drained (ws i) s remaining req (λ j. count j pending) eviction_for v)
        (λ r h. drain_from-Drained (i + 1) r.0 r.1 pending h)

  drain_pending-Inv :
      (s : Fifo) (pending : List HandlerReq)
      → s.queued ≡ pending
      → Inv s
      → Ensures Inv (drain_pending eviction_for ws s pending)
  unfolding drain_pending limit
  drain_pending-Inv s [] e v = v
  drain_pending-Inv s (req ∷ pending) e v =
      Ensures-bind (Drained (λ j. 0)) Inv _ _
        (drain_from-Drained 0 s [] (req ∷ pending)
          (Holds-congr (queued_for s.queued) _ s (λ j. ground (arith, ap (count j) e)) v))
        (λ r h.
          broadcast_keeps Inv (λ e s k. k) (record r.0 { queued = r.1 })
            (Holds-congr _ (queued_for r.1) r.0 (λ j. omega arith) h))

  pub drain_queue-Inv : (s : Fifo) → Inv s → Ensures Inv (drain_queue eviction_for ws s)
  unfolding drain_queue
  drain_queue-Inv s v = drain_pending-Inv s s.queued refl v
