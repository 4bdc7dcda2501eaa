-- ===== src/Scheduler/Reach.antt =====
-- internal/router/scheduler/fifo.go under the run loop of internal/router/base.go: what holds of the
-- scheduler after any events, whatever the world answers and whatever the planner decides.
use fork_llama_swap.Base.{
  ℕ, ◌+◌, ◌≤◌, ◌<◌, ◌≡◌, refl, sym, subst, ◌⊎◌, inl, inr, String, List, [], Option, some, none, All,
  ◌++◌, ◌∷◌, ◌≢◌, Ensures, Ensures-mono, Ensures-and, arith,
}
use fork_llama_swap.Base.Int.{ℤ}
use fork_llama_swap.Scheduler.Model.{World, HandlerReq, Fifo, new_fifo, limit}
use fork_llama_swap.Scheduler.Grant.{insert_by_priority}
use fork_llama_swap.Scheduler.Events.{
  Event, requested, cancelled, swap_done, serve_done, unload, step,
}
use fork_llama_swap.Scheduler.Invariant.{Inv, Apart, Spares, waiting, count}
use fork_llama_swap.Scheduler.Invariant.Requests.{on_request-Inv}
use fork_llama_swap.Scheduler.Invariant.Cancel.{on_cancel-Inv}
use fork_llama_swap.Scheduler.Invariant.Handlers.{
  on_swap_done-Inv, on_serve_done-Inv, on_unload-Inv,
}
use fork_llama_swap.Scheduler.Wakeup.{Awake}
use fork_llama_swap.Scheduler.Wakeup.Handlers.{step-Awake}
use fork_llama_swap.Scheduler.Order.{
  IsSorted, of_priority, insert-own_priority, IsSorted-Sub, insert-IsSorted,
}
use fork_llama_swap.Scheduler.Order.Steps.{QueueStep, step-QueueStep}

-- A request that ends has been granted before.
abbrev pub Allowed : Fifo → Event → Type 0
Allowed s (requested req) = Unit
Allowed s (cancelled req) = Unit
Allowed s (swap_done ev) = Unit
Allowed s (serve_done m) = 0 < s.in_flight m
Allowed s (unload targets timeout) = Unit

pub record Good (s : Fifo) : Type 0 where
  pub inv : Inv s
  pub awake : Awake s
  pub sorted : IsSorted s.priority s.queued

new_fifo-Good :
    (name : String) (priority : String → ℤ) (models : List (String × ℕ))
    → Good (new_fifo name priority models)
unfolding new_fifo limit
new_fifo-Good name priority models = record {
  inv = record {
    accounted = λ j. omega arith;
    bounded = λ j. omega arith;
    own = tt;
    apart = tt;
    unbusy = tt;
  };
  awake = λ n. absurd (n refl);
  sorted = tt;
}

QueueStep-IsSorted :
    (s t : Fifo) (e : Event)
    → QueueStep e s t
    → IsSorted s.priority s.queued
    → IsSorted t.priority t.queued
QueueStep-IsSorted s t (requested req) (inl q, p) h =
    subst (λ f. IsSorted f t.queued) (sym p) (subst (IsSorted s.priority) (sym q) h)
QueueStep-IsSorted s t (requested req) (inr q, p) h =
    subst (λ f. IsSorted f t.queued) (sym p)
      (subst (IsSorted s.priority) (sym q) (insert-IsSorted s.priority req s.queued h))
QueueStep-IsSorted s t (cancelled req) (q, p) h =
    subst (λ f. IsSorted f t.queued) (sym p) (IsSorted-Sub s.priority q h)
QueueStep-IsSorted s t (swap_done ev) (q, p) h =
    subst (λ f. IsSorted f t.queued) (sym p) (IsSorted-Sub s.priority q h)
QueueStep-IsSorted s t (serve_done m) (q, p) h =
    subst (λ f. IsSorted f t.queued) (sym p) (IsSorted-Sub s.priority q h)
QueueStep-IsSorted s t (unload targets timeout) (q, p) h =
    subst (λ f. IsSorted f t.queued) (sym p) (IsSorted-Sub s.priority q h)

module _ (eviction_for : String → List String → List String) where
  step-Inv :
      (ws : ℕ → World) (s : Fifo) (e : Event)
      → Allowed s e
      → Inv s
      → Ensures Inv (step eviction_for ws s e)
  unfolding step
  step-Inv ws s (requested req) a v = on_request-Inv s req eviction_for (ws 0) v
  step-Inv ws s (cancelled req) a v = on_cancel-Inv s req v
  step-Inv ws s (swap_done ev) a v = on_swap_done-Inv eviction_for ws s ev v
  step-Inv ws s (serve_done m) a v = on_serve_done-Inv eviction_for ws s m a v
  step-Inv ws s (unload targets timeout) a v = on_unload-Inv eviction_for ws s targets timeout v

  step-Good :
      (ws : ℕ → World) (s : Fifo) (e : Event)
      → Allowed s e
      → Good s
      → Ensures Good (step eviction_for ws s e)
  step-Good ws s e a g =
      Ensures-mono (λ t. (Inv t × Awake t) × QueueStep e s t) Good _
        (λ t h. record {
          inv = h.0.0;
          awake = h.0.1;
          sorted = QueueStep-IsSorted s t e h.1 g.sorted;
        })
        (Ensures-and (λ t. Inv t × Awake t) (QueueStep e s) _
          (Ensures-and Inv Awake _ (step-Inv ws s e a g.inv)
            (step-Awake eviction_for ws s e g.awake))
          (step-QueueStep eviction_for ws s e))

  -- The states after any history of events.
  pub data Reachable : Fifo → Type 0 where
    start :
        (name : String) (priority : String → ℤ) (models : List (String × ℕ))
        → Reachable (new_fifo name priority models)
    next :
        {s t : Fifo} (ws : ℕ → World) (e : Event)
        → Reachable s
        → Allowed s e
        → step eviction_for ws s e ≡ some t
        → Reachable t

  reached : (s t : Fifo) (m : Option Fifo) → m ≡ some t → Ensures Good m → Good t
  reached s t m e h = subst (Ensures Good) e h

  pub Reachable-Good : {s : Fifo} → Reachable s → Good s
  Reachable-Good (start name priority models) = new_fifo-Good name priority models
  Reachable-Good (next {s = s} {t = t} ws e r a eq) =
      reached s t (step eviction_for ws s e) eq (step-Good ws s e a (Reachable-Good r))

  returns : (m : Option Fifo) → Ensures Good m → (t : Fifo) × (m ≡ some t)
  returns none h = absurd h
  returns (some t) h = (t, refl)

  -- In every state that the scheduler can reach, every event (a request, a cancellation, the end
  -- of a swap, the end of a request that was granted, an unload) is handled without a panic,
  -- whatever the processes, the clients and the planner answer.
  pub Reachable-step :
      (s : Fifo) (ws : ℕ → World) (e : Event)
      → Reachable s
      → Allowed s e
      → (t : Fifo) × (step eviction_for ws s e ≡ some t)
  Reachable-step s ws e r a =
      returns (step eviction_for ws s e) (step-Good ws s e a (Reachable-Good r))

  -- In every reachable state the requests of a model that are served, attached to a swap or queued
  -- are together exactly its reservations, and at most its concurrency limit.
  pub Reachable-limit :
      (s : Fifo) (j : String)
      → Reachable s
      → (s.in_flight j + waiting j s.active + count j s.queued ≡ s.reserved j)
        × (s.in_flight j + waiting j s.active + count j s.queued ≤ limit s j)
  Reachable-limit s j r =
      let v = (Reachable-Good r).inv in
      (omega (arith, v.accounted j), omega (arith, v.accounted j, v.bounded j))

  -- In every reachable state any two running swaps have different targets, neither stops the model
  -- that the other starts, no model is stopped by both, and a running swap stops no model that is
  -- serving a request.
  pub Reachable-Apart :
      (s : Fifo) → Reachable s → Apart s.active × All (Spares s.in_flight) s.active
  Reachable-Apart s r = let v = (Reachable-Good r).inv in (v.apart, v.unbusy)

  -- In every reachable state in which a request is queued a swap is running or a request is being
  -- served, so an event is to come after which the queue is looked at again.
  pub Reachable-Busy :
      (s : Fifo)
      → Reachable s
      → s.queued ≢ []
      → (s.active ≢ []) ⊎ ((m : String) × (0 < s.in_flight m))
  Reachable-Busy s r = (Reachable-Good r).awake

  -- In every reachable state no queued request stands behind one of a lower priority, and a
  -- request that enters the queue stands behind the queued requests of its own priority, which
  -- stay in their order.
  pub Reachable-IsSorted :
      (s : Fifo) (req : HandlerReq)
      → Reachable s
      → IsSorted s.priority s.queued
        × (of_priority s.priority
              (s.priority req.model)
              (insert_by_priority s.priority req s.queued)
            ≡ of_priority s.priority (s.priority req.model) s.queued ++ req ∷ [])
  Reachable-IsSorted s req r =
      let h = (Reachable-Good r).sorted in (h, insert-own_priority s.priority req s.queued h)
