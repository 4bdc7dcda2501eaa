-- ===== src/Scheduler/Shutdown.antt =====
-- internal/router/scheduler/fifo.go: OnShutdown answers every request that still waits.
use fork_llama_swap.Base.{
  ℕ, ◌≡◌, refl, sym, ap, subst, ◌∙◌, inl, inr, String, if_keeps, leb, List, [], ◌∷◌, All, All-mono,
  Occurs, Ensures, Ensures-bind, Ensures-mono, Ensures-and, Whenever, Whenever-bind, Whenever-mono,
  arith,
}
use fork_llama_swap.Scheduler.Model.{
  HandlerReq, Fifo, ActiveSwap, Effect, Error, cancel_swap, grant_error, limit, release, call,
}
use fork_llama_swap.Scheduler.Grant.{refuse}
use fork_llama_swap.Scheduler.Events.{refuse_all, shut_swaps, on_shutdown}
use fork_llama_swap.Scheduler.Invariant.{HoldsAt, HoldsAt-congr, KeepsAt, count, queued_for}
use fork_llama_swap.Scheduler.Invariant.Loops.{besides, refuse_all-KeepsAt}
use fork_llama_swap.Scheduler.Reach.{Reachable, Reachable-Good}

module _ (err : Error) where
  without_first :
      (sw : ActiveSwap) (active : List ActiveSwap) (held : String → ℕ) (s : Fifo)
      → HoldsAt (sw ∷ active) held s
      → HoldsAt active (besides held sw.waiters) s
  unfolding limit
  without_first sw active held s v = record {
    accounted = λ j. omega (arith, v.accounted j);
    bounded = v.bounded;
    own = v.own.1;
    apart = v.apart.1;
    unbusy = v.unbusy.1;
  }

  shut_swaps-Holds :
      (held : String → ℕ) (s : Fifo) (active : List ActiveSwap)
      → HoldsAt active held s
      → Ensures (λ t. HoldsAt [] held t × (t.queued ≡ s.queued)) (shut_swaps err s active)
  unfolding shut_swaps limit
  shut_swaps-Holds held s [] v = (v, refl)
  shut_swaps-Holds held s (sw ∷ active) v =
      Ensures-bind (KeepsAt active held (call (cancel_swap sw.generation) s)) _ _ _
        (refuse_all-KeepsAt active err held (call (cancel_swap sw.generation) s) sw.waiters
          (without_first sw active held s v))
        (λ t k.
          Ensures-mono (λ u. HoldsAt [] held u × (u.queued ≡ t.queued)) _ _
            (λ u h. (h.0, h.1 ∙ k.1)) (shut_swaps-Holds held t active k.0))

  -- A step that makes calls, and takes none back.
  abbrev Grows : Fifo → Fifo → Type 0
  Grows s t = (e : Effect) → Occurs e s.effects → Occurs e t.effects

  abbrev IsRefused : Fifo → HandlerReq → Type 0
  IsRefused t q = Occurs (grant_error q err) t.effects

  later :
      (s t : Fifo) (reqs : List HandlerReq)
      → Grows s t
      → All (IsRefused s) reqs
      → All (IsRefused t) reqs
  later s t reqs g h = All-mono (IsRefused s) (IsRefused t) (λ q o. g (grant_error q err) o) reqs h

  release-effects : (s : Fifo) (m : String) → Whenever (λ t. t.effects ≡ s.effects) (release s m)
  unfolding release
  release-effects s m =
      if_keeps (Whenever (λ (t : Fifo). t.effects ≡ s.effects)) (leb (s.reserved m) 0) _ _ tt refl

  refuse-IsRefused :
      (s : Fifo) (q : HandlerReq) → Whenever (λ t. IsRefused t q × Grows s t) (refuse s q err)
  unfolding refuse
  refuse-IsRefused s q =
      Whenever-bind (λ t. t.effects ≡ s.effects) (λ t. IsRefused t q × Grows s t) _ _
        (release-effects s q.model) (λ t e. (inl refl, λ x o. inr (subst (Occurs x) (sym e) o)))

  refuse_all-IsRefused :
      (s : Fifo) (reqs : List HandlerReq)
      → Whenever (λ t. All (IsRefused t) reqs × Grows s t) (refuse_all err s reqs)
  unfolding refuse_all
  refuse_all-IsRefused s [] = (tt, λ e o. o)
  refuse_all-IsRefused s (q ∷ qs) =
      Whenever-bind (λ t. IsRefused t q × Grows s t) (λ t. All (IsRefused t) (q ∷ qs) × Grows s t) _
        _ (refuse-IsRefused s q)
        (λ t h.
          Whenever-mono (λ u. All (IsRefused u) qs × Grows t u)
            (λ u. All (IsRefused u) (q ∷ qs) × Grows s u) _
            (λ u k. ((k.1 (grant_error q err) h.0, k.0), λ e o. k.1 e (h.1 e o)))
            (refuse_all-IsRefused t qs))

  abbrev WaitersRefused : Fifo → ActiveSwap → Type 0
  WaitersRefused t sw = All (IsRefused t) sw.waiters

  shut_swaps-IsRefused :
      (s : Fifo) (active : List ActiveSwap)
      → Whenever (λ t. All (WaitersRefused t) active × Grows s t) (shut_swaps err s active)
  unfolding shut_swaps
  shut_swaps-IsRefused s [] = (tt, λ e o. o)
  shut_swaps-IsRefused s (sw ∷ active) =
      Whenever-bind
        (λ t. All (IsRefused t) sw.waiters × Grows (call (cancel_swap sw.generation) s) t)
        (λ t. All (WaitersRefused t) (sw ∷ active) × Grows s t) _ _
        (refuse_all-IsRefused (call (cancel_swap sw.generation) s) sw.waiters)
        (λ t h.
          Whenever-mono (λ u. All (WaitersRefused u) active × Grows t u)
            (λ u. All (WaitersRefused u) (sw ∷ active) × Grows s u) _
            (λ u k. ((later t u sw.waiters k.1 h.0, k.0), λ e o. k.1 e (h.1 e (inr o))))
            (shut_swaps-IsRefused t active))

  -- Everybody who waits is refused, and only the served requests hold reservations.
  abbrev pub Ended : Fifo → Fifo → Type 0
  Ended s t =
      All (WaitersRefused t) s.active
      × All (IsRefused t) s.queued
      × ((j : String) → t.reserved j ≡ t.in_flight j)

  queue_ends :
      (s t : Fifo)
      → (HoldsAt [] (queued_for s.queued) t × (t.queued ≡ s.queued))
        × (All (WaitersRefused t) s.active × Grows s t)
      → Ensures (Ended s) (refuse_all err t t.queued)
  queue_ends s t h =
      Ensures-mono (λ u. KeepsAt [] (λ j. 0) t u × (All (IsRefused u) t.queued × Grows t u))
        (Ended s) _
        (λ u k. (
          All-mono (WaitersRefused t) (WaitersRefused u) (λ sw w. later t u sw.waiters k.1.1 w)
              s.active h.1.0,
          subst (All (IsRefused u)) h.0.1 k.1.0,
          λ j. omega (arith, k.0.0.accounted j),
        ))
        (Ensures-and (KeepsAt [] (λ j. 0) t) (λ u. All (IsRefused u) t.queued × Grows t u) _
          (refuse_all-KeepsAt [] err (λ j. 0) t t.queued
            (HoldsAt-congr [] (queued_for s.queued) _ t (λ j. omega (arith, ap (count j) h.0.1))
              h.0.0))
          (refuse_all-IsRefused t t.queued))

  -- In every reachable state the shutdown returns, has answered the waiters of every swap and
  -- every queued request by the error, and leaves reserved exactly the requests that are being
  -- served.
  pub on_shutdown_ends :
      (eviction_for : String → List String → List String) (s : Fifo)
      → Reachable eviction_for s
      → Ensures (Ended s) (on_shutdown s err)
  unfolding on_shutdown
  on_shutdown_ends eviction_for s r =
      Ensures-bind
        (λ t.
          (HoldsAt [] (queued_for s.queued) t × (t.queued ≡ s.queued))
          × (All (WaitersRefused t) s.active × Grows s t))
        (Ended s) _ _
        (Ensures-and (λ t. HoldsAt [] (queued_for s.queued) t × (t.queued ≡ s.queued))
          (λ t. All (WaitersRefused t) s.active × Grows s t) _
          (shut_swaps-Holds (queued_for s.queued) s s.active (Reachable-Good eviction_for r).inv)
          (shut_swaps-IsRefused s s.active))
        (λ t h. queue_ends s t h)
