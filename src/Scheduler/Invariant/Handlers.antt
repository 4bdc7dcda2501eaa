-- ===== src/Scheduler/Invariant/Handlers.antt =====
-- internal/router/scheduler/fifo.go: OnSwapDone, OnServeDone and OnUnload return, and keep the books.
use fork_llama_swap.Base.{
  ℕ, ◌+◌, ◌-◌, ◌<◌, ◌≡◌, refl, ap, sym, subst, ◌∙◌, String, Bool-cases, if_keeps, names, ◌==◌, List,
  [], ◌∷◌, ◌++◌, Option, some, none, All, All-mono, Ensures, Ensures-bind, Ensures-mono, inl, inr,
  arith,
}
use fork_llama_swap.Scheduler.Model.{
  HandlerReq, World, Fifo, Error, ActiveSwap, limit, call, update, cancel_swap, stop_processes,
  model_unloaded,
}
use fork_llama_swap.Scheduler.Collision.{contains_string}
use fork_llama_swap.Scheduler.Decide.{find_active, delete_active}
use fork_llama_swap.Scheduler.Events.{
  distinct, abandon, abandon_all, drop_queued, deliver, SwapDone, finish_swap, on_swap_done,
  on_serve_done, on_unload,
}
use fork_llama_swap.Scheduler.Invariant.{
  Holds, HoldsAt, Holds-congr, Keeps, KeepsAt, Keeps-of-KeepsAt, Holds-Inv, Inv, IsFor, OwnWaiters,
  Spares, hits, count, count-append, queued_for,
}
use fork_llama_swap.Scheduler.Invariant.Grants.{release-Keeps, refuse-Keeps}
use fork_llama_swap.Scheduler.Invariant.Loops.{
  besides, Untouched, find_active-All, refuse_all-KeepsAt, serve_all-KeepsAt, delete_active-HoldsAt,
  delete_active-Untouched,
}
use fork_llama_swap.Scheduler.Invariant.Drain.{drain_queue-Inv}

deliver-KeepsAt :
    (w : World) (m : String) (err : Option Error) (active : List ActiveSwap) (rest : String → ℕ)
    (s : Fifo) (reqs : List HandlerReq)
    → All (IsFor m) reqs
    → Untouched m active
    → HoldsAt active (besides rest reqs) s
    → Ensures (KeepsAt active rest s) (deliver w m err s reqs)
unfolding deliver
deliver-KeepsAt w m none active rest s reqs own free v =
    serve_all-KeepsAt w m active rest s reqs own free v
deliver-KeepsAt w m (some err) active rest s reqs own free v =
    refuse_all-KeepsAt active err rest s reqs v

module _ (eviction_for : String → List String → List String) where
  finish_swap-Inv :
      (ws : ℕ → World) (s : Fifo) (ev : SwapDone) (found : Option ActiveSwap)
      → find_active ev.model_id s.active ≡ found
      → Inv s
      → Ensures Inv (finish_swap eviction_for ws s ev found)
  unfolding finish_swap limit
  finish_swap-Inv ws s ev none e v = v
  finish_swap-Inv ws s ev (some sw) e v =
      if_keeps (Ensures Inv) (sw.generation == ev.generation) _ _
        (Ensures-bind (KeepsAt left (queued_for s.queued) t) Inv _ _
          (deliver-KeepsAt (ws 0) ev.model_id ev.err left (queued_for s.queued) t sw.waiters
            (subst (λ m. All (IsFor m) sw.waiters) own.1 own.0)
            (delete_active-Untouched ev.model_id sw s.active e v.apart)
            (delete_active-HoldsAt ev.model_id sw (queued_for s.queued) s e v))
          (λ u k.
            let k' = Keeps-of-KeepsAt (queued_for s.queued) t u k in
            drain_queue-Inv eviction_for (λ i. ws (i + 1)) u (Holds-Inv s u k'.0 k'.1)))
        v
    where
      left : List ActiveSwap
      left = delete_active ev.model_id s.active

      t : Fifo
      t = record (call (cancel_swap sw.generation) s) { active = left }

      own : OwnWaiters sw × (sw.model_id ≡ ev.model_id)
      own = find_active-All OwnWaiters ev.model_id s.active sw e v.own

  pub on_swap_done-Inv :
      (ws : ℕ → World) (s : Fifo) (ev : SwapDone)
      → Inv s
      → Ensures Inv (on_swap_done eviction_for ws s ev)
  unfolding on_swap_done
  on_swap_done-Inv ws s ev v = finish_swap-Inv ws s ev (find_active ev.model_id s.active) refl v

  -- A request that is served leaves the requests in flight, and is held until it is released.
  served :
      (s : Fifo) (m : String)
      → 0 < s.in_flight m
      → Inv s
      → Holds
          (λ j. queued_for s.queued j + hits m j)
          (record s { in_flight = update s.in_flight m (s.in_flight m - 1) })
  unfolding limit
  served s m h v = record {
    accounted = λ j. ground (arith, v.accounted j, names m j);
    bounded = v.bounded;
    own = v.own;
    apart = v.apart;
    unbusy =
        All-mono (Spares s.in_flight) (Spares (update s.in_flight m (s.in_flight m - 1)))
          (λ sw k j o. ground (arith, k j o, names m j)) s.active v.unbusy;
  }

  pub on_serve_done-Inv :
      (ws : ℕ → World) (s : Fifo) (m : String)
      → 0 < s.in_flight m
      → Inv s
      → Ensures Inv (on_serve_done eviction_for ws s m)
  unfolding on_serve_done
  on_serve_done-Inv ws s m h v =
      Ensures-bind
        (Keeps (queued_for s.queued)
          (record s { in_flight = update s.in_flight m (s.in_flight m - 1) }))
        Inv _ _ (release-Keeps _ (queued_for s.queued) _ m (λ j. refl) (served s m h v))
        (λ t k.
          let v' = Holds-Inv s t k.0 k.1 in
          if_keeps (Ensures Inv) (t.in_flight m == 0) _ _ (drain_queue-Inv eviction_for ws t v') v')

abandon-Keeps :
    (err : Error) (m : String) (held : String → ℕ) (s : Fifo) (found : Option ActiveSwap)
    → find_active m s.active ≡ found
    → Holds held s
    → Ensures (λ t. Holds held t × (t.queued ≡ s.queued)) (abandon err m s found)
unfolding abandon limit
abandon-Keeps err m held s none e v = (v, refl)
abandon-Keeps err m held s (some sw) e v =
    Ensures-bind (KeepsAt left held (call (cancel_swap sw.generation) s)) _ _ _
      (refuse_all-KeepsAt left err held (call (cancel_swap sw.generation) s) sw.waiters
        (delete_active-HoldsAt m sw held s e v))
      (λ t k. (subst (λ a. HoldsAt (delete_active m a) held t) (sym k.2) k.0, k.1))
  where
    left : List ActiveSwap
    left = delete_active m s.active

abandon_all-Keeps :
    (err : Error) (held : String → ℕ) (s : Fifo) (targets : List String)
    → Holds held s
    → Ensures (λ t. Holds held t × (t.queued ≡ s.queued)) (abandon_all err s targets)
unfolding abandon_all
abandon_all-Keeps err held s [] v = (v, refl)
abandon_all-Keeps err held s (m ∷ targets) v =
    Ensures-bind (λ t. Holds held t × (t.queued ≡ s.queued)) _ _ _
      (abandon-Keeps err m held s (find_active m s.active) refl v)
      (λ t k.
        Ensures-mono (λ u. Holds held u × (u.queued ≡ t.queued)) _ _ (λ u h. (h.0, h.1 ∙ k.1))
          (abandon_all-Keeps err held t targets k.0))

drop_queued-Holds :
    (err : Error) (targets : List String) (s : Fifo) (kept pending : List HandlerReq)
    → Holds (λ j. count j kept + count j pending) s
    → Ensures (λ r. Holds (queued_for r.1) r.0) (drop_queued err targets s kept pending)
unfolding drop_queued
drop_queued-Holds err targets s kept [] v = Holds-congr _ (queued_for kept) s (λ j. omega arith) v
drop_queued-Holds err targets s kept (q ∷ qs) v =
    elim (Bool-cases (contains_string targets q.model)) [
      | inl t ↦
          rw (t, drop_queued)
            (Ensures-bind (Keeps (λ j. count j kept + count j qs) s)
              (λ r. Holds (queued_for r.1) r.0) _ _ (refuse-Keeps _ _ s q (λ j. omega arith) err v)
              (λ u k. drop_queued-Holds err targets u kept qs k.0))
      | inr t ↦
          rw (t, drop_queued)
            (drop_queued-Holds err targets s (kept ++ q ∷ []) qs
              (Holds-congr _ _ s (λ j. omega (arith, count-append j kept (q ∷ []))) v))
    ]

pub on_unload-Inv :
    (eviction_for : String → List String → List String) (ws : ℕ → World) (s : Fifo)
    (targets : List String) (timeout : ℕ)
    → Inv s
    → Ensures Inv (on_unload eviction_for ws s targets timeout)
unfolding on_unload limit
on_unload-Inv eviction_for ws s targets timeout v =
    Ensures-bind (λ t. Holds (queued_for s.queued) t × (t.queued ≡ s.queued)) Inv _ _
      (abandon_all-Keeps (model_unloaded s.name) (queued_for s.queued) s (distinct targets) v)
      (λ t k.
        Ensures-bind (λ r. Holds (queued_for r.1) r.0) Inv _ _
          (drop_queued-Holds (model_unloaded s.name) targets t [] t.queued
            (Holds-congr (queued_for s.queued) _ t (λ j. omega (arith, ap (count j) k.1)) k.0))
          (λ r h.
            drain_queue-Inv eviction_for ws
              (call (stop_processes timeout targets) (record r.0 { queued = r.1 })) h))
