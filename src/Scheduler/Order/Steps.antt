-- ===== src/Scheduler/Order/Steps.antt =====
-- internal/router/scheduler/fifo.go: every event but a request only takes requests out of the queue.
use mathlib.Core.List.{append_assoc, append-nil}
use fork_llama_swap.Base.{
  ℕ, ◌+◌, ◌-◌, refl, sym, subst, ◌∙◌, inl, inr, String, Bool, true, false, Bool-cases, if_keeps,
  if◌then◌else◌, ◌==◌, List, [], ◌∷◌, ◌++◌, Option, some, none, Whenever, Whenever-bind,
  Whenever-mono, ◌>>=◌,
}
use fork_llama_swap.Base.Sub.{Sub, Sub-refl, Sub-trans, Sub-middle}
use fork_llama_swap.Scheduler.Model.{
  HandlerReq, World, Fifo, Error, ActiveSwap, update, call, cancel_swap, model_unloaded,
  stop_processes,
}
use fork_llama_swap.Scheduler.Collision.{contains_string}
use fork_llama_swap.Scheduler.Grant.{broadcast_keeps}
use fork_llama_swap.Scheduler.Decide.{drain_queue, find_active, delete_active}
use fork_llama_swap.Scheduler.Events.{
  Event, requested, cancelled, swap_done, serve_done, unload, SwapDone, finish_swap, prune,
  prune_active, abandon, abandon_all, drop_queued, distinct, on_cancel, on_swap_done, on_serve_done,
  on_unload, step,
}
use fork_llama_swap.Scheduler.Order.Drain.{
  Frame, Frame-trans, Frame-then, Frame-Shrinks, Shrinks, release-Frame, refuse-Frame,
  drain_queue-Shrinks,
}
use fork_llama_swap.Scheduler.Order.Handlers.{
  Inserts, refuse_all-Frame, deliver-Frame, on_request-Inserts,
}

unchanged : (s : Fifo) → Shrinks s s
unchanged s = (Sub-refl s.queued, refl)

Frame-drain :
    (s : Fifo) (m : Option Fifo) (f : Fifo → Option Fifo)
    → Whenever (Frame s) m
    → ((t : Fifo) → Whenever (Shrinks t) (f t))
    → Whenever (Shrinks s) (m >>= f)
Frame-drain s m f h k =
    Whenever-bind (Frame s) (Shrinks s) m f h
      (λ t a. Whenever-mono (Shrinks t) (Shrinks s) (f t) (λ u b. Frame-Shrinks s t u a b) (k t))

abandon-Frame :
    (err : Error) (m : String) (s : Fifo) (found : Option ActiveSwap)
    → Whenever (Frame s) (abandon err m s found)
unfolding abandon
abandon-Frame err m s none = (refl, refl)
abandon-Frame err m s (some sw) =
    Whenever-bind (Frame (call (cancel_swap sw.generation) s)) (Frame s) _ _
      (refuse_all-Frame err (call (cancel_swap sw.generation) s) sw.waiters) (λ t f. f)

abandon_all-Frame :
    (err : Error) (s : Fifo) (targets : List String)
    → Whenever (Frame s) (abandon_all err s targets)
unfolding abandon_all
abandon_all-Frame err s [] = (refl, refl)
abandon_all-Frame err s (m ∷ targets) =
    Frame-then s _ _ (abandon-Frame err m s (find_active m s.active))
      (λ t. abandon_all-Frame err t targets)

-- What a loop over the queue keeps is what is left of it.
abbrev Keeping : Fifo → List HandlerReq → Fifo → List HandlerReq → Type 0
Keeping s queue t kept = Sub kept queue × Frame s t

module _ (kept : List HandlerReq) (q : HandlerReq) (pending : List HandlerReq) where
  dropped : {xs : List HandlerReq} → Sub xs (kept ++ pending) → Sub xs (kept ++ q ∷ pending)
  dropped s = Sub-trans (Sub-middle kept q pending) s

  moved :
      {xs : List HandlerReq} → Sub xs ((kept ++ q ∷ []) ++ pending) → Sub xs (kept ++ q ∷ pending)
  moved {xs} s = subst (Sub xs) (append_assoc kept (q ∷ []) pending) s

module _ (err : Error) (targets : List String) where
  drop_queued-Keeping :
      (s : Fifo) (kept pending : List HandlerReq)
      → Whenever (λ r. Keeping s (kept ++ pending) r.0 r.1) (drop_queued err targets s kept pending)
  unfolding drop_queued
  drop_queued-Keeping s kept [] =
      (subst (Sub kept) (sym (append-nil kept)) (Sub-refl kept), (refl, refl))
  drop_queued-Keeping s kept (q ∷ pending) = elim (Bool-cases (contains_string targets q.model)) [
    | inl t ↦
        rw (t, drop_queued)
          (Whenever-bind (Frame s) (λ r. Keeping s (kept ++ q ∷ pending) r.0 r.1) _ _
            (refuse-Frame s q err)
            (λ u f.
              Whenever-mono (λ r. Keeping u (kept ++ pending) r.0 r.1)
                (λ r. Keeping s (kept ++ q ∷ pending) r.0 r.1) _
                (λ r k. (dropped kept q pending k.0, Frame-trans s u r.0 f k.1))
                (drop_queued-Keeping u kept pending)))
    | inr t ↦
        rw (t, drop_queued)
          (Whenever-mono (λ r. Keeping s ((kept ++ q ∷ []) ++ pending) r.0 r.1)
            (λ r. Keeping s (kept ++ q ∷ pending) r.0 r.1) _
            (λ r k. (moved kept q pending k.0, k.1))
            (drop_queued-Keeping s (kept ++ q ∷ []) pending))
  ]

prune-Keeping :
    (ch : ℕ) (s : Fifo) (kept : List HandlerReq) (removed : Bool) (pending : List HandlerReq)
    → Whenever (λ r. Keeping s (kept ++ pending) r.0 r.1) (prune ch s kept removed pending)
unfolding prune
prune-Keeping ch s kept removed [] =
    (subst (Sub kept) (sym (append-nil kept)) (Sub-refl kept), (refl, refl))
prune-Keeping ch s kept removed (q ∷ pending) = elim (Bool-cases (q.respond == ch)) [
  | inl t ↦
      rw (t, prune)
        (Whenever-bind (Frame s) (λ r. Keeping s (kept ++ q ∷ pending) r.0 r.1) _ _
          (release-Frame s q.model)
          (λ u f.
            Whenever-mono (λ r. Keeping u (kept ++ pending) r.0 r.1)
              (λ r. Keeping s (kept ++ q ∷ pending) r.0 r.1) _
              (λ r k. (dropped kept q pending k.0, Frame-trans s u r.0 f k.1))
              (prune-Keeping ch u kept true pending)))
  | inr t ↦
      rw (t, prune)
        (Whenever-mono (λ r. Keeping s ((kept ++ q ∷ []) ++ pending) r.0 r.1)
          (λ r. Keeping s (kept ++ q ∷ pending) r.0 r.1) _ (λ r k. (moved kept q pending k.0, k.1))
          (prune-Keeping ch s (kept ++ q ∷ []) removed pending))
]

prune_active-Frame :
    (ch : ℕ) (s : Fifo) (done : List ActiveSwap) (removed : Bool) (pending : List ActiveSwap)
    → Whenever (λ r. Frame s r.0) (prune_active ch s done removed pending)
unfolding prune_active
prune_active-Frame ch s done removed [] = (refl, refl)
prune_active-Frame ch s done removed (sw ∷ pending) =
    Whenever-bind (λ r. Keeping s sw.waiters r.0 r.1) (λ r. Frame s r.0) _ _
      (prune-Keeping ch s [] removed sw.waiters)
      (λ r k.
        Whenever-mono (λ x. Frame r.0 x.0) (λ x. Frame s x.0) _ (λ x f. Frame-trans s r.0 x.0 k.1 f)
          (prune_active-Frame ch r.0 (done ++ record sw { waiters = r.1 } ∷ []) r.2 pending))

on_cancel-Shrinks : (s : Fifo) (req : HandlerReq) → Whenever (Shrinks s) (on_cancel s req)
unfolding on_cancel
on_cancel-Shrinks s req =
    Whenever-bind (λ r. Keeping s s.queued r.0 r.1) (Shrinks s) _ _
      (prune-Keeping req.respond s [] false s.queued)
      (λ r k.
        Whenever-bind (λ x. Frame r.0 x.0) (Shrinks s) _ _
          (prune_active-Frame req.respond r.0 [] r.2 r.0.active)
          (λ x f.
            let t = record x.0 { queued = r.1; active = x.1 } in
            let h : Shrinks s t = (k.0, f.1 ∙ k.1.1) in
            if_keeps (Shrinks s) x.2 _ _ (broadcast_keeps (Shrinks s) (λ e s k. k) t h) h))

-- What an event does to the queue.
abbrev pub QueueStep : Event → Fifo → Fifo → Type 0
QueueStep (requested req) s t = Inserts req s t
QueueStep e s t = Shrinks s t

module _ (eviction_for : String → List String → List String) (ws : ℕ → World) where
  finish_swap-Shrinks :
      (s : Fifo) (ev : SwapDone) (found : Option ActiveSwap)
      → Whenever (Shrinks s) (finish_swap eviction_for ws s ev found)
  unfolding finish_swap
  finish_swap-Shrinks s ev none = unchanged s
  finish_swap-Shrinks s ev (some sw) =
      if_keeps (Whenever (Shrinks s)) (sw.generation == ev.generation) _ _
        (Frame-drain s _ _
          (Whenever-mono (Frame t) (Frame s) _ (λ u f. f)
            (deliver-Frame (ws 0) ev.model_id ev.err t sw.waiters))
          (λ u. drain_queue-Shrinks eviction_for (λ i. ws (i + 1)) u))
        (unchanged s)
    where
      t : Fifo
      t = record (call (cancel_swap sw.generation) s) {
        active = delete_active ev.model_id s.active;
      }

  on_serve_done-Shrinks :
      (s : Fifo) (m : String) → Whenever (Shrinks s) (on_serve_done eviction_for ws s m)
  unfolding on_serve_done
  on_serve_done-Shrinks s m =
      Frame-drain s _ (λ t. if t.in_flight m == 0 then drain_queue eviction_for ws t else some t)
        (release-Frame (record s { in_flight = update s.in_flight m (s.in_flight m - 1) }) m)
        (λ t.
          if_keeps (Whenever (Shrinks t)) (t.in_flight m == 0) _ _
            (drain_queue-Shrinks eviction_for ws t) (unchanged t))

  on_unload-Shrinks :
      (s : Fifo) (targets : List String) (timeout : ℕ)
      → Whenever (Shrinks s) (on_unload eviction_for ws s targets timeout)
  unfolding on_unload
  on_unload-Shrinks s targets timeout =
      Frame-drain s _ _ (abandon_all-Frame (model_unloaded s.name) s (distinct targets)) (λ t.
        Whenever-bind (λ r. Keeping t t.queued r.0 r.1) (Shrinks t) _ _
          (drop_queued-Keeping (model_unloaded s.name) targets t [] t.queued)
          (λ r k.
            Whenever-mono (Shrinks (record r.0 { queued = r.1 })) (Shrinks t) _
              (λ u h. (Sub-trans k.0 h.0, h.1 ∙ k.1.1))
              (drain_queue-Shrinks eviction_for ws
                (call (stop_processes timeout targets) (record r.0 { queued = r.1 })))))

  -- If an event is handled without a panic, then a request leaves the queue as it was or enters it
  -- at its place, every other event leaves some of the queued requests in their order, and the
  -- priorities stay.
  pub step-QueueStep : (s : Fifo) (e : Event) → Whenever (QueueStep e s) (step eviction_for ws s e)
  unfolding step on_swap_done
  step-QueueStep s (requested req) = on_request-Inserts eviction_for (ws 0) s req
  step-QueueStep s (cancelled req) = on_cancel-Shrinks s req
  step-QueueStep s (swap_done ev) = finish_swap-Shrinks s ev _
  step-QueueStep s (serve_done m) = on_serve_done-Shrinks s m
  step-QueueStep s (unload targets timeout) = on_unload-Shrinks s targets timeout
