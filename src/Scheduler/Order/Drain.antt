-- ===== src/Scheduler/Order/Drain.antt =====
-- internal/router/scheduler/fifo.go: drainQueue keeps the order of what it leaves queued.
use mathlib.Core.List.{append_assoc, append-nil}
use fork_llama_swap.Base.{
  ℕ, ◌+◌, ◌≡◌, refl, sym, subst, ◌∙◌, inl, inr, String, if_keeps, leb, List, [], ◌∷◌, ◌++◌, Option,
  Option-cases, Whenever, Whenever-bind, Whenever-mono, ◌>>=◌,
}
use fork_llama_swap.Base.Sub.{Sub, Sub-refl, Sub-trans, Sub-middle}
use fork_llama_swap.Scheduler.Model.{HandlerReq, World, Fifo, Error, release, model_not_found}
use fork_llama_swap.Scheduler.Grant.{grant_handler, refuse, broadcast_keeps}
use fork_llama_swap.Scheduler.Decide.{
  Verdict, join, serve, wait, swap, begin_swap, decide, on_pending, drain_one, drain_from,
  drain_pending, drain_queue,
}

-- A step leaves the queue and the priorities alone.
abbrev pub Frame : Fifo → Fifo → Type 0
Frame s t = (t.queued ≡ s.queued) × (t.priority ≡ s.priority)

pub Frame-trans : (s t u : Fifo) → Frame s t → Frame t u → Frame s u
Frame-trans s t u f g = (g.0 ∙ f.0, g.1 ∙ f.1)

pub Frame-then :
    (s : Fifo) (m : Option Fifo) (f : Fifo → Option Fifo)
    → Whenever (Frame s) m
    → ((t : Fifo) → Whenever (Frame t) (f t))
    → Whenever (Frame s) (m >>= f)
Frame-then s m f h k =
    Whenever-bind (Frame s) (Frame s) m f h
      (λ t a. Whenever-mono (Frame t) (Frame s) (f t) (λ u b. Frame-trans s t u a b) (k t))

pub release-Frame : (s : Fifo) (m : String) → Whenever (Frame s) (release s m)
unfolding release
release-Frame s m = if_keeps (Whenever (Frame s)) (leb (s.reserved m) 0) _ _ tt (refl, refl)

pub grant_handler-Frame :
    (w : World) (s : Fifo) (req : HandlerReq) (m : String)
    → Whenever (Frame s) (grant_handler w s req m)
unfolding grant_handler
grant_handler-Frame w s req m =
    if_keeps (Whenever (Frame s)) (w.receives_grant req) _ _ (refl, refl) (release-Frame _ m)

pub refuse-Frame :
    (s : Fifo) (req : HandlerReq) (err : Error) → Whenever (Frame s) (refuse s req err)
unfolding refuse
refuse-Frame s req err =
    Whenever-bind (Frame s) (Frame s) _ _ (release-Frame s req.model) (λ t k. k)

-- What is left of the queue, the order kept.
abbrev pub Shrinks : Fifo → Fifo → Type 0
Shrinks s t = Sub t.queued s.queued × (t.priority ≡ s.priority)

pub Frame-Shrinks : (s t u : Fifo) → Frame s t → Shrinks t u → Shrinks s u
Frame-Shrinks s t u f g = (subst (Sub u.queued) f.0 g.0, g.1 ∙ f.1)

-- A loop has got to `remaining`, with the rest of the queue to come.
abbrev Leaves : Fifo → List HandlerReq → List HandlerReq → Fifo × List HandlerReq → Type 0
Leaves s queue rest r = Sub (r.1 ++ rest) queue × (r.0.priority ≡ s.priority)

module _ (s : Fifo) (remaining : List HandlerReq) (req : HandlerReq) (rest : List HandlerReq) where
  queue : List HandlerReq
  queue = remaining ++ req ∷ rest

  answered : Sub (remaining ++ rest) queue
  unfolding queue
  answered = Sub-middle remaining req rest

  kept : Sub ((remaining ++ req ∷ []) ++ rest) queue
  unfolding queue
  kept =
      subst (λ x. Sub x (remaining ++ req ∷ rest)) (sym (append_assoc remaining (req ∷ []) rest))
        (Sub-refl _)

  on_pending-Leaves :
      (w : World) (v : Verdict) → Whenever (Leaves s queue rest) (on_pending w s remaining req v)
  unfolding on_pending begin_swap
  on_pending-Leaves w join = (answered, refl)
  on_pending-Leaves w serve =
      Whenever-bind (Frame s) (Leaves s queue rest) _ _ (grant_handler-Frame w s req req.model)
        (λ t f. (answered, f.1))
  on_pending-Leaves w wait = (kept, refl)
  on_pending-Leaves w (swap evict running) = (answered, refl)

  drain_one-Leaves :
      (eviction_for : String → List String → List String) (w : World)
      → Whenever (Leaves s queue rest) (drain_one eviction_for w s remaining req)
  unfolding drain_one
  drain_one-Leaves eviction_for w = elim (Option-cases (w.model_state req.model)) [
    | inl e ↦
        rw (e, drain_one)
          (Whenever-bind (Frame s) (Leaves s queue rest) _ _ (refuse-Frame s req model_not_found)
            (λ t f. (answered, f.1)))
    | inr (state, e) ↦
        rw (e, drain_one) (on_pending-Leaves w (decide eviction_for w s req.model state))
  ]

module _ (eviction_for : String → List String → List String) (ws : ℕ → World) where
  drain_from-Leaves :
      (i : ℕ) (s : Fifo) (remaining pending : List HandlerReq)
      → Whenever
          (Leaves s (remaining ++ pending) [])
          (drain_from eviction_for ws i s remaining pending)
  unfolding drain_from queue
  drain_from-Leaves i s remaining [] = (Sub-refl (remaining ++ []), refl)
  drain_from-Leaves i s remaining (req ∷ pending) =
      Whenever-bind (Leaves s (remaining ++ req ∷ pending) pending)
        (Leaves s (remaining ++ req ∷ pending) []) _ _
        (drain_one-Leaves s remaining req pending eviction_for (ws i))
        (λ r h.
          Whenever-mono (Leaves r.0 (r.1 ++ pending) []) (Leaves s (remaining ++ req ∷ pending) [])
            _ (λ x k. (Sub-trans h.0 k.0, k.1 ∙ h.1)) (drain_from-Leaves (i + 1) r.0 r.1 pending))

  drain_pending-Shrinks :
      (s : Fifo) (pending : List HandlerReq)
      → pending ≡ s.queued
      → Whenever (Shrinks s) (drain_pending eviction_for ws s pending)
  unfolding drain_pending
  drain_pending-Shrinks s [] e = (Sub-refl s.queued, refl)
  drain_pending-Shrinks s (req ∷ pending) e =
      Whenever-bind (Leaves s (req ∷ pending) []) (Shrinks s) _ _
        (drain_from-Leaves 0 s [] (req ∷ pending))
        (λ r h.
          broadcast_keeps (Shrinks s) (λ e s k. k) (record r.0 { queued = r.1 })
            (subst (λ x. Sub x s.queued) (append-nil r.1) (subst (Sub (r.1 ++ [])) e h.0), h.1))

  pub drain_queue-Shrinks : (s : Fifo) → Whenever (Shrinks s) (drain_queue eviction_for ws s)
  unfolding drain_queue
  drain_queue-Shrinks s = drain_pending-Shrinks s s.queued refl
