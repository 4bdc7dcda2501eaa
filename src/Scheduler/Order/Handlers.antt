-- ===== src/Scheduler/Order/Handlers.antt =====
-- internal/router/scheduler/fifo.go: a request enters the queue at its place, and every other event
-- only takes requests out of the queue.
use fork_llama_swap.Base.{
  ◌≡◌, refl, ◌∙◌, ◌⊎◌, inl, inr, String, Bool, true, false, if_keeps, leb, List, [], ◌∷◌, Option,
  some, none, Option-cases, Whenever, Whenever-mono,
}
use fork_llama_swap.Scheduler.Model.{
  HandlerReq, World, ProcessState, Fifo, Error, limit, model_not_found, concurrency_limit,
}
use fork_llama_swap.Scheduler.Grant.{
  admit, reserve, reject_admission, enqueue, insert_by_priority, broadcast_keeps,
}
use fork_llama_swap.Scheduler.Decide.{
  Verdict, join, serve, wait, swap, begin_swap, decide, on_admitted, on_known, on_request,
}
use fork_llama_swap.Scheduler.Events.{refuse_all, serve_all, deliver}
use fork_llama_swap.Scheduler.Invariant.Requests.{send_admission_keeps}
use fork_llama_swap.Scheduler.Order.Drain.{Frame, Frame-then, grant_handler-Frame, refuse-Frame}

-- The queue is as it was, or the request has been put in its place.
abbrev pub Inserts : HandlerReq → Fifo → Fifo → Type 0
Inserts req s t =
    ((t.queued ≡ s.queued) ⊎ (t.queued ≡ insert_by_priority s.priority req s.queued))
    × (t.priority ≡ s.priority)

Frame-Inserts : (req : HandlerReq) (s t u : Fifo) → Frame s t → Frame t u → Inserts req s u
Frame-Inserts req s t u f g = (inl (g.0 ∙ f.0), g.1 ∙ f.1)

reserve-Frame : (s : Fifo) (m : String) (r : Fifo × Bool) → Frame s r.0 → Frame s (reserve m r).0
unfolding reserve
reserve-Frame s m (t, true) f = f
reserve-Frame s m (t, false) f = f

admit-Frame : (w : World) (s : Fifo) (req : HandlerReq) → Frame s (admit w s req).0
unfolding admit reject_admission
admit-Frame w s req =
    if_keeps (λ (r : Fifo × Bool). Frame s r.0) (leb (limit s req.model) (s.reserved req.model)) _ _
      (send_admission_keeps (Frame s) (λ e s k. k) w s req (some concurrency_limit) (refl, refl))
      (reserve-Frame s req.model _
        (send_admission_keeps (Frame s) (λ e s k. k) w s req none (refl, refl)))

on_admitted-Inserts :
    (w : World) (s t : Fifo) (req : HandlerReq) (v : Verdict)
    → Frame s t
    → Whenever (Inserts req s) (on_admitted w t req v)
unfolding on_admitted enqueue begin_swap
on_admitted-Inserts w s t req join f = (inl f.0, f.1)
on_admitted-Inserts w s t req serve f =
    Whenever-mono (Frame t) (Inserts req s) _ (λ u g. Frame-Inserts req s t u f g)
      (grant_handler-Frame w t req req.model)
on_admitted-Inserts w s t req wait f =
    broadcast_keeps (Inserts req s) (λ e s k. k)
      (record t { queued = insert_by_priority t.priority req t.queued }) (inr (cc (f.0, f.1)), f.1)
on_admitted-Inserts w s t req (swap evict running) f = (inl f.0, f.1)

module _ (eviction_for : String → List String → List String) where
  on_known-Inserts :
      (w : World) (s : Fifo) (req : HandlerReq) (state : ProcessState) (r : Fifo × Bool)
      → Frame s r.0
      → Whenever (Inserts req s) (on_known eviction_for w s req state r)
  unfolding on_known
  on_known-Inserts w s req state (t, admitted) f =
      if_keeps (Whenever (Inserts req s)) admitted _ _
        (on_admitted-Inserts w s t req (decide eviction_for w t req.model state) f) (inl f.0, f.1)

  pub on_request-Inserts :
      (w : World) (s : Fifo) (req : HandlerReq)
      → Whenever (Inserts req s) (on_request eviction_for w s req)
  unfolding on_request reject_admission
  on_request-Inserts w s req = elim (Option-cases (w.model_state req.model)) [
    | inl e ↦
        rw (e, on_request)
          (send_admission_keeps (Inserts req s) (λ e s k. k) w s req (some model_not_found)
            (inl refl, refl))
    | inr (state, e) ↦ rw (e, on_request) (on_known-Inserts w s req state _ (admit-Frame w s req))
  ]

pub refuse_all-Frame :
    (err : Error) (s : Fifo) (reqs : List HandlerReq) → Whenever (Frame s) (refuse_all err s reqs)
unfolding refuse_all
refuse_all-Frame err s [] = (refl, refl)
refuse_all-Frame err s (q ∷ qs) =
    Frame-then s _ _ (refuse-Frame s q err) (λ t. refuse_all-Frame err t qs)

serve_all-Frame :
    (w : World) (m : String) (s : Fifo) (reqs : List HandlerReq)
    → Whenever (Frame s) (serve_all w m s reqs)
unfolding serve_all
serve_all-Frame w m s [] = (refl, refl)
serve_all-Frame w m s (q ∷ qs) =
    Frame-then s _ _ (grant_handler-Frame w s q m) (λ t. serve_all-Frame w m t qs)

pub deliver-Frame :
    (w : World) (m : String) (err : Option Error) (s : Fifo) (reqs : List HandlerReq)
    → Whenever (Frame s) (deliver w m err s reqs)
unfolding deliver
deliver-Frame w m none s reqs = serve_all-Frame w m s reqs
deliver-Frame w m (some err) s reqs = refuse_all-Frame err s reqs
