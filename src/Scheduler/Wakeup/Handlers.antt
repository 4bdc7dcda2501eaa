-- ===== src/Scheduler/Wakeup/Handlers.antt =====
-- internal/router/scheduler/fifo.go: no handler leaves a queued request that waits for nothing.
use fork_llama_swap.Base.{
  ℕ, ◌+◌, ◌-◌, ◌<◌, ◌≡◌, refl, ap, sym, length, length-append, length-ne, subst, ◌∙◌, inl, inr,
  String, Bool, true, false, Bool-cases, if_keeps, if◌then◌else◌, leb, ◌==◌, List, [], ◌∷◌, ◌++◌,
  Option, some, none, Option-cases, Whenever, Whenever-bind, Whenever-mono, Whenever-then, arith,
}
use fork_llama_swap.Scheduler.Model.{
  HandlerReq, World, ProcessState, Fifo, ActiveSwap, limit, call, release, update,
  concurrency_limit, model_not_found, model_unloaded, stop_processes,
}
use fork_llama_swap.Scheduler.Grant.{
  admit, reserve, reject_admission, enqueue, insert_by_priority, broadcast_keeps,
}
use fork_llama_swap.Scheduler.Decide.{
  Verdict, join, serve, wait, swap, begin_swap, on_admitted, on_known, on_request, drain_queue,
}
use fork_llama_swap.Scheduler.Events.{
  Event, requested, cancelled, swap_done, serve_done, unload, SwapDone, finish_swap, prune,
  prune_active, abandon_all, distinct, drop_queued, on_cancel, on_swap_done, on_serve_done,
  on_unload, step,
}
use fork_llama_swap.Scheduler.Invariant.Requests.{send_admission_keeps}
use fork_llama_swap.Scheduler.Wakeup.{Busy, Awake, Onward, grant_handler-Onward, join-Busy}
use fork_llama_swap.Scheduler.Wakeup.Drain.{Waits, decide-Waits, drain_queue-Awake}

Onward-Awake : (s t : Fifo) → Onward s t → Awake s → Awake t
Onward-Awake s t o a n = o.0 (a (λ e. n (o.1 ∙ e)))

reserve-Awake : (m : String) (r : Fifo × Bool) → Awake r.0 → Awake (reserve m r).0
unfolding reserve
reserve-Awake m (s, true) a = a
reserve-Awake m (s, false) a = a

admit-Awake : (w : World) (s : Fifo) (req : HandlerReq) → Awake s → Awake (admit w s req).0
unfolding admit reject_admission
admit-Awake w s req a =
    if_keeps (λ (r : Fifo × Bool). Awake r.0) (leb (limit s req.model) (s.reserved req.model)) _ _
      (send_admission_keeps Awake (λ e s k. k) w s req (some concurrency_limit) a)
      (reserve-Awake req.model _ (send_admission_keeps Awake (λ e s k. k) w s req none a))

on_admitted-Awake :
    (w : World) (s : Fifo) (req : HandlerReq) (v : Verdict)
    → Waits s v
    → Awake s
    → Whenever Awake (on_admitted w s req v)
unfolding on_admitted enqueue begin_swap Waits
on_admitted-Awake w s req join h a = λ n. join-Busy s req (a n)
on_admitted-Awake w s req serve h a =
    Whenever-mono (Onward s) Awake _ (λ t o. Onward-Awake s t o a)
      (grant_handler-Onward w s req req.model)
on_admitted-Awake w s req wait h a =
    broadcast_keeps Awake (λ e s k. k)
      (record s { queued = insert_by_priority s.priority req s.queued }) (λ n. h)
on_admitted-Awake w s req (swap evict running) h a = λ n. inl (λ e. cc)

module _ (eviction_for : String → List String → List String) where
  on_known-Awake :
      (w : World) (s : Fifo) (req : HandlerReq) (state : ProcessState) (r : Fifo × Bool)
      → Awake r.0
      → Whenever Awake (on_known eviction_for w s req state r)
  unfolding on_known
  on_known-Awake w s req state (t, admitted) a =
      if_keeps (Whenever Awake) admitted _ _
        (on_admitted-Awake w t req _ (decide-Waits eviction_for w t req.model state) a) a

  on_request-Awake :
      (w : World) (s : Fifo) (req : HandlerReq)
      → Awake s
      → Whenever Awake (on_request eviction_for w s req)
  unfolding on_request reject_admission
  on_request-Awake w s req a = elim (Option-cases (w.model_state req.model)) [
    | inl e ↦
        rw (e, on_request)
          (send_admission_keeps Awake (λ e s k. k) w s req (some model_not_found) a)
    | inr (state, e) ↦ rw (e, on_request) (on_known-Awake w s req state _ (admit-Awake w s req a))
  ]

  finish_swap-Awake :
      (ws : ℕ → World) (s : Fifo) (ev : SwapDone) (found : Option ActiveSwap)
      → Awake s
      → Whenever Awake (finish_swap eviction_for ws s ev found)
  unfolding finish_swap
  finish_swap-Awake ws s ev none a = a
  finish_swap-Awake ws s ev (some sw) a =
      if_keeps (Whenever Awake) (sw.generation == ev.generation) _ _
        (Whenever-then Awake _ _ (λ t. drain_queue-Awake eviction_for (λ i. ws (i + 1)) t)) a

  on_serve_done-Awake :
      (ws : ℕ → World) (s : Fifo) (m : String) → Whenever Awake (on_serve_done eviction_for ws s m)
  unfolding on_serve_done
  on_serve_done-Awake ws s m =
      Whenever-then Awake
        (release (record s { in_flight = update s.in_flight m (s.in_flight m - 1) }) m)
        (λ t. if t.in_flight m == 0 then drain_queue eviction_for ws t else some t)
        (λ t. elim (Bool-cases (t.in_flight m == 0)) [
          | inl e ↦ rw e (drain_queue-Awake eviction_for ws t)
          | inr e ↦ rw e (λ n. inr (m, ground arith))
        ])

  on_unload-Awake :
      (ws : ℕ → World) (s : Fifo) (targets : List String) (timeout : ℕ)
      → Whenever Awake (on_unload eviction_for ws s targets timeout)
  unfolding on_unload
  on_unload-Awake ws s targets timeout =
      Whenever-then Awake (abandon_all (model_unloaded s.name) s (distinct targets)) _ (λ t.
        Whenever-then Awake (drop_queued (model_unloaded s.name) targets t [] t.queued) _ (λ r.
          drain_queue-Awake eviction_for ws
            (call (stop_processes timeout targets) (record r.0 { queued = r.1 }))))

-- OnCancel drops requests, and neither a swap nor a served request.
abbrev Quiet : Fifo → Fifo → Type 0
Quiet s t = (t.active ≡ s.active) × (t.in_flight ≡ s.in_flight)

release-Quiet : (s : Fifo) (m : String) → Whenever (Quiet s) (release s m)
unfolding release
release-Quiet s m = if_keeps (Whenever (Quiet s)) (leb (s.reserved m) 0) _ _ tt (refl, refl)

prune-Quiet :
    (ch : ℕ) (s : Fifo) (kept : List HandlerReq) (removed : Bool) (pending : List HandlerReq)
    → Whenever (λ r. Quiet s r.0 × (pending ≡ [] → r.1 ≡ kept)) (prune ch s kept removed pending)
unfolding prune
prune-Quiet ch s kept removed [] = ((refl, refl), λ e. refl)
prune-Quiet ch s kept removed (q ∷ pending) = elim (Bool-cases (q.respond == ch)) [
  | inl t ↦
      rw (t, prune)
        (Whenever-bind (Quiet s) (λ r. Quiet s r.0 × (q ∷ pending ≡ [] → r.1 ≡ kept)) _ _
          (release-Quiet s q.model)
          (λ u k.
            Whenever-mono (λ r. Quiet u r.0 × (pending ≡ [] → r.1 ≡ kept)) _ _
              (λ r h. ((h.0.0 ∙ k.0, h.0.1 ∙ k.1), λ e. cc)) (prune-Quiet ch u kept true pending)))
  | inr t ↦
      rw (t, prune)
        (Whenever-mono (λ r. Quiet s r.0 × (pending ≡ [] → r.1 ≡ kept ++ q ∷ [])) _ _
          (λ r h. (h.0, λ e. cc)) (prune-Quiet ch s (kept ++ q ∷ []) removed pending))
]

abbrev Same : ℕ → Fifo → Fifo × List ActiveSwap × Bool → Type 0
Same n s r = (r.0.in_flight ≡ s.in_flight) × (length r.1 ≡ n)

prune_active-Same :
    (ch : ℕ) (s : Fifo) (done : List ActiveSwap) (removed : Bool) (pending : List ActiveSwap)
    → Whenever (Same (length done + length pending) s) (prune_active ch s done removed pending)
unfolding prune_active
prune_active-Same ch s done removed [] = (refl, omega arith)
prune_active-Same ch s done removed (sw ∷ pending) =
    Whenever-bind (λ r. Quiet s r.0 × (sw.waiters ≡ [] → r.1 ≡ []))
      (Same (length done + length (sw ∷ pending)) s) _ _ (prune-Quiet ch s [] removed sw.waiters)
      (λ r k.
        let done' = done ++ record sw { waiters = r.1 } ∷ [] in
        Whenever-mono (Same (length done' + length pending) r.0)
          (Same (length done + length (sw ∷ pending)) s) _
          (λ x h. (
            h.0 ∙ k.0.1,
            omega (arith, h.1, length-append done (record sw { waiters = r.1 } ∷ [])),
          ))
          (prune_active-Same ch r.0 done' r.2 pending))

Busy-after :
    (s t : Fifo) → t.in_flight ≡ s.in_flight → length t.active ≡ length s.active → Busy s → Busy t
Busy-after s t e l (inl a) = inl (length-ne s.active t.active (sym l) a)
Busy-after s t e l (inr (m, h)) = inr (m, subst (λ f. 0 < f m) (sym e) h)

on_cancel-Awake : (s : Fifo) (req : HandlerReq) → Awake s → Whenever Awake (on_cancel s req)
unfolding on_cancel
on_cancel-Awake s req a =
    Whenever-bind (λ r. Quiet s r.0 × (s.queued ≡ [] → r.1 ≡ [])) Awake _ _
      (prune-Quiet req.respond s [] false s.queued)
      (λ r k.
        Whenever-bind (Same (0 + length r.0.active) r.0) Awake _ _
          (prune_active-Same req.respond r.0 [] r.2 r.0.active)
          (λ x h.
            let t = record x.0 { queued = r.1; active = x.1 } in
            let awake : Awake t = λ n.
              Busy-after s t (h.0 ∙ k.0.1) (omega (arith, h.1, ap length k.0.0))
                (a (λ e. n (k.1 e))) in
            if_keeps Awake x.2 _ _ (broadcast_keeps Awake (λ e s k. k) t awake) awake))

module _ (eviction_for : String → List String → List String) where
  pub step-Awake :
      (ws : ℕ → World) (s : Fifo) (e : Event) → Awake s → Whenever Awake (step eviction_for ws s e)
  unfolding step on_swap_done
  step-Awake ws s (requested req) a = on_request-Awake eviction_for (ws 0) s req a
  step-Awake ws s (cancelled req) a = on_cancel-Awake s req a
  step-Awake ws s (swap_done ev) a = finish_swap-Awake eviction_for ws s ev _ a
  step-Awake ws s (serve_done m) a = on_serve_done-Awake eviction_for ws s m
  step-Awake ws s (unload targets timeout) a = on_unload-Awake eviction_for ws s targets timeout
