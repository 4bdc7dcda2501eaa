-- ===== src/Scheduler/Wakeup/Drain.antt =====
-- internal/router/scheduler/fifo.go: what drainQueue leaves in the queue waits for something.
use fork_llama_swap.Base.{
  ℕ, ◌+◌, ◌≡◌, ◌≢◌, refl, inl, inr, String, Bool-cases, if_keeps, List, [], ◌∷◌, Option-cases,
  Whenever, Whenever-bind,
}
use fork_llama_swap.Scheduler.Model.{HandlerReq, World, ProcessState, Fifo, model_not_found}
use fork_llama_swap.Scheduler.Collision.{collides_with, conflicts_with_in_flight}
use fork_llama_swap.Scheduler.Grant.{broadcast_keeps}
use fork_llama_swap.Scheduler.Decide.{
  Verdict, join, serve, wait, swap, weigh, slow_path, decide, on_pending, drain_one, drain_from,
  drain_pending, drain_queue,
}
use fork_llama_swap.Scheduler.Wakeup.{
  Busy, Awake, Onward, grant_handler-Onward, refuse-Onward, join-Busy, begin_swap-Busy,
  collides_with-ne, conflicts-in_flight,
}

-- A verdict to wait names what is waited for.
unfoldable pub Waits : Fifo → Verdict → Type 0
Waits s wait = Busy s
Waits s v = Unit {0}

join-Waits : (s : Fifo) → Waits s join
unfolding Waits
join-Waits s = tt

serve-Waits : (s : Fifo) → Waits s serve
unfolding Waits
serve-Waits s = tt

slow_path-Waits :
    (s : Fifo) (m : String) (running evict : List String) → Waits s (slow_path s m running evict)
unfolding slow_path Waits
slow_path-Waits s m running evict = elim (Bool-cases (collides_with m evict s.active)) [
  | inl c ↦ rw c (inl (collides_with-ne m evict s.active c))
  | inr c ↦ elim (Bool-cases (conflicts_with_in_flight evict s.in_flight)) [
    | inl k ↦ rw (c, k) (inr (conflicts-in_flight evict s.in_flight k))
    | inr k ↦ rw (c, k) tt
  ]
]

module _ (eviction_for : String → List String → List String) where
  pub decide-Waits :
      (w : World) (s : Fifo) (m : String) (state : ProcessState)
      → Waits s (decide eviction_for w s m state)
  unfolding decide weigh
  decide-Waits w s m state =
      if_keeps (Waits s) _ join _ (join-Waits s)
        (if_keeps (Waits s) _ serve (slow_path s m _ _) (serve-Waits s) (slow_path-Waits s m _ _))

-- The requests that stay queued so far wait for something.
abbrev Waiting : Fifo × List HandlerReq → Type 0
Waiting r = r.1 ≢ [] → Busy r.0

on_pending-Waiting :
    (w : World) (s : Fifo) (remaining : List HandlerReq) (req : HandlerReq) (v : Verdict)
    → Waits s v
    → (remaining ≢ [] → Busy s)
    → Whenever Waiting (on_pending w s remaining req v)
unfolding on_pending Waits
on_pending-Waiting w s remaining req join h k = λ n. join-Busy s req (k n)
on_pending-Waiting w s remaining req serve h k =
    Whenever-bind (Onward s) Waiting _ _ (grant_handler-Onward w s req req.model)
      (λ t o n. o.0 (k n))
on_pending-Waiting w s remaining req wait h k = λ n. h
on_pending-Waiting w s remaining req (swap evict running) h k =
    λ n. begin_swap-Busy s req evict running

module _ (eviction_for : String → List String → List String) where
  drain_one-Waiting :
      (w : World) (s : Fifo) (remaining : List HandlerReq) (req : HandlerReq)
      → (remaining ≢ [] → Busy s)
      → Whenever Waiting (drain_one eviction_for w s remaining req)
  unfolding drain_one
  drain_one-Waiting w s remaining req k = elim (Option-cases (w.model_state req.model)) [
    | inl e ↦
        rw (e, drain_one)
          (Whenever-bind (Onward s) Waiting _ _ (refuse-Onward s req model_not_found)
            (λ t o n. o.0 (k n)))
    | inr (state, e) ↦
        rw (e, drain_one)
          (on_pending-Waiting w s remaining req _ (decide-Waits eviction_for w s req.model state) k)
  ]

  drain_from-Waiting :
      (ws : ℕ → World) (i : ℕ) (s : Fifo) (remaining pending : List HandlerReq)
      → (remaining ≢ [] → Busy s)
      → Whenever Waiting (drain_from eviction_for ws i s remaining pending)
  unfolding drain_from
  drain_from-Waiting ws i s remaining [] k = k
  drain_from-Waiting ws i s remaining (req ∷ pending) k =
      Whenever-bind Waiting Waiting _ _ (drain_one-Waiting (ws i) s remaining req k)
        (λ r h. drain_from-Waiting ws (i + 1) r.0 r.1 pending h)

  drain_pending-Awake :
      (ws : ℕ → World) (s : Fifo) (pending : List HandlerReq)
      → s.queued ≡ pending
      → Whenever Awake (drain_pending eviction_for ws s pending)
  unfolding drain_pending
  drain_pending-Awake ws s [] e = λ n. absurd (n e)
  drain_pending-Awake ws s (req ∷ pending) e =
      Whenever-bind Waiting Awake _ _
        (drain_from-Waiting ws 0 s [] (req ∷ pending) (λ n. absurd (n refl)))
        (λ r h. broadcast_keeps Awake (λ e s k. k) (record r.0 { queued = r.1 }) h)

  pub drain_queue-Awake :
      (ws : ℕ → World) (s : Fifo) → Whenever Awake (drain_queue eviction_for ws s)
  unfolding drain_queue
  drain_queue-Awake ws s = drain_pending-Awake ws s s.queued refl
