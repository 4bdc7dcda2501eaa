-- ===== src/Scheduler/Invariant/Requests.antt =====
-- internal/router/scheduler/fifo.go: OnRequest returns, and keeps the books.
use fork_llama_swap.Base.{
  ℕ, ◌+◌, ◌<◌, ◌≡◌, refl, ap, ◌∙◌, String, Bool, true, false, not, Bool-cases, leb, names, if_keeps,
  List, [], ◌∷◌, Option, some, none, Option-cases, Ensures, Ensures-mono, inl, inr, arith,
}
use fork_llama_swap.Base.Int.{ℤ, ltb_ℤ}
use fork_llama_swap.Scheduler.Model.{
  HandlerReq, World, ProcessState, Fifo, Error, Effect, limit, call, model_not_found,
}
use fork_llama_swap.Scheduler.Grant.{
  send_admission, reject_admission, reserve, admit, insert_by_priority, enqueue, broadcast_keeps,
}
use fork_llama_swap.Scheduler.Decide.{
  add_waiter, Verdict, join, serve, wait, swap, begin_swap, on_admitted, on_known, on_request,
}
use fork_llama_swap.Scheduler.Invariant.{
  Keeps, Holds-Inv, Inv, hits, count, queued_for, Holds-congr,
}
use fork_llama_swap.Scheduler.Invariant.Grants.{OneLess, grant_handler-Keeps}
use fork_llama_swap.Scheduler.Invariant.Swaps.{join-Holds, begin_swap-Holds}
use fork_llama_swap.Scheduler.Invariant.Drain.{Justified, decide-Justified}

-- What no call on a channel changes, a send on `Admit` keeps.
pub send_admission_keeps :
    (P : Fifo → Type 0)
    → ((e : Effect) (s : Fifo) → P s → P (call e s))
    → (w : World) (s : Fifo) (req : HandlerReq) (err : Option Error) → P s
    → P (send_admission w s req err).0
unfolding send_admission
send_admission_keeps P k w s req err h =
    if_keeps (λ (r : Fifo × Bool). P r.0) (not req.has_admit) _ _ h
      (if_keeps (λ (r : Fifo × Bool). P r.0) (w.receives_admission req) _ _ (k _ s h) h)

pub reject_admission-Inv :
    (w : World) (s : Fifo) (req : HandlerReq) (err : Error)
    → Inv s
    → Inv (reject_admission w s req err)
unfolding reject_admission limit
reject_admission-Inv w s req err v = send_admission_keeps Inv (λ e s k. k) w s req (some err) v

pub count-insert_by_priority :
    (j : String) (priority : String → ℤ) (req : HandlerReq) (qs : List HandlerReq)
    → count j (insert_by_priority priority req qs) ≡ count j qs + hits req.model j
unfolding insert_by_priority
count-insert_by_priority j priority req [] = omega arith
count-insert_by_priority j priority req (q ∷ qs) =
    elim (Bool-cases (ltb_ℤ (priority q.model) (priority req.model))) [
      | inl t ↦ rw t (omega arith)
      | inr t ↦ rw t (omega (arith, count-insert_by_priority j priority req qs))
    ]

module _ (s : Fifo) (req : HandlerReq) where
  -- The queue, and the request on top.
  abbrev pub with_request : String → ℕ
  with_request j = queued_for s.queued j + hits req.model j

  abbrev pub Admission : Fifo × Bool → Type 0
  Admission (s', true) = Keeps with_request s s'
  Admission (s', false) = Keeps (queued_for s.queued) s s'

  -- There is room for one more reservation of the model.
  abbrev HasRoom : Fifo → Type 0
  HasRoom s' = Keeps (queued_for s.queued) s s' × (s'.reserved req.model < limit s' req.model)

  reserve-Admission : (r : Fifo × Bool) → HasRoom r.0 → Admission (reserve req.model r)
  unfolding reserve limit
  reserve-Admission (s', true) ((v, e, f), room) = (
    record {
      accounted = λ j. ground (arith, v.accounted j, names req.model j);
      bounded = λ j. ground (arith, v.bounded j, names req.model j);
      own = v.own;
      apart = v.apart;
      unbusy = v.unbusy;
    },
    e,
    f,
  )
  reserve-Admission (s', false) (k, room) = k

  admit-Admission : (w : World) → Inv s → Admission (admit w s req)
  unfolding admit limit
  admit-Admission w v = elim (Bool-cases (leb (limit s req.model) (s.reserved req.model))) [
    | inl t ↦
        rw (t, admit)
          (send_admission_keeps (Keeps (queued_for s.queued) s) (λ e s k. k) w s req _
            (v, refl, refl))
    | inr t ↦
        rw (t, admit)
          (reserve-Admission _ (
            send_admission_keeps HasRoom (λ e s k. k) w s req none ((v, refl, refl), ground arith)))
  ]

  less : OneLess with_request (queued_for s.queued) req.model
  less j = refl

  on_admitted-Inv :
      (w : World) (s' : Fifo) (v : Verdict)
      → Justified s' req.model v
      → Keeps with_request s s'
      → Ensures Inv (on_admitted w s' req v)
  unfolding on_admitted enqueue begin_swap limit
  on_admitted-Inv w s' join (sw, h) (k, e, f) =
      Holds-Inv s (record s' { active = add_waiter req s'.active })
        (join-Holds req with_request (queued_for s.queued) s' less sw h k) e
  on_admitted-Inv w s' serve free (k, e, f) =
      Ensures-mono (Keeps (queued_for s.queued) s') Inv _ (λ t h. Holds-Inv s t h.0 (h.1 ∙ e))
        (grant_handler-Keeps with_request _ s' req.model less w req k free)
  on_admitted-Inv w s' wait h (k, e, f) =
      broadcast_keeps Inv (λ e s k. k)
        (record s' { queued = insert_by_priority s'.priority req s'.queued })
        (Holds-congr with_request (queued_for (insert_by_priority s'.priority req s'.queued)) s'
          (λ j. omega (arith, ap (count j) e, count-insert_by_priority j s'.priority req s'.queued))
          k)
  on_admitted-Inv w s' (swap evict running) h (k, e, f) =
      Holds-Inv s (begin_swap s' req evict running)
        (begin_swap-Holds req with_request (queued_for s.queued) s' less evict running h.0 h.1 h.2
          k)
        e

  on_known-Inv :
      (eviction_for : String → List String → List String) (w : World) (state : ProcessState)
      (r : Fifo × Bool)
      → Admission r
      → Ensures Inv (on_known eviction_for w s req state r)
  unfolding on_known
  on_known-Inv eviction_for w state (s', true) k =
      on_admitted-Inv w s' _ (decide-Justified eviction_for w s' req state) k
  on_known-Inv eviction_for w state (s', false) k = Holds-Inv s s' k.0 k.1

  pub on_request-Inv :
      (eviction_for : String → List String → List String) (w : World)
      → Inv s
      → Ensures Inv (on_request eviction_for w s req)
  unfolding on_request
  on_request-Inv eviction_for w v = elim (Option-cases (w.model_state req.model)) [
    | inl e ↦ rw (e, on_request) (reject_admission-Inv w s req model_not_found v)
    | inr (state, e) ↦
        rw (e, on_request) (on_known-Inv eviction_for w state (admit w s req) (admit-Admission w v))
  ]
