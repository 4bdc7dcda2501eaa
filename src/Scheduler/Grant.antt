-- ===== src/Scheduler/Grant.antt =====
-- internal/router/scheduler/fifo.go: admission, grants and the queue.
use fork_llama_swap.Base.{
  ℕ, ◌+◌, String, Bool, true, false, not, List, [], ◌∷◌, Option, none, some, leb, if◌then◌else◌,
  ◌>>=◌,
}
use fork_llama_swap.Base.Int.{ℤ, ltb_ℤ}
use fork_llama_swap.Scheduler.Model.{
  HandlerReq, World, Error, Effect, Fifo, admission, grant_serve, grant_error, queue_position,
  concurrency_limit, limit, release, update, call,
}

-- sendAdmission: a nil channel takes everything; a caller that has left takes nothing.
unfoldable pub send_admission : World → Fifo → HandlerReq → Option Error → Fifo × Bool
send_admission w s req err =
    if not req.has_admit
    then (s, true)
    else if w.receives_admission req
    then (call (admission req err) s, true)
    else (s, false)

unfoldable pub reject_admission : World → Fifo → HandlerReq → Error → Fifo
unfolding send_admission
reject_admission w s req err = (send_admission w s req (some err)).0

unfoldable pub reserve : String → Fifo × Bool → Fifo × Bool
reserve m (s, true) = (record s { reserved = update s.reserved m (s.reserved m + 1) }, true)
reserve m (s, false) = (s, false)

unfoldable pub admit : World → Fifo → HandlerReq → Fifo × Bool
unfolding send_admission reject_admission reserve
admit w s req =
    if leb (limit s req.model) (s.reserved req.model)
    then (reject_admission w s req concurrency_limit, false)
    else reserve req.model (send_admission w s req none)

-- grantHandler, less the metadata of the request.
unfoldable pub grant_handler : World → Fifo → HandlerReq → String → Option Fifo
grant_handler w s req m =
    let s' = call (grant_serve req m) s in
    if w.receives_grant req
    then some (record s' { in_flight = update s'.in_flight m (s'.in_flight m + 1) })
    else release s' m

-- grantError.
unfoldable pub refuse : Fifo → HandlerReq → Error → Option Fifo
refuse s req err = do s' ← release s req.model; some (call (grant_error req err) s')

-- broadcastQueuePositions: the channel of each queued request is told its place, from 1.
unfoldable pub broadcast_from : ℕ → List HandlerReq → Fifo → Fifo
broadcast_from i [] s = s
broadcast_from i (req ∷ queued) s =
    broadcast_from (i + 1) queued (call (queue_position req (i + 1)) s)

unfoldable pub broadcast : Fifo → Fifo
unfolding broadcast_from
broadcast s = broadcast_from 0 s.queued s

-- The place that the loop of enqueue finds: before the first request of a lower priority.
unfoldable pub insert_by_priority : (String → ℤ) → HandlerReq → List HandlerReq → List HandlerReq
insert_by_priority priority req [] = req ∷ []
insert_by_priority priority req (q ∷ queued) =
    if ltb_ℤ (priority q.model) (priority req.model)
    then req ∷ q ∷ queued
    else q ∷ insert_by_priority priority req queued

unfoldable pub enqueue : Fifo → HandlerReq → Fifo
unfolding broadcast
enqueue s req = broadcast (record s { queued = insert_by_priority s.priority req s.queued })

-- What the calls do not change, the notice of the places does not change.
broadcast_from_keeps :
    (P : Fifo → Type 0)
    → ((e : Effect) (s : Fifo) → P s → P (call e s))
    → (i : ℕ) (queued : List HandlerReq) (s : Fifo) → P s
    → P (broadcast_from i queued s)
unfolding broadcast_from
broadcast_from_keeps P k i [] s h = h
broadcast_from_keeps P k i (q ∷ queued) s h =
    broadcast_from_keeps P k (i + 1) queued _ (k (queue_position q (i + 1)) s h)

pub broadcast_keeps :
    (P : Fifo → Type 0)
    → ((e : Effect) (s : Fifo) → P s → P (call e s))
    → (s : Fifo) → P s
    → P (broadcast s)
unfolding broadcast
broadcast_keeps P k s h = broadcast_from_keeps P k 0 s.queued s h
