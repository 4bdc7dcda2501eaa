-- ===== src/Scheduler/Events.antt =====
-- internal/router/scheduler/fifo.go: the handlers that the run loop of internal/router/base.go
-- calls, one event at a time.
use fork_llama_swap.Base.{
  ℕ, ◌+◌, ◌-◌, String, Bool, true, false, List, [], ◌∷◌, ◌++◌, Option, none, some, ◌==◌,
  if◌then◌else◌, ◌>>=◌,
}
use fork_llama_swap.Scheduler.Model.{
  HandlerReq, World, Error, Fifo, ActiveSwap, cancel_swap, stop_processes, model_unloaded, release,
  update, call,
}
use fork_llama_swap.Scheduler.Collision.{contains_string}
use fork_llama_swap.Scheduler.Grant.{grant_handler, refuse, broadcast}
use fork_llama_swap.Scheduler.Decide.{find_active, delete_active, on_request, drain_queue}

-- A loop of grantError.
unfoldable pub refuse_all : Error → Fifo → List HandlerReq → Option Fifo
refuse_all err s [] = some s
refuse_all err s (req ∷ reqs) = do s' ← refuse s req err; refuse_all err s' reqs

-- A loop of grantHandler.
unfoldable pub serve_all : World → String → Fifo → List HandlerReq → Option Fifo
serve_all w m s [] = some s
serve_all w m s (req ∷ reqs) = do s' ← grant_handler w s req m; serve_all w m s' reqs

-- A loop of OnCancel over one list: the requests of the channel are released and dropped. The result
-- has the list that is kept, and whether something was removed.
unfoldable pub prune :
    ℕ → Fifo → List HandlerReq → Bool → List HandlerReq → Option (Fifo × List HandlerReq × Bool)
prune ch s kept removed [] = some (s, kept, removed)
prune ch s kept removed (q ∷ qs) = elim (q.respond == ch) [
  | true ↦ do s' ← release s q.model; prune ch s' kept true qs
  | false ↦ prune ch s (kept ++ q ∷ []) removed qs
]

-- The loop of OnCancel over the active swaps.
unfoldable pub prune_active :
    ℕ → Fifo → List ActiveSwap → Bool → List ActiveSwap → Option (Fifo × List ActiveSwap × Bool)
prune_active ch s done removed [] = some (s, done, removed)
prune_active ch s done removed (sw ∷ active) = do
  (s', kept, removed') ← prune ch s [] removed sw.waiters
  prune_active ch s' (done ++ record sw { waiters = kept } ∷ []) removed' active

-- OnCancel.
unfoldable pub on_cancel : Fifo → HandlerReq → Option Fifo
on_cancel s req = do
  (s1, kept, removed) ← prune req.respond s [] false s.queued
  (s2, active, removed') ← prune_active req.respond s1 [] removed s1.active
  let s3 = record s2 { queued = kept; active = active }
  some (if removed' then broadcast s3 else s3)

-- targetSet: the targets without repetitions.
unfoldable pub distinct : List String → List String
distinct [] = []
distinct (x ∷ xs) = let rest = distinct xs in if contains_string rest x then rest else x ∷ rest

unfoldable pub abandon : Error → String → Fifo → Option ActiveSwap → Option Fifo
abandon err m s none = some s
abandon err m s (some sw) = do
  s' ← refuse_all err (call (cancel_swap sw.generation) s) sw.waiters
  some (record s' { active = delete_active m s'.active })

-- The first loop of OnUnload.
unfoldable pub abandon_all : Error → Fifo → List String → Option Fifo
unfolding abandon find_active delete_active
abandon_all err s [] = some s
abandon_all err s (m ∷ targets) = do
  s' ← abandon err m s (find_active m s.active)
  abandon_all err s' targets

-- The second loop of OnUnload, over the queue.
unfoldable pub drop_queued :
    Error → List String → Fifo → List HandlerReq → List HandlerReq → Option (Fifo × List HandlerReq)
drop_queued err targets s kept [] = some (s, kept)
drop_queued err targets s kept (q ∷ qs) = elim (contains_string targets q.model) [
  | true ↦ do s' ← refuse s q err; drop_queued err targets s' kept qs
  | false ↦ drop_queued err targets s (kept ++ q ∷ []) qs
]

unfoldable pub deliver : World → String → Option Error → Fifo → List HandlerReq → Option Fifo
deliver w m none s reqs = serve_all w m s reqs
deliver w m (some err) s reqs = refuse_all err s reqs

unfoldable pub shut_swaps : Error → Fifo → List ActiveSwap → Option Fifo
shut_swaps err s [] = some s
shut_swaps err s (sw ∷ active) = do
  s' ← refuse_all err (call (cancel_swap sw.generation) s) sw.waiters
  shut_swaps err s' active

-- OnShutdown.
unfoldable pub on_shutdown : Fifo → Error → Option Fifo
on_shutdown s err = do s' ← shut_swaps err s s.active; refuse_all err s' s'.queued

-- SwapDone.
pub record SwapDone : Type 0 where
  pub model_id : String
  pub generation : ℕ
  pub err : Option Error

-- The events that the run loop hands to the scheduler, less the last one, the shutdown.
pub data Event : Type 0 where
  requested : HandlerReq → Event
  cancelled : HandlerReq → Event
  swap_done : SwapDone → Event
  serve_done : String → Event
  unload : List String → ℕ → Event

module _ (eviction_for : String → List String → List String) where
  unfoldable pub finish_swap : (ℕ → World) → Fifo → SwapDone → Option ActiveSwap → Option Fifo
  finish_swap ws s ev none = some s
  finish_swap ws s ev (some sw) =
      if sw.generation == ev.generation
      then (do
        s' ←
            deliver (ws 0) ev.model_id ev.err
              (record (call (cancel_swap sw.generation) s) {
                active = delete_active ev.model_id s.active;
              })
              sw.waiters
        drain_queue eviction_for (λ i. ws (i + 1)) s')
      else some s

  -- OnSwapDone.
  unfoldable pub on_swap_done : (ℕ → World) → Fifo → SwapDone → Option Fifo
  unfolding finish_swap deliver find_active delete_active
  on_swap_done ws s ev = finish_swap ws s ev (find_active ev.model_id s.active)

  -- OnServeDone. The count of a model goes down by one; a count that is not positive any more is
  -- deleted, so a count of 0, which would become -1, reads 0 after it too.
  unfoldable pub on_serve_done : (ℕ → World) → Fifo → String → Option Fifo
  on_serve_done ws s m = do
    s' ← release (record s { in_flight = update s.in_flight m (s.in_flight m - 1) }) m
    if s'.in_flight m == 0 then drain_queue eviction_for ws s' else some s'

  -- OnUnload.
  unfoldable pub on_unload : (ℕ → World) → Fifo → List String → ℕ → Option Fifo
  on_unload ws s targets timeout = do
    let err = model_unloaded s.name
    s1 ← abandon_all err s (distinct targets)
    (s2, kept) ← drop_queued err targets s1 [] s1.queued
    drain_queue eviction_for ws
        (call (stop_processes timeout targets) (record s2 { queued = kept }))

  -- One round of the run loop of baseRouter.
  unfoldable pub step : (ℕ → World) → Fifo → Event → Option Fifo
  step ws s (requested req) = on_request eviction_for (ws 0) s req
  step ws s (cancelled req) = on_cancel s req
  step ws s (swap_done ev) = on_swap_done ws s ev
  step ws s (serve_done m) = on_serve_done ws s m
  step ws s (unload targets timeout) = on_unload ws s targets timeout
