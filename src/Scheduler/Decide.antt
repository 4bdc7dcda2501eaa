-- ===== src/Scheduler/Decide.antt =====
-- internal/router/scheduler/fifo.go: the decision tree that OnRequest and drainQueue share, and the
-- start of a swap. `eviction_for` is the planner's EvictionFor.
use fork_llama_swap.Base.{
  ℕ, ◌+◌, ◌%◌, ◌^◌, String, Bool, true, false, ◌&&◌, not, List, [], ◌∷◌, ◌++◌, Option, none, some,
  ◌=ₛ◌, if◌then◌else◌, ◌>>=◌,
}
use fork_llama_swap.Scheduler.Model.{
  HandlerReq, World, ProcessState, ready, Fifo, ActiveSwap, on_swap_start, start_swap,
  model_not_found, call,
}
use fork_llama_swap.Scheduler.Collision.{collides_with, conflicts_with_in_flight, running_set}
use fork_llama_swap.Scheduler.Grant.{
  grant_handler, refuse, reject_admission, admit, enqueue, broadcast,
}

unfoldable pub find_active : String → List ActiveSwap → Option ActiveSwap
find_active m [] = none
find_active m (sw ∷ active) = if sw.model_id =ₛ m then some sw else find_active m active

-- sw.waiters = append(sw.waiters, req), at the swap that `find_active` finds.
unfoldable pub add_waiter : HandlerReq → List ActiveSwap → List ActiveSwap
add_waiter req [] = []
add_waiter req (sw ∷ active) =
    if sw.model_id =ₛ req.model
    then record sw { waiters = sw.waiters ++ req ∷ [] } ∷ active
    else sw ∷ add_waiter req active

unfoldable pub delete_active : String → List ActiveSwap → List ActiveSwap
delete_active m [] = []
delete_active m (sw ∷ active) = if sw.model_id =ₛ m then active else sw ∷ delete_active m active

abbrev is_ready : ProcessState → Bool
is_ready ready = true
is_ready _ = false

abbrev is_empty : List String → Bool
is_empty [] = true
is_empty (x ∷ xs) = false

abbrev is_some : Option ActiveSwap → Bool
is_some none = false
is_some (some sw) = true

-- What is to be done with a request: join the swap of its model (2), serve it on the fast path (3),
-- keep it queued (4, 5), or start a swap (6).
pub data Verdict : Type 0 where
  join serve wait : Verdict
  swap : (evict running : List String) → Verdict

-- (4), (5), (6).
unfoldable pub slow_path : Fifo → String → List String → List String → Verdict
slow_path s m running evict =
    if collides_with m evict s.active
    then wait
    else if conflicts_with_in_flight evict s.in_flight
    then wait
    else swap evict running

-- (3), and the rest.
unfoldable pub weigh : Fifo → String → Bool → List String → List String → Verdict
unfolding slow_path
weigh s m at_ready running evict =
    if at_ready && (is_empty evict && not (collides_with m evict s.active))
    then serve
    else slow_path s m running evict

abbrev pub new_swap : HandlerReq → ℕ → List String → ActiveSwap
new_swap initial generation evict = record {
  model_id = initial.model;
  generation = generation;
  evict = evict;
  waiters = initial ∷ [];
}

-- startSwap. The model has no active swap here, so the assignment to the map adds an entry.
-- `next_generation` is a uint64.
unfoldable pub begin_swap : Fifo → HandlerReq → List String → List String → Fifo
begin_swap s initial evict running =
    let generation = (s.next_generation + 1) % 2 ^ 64 in
    call (start_swap initial.model generation evict) (
      call (on_swap_start initial.model running) (record s {
        next_generation = generation;
        active = new_swap initial generation evict ∷ s.active;
      }))

module _ (eviction_for : String → List String → List String) where
  unfoldable pub decide : World → Fifo → String → ProcessState → Verdict
  unfolding weigh find_active
  decide w s m state =
      let running = running_set w.running_models s.active m in
      if is_some (find_active m s.active)
      then join
      else weigh s m (is_ready state) running (eviction_for m running)

-- The end of OnRequest, once the request is admitted.
unfoldable pub on_admitted : World → Fifo → HandlerReq → Verdict → Option Fifo
on_admitted w s req join = some (record s { active = add_waiter req s.active })
on_admitted w s req serve = grant_handler w s req req.model
on_admitted w s req wait = some (enqueue s req)
on_admitted w s req (swap evict running) = some (begin_swap s req evict running)

-- The body of the loop of drainQueue: `remaining` are the requests that stay queued so far.
unfoldable pub on_pending :
    World → Fifo → List HandlerReq → HandlerReq → Verdict → Option (Fifo × List HandlerReq)
on_pending w s remaining req join = some (record s { active = add_waiter req s.active }, remaining)
on_pending w s remaining req serve = do s' ← grant_handler w s req req.model; some (s', remaining)
on_pending w s remaining req wait = some (s, remaining ++ req ∷ [])
on_pending w s remaining req (swap evict running) = some (begin_swap s req evict running, remaining)

module _ (eviction_for : String → List String → List String) where
  unfoldable pub on_known : World → Fifo → HandlerReq → ProcessState → Fifo × Bool → Option Fifo
  on_known w s req state (s', admitted) =
      if admitted then on_admitted w s' req (decide eviction_for w s' req.model state) else some s'

  -- OnRequest.
  unfoldable pub on_request : World → Fifo → HandlerReq → Option Fifo
  unfolding on_known
  on_request w s req = elim (w.model_state req.model) [
    | none ↦ some (reject_admission w s req model_not_found)
    | some state ↦ on_known w s req state (admit w s req)
  ]

  unfoldable pub drain_one :
      World → Fifo → List HandlerReq → HandlerReq → Option (Fifo × List HandlerReq)
  drain_one w s remaining req = elim (w.model_state req.model) [
    | none ↦ do s' ← refuse s req model_not_found; some (s', remaining)
    | some state ↦ on_pending w s remaining req (decide eviction_for w s req.model state)
  ]

  -- The loop of drainQueue. The world may change between two requests: `ws i` is met by the i-th.
  unfoldable pub drain_from :
      (ℕ → World) → ℕ → Fifo → List HandlerReq → List HandlerReq → Option (Fifo × List HandlerReq)
  drain_from ws i s remaining [] = some (s, remaining)
  drain_from ws i s remaining (req ∷ pending) = do
    (s', remaining') ← drain_one (ws i) s remaining req
    drain_from ws (i + 1) s' remaining' pending

  unfoldable pub drain_pending : (ℕ → World) → Fifo → List HandlerReq → Option Fifo
  drain_pending ws s [] = some s
  drain_pending ws s (req ∷ pending) = do
    (s', remaining) ← drain_from ws 0 s [] (req ∷ pending)
    some (broadcast (record s' { queued = remaining }))

  -- drainQueue.
  unfoldable pub drain_queue : (ℕ → World) → Fifo → Option Fifo
  unfolding drain_pending
  drain_queue ws s = drain_pending ws s s.queued
