-- ===== src/Scheduler/Wakeup.antt =====
-- internal/router/scheduler/fifo.go: no lost wakeup. While a request is queued there is a swap or a
-- served request whose end makes the scheduler look at the queue again.
pub mod Drain
pub mod Handlers
use fork_llama_swap.Base.{
  ℕ, ◌+◌, ◌-◌, ◌<◌, ◌≡◌, ◌≢◌, refl, ◌⊎◌, inl, inr, String, Bool, true, Bool-cases, if_keeps,
  if◌then◌else◌, ltb, leb, names, ◌=ₛ◌, List, [], ◌∷◌, Option, some, none, Whenever, Whenever-bind,
  ◌>>=◌, arith,
}
use fork_llama_swap.Scheduler.Model.{
  HandlerReq, World, Fifo, Error, ActiveSwap, release, call, update,
}
use fork_llama_swap.Scheduler.Collision.{collides_with, conflicts_with_in_flight}
use fork_llama_swap.Scheduler.Grant.{grant_handler, refuse}
use fork_llama_swap.Scheduler.Decide.{add_waiter, begin_swap}

-- Something will end: a swap, or a request that is served.
abbrev pub Busy : Fifo → Type 0
Busy s = (s.active ≢ []) ⊎ ((m : String) × (0 < s.in_flight m))

abbrev pub Awake : Fifo → Type 0
Awake s = s.queued ≢ [] → Busy s

-- Some step leaves the queue alone, and as busy as it was.
abbrev pub Onward : Fifo → Fifo → Type 0
Onward s t = (Busy s → Busy t) × (t.queued ≡ s.queued)

pub release-Onward : (s : Fifo) (m : String) → Whenever (Onward s) (release s m)
unfolding release
release-Onward s m = if_keeps (Whenever (Onward s)) (leb (s.reserved m) 0) _ _ tt ((λ b. b), refl)

more_in_flight :
    (s : Fifo) (m : String)
    → Busy s
    → Busy (record s { in_flight = update s.in_flight m (s.in_flight m + 1) })
more_in_flight s m (inl a) = inl a
more_in_flight s m (inr (j, h)) = inr (j, ground (arith, names m j))

pub grant_handler-Onward :
    (w : World) (s : Fifo) (req : HandlerReq) (m : String)
    → Whenever (Onward s) (grant_handler w s req m)
unfolding grant_handler
grant_handler-Onward w s req m =
    if_keeps (Whenever (Onward s)) (w.receives_grant req) _ _ (more_in_flight s m, refl)
      (release-Onward _ m)

pub refuse-Onward :
    (s : Fifo) (req : HandlerReq) (err : Error) → Whenever (Onward s) (refuse s req err)
unfolding refuse
refuse-Onward s req err =
    Whenever-bind (Onward s) (Onward s) _ _ (release-Onward s req.model) (λ t k. k)

add_waiter-ne :
    (req : HandlerReq) (active : List ActiveSwap) → active ≢ [] → add_waiter req active ≢ []
unfolding add_waiter
add_waiter-ne req [] h = h
add_waiter-ne req (sw ∷ active) h =
    if_keeps (λ a. a ≢ []) (sw.model_id =ₛ req.model) _ _ (λ e. cc) (λ e. cc)

pub join-Busy :
    (s : Fifo) (req : HandlerReq) → Busy s → Busy (record s { active = add_waiter req s.active })
join-Busy s req (inl a) = inl (add_waiter-ne req s.active a)
join-Busy s req (inr h) = inr h

pub begin_swap-Busy :
    (s : Fifo) (req : HandlerReq) (evict running : List String)
    → Busy (begin_swap s req evict running)
unfolding begin_swap
begin_swap-Busy s req evict running = inl (λ e. cc)

pub collides_with-ne :
    (m : String) (evict : List String) (active : List ActiveSwap)
    → collides_with m evict active ≡ true
    → active ≢ []
unfolding collides_with
collides_with-ne m evict [] h = cc
collides_with-ne m evict (sw ∷ active) h = λ e. cc

pub conflicts-in_flight :
    (evict : List String) (in_flight : String → ℕ)
    → conflicts_with_in_flight evict in_flight ≡ true
    → (m : String) × (0 < in_flight m)
unfolding conflicts_with_in_flight
conflicts-in_flight [] in_flight h = cc
conflicts-in_flight (m ∷ evict) in_flight h = elim (Bool-cases (ltb 0 (in_flight m))) [
  | inl t ↦ (m, ground arith)
  | inr t ↦ conflicts-in_flight evict in_flight (ground arith)
]
