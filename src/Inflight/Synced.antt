-- ===== src/Inflight/Synced.antt =====
-- internal/server/inflight.go: when the publisher has nothing to do, the client sees the tracker.
use fork_llama_swap.Base.{ℕ, false, ◌≡◌, refl, subst, [], some, Whenever}
use fork_llama_swap.Inflight.{
  Writer, unlocked, overflowed, enqueued, idle, Tracker, new_tracker, told_or, current, add,
  remove_request, set_response_headers, add_response_bytes, emit_pending, Action, adds, removes,
  sets_headers, adds_bytes, timer_fires, stores, finishes, publishes, rechecks, locked_by, step,
}
use fork_llama_swap.Inflight.Tracks.{latest, IsQuiet, Tracks}
use fork_llama_swap.Inflight.Changes.{
  add-Tracks, remove_request-Tracks, set_response_headers-Tracks, emit_pending-Tracks,
  add_response_bytes-Tracks,
}
use fork_llama_swap.Inflight.Publishing.{
  store-Tracks, finish-Tracks, at_publisher, publish-Tracks, recheck-Tracks,
}

locked-Tracks :
    (i : ℕ) (w : Writer) (t k : Tracker)
    → t.writer ≡ w
    → (t.writer ≡ unlocked → Tracks i k)
    → Whenever (Tracks i) (locked_by w k)
locked-Tracks i unlocked t k e h = h e
locked-Tracks i overflowed t k e h = tt
locked-Tracks i enqueued t k e h = tt

step-Tracks :
    (size i : ℕ) (a : Action) (t : Tracker) → Tracks i t → Whenever (Tracks i) (step size a t)
unfolding step
step-Tracks size i (adds about now) t h =
    locked-Tracks i t.writer t (add size about now t) refl (λ f. add-Tracks size i t f h about now)
step-Tracks size i (removes id) t h =
    locked-Tracks i t.writer t (remove_request size id t) refl
      (λ f. remove_request-Tracks size i t f h id)
step-Tracks size i (sets_headers id values now) t h =
    locked-Tracks i t.writer t (set_response_headers size id values now t) refl
      (λ f. set_response_headers-Tracks size i t f h id values now)
step-Tracks size i (adds_bytes id total now) t h =
    locked-Tracks i t.writer t (add_response_bytes size id total now t) refl
      (λ f. add_response_bytes-Tracks size i t f h id total now)
step-Tracks size i (timer_fires id now) t h =
    locked-Tracks i t.writer t (emit_pending size id now t) refl
      (λ f. emit_pending-Tracks size i t f h id now)
step-Tracks size i stores t h = store-Tracks i t h t.writer refl
step-Tracks size i finishes t h = finish-Tracks i t h t.writer refl
step-Tracks size i publishes t h = publish-Tracks i t h t.publisher refl
step-Tracks size i rechecks t h = recheck-Tracks i t h t.rechecking

-- The trackers that follow one another from the new one, through any actions.
pub data Reachable (size : ℕ) : Tracker → Type 0 where
  at_start : Reachable size new_tracker
  after :
      (t t' : Tracker) (a : Action) → Reachable size t → step size a t ≡ some t' → Reachable size t'

Reachable-Tracks : (size i : ℕ) (t : Tracker) → Reachable size t → Tracks i t
unfolding latest
Reachable-Tracks size i _ at_start = (refl, λ clean quiet. refl)
Reachable-Tracks size i _ (after t t' a r e) =
    subst (Whenever (Tracks i)) e (step-Tracks size i a t (Reachable-Tracks size i t r))

-- In every state that the tracker of requests in flight reaches, in any order of the steps of its
-- goroutines and with an outbox of any size: when no publisher runs, nobody is within a change,
-- the outbox is empty and no snapshot is called for, then of each request without a timer a client
-- that applies what was published knows exactly what the tracker has.
pub Reachable-synced :
    (size i : ℕ) (t : Tracker)
    → Reachable size t
    → t.publisher ≡ idle
    → t.writer ≡ unlocked
    → t.updates ≡ []
    → t.needs_snapshot ≡ false
    → IsQuiet (t.requests i)
    → t.view i ≡ current t i
unfolding latest
Reachable-synced size i t r p w u n q =
    subst (λ l. told_or (latest i l) (t.view i) ≡ current t i) u
      ((at_publisher i t (Reachable-Tracks size i t r) idle p).1 (n, λ o. cc) q)
