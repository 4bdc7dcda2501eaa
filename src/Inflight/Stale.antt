-- ===== src/Inflight/Stale.antt =====
-- internal/server/inflight.go: the order of steps in which an overflow is noted too late. The publisher
-- has emptied the outbox before the flag for a snapshot is stored, and the publisher that is started then
-- looks at the flag only after an update.
use fork_llama_swap.Base.{
  ℕ, ◌+◌, ◌≡◌, refl, true, false, List, [], ◌∷◌, Option, none, some, ◌>>=◌, subst,
}
use fork_llama_swap.Inflight.{
  unlocked, overflowed, idle, selecting, Tracker, Action, stores, finishes, publishes, step,
}
use fork_llama_swap.Inflight.Synced.{Reachable, after}

-- Actions one after another.
unfoldable pub run : ℕ → List Action → Tracker → Option Tracker
run size [] t = some t
run size (a ∷ actions) t = step size a t >>= λ k. run size actions k

pub Reachable-run :
    (size : ℕ) (actions : List Action) (t t' : Tracker)
    → Reachable size t
    → run size actions t ≡ some t'
    → Reachable size t'
unfolding run
Reachable-run size [] t t' r e = subst (Reachable size) (cc) r
Reachable-run size (a ∷ actions) t t' r e =
    through (step size a t) refl e (λ k. Reachable-run size actions k t')
  where
    through :
        (o : Option Tracker)
        → step size a t ≡ o
        → (o >>= λ k. run size actions k) ≡ some t'
        → ((k : Tracker) → Reachable size k → run size actions k ≡ some t' → Reachable size t')
        → Reachable size t'
    through none q h f = cc
    through (some k) q h f = f k (after t k a r q) h

-- The goroutine that found the outbox full goes on when the publisher has emptied it.
late_overflow :
    (size : ℕ) (t : Tracker)
    → t.writer ≡ overflowed
    → t.publisher ≡ selecting
    → t.updates ≡ []
    → run size (publishes ∷ publishes ∷ stores ∷ finishes ∷ publishes ∷ publishes ∷ []) t
      ≡ some (record t {
        needs_snapshot = true;
        publisher_running = false;
        writer = unlocked;
        publisher = idle;
        rechecking = t.rechecking + 1 + 1;
      })
unfolding run step
late_overflow size t w p u = rw (p, u, w) refl
