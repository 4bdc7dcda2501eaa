-- ===== src/Process/Runs.antt =====
-- internal/process/process_command.go: the run loop from its start on, through any events.
use fork_llama_swap.Base.{
  ℕ, ◌+◌, ◌≤◌, ◌≡◌, refl, ap, subst, inl, Whenever, Option, none, some, arith,
}
use fork_llama_swap.Process.{Loop, new_loop, Event, step, channel_of, returned, StartReq}
use fork_llama_swap.Process.Phases.{IsSettled, step-IsSettled, Stands}
use fork_llama_swap.Process.Fresh.{IsFresh, Once, step-Once}
use fork_llama_swap.Process.Ledger.{times, times_sent, times_started, times_parked, held}
use fork_llama_swap.Process.Answers.{Accounts, step-Accounts}
use fork_llama_swap.Process.Honest.{Honest, step-Honest}
use fork_llama_swap.Process.Diagram.{Follows, stays, step-Follows}
use fork_llama_swap.Process.Ended.{Reaps, step-Reaps}

-- The loops that New reaches by events.
pub data Reachable : Loop → Type 0 where
  at_start : Reachable new_loop
  after :
      (l l' : Loop) (ev : Event)
      → Reachable l
      → IsFresh (channel_of ev) l
      → step ev l ≡ some l'
      → Reachable l'

module _ (P : Loop → Type 0) where
  at_some : (m : Option Loop) (l : Loop) → m ≡ some l → Whenever P m → P l
  at_some none l e h = cc
  at_some (some k) l e h = subst (Whenever P) e h

-- A loop that has an invariant of the steps has it in every state that it reaches.
module _ (P : Loop → Type 0) (begin : P new_loop)
    (keep : (l : Loop) (ev : Event)
      → Reachable l
      → IsFresh (channel_of ev) l
      → P l
      → Whenever P (step ev l)) where
  reached : (l : Loop) → Reachable l → P l
  reached _ at_start = begin
  reached _ (after l l' ev r f e) = at_some P (step ev l) l' e (keep l ev r f (reached l r))

-- Whenever the run loop of a process is at its outer select, the process is stopped, with no
-- command, no handler and no parked Run, or ready, with a command that the handler proxies to, the
-- moment since when, and nobody waiting for it to be ready; at the inner select it is starting,
-- and once the loop has returned it is shut down, with nothing of these left.
pub Reachable-IsSettled : (l : Loop) → Reachable l → IsSettled l
Reachable-IsSettled =
    reached IsSettled (inl (refl, refl, (refl, refl, refl, refl)))
      (λ l ev r f h. step-IsSettled ev l h)

-- The changes of the state that are announced lead from stopped to the current state, each along
-- an arrow of the diagram.
pub Reachable-Follows : (l : Loop) → Reachable l → Follows l
Reachable-Follows =
    reached Follows stays (λ l ev r f h. step-Follows ev l (Reachable-IsSettled l r) h)

-- At the moment when WaitReady or EnsureReady is answered nil the process is ready and has a
-- handler, and when it is answered an error the process is not ready and has none. Stop is never
-- answered an error; when it, or a Run, is answered nil, the process is stopped. A Run that may
-- not start is told the state.
pub Reachable-Honest : (l : Loop) → Reachable l → Honest l
Reachable-Honest = reached Honest tt (λ l ev r f h. step-Honest ev l (Reachable-IsSettled l r) h)

pub Reachable-Reaps : (l : Loop) (i : ℕ) → Reachable l → Reaps i l
unfolding times
Reachable-Reaps l i r =
    reached (Reaps i) (omega arith) (λ l ev r f h. step-Reaps i ev l (Reachable-IsSettled l r) h) l
      r

Reachable-Once : (l : Loop) (i : ℕ) → Reachable l → Once i l
unfolding times
Reachable-Once l i r = reached (Once i) (omega arith) (λ l ev r f h. step-Once i ev l f h) l r

Reachable-Accounts : (l : Loop) (i : ℕ) → Reachable l → Accounts i l
unfolding times times_sent
Reachable-Accounts l i r =
    reached (Accounts i) (omega arith)
      (λ l ev r f h. step-Accounts i ev l (Reachable-IsSettled l r) h) l r

-- In every state that the run loop reaches, the channel of a request was received at most once,
-- and then it was answered once or is still held: by the waiters for ready, by the parked Run or
-- by the start under way.
pub Reachable-Answered :
    (l : Loop) (c : ℕ)
    → Reachable l
    → (times c l.received ≡ times_sent c l.sent + held c l) × (times c l.received ≤ 1)
Reachable-Answered l c r = (omega (arith, Reachable-Accounts l c r), Reachable-Once l c r)

-- Once the run loop has returned, every request that it received was answered, except for a start
-- that was under way, and every upstream process that was started has ended.
pub shutdown_answers_all :
    (l : Loop) (req : Option StartReq) (c : ℕ)
    → Reachable l
    → l.phase ≡ returned req
    → (times c l.received ≡ times_sent c l.sent + times_started c (returned req))
      × (times c l.spawned ≡ times c l.ended)
unfolding times
shutdown_answers_all l req c r e = (
  omega (
    arith,
    Reachable-Accounts l c r,
    ap (times c) over.2,
    ap (times_parked c) over.3.2,
    ap (times_started c) e,
  ),
  omega (arith, Reachable-Reaps l c r, ap (times_parked c) over.3.0),
)
  where
    over : Stands (returned req) l
    over = subst (λ f. Stands f l) e (Reachable-IsSettled l r)
