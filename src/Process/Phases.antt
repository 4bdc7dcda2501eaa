-- ===== src/Process/Phases.antt =====
-- internal/process/process_command.go: what the run loop has in each of its phases.
use fork_llama_swap.Base.{ℕ, ◌≡◌, ◌≢◌, refl, ◌⊎◌, inl, inr, [], Whenever, Option, none, some, arith}
use fork_llama_swap.Scheduler.Model.{stopped, starting, ready, shutdown}
use fork_llama_swap.Process.{
  Loop, Phase, selecting, in_start, returned, Event, parent_done, upstream_exited, wait_ready,
  start, started, not_started, progressed, stop, StartReq, LoadingProgress, on_event, step,
  on_parent_done, on_parent_done_in_start, on_upstream_exited, on_wait_ready, on_start, on_started,
  on_not_started, on_stop_in_start, on_stop, set_loading, receive,
}

-- No process runs, and no Run is parked.
abbrev pub Idles : Loop → Type 0
Idles l = (l.cmd ≡ none) × (l.handler ≡ none) × (l.run_resp ≡ none) × (l.status.ready_since ≡ none)

-- The process `p` runs and serves, and nobody waits for it to be ready.
abbrev pub Serves : ℕ → Loop → Type 0
Serves p l =
    (l.status.state ≡ ready)
    × (l.cmd ≡ some p)
    × (l.handler ≡ some p)
    × (l.ready_waiters ≡ [])
    × (l.status.ready_since ≢ none)
    × (l.status.loading ≡ none)

-- What is so in each phase: the outer select is reached stopped or ready, the inner one starting.
abbrev pub Stands : Phase → Loop → Type 0
Stands selecting l =
    ((l.status.state ≡ stopped) × (l.status.loading ≡ none) × Idles l) ⊎ ((p : ℕ) × Serves p l)
Stands (in_start req) l = (l.status.state ≡ starting) × Idles l
Stands (returned req) l =
    (l.status.state ≡ shutdown) × (l.status.loading ≡ none) × (l.ready_waiters ≡ []) × Idles l

abbrev pub IsSettled : Loop → Type 0
IsSettled l = Stands l.phase l

-- The events of the outer select.
module _ (l : Loop) (e : l.phase ≡ selecting) where
  parent_done-IsSettled : (now : ℕ) → Stands selecting l → IsSettled (on_parent_done now l)
  unfolding on_parent_done
  parent_done-IsSettled now (inl h) = ground arith
  parent_done-IsSettled now (inr h) = ground arith

  exited-IsSettled : (now : ℕ) → Stands selecting l → Whenever IsSettled (on_upstream_exited now l)
  unfolding on_upstream_exited
  exited-IsSettled now (inl h) = ground arith
  exited-IsSettled now (inr h) = ground arith

  wait_ready-IsSettled : (c : ℕ) → Stands selecting l → IsSettled (on_wait_ready c l)
  unfolding on_wait_ready
  wait_ready-IsSettled c (inl h) = ground arith
  wait_ready-IsSettled c (inr h) = ground arith

  start-IsSettled : (req : StartReq) (now : ℕ) → Stands selecting l → IsSettled (on_start req now l)
  unfolding on_start
  start-IsSettled req now (inl h) = ground arith
  start-IsSettled req now (inr h) = ground arith

  stop-IsSettled : (c now : ℕ) → Stands selecting l → IsSettled (on_stop c now l)
  unfolding on_stop
  stop-IsSettled c now (inl h) = ground arith
  stop-IsSettled c now (inr h) = ground arith

-- The events of the inner select.
module _ (req : StartReq) (l : Loop) (e : l.phase ≡ in_start req)
    (h : Stands (in_start req) l) where
  parent_done_in_start-IsSettled :
      (handed : Option ℕ) (now : ℕ) → IsSettled (on_parent_done_in_start req handed now l)
  unfolding on_parent_done_in_start
  parent_done_in_start-IsSettled handed now = ground arith

  started-IsSettled : (p used now : ℕ) → IsSettled (on_started req p used now l)
  unfolding on_started
  started-IsSettled p used now = ground arith

  not_started-IsSettled : (f now : ℕ) → IsSettled (on_not_started req f now l)
  unfolding on_not_started
  not_started-IsSettled f now = ground arith

  progressed-IsSettled : (lp : LoadingProgress) → IsSettled (set_loading lp l)
  unfolding set_loading
  progressed-IsSettled lp = ground arith

  stop_in_start-IsSettled :
      (c : ℕ) (handed : Option ℕ) (now : ℕ) → IsSettled (on_stop_in_start req c handed now l)
  unfolding on_stop_in_start
  stop_in_start-IsSettled c handed now = ground arith

on_event-IsSettled :
    (f : Phase) (ev : Event) (l : Loop)
    → l.phase ≡ f
    → Stands f l
    → Whenever IsSettled (on_event f ev l)
unfolding on_event
on_event-IsSettled selecting (parent_done handed now) l e h = parent_done-IsSettled l e now h
on_event-IsSettled selecting (upstream_exited now) l e h = exited-IsSettled l e now h
on_event-IsSettled selecting (wait_ready c) l e h = wait_ready-IsSettled (receive c l) e c h
on_event-IsSettled selecting (start req now) l e h =
    start-IsSettled (receive req.respond l) e req now h
on_event-IsSettled selecting (stop c handed now) l e h = stop-IsSettled (receive c l) e c now h
on_event-IsSettled (in_start req) (parent_done handed now) l e h =
    parent_done_in_start-IsSettled req l e h handed now
on_event-IsSettled (in_start req) (started p used now) l e h =
    started-IsSettled req l e h p used now
on_event-IsSettled (in_start req) (not_started f now) l e h = not_started-IsSettled req l e h f now
on_event-IsSettled (in_start req) (progressed lp) l e h = progressed-IsSettled req l e h lp
on_event-IsSettled (in_start req) (stop c handed now) l e h =
    stop_in_start-IsSettled req (receive c l) e h c handed now
on_event-IsSettled _ _ l e h = tt

-- TODO
pub step-IsSettled : (ev : Event) (l : Loop) → IsSettled l → Whenever IsSettled (step ev l)
unfolding step
step-IsSettled ev l h = on_event-IsSettled l.phase ev l refl h
