-- ===== src/Process/Ended.antt =====
-- internal/process/process_command.go: each upstream process that was started has ended, or is the
-- one that runs.
use fork_llama_swap.Base.{
  ℕ, ◌≡◌, refl, ◌+◌, ap, if_keeps, [], ◌∷◌, ◌++◌, Whenever, Option, none, some, arith,
}
use fork_llama_swap.Scheduler.Model.{ProcessState, stopped, starting, ready, stopping, shutdown}
use fork_llama_swap.Process.{
  Loop, Phase, selecting, in_start, Event, parent_done, upstream_exited, wait_ready, start, started,
  not_started, progressed, stop, StartReq, LoadingProgress, on_event, step, on_parent_done,
  on_parent_done_in_start, on_upstream_exited, on_wait_ready, on_start, on_started, on_not_started,
  on_stop_in_start, on_stop, set_loading, receive, set_state, Error, is_shutdown,
  exited_unexpectedly, respond_parked, notify_waiters, tear_down, kill_process, take_over,
  answer_wait, start_from, settle, stop_running, exited,
}
use fork_llama_swap.Process.Ledger.{times, times_parked, times_snoc}
use fork_llama_swap.Process.Phases.{Stands, IsSettled}

-- The processes that doStart handed over are those that ended and the one that runs, as often.
abbrev pub Reaps : ℕ → Loop → Type 0
Reaps i l = times i l.spawned ≡ times i l.ended + times_parked i l.cmd

module _ (i : ℕ) where
  respond_parked-Reaps :
      (p : Option ℕ) (e : Option Error) (l : Loop) → Reaps i l → Reaps i (respond_parked p e l)
  respond_parked-Reaps none e l h = h
  respond_parked-Reaps (some c) e l h = h

  tear_down-Reaps : (p : Option ℕ) (l : Loop) → l.cmd ≡ p → Reaps i l → Reaps i (tear_down p l)
  tear_down-Reaps none l e h = h
  tear_down-Reaps (some p) l e h = omega (arith, h, ap (times_parked i) e, times_snoc i l.ended p)

  hand_over-Reaps : (p : Option ℕ) (l : Loop) → Reaps i l → Reaps i (kill_process p (take_over p l))
  hand_over-Reaps none l h = h
  hand_over-Reaps (some p) l h = omega (arith, h, times_snoc i l.spawned p, times_snoc i l.ended p)

  module _ (l : Loop) (h : Reaps i l) where
    parent_done-Reaps : (now : ℕ) → Reaps i (on_parent_done now l)
    unfolding on_parent_done
    parent_done-Reaps now =
        respond_parked-Reaps (notify_waiters (some is_shutdown) left).run_resp (some is_shutdown)
          (notify_waiters (some is_shutdown) left)
          (tear_down-Reaps l.cmd (set_state shutdown now l) refl h)
      where
        left : Loop
        left = tear_down l.cmd (set_state shutdown now l)

    exited-Reaps : (p : Option ℕ) (now : ℕ) → l.cmd ≡ p → Whenever (Reaps i) (exited p now l)
    exited-Reaps none now e = tt
    exited-Reaps (some p) now e =
        respond_parked-Reaps l.run_resp (some exited_unexpectedly)
          (notify_waiters (some exited_unexpectedly) (set_state stopped now (tear_down (some p) l)))
          (tear_down-Reaps (some p) l e h)

    wait_ready-Reaps : (s : ProcessState) (c : ℕ) → Reaps i (answer_wait s c l)
    wait_ready-Reaps stopped c = h
    wait_ready-Reaps starting c = h
    wait_ready-Reaps ready c = h
    wait_ready-Reaps stopping c = h
    wait_ready-Reaps shutdown c = h

    start_from-Reaps :
        (s : ProcessState) (req : StartReq) (now : ℕ) → Reaps i (start_from s req now l)
    start_from-Reaps stopped req now = h
    start_from-Reaps starting req now = h
    start_from-Reaps ready req now = h
    start_from-Reaps stopping req now = h
    start_from-Reaps shutdown req now = h

    settle-Reaps : (s : ProcessState) (req : StartReq) (now : ℕ) → Reaps i (settle s req now l)
    settle-Reaps stopped req now = h
    settle-Reaps starting req now = h
    settle-Reaps ready req now = h
    settle-Reaps stopping req now = h
    settle-Reaps shutdown req now = h

    start-Reaps : (req : StartReq) (now : ℕ) → Reaps i (on_start req now l)
    unfolding on_start
    start-Reaps req now =
        if_keeps (Reaps i) req.block _ _ (start_from-Reaps l.status.state req now)
          (settle-Reaps l.status.state req now)

    stop_running-Reaps : (p : Option ℕ) (now : ℕ) → l.cmd ≡ p → Reaps i (stop_running p now l)
    stop_running-Reaps none now e = h
    stop_running-Reaps (some p) now e = tear_down-Reaps (some p) (set_state stopping now l) e h

    stop-Reaps : (c now : ℕ) → Reaps i (on_stop c now l)
    unfolding on_stop
    stop-Reaps c now =
        respond_parked-Reaps (stop_running l.cmd now l).run_resp none (stop_running l.cmd now l)
          (stop_running-Reaps l.cmd now refl)

    parent_done_in_start-Reaps :
        (req : StartReq) (handed : Option ℕ) (now : ℕ)
        → Reaps i (on_parent_done_in_start req handed now l)
    unfolding on_parent_done_in_start
    parent_done_in_start-Reaps req handed now =
        respond_parked-Reaps (notify_waiters (some is_shutdown) killed).run_resp (some is_shutdown)
          (notify_waiters (some is_shutdown) killed)
          (hand_over-Reaps handed (set_state shutdown now l) h)
      where
        killed : Loop
        killed = kill_process handed (take_over handed (set_state shutdown now l))

    started-Reaps :
        (req : StartReq) (p used now : ℕ) → l.cmd ≡ none → Reaps i (on_started req p used now l)
    unfolding on_started
    started-Reaps req p used now e = if_keeps (Reaps i) req.block _ _ runs runs
      where
        runs : times i (l.spawned ++ p ∷ []) ≡ times i l.ended + times_parked i (some p)
        runs = omega (arith, h, ap (times_parked i) e, times_snoc i l.spawned p)

    stop_in_start-Reaps :
        (req : StartReq) (c : ℕ) (handed : Option ℕ) (now : ℕ)
        → Reaps i (on_stop_in_start req c handed now l)
    unfolding on_stop_in_start
    stop_in_start-Reaps req c none now = h
    stop_in_start-Reaps req c (some p) now = hand_over-Reaps (some p) l h

    progressed-Reaps : (lp : LoadingProgress) → Reaps i (set_loading lp l)
    unfolding set_loading
    progressed-Reaps lp = if_keeps (Reaps i) _ _ _ h h

on_event-Reaps :
    (i : ℕ) (f : Phase) (ev : Event) (l : Loop)
    → Stands f l
    → Reaps i l
    → Whenever (Reaps i) (on_event f ev l)
unfolding on_event on_upstream_exited on_wait_ready on_not_started
on_event-Reaps i selecting (parent_done handed now) l s h = parent_done-Reaps i l h now
on_event-Reaps i selecting (upstream_exited now) l s h = exited-Reaps i l h l.cmd now refl
on_event-Reaps i selecting (wait_ready c) l s h =
    wait_ready-Reaps i (receive c l) h l.status.state c
on_event-Reaps i selecting (start req now) l s h = start-Reaps i (receive req.respond l) h req now
on_event-Reaps i selecting (stop c handed now) l s h = stop-Reaps i (receive c l) h c now
on_event-Reaps i (in_start req) (parent_done handed now) l s h =
    parent_done_in_start-Reaps i l h req handed now
on_event-Reaps i (in_start req) (started p used now) l s h =
    started-Reaps i l h req p used now s.1.0
on_event-Reaps i (in_start req) (not_started f now) l s h = h
on_event-Reaps i (in_start req) (progressed lp) l s h = progressed-Reaps i l h lp
on_event-Reaps i (in_start req) (stop c handed now) l s h =
    stop_in_start-Reaps i (receive c l) h req c handed now
on_event-Reaps i _ _ l s h = tt

pub step-Reaps :
    (i : ℕ) (ev : Event) (l : Loop) → IsSettled l → Reaps i l → Whenever (Reaps i) (step ev l)
unfolding step
step-Reaps i ev l s h = on_event-Reaps i l.phase ev l s h
