-- ===== src/Process/Diagram.antt =====
-- internal/process/process_command.go: the changes of the state follow a diagram.
use fork_llama_swap.Base.{
  ℕ, ◌≡◌, refl, subst, sym, inl, inr, if_keeps, List, [], ◌∷◌, ◌++◌, Whenever, Option, none, some,
  false,
}
use fork_llama_swap.Scheduler.Model.{ProcessState, stopped, starting, ready, stopping, shutdown}
use fork_llama_swap.Process.{
  Loop, Phase, selecting, in_start, Event, parent_done, upstream_exited, wait_ready, start, started,
  not_started, progressed, stop, StartReq, LoadingProgress, on_event, step, on_parent_done,
  on_parent_done_in_start, on_upstream_exited, on_wait_ready, on_start, on_started, on_not_started,
  on_stop_in_start, on_stop, set_loading, receive, set_state, same_state, Error, is_shutdown,
  exited_unexpectedly, respond_parked, notify_waiters, tear_down, kill_process, take_over,
  answer_wait, start_from, settle, stop_running, exited,
}
use fork_llama_swap.Process.Phases.{Stands, IsSettled}

-- The arrows of the diagram.
pub data Moves : ProcessState → ProcessState → Type 0 where
  begins : Moves stopped starting
  succeeds : Moves starting ready
  fails : Moves starting stopped
  exits : Moves ready stopped
  halts : Moves ready stopping
  ends : Moves stopping stopped
  closes_stopped : Moves stopped shutdown
  closes_starting : Moves starting shutdown
  closes_ready : Moves ready shutdown

-- The changes `c` lead from one state to another, each from where the one before it ended.
pub data Walk (s : ProcessState) : List (ProcessState × ProcessState) → ProcessState → Type 0 where
  stays : Walk s [] s
  goes :
      (c : List (ProcessState × ProcessState)) (t u : ProcessState)
      → Walk s c t
      → Moves t u
      → Walk s (c ++ (t, u) ∷ []) u

-- The announced changes lead from stopped to the state of the loop.
abbrev pub Follows : Loop → Type 0
Follows l = Walk stopped l.emitted l.status.state

apart : {t s : ProcessState} → Moves t s → same_state t s ≡ false
apart begins = refl
apart succeeds = refl
apart fails = refl
apart exits = refl
apart halts = refl
apart ends = refl
apart closes_stopped = refl
apart closes_starting = refl
apart closes_ready = refl

set_state-Follows :
    (l : Loop) (t s : ProcessState) (now : ℕ)
    → l.status.state ≡ t
    → Moves t s
    → Follows l
    → Follows (set_state s now l)
set_state-Follows l t s now e m h =
    rw e (rw (apart m) (goes l.emitted t s (subst (Walk stopped l.emitted) e h) m))

respond_parked-Follows :
    (p : Option ℕ) (e : Option Error) (l : Loop) → Follows l → Follows (respond_parked p e l)
respond_parked-Follows none e l h = h
respond_parked-Follows (some c) e l h = h

tear_down-Follows : (p : Option ℕ) (l : Loop) → Follows l → Follows (tear_down p l)
tear_down-Follows none l h = h
tear_down-Follows (some p) l h = h

module _ (l : Loop) (h : Follows l) where
  parent_done-Follows : (now : ℕ) → Stands selecting l → Follows (on_parent_done now l)
  unfolding on_parent_done
  parent_done-Follows now s =
      respond_parked-Follows (notify_waiters (some is_shutdown) left).run_resp (some is_shutdown)
        (notify_waiters (some is_shutdown) left)
        (tear_down-Follows l.cmd (set_state shutdown now l) (closed s))
    where
      left : Loop
      left = tear_down l.cmd (set_state shutdown now l)

      closed : Stands selecting l → Follows (set_state shutdown now l)
      closed (inl q) = set_state-Follows l stopped shutdown now q.0 closes_stopped h
      closed (inr q) = set_state-Follows l ready shutdown now q.1.0 closes_ready h

  exited-Follows : (now : ℕ) → Stands selecting l → Whenever Follows (on_upstream_exited now l)
  unfolding on_upstream_exited
  exited-Follows now (inl q) = rw (q.2.0) tt
  exited-Follows now (inr q) =
      subst (λ c. Whenever Follows (exited c now l)) (sym q.1.1)
        (respond_parked-Follows left.run_resp (some exited_unexpectedly)
          (notify_waiters (some exited_unexpectedly) left)
          (set_state-Follows (tear_down (some q.0) l) ready stopped now q.1.0 exits h))
    where
      left : Loop
      left = set_state stopped now (tear_down (some q.0) l)

  wait_ready-Follows : (s : ProcessState) (c : ℕ) → Follows (answer_wait s c l)
  wait_ready-Follows stopped c = h
  wait_ready-Follows starting c = h
  wait_ready-Follows ready c = h
  wait_ready-Follows stopping c = h
  wait_ready-Follows shutdown c = h

  start_from-Follows :
      (s : ProcessState) (req : StartReq) (now : ℕ)
      → l.status.state ≡ s
      → Follows (start_from s req now l)
  start_from-Follows stopped req now e = set_state-Follows l stopped starting now e begins h
  start_from-Follows starting req now e = h
  start_from-Follows ready req now e = h
  start_from-Follows stopping req now e = h
  start_from-Follows shutdown req now e = h

  settle-Follows :
      (s : ProcessState) (req : StartReq) (now : ℕ)
      → l.status.state ≡ s
      → Follows (settle s req now l)
  settle-Follows stopped req now e = start_from-Follows stopped req now e
  settle-Follows starting req now e = h
  settle-Follows ready req now e = h
  settle-Follows stopping req now e = h
  settle-Follows shutdown req now e = h

  start-Follows : (req : StartReq) (now : ℕ) → Follows (on_start req now l)
  unfolding on_start
  start-Follows req now =
      if_keeps Follows req.block _ _ (start_from-Follows l.status.state req now refl)
        (settle-Follows l.status.state req now refl)

  stop_running-Follows :
      (p : Option ℕ) (now : ℕ) → l.cmd ≡ p → Stands selecting l → Follows (stop_running p now l)
  stop_running-Follows none now e (inl q) = rw (q.0) (subst (Walk stopped l.emitted) q.0 h)
  stop_running-Follows none now e (inr q) = cc
  stop_running-Follows (some p) now e (inl q) = cc
  stop_running-Follows (some p) now e (inr q) =
      set_state-Follows (tear_down (some p) (set_state stopping now l)) stopping stopped now refl
        ends (set_state-Follows l ready stopping now q.1.0 halts h)

  stop-Follows : (c now : ℕ) → Stands selecting l → Follows (on_stop c now l)
  unfolding on_stop
  stop-Follows c now s =
      respond_parked-Follows (stop_running l.cmd now l).run_resp none (stop_running l.cmd now l)
        (stop_running-Follows l.cmd now refl s)

module _ (req : StartReq) (l : Loop) (h : Follows l) (s : Stands (in_start req) l) where
  parent_done_in_start-Follows :
      (handed : Option ℕ) (now : ℕ) → Follows (on_parent_done_in_start req handed now l)
  unfolding on_parent_done_in_start
  parent_done_in_start-Follows none now =
      respond_parked-Follows l.run_resp (some is_shutdown)
        (notify_waiters (some is_shutdown) (set_state shutdown now l))
        (set_state-Follows l starting shutdown now s.0 closes_starting h)
  parent_done_in_start-Follows (some p) now =
      respond_parked-Follows l.run_resp (some is_shutdown)
        (notify_waiters (some is_shutdown)
          (kill_process (some p) (take_over (some p) (set_state shutdown now l))))
        (set_state-Follows l starting shutdown now s.0 closes_starting h)

  started-Follows : (p used now : ℕ) → Follows (on_started req p used now l)
  unfolding on_started
  started-Follows p used now = if_keeps Follows req.block _ _ up up
    where
      up : Walk stopped (set_state ready now l).emitted ready
      up = set_state-Follows l starting ready now s.0 succeeds h

  not_started-Follows : (f now : ℕ) → Follows (on_not_started req f now l)
  unfolding on_not_started
  not_started-Follows f now = set_state-Follows l starting stopped now s.0 fails h

  progressed-Follows : (lp : LoadingProgress) → Follows (set_loading lp l)
  unfolding set_loading
  progressed-Follows lp = if_keeps Follows _ _ _ h h

  stop_in_start-Follows :
      (c : ℕ) (handed : Option ℕ) (now : ℕ) → Follows (on_stop_in_start req c handed now l)
  unfolding on_stop_in_start
  stop_in_start-Follows c none now = set_state-Follows l starting stopped now s.0 fails h
  stop_in_start-Follows c (some p) now = set_state-Follows l starting stopped now s.0 fails h

on_event-Follows :
    (f : Phase) (ev : Event) (l : Loop)
    → Stands f l
    → Follows l
    → Whenever Follows (on_event f ev l)
unfolding on_event on_wait_ready
on_event-Follows selecting (parent_done handed now) l s h = parent_done-Follows l h now s
on_event-Follows selecting (upstream_exited now) l s h = exited-Follows l h now s
on_event-Follows selecting (wait_ready c) l s h =
    wait_ready-Follows (receive c l) h l.status.state c
on_event-Follows selecting (start req now) l s h = start-Follows (receive req.respond l) h req now
on_event-Follows selecting (stop c handed now) l s h = stop-Follows (receive c l) h c now s
on_event-Follows (in_start req) (parent_done handed now) l s h =
    parent_done_in_start-Follows req l h s handed now
on_event-Follows (in_start req) (started p used now) l s h = started-Follows req l h s p used now
on_event-Follows (in_start req) (not_started f now) l s h = not_started-Follows req l h s f now
on_event-Follows (in_start req) (progressed lp) l s h = progressed-Follows req l h s lp
on_event-Follows (in_start req) (stop c handed now) l s h =
    stop_in_start-Follows req (receive c l) h s c handed now
on_event-Follows _ _ l s h = tt

pub step-Follows : (ev : Event) (l : Loop) → IsSettled l → Follows l → Whenever Follows (step ev l)
unfolding step
step-Follows ev l s h = on_event-Follows l.phase ev l s h
