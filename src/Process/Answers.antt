-- ===== src/Process/Answers.antt =====
-- internal/process/process_command.go: each client of the run loop is answered once or still held.
use fork_llama_swap.Base.{
  ℕ, ◌+◌, ◌≡◌, refl, if_cases, if_keeps, [], ◌∷◌, ◌++◌, Whenever, Option, none, some, arith,
}
use fork_llama_swap.Scheduler.Model.{ProcessState, stopped, starting, ready, stopping, shutdown}
use fork_llama_swap.Process.{
  Loop, Phase, selecting, in_start, returned, Event, parent_done, upstream_exited, wait_ready,
  start, started, not_started, progressed, stop, StartReq, LoadingProgress, on_event, step,
  on_parent_done, on_parent_done_in_start, on_upstream_exited, on_wait_ready, on_start, on_started,
  on_not_started, on_stop_in_start, on_stop, set_loading, waiter, stopper, client_of, receive,
  is_shutdown, exited_unexpectedly, was_stopped, aborted, start_failed, not_startable, respond_to,
  notify_waiters, respond_run, tear_down, kill_process, take_over, set_state, start_from, settle,
  answer_wait, stop_running, exited,
}
use fork_llama_swap.Process.Phases.{Stands, IsSettled}
use fork_llama_swap.Process.Ledger.{
  one, Owes, receive-Owes, respond_to-Owes, notify-Owes, respond_run-Owes, wait-Owes, park-Owes,
  start_ends-Owes, start_begins-Owes, return-Owes, tear_down-Owes, hand_over-Owes,
  respond_start-Owes,
}

-- Each client that was received was answered, or is held.
abbrev pub Accounts : ℕ → Loop → Type 0
Accounts i l = Owes i 0 l

-- A request that the handler is about to answer or to hold.
abbrev Due : ℕ → ℕ → Loop → Type 0
Due i c l = Owes i (0 + one i c) l

module _ (i : ℕ) (l : Loop) (e : l.phase ≡ selecting) where
  parent_done-Accounts : (now : ℕ) → Accounts i l → Accounts i (on_parent_done now l)
  unfolding on_parent_done
  parent_done-Accounts now h =
      return-Owes i 0 (respond_run (some is_shutdown) told) selecting (returned none) settled refl (
        respond_run-Owes i 0 told (some is_shutdown) (
          notify-Owes i 0 left (some is_shutdown)
            (tear_down-Owes i 0 (set_state shutdown now l) l.cmd h)))
    where
      left : Loop
      left = tear_down l.cmd (set_state shutdown now l)

      told : Loop
      told = notify_waiters (some is_shutdown) left

      settled : (respond_run (some is_shutdown) told).phase ≡ selecting
      settled = ground arith

  exited-Accounts : (p : Option ℕ) (now : ℕ) → Accounts i l → Whenever (Accounts i) (exited p now l)
  exited-Accounts none now h = tt
  exited-Accounts (some p) now h =
      respond_run-Owes i 0 _ (some exited_unexpectedly) (
        notify-Owes i 0 (set_state stopped now (tear_down (some p) l)) (some exited_unexpectedly) h)

  wait_ready-Accounts : (s : ProcessState) (c : ℕ) → Due i c l → Accounts i (answer_wait s c l)
  wait_ready-Accounts stopped c h = wait-Owes i 0 l c h
  wait_ready-Accounts starting c h = wait-Owes i 0 l c h
  wait_ready-Accounts ready c h = respond_to-Owes i 0 l (waiter c) none h
  wait_ready-Accounts stopping c h = wait-Owes i 0 l c h
  wait_ready-Accounts shutdown c h = respond_to-Owes i 0 l (waiter c) (some is_shutdown) h

  start_from-Accounts :
      (s : ProcessState) (req : StartReq) (now : ℕ)
      → Due i req.respond l
      → Accounts i (start_from s req now l)
  start_from-Accounts stopped req now h = start_begins-Owes i 0 (set_state starting now l) req e h
  start_from-Accounts starting req now h =
      respond_start-Owes i 0 l req (some (not_startable starting)) h
  start_from-Accounts ready req now h = respond_start-Owes i 0 l req (some (not_startable ready)) h
  start_from-Accounts stopping req now h =
      respond_start-Owes i 0 l req (some (not_startable stopping)) h
  start_from-Accounts shutdown req now h =
      respond_start-Owes i 0 l req (some (not_startable shutdown)) h

  settle-Accounts :
      (s : ProcessState) (req : StartReq) (now : ℕ)
      → Due i req.respond l
      → Accounts i (settle s req now l)
  settle-Accounts stopped req now h = start_from-Accounts stopped req now h
  settle-Accounts starting req now h = start_from-Accounts starting req now h
  settle-Accounts ready req now h = respond_start-Owes i 0 l req none h
  settle-Accounts stopping req now h = start_from-Accounts stopping req now h
  settle-Accounts shutdown req now h = respond_start-Owes i 0 l req (some is_shutdown) h

  start-Accounts :
      (req : StartReq) (now : ℕ) → Due i req.respond l → Accounts i (on_start req now l)
  unfolding on_start
  start-Accounts req now h =
      if_cases (Accounts i) req.block _ _ (λ b. start_from-Accounts l.status.state req now h)
        (λ b. settle-Accounts l.status.state req now h)

  stop_running-Owes :
      (n : ℕ) (p : Option ℕ) (now : ℕ) → Owes i n l → Owes i n (stop_running p now l)
  stop_running-Owes n none now h = h
  stop_running-Owes n (some p) now h =
      notify-Owes i n (set_state stopped now (tear_down (some p) (set_state stopping now l)))
        (some was_stopped) h

  stop-Accounts : (c now : ℕ) → Due i c l → Accounts i (on_stop c now l)
  unfolding on_stop
  stop-Accounts c now h =
      respond_to-Owes i 0 (respond_run none (stop_running l.cmd now l)) (stopper c) none (
        respond_run-Owes i (0 + one i c) (stop_running l.cmd now l) none
          (stop_running-Owes (0 + one i c) l.cmd now h))

module _ (i : ℕ) (req : StartReq) (l : Loop) (e : l.phase ≡ in_start req) where
  -- The request of the start is due once the start is over.
  ends : Accounts i l → Due i req.respond (record l { phase = selecting })
  ends h = start_ends-Owes i 0 l req e h

  parent_done_in_start-Accounts :
      (handed : Option ℕ) (now : ℕ)
      → l.run_resp ≡ none
      → Accounts i l
      → Accounts i (on_parent_done_in_start req handed now l)
  unfolding on_parent_done_in_start
  parent_done_in_start-Accounts handed now r h =
      return-Owes i 0 (respond_run (some is_shutdown) told) (in_start req) (returned (some req))
        (same handed) refl
        (respond_run-Owes i 0 told (some is_shutdown) (
          notify-Owes i 0 killed (some is_shutdown)
            (hand_over-Owes i 0 (set_state shutdown now l) handed h)))
    where
      killed : Loop
      killed = kill_process handed (take_over handed (set_state shutdown now l))

      told : Loop
      told = notify_waiters (some is_shutdown) killed

      same :
          (p : Option ℕ)
          → (respond_run (some is_shutdown) (
              notify_waiters
                (some is_shutdown)
                (kill_process p (take_over p (set_state shutdown now l))))).phase
            ≡ in_start req
      same none = ground arith
      same (some p) = ground arith

  started-Accounts :
      (p used now : ℕ) → l.run_resp ≡ none → Accounts i l → Accounts i (on_started req p used now l)
  unfolding on_started
  started-Accounts p used now r h =
      if_cases (Accounts i) req.block _ _ (λ b. park-Owes i 0 told req.respond r due)
        (λ b. respond_start-Owes i 0 told req none due)
    where
      latched : Loop
      latched = record l {
        cmd = some p;
        handler = some p;
        last_use = used;
        phase = selecting;
        spawned = l.spawned ++ p ∷ [];
      }

      told : Loop
      told = notify_waiters none (set_state ready now latched)

      due : Due i req.respond told
      due = notify-Owes i (0 + one i req.respond) (set_state ready now latched) none (ends h)

  not_started-Accounts : (f now : ℕ) → Accounts i l → Accounts i (on_not_started req f now l)
  unfolding on_not_started
  not_started-Accounts f now h =
      respond_start-Owes i 0 (record told { phase = selecting }) req (some (start_failed f))
        (notify-Owes i (0 + one i req.respond)
          (set_state stopped now (record l { phase = selecting })) (some (start_failed f)) (ends h))
    where
      told : Loop
      told = notify_waiters (some (start_failed f)) (set_state stopped now l)

  progressed-Accounts : (lp : LoadingProgress) → Accounts i l → Accounts i (set_loading lp l)
  unfolding set_loading
  progressed-Accounts lp h = if_keeps (Accounts i) _ _ _ h h

-- A stop during a start answers the request of the start and its own.
stop_in_start-Accounts :
    (i : ℕ) (req : StartReq) (l : Loop) (c : ℕ) (handed : Option ℕ) (now : ℕ)
    → l.phase ≡ in_start req
    → Accounts i l
    → Accounts i (on_stop_in_start req c handed now (receive c l))
unfolding on_stop_in_start
stop_in_start-Accounts i req l c handed now e h = answered handed
  where
    over : Loop
    over = record (receive c l) { phase = selecting }

    due : Owes i (0 + one i c + one i req.respond) over
    due = start_ends-Owes i (0 + one i c) (receive c l) req e (receive-Owes i 0 l c h)

    told : Option ℕ → Loop
    told p =
        notify_waiters (some aborted) (set_state stopped now (kill_process p (take_over p over)))

    both :
        (p : Option ℕ)
        → Accounts i
            (respond_to (stopper c) none (respond_to (client_of req) (some aborted) (told p)))
    both p =
        respond_to-Owes i 0 (respond_to (client_of req) (some aborted) (told p)) (stopper c) none (
          respond_start-Owes i (0 + one i c) (told p) req (some aborted) (
            notify-Owes i (0 + one i c + one i req.respond)
              (set_state stopped now (kill_process p (take_over p over))) (some aborted)
              (hand_over-Owes i (0 + one i c + one i req.respond) over p due)))

    answered : (p : Option ℕ) → Accounts i (on_stop_in_start req c p now (receive c l))
    answered none = both none
    answered (some p) = both (some p)

on_event-Accounts :
    (i : ℕ) (f : Phase) (ev : Event) (l : Loop)
    → l.phase ≡ f
    → Stands f l
    → Accounts i l
    → Whenever (Accounts i) (on_event f ev l)
unfolding on_event on_upstream_exited on_wait_ready
on_event-Accounts i selecting (parent_done handed now) l e s h = parent_done-Accounts i l e now h
on_event-Accounts i selecting (upstream_exited now) l e s h = exited-Accounts i l e l.cmd now h
on_event-Accounts i selecting (wait_ready c) l e s h =
    wait_ready-Accounts i (receive c l) e l.status.state c (receive-Owes i 0 l c h)
on_event-Accounts i selecting (start req now) l e s h =
    start-Accounts i (receive req.respond l) e req now (receive-Owes i 0 l req.respond h)
on_event-Accounts i selecting (stop c handed now) l e s h =
    stop-Accounts i (receive c l) e c now (receive-Owes i 0 l c h)
on_event-Accounts i (in_start req) (parent_done handed now) l e s h =
    parent_done_in_start-Accounts i req l e handed now s.1.2 h
on_event-Accounts i (in_start req) (started p used now) l e s h =
    started-Accounts i req l e p used now s.1.2 h
on_event-Accounts i (in_start req) (not_started f now) l e s h =
    not_started-Accounts i req l e f now h
on_event-Accounts i (in_start req) (progressed lp) l e s h = progressed-Accounts i req l e lp h
on_event-Accounts i (in_start req) (stop c handed now) l e s h =
    stop_in_start-Accounts i req l c handed now e h
on_event-Accounts i _ _ l e s h = tt

pub step-Accounts :
    (i : ℕ) (ev : Event) (l : Loop) → IsSettled l → Accounts i l → Whenever (Accounts i) (step ev l)
unfolding step
step-Accounts i ev l s h = on_event-Accounts i l.phase ev l refl s h
