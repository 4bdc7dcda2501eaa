-- ===== src/Process/Honest.antt =====
-- internal/process/process_command.go: the answers of the run loop say what is so when they are sent.
use fork_llama_swap.Base.{
  ℕ, ◌≡◌, ◌≢◌, refl, subst, sym, inl, inr, if_cases, if_keeps, List, [], ◌∷◌, ◌++◌, map, All,
  All-append, Whenever, Option, none, some, arith,
}
use fork_llama_swap.Scheduler.Model.{stopped, ready, stopping, shutdown}
use fork_llama_swap.Process.{
  Loop, Reply, Phase, selecting, in_start, Event, parent_done, upstream_exited, wait_ready, start,
  started, not_started, progressed, stop, StartReq, LoadingProgress, on_event, step, on_parent_done,
  on_parent_done_in_start, on_upstream_exited, on_wait_ready, on_start, on_started, on_not_started,
  on_stop_in_start, on_stop, set_loading, Client, waiter, stopper, runner, starter, client_of,
  receive, Error, is_shutdown, exited_unexpectedly, was_stopped, aborted, start_failed,
  not_startable, answer, answer_waiter, respond_to, notify_waiters, respond_parked, respond_run,
  tear_down, kill_process, take_over, set_state, start_from, settle, answer_wait, stop_running,
  exited,
}
use fork_llama_swap.Process.Phases.{Stands, IsSettled}

-- Ready, and with a handler.
abbrev pub IsUp : Reply → Type 0
IsUp r = (r.seen ≡ ready) × (r.serving ≢ none)

abbrev pub IsDown : Reply → Type 0
IsDown r = (r.seen ≢ ready) × (r.serving ≡ none)

abbrev pub Says : Client → Option Error → Reply → Type 0
Says (waiter c) none r = IsUp r
Says (waiter c) (some e) r = IsDown r
Says (starter c) none r = IsUp r
Says (starter c) (some e) r = IsDown r
Says (runner c) none r = (r.seen ≡ stopped) × IsDown r
Says (runner c) (some (not_startable s)) r = (s ≡ r.seen) × (s ≢ stopped)
Says (runner c) (some e) r = IsDown r
Says (stopper c) none r = (r.seen ≡ stopped) × IsDown r
Says (stopper c) (some e) r = ⊥

-- An answer to WaitReady or EnsureReady is nil if the process is ready and serves, and an error if not.
-- Stop, and Run once the process was stopped, are answered nil when it is down.
abbrev pub IsHonest : Reply → Type 0
IsHonest r = Says r.to r.error r

abbrev pub Honest : Loop → Type 0
Honest l = All IsHonest l.sent

module _ (l : Loop) (h : Honest l) where
  respond_to-Honest :
      (c : Client) (e : Option Error) → IsHonest (answer l e c) → Honest (respond_to c e l)
  respond_to-Honest c e k = All-append IsHonest l.sent (answer l e c ∷ []) h (k, tt)

  told :
      (e : Option Error) (cs : List ℕ)
      → ((c : ℕ) → IsHonest (answer_waiter l e c))
      → All IsHonest (map (answer_waiter l e) cs)
  told e [] k = tt
  told e (c ∷ cs) k = (k c, told e cs k)

  notify-Honest :
      (e : Option Error) → ((c : ℕ) → IsHonest (answer_waiter l e c)) → Honest (notify_waiters e l)
  notify-Honest e k =
      All-append IsHonest l.sent (map (answer_waiter l e) l.ready_waiters) h
        (told e l.ready_waiters k)

  respond_parked-Honest :
      (p : Option ℕ) (e : Option Error)
      → ((c : ℕ) → IsHonest (answer l e (runner c)))
      → Honest (respond_parked p e l)
  respond_parked-Honest none e k = h
  respond_parked-Honest (some c) e k =
      All-append IsHonest l.sent (answer l e (runner c) ∷ []) h (k c, tt)

-- Nothing is ready, and nothing serves.
abbrev Down : Loop → Type 0
Down l = (l.status.state ≢ ready) × (l.handler ≡ none)

-- The clients that wait, and the one of Run, are told the error `e` of a process that is down.
tell_both-Honest :
    (l : Loop) (e : Error)
    → Honest l
    → Down l
    → ((c : ℕ) → IsHonest (answer l (some e) (runner c)))
    → Honest (respond_run (some e) (notify_waiters (some e) l))
tell_both-Honest l e h d k =
    respond_parked-Honest (notify_waiters (some e) l) (notify-Honest l h (some e) (λ c. d))
      l.run_resp (some e) k

tear_down-Honest : (p : Option ℕ) (l : Loop) → Honest l → Honest (tear_down p l)
tear_down-Honest none l h = h
tear_down-Honest (some p) l h = h

start_error-Honest :
    (l : Loop) (req : StartReq) (e : Error)
    → Honest l
    → Down l
    → IsHonest (answer l (some e) (runner req.respond))
    → Honest (respond_to (client_of req) (some e) l)
start_error-Honest l req e h d k =
    respond_to-Honest l h (client_of req) (some e)
      (if_cases (λ c. IsHonest (answer l (some e) c)) req.block _ _ (λ b. k) (λ b. d))

module _ (l : Loop) (h : Honest l) where
  parent_done-Honest : (now : ℕ) → Stands selecting l → Honest (on_parent_done now l)
  unfolding on_parent_done
  parent_done-Honest now s =
      tell_both-Honest left is_shutdown (tear_down-Honest l.cmd (set_state shutdown now l) h)
        (down s) (λ c. down s)
    where
      left : Loop
      left = tear_down l.cmd (set_state shutdown now l)

      down : Stands selecting l → Down left
      down (inl q) = ground arith
      down (inr q) = ground arith

  exited-Honest : (p : Option ℕ) (now : ℕ) → Whenever Honest (exited p now l)
  exited-Honest none now = tt
  exited-Honest (some p) now =
      tell_both-Honest (set_state stopped now (tear_down (some p) l)) exited_unexpectedly h
        (ground arith) (λ c. ground arith)

  wait_ready-Honest : (c : ℕ) → Stands selecting l → Honest (on_wait_ready c l)
  unfolding on_wait_ready
  wait_ready-Honest c (inl q) = rw (q.0) h
  wait_ready-Honest c (inr q) =
      subst (λ s. Honest (answer_wait s c l)) (sym q.1.0)
        (respond_to-Honest l h (waiter c) none (ground (arith, q)))

  start-Honest : (req : StartReq) (now : ℕ) → Stands selecting l → Honest (on_start req now l)
  unfolding on_start
  start-Honest req now (inl q) = rw (q.0) (if_keeps Honest req.block _ _ h h)
  start-Honest req now (inr q) =
      if_cases Honest req.block _ _
        (λ b.
          subst (λ s. Honest (start_from s req now l)) (sym q.1.0)
            (respond_to-Honest l h (client_of req) (some (not_startable ready))
              (ground (arith, b, q))))
        (λ b.
          subst (λ s. Honest (settle s req now l)) (sym q.1.0)
            (respond_to-Honest l h (client_of req) none (ground (arith, b, q))))

  stop_running-Honest : (p : Option ℕ) (now : ℕ) → Honest (stop_running p now l)
  stop_running-Honest none now = h
  stop_running-Honest (some p) now =
      notify-Honest (set_state stopped now (tear_down (some p) (set_state stopping now l))) h
        (some was_stopped) (λ c. ground arith)

  stop-Honest : (c now : ℕ) → Stands selecting l → Honest (on_stop c now l)
  unfolding on_stop
  stop-Honest c now s =
      respond_to-Honest (respond_run none halted)
        (respond_parked-Honest halted (stop_running-Honest l.cmd now) halted.run_resp none
          (λ d. out))
        (stopper c) none (stays halted.run_resp out)
    where
      halted : Loop
      halted = stop_running l.cmd now l

      Out : Loop → Type 0
      Out k = (k.status.state ≡ stopped) × Down k

      out : Out halted
      out = elim s [ inl q ↦ ground (arith, q) | inr q ↦ ground (arith, q) ]

      stays : (p : Option ℕ) → Out halted → Out (respond_parked p none halted)
      stays none o = o
      stays (some p) o = o

module _ (req : StartReq) (l : Loop) (h : Honest l) (s : Stands (in_start req) l) where
  parent_done_in_start-Honest :
      (handed : Option ℕ) (now : ℕ) → Honest (on_parent_done_in_start req handed now l)
  unfolding on_parent_done_in_start
  parent_done_in_start-Honest none now =
      tell_both-Honest (set_state shutdown now l) is_shutdown h (ground (arith, s))
        (λ c. ground (arith, s))
  parent_done_in_start-Honest (some p) now =
      tell_both-Honest (kill_process (some p) (take_over (some p) (set_state shutdown now l)))
        is_shutdown h (ground (arith, s)) (λ c. ground (arith, s))

  started-Honest : (p used now : ℕ) → Honest (on_started req p used now l)
  unfolding on_started
  started-Honest p used now =
      if_cases Honest req.block _ _ (λ b. told_ready)
        (λ b. respond_to-Honest up told_ready (client_of req) none (ground (arith, b)))
    where
      latched : Loop
      latched = record l {
        cmd = some p;
        handler = some p;
        last_use = used;
        phase = selecting;
        spawned = l.spawned ++ p ∷ [];
      }

      up : Loop
      up = notify_waiters none (set_state ready now latched)

      told_ready : Honest up
      told_ready = notify-Honest (set_state ready now latched) h none (λ c. ground arith)

  not_started-Honest : (f now : ℕ) → Honest (on_not_started req f now l)
  unfolding on_not_started
  not_started-Honest f now =
      start_error-Honest (notify_waiters (some (start_failed f)) (set_state stopped now l)) req
        (start_failed f)
        (notify-Honest (set_state stopped now l) h (some (start_failed f)) (λ c. ground (arith, s)))
        (ground (arith, s)) (ground (arith, s))

  progressed-Honest : (lp : LoadingProgress) → Honest (set_loading lp l)
  unfolding set_loading
  progressed-Honest lp = if_keeps Honest _ _ _ h h

  aborted_in_start-Honest :
      (c : ℕ) (k : Loop)
      → Honest k
      → k.handler ≡ none
      → k.status.state ≡ stopped
      → Honest (
          respond_to
            (stopper c)
            none
            (respond_to (client_of req) (some aborted) (notify_waiters (some aborted) k)))
  aborted_in_start-Honest c k g e t =
      respond_to-Honest
        (respond_to (client_of req) (some aborted) (notify_waiters (some aborted) k))
        (start_error-Honest (notify_waiters (some aborted) k) req aborted
          (notify-Honest k g (some aborted) (λ d. ground (arith, e, t))) (ground (arith, e, t))
          (ground (arith, e, t)))
        (stopper c) none (ground (arith, e, t))

  stop_in_start-Honest :
      (c : ℕ) (handed : Option ℕ) (now : ℕ) → Honest (on_stop_in_start req c handed now l)
  unfolding on_stop_in_start
  stop_in_start-Honest c none now =
      aborted_in_start-Honest c (set_state stopped now l) h (ground (arith, s)) refl
  stop_in_start-Honest c (some p) now =
      aborted_in_start-Honest c
        (set_state stopped now (kill_process (some p) (take_over (some p) l))) h (ground (arith, s))
        refl

on_event-Honest :
    (f : Phase) (ev : Event) (l : Loop) → Stands f l → Honest l → Whenever Honest (on_event f ev l)
unfolding on_event on_upstream_exited
on_event-Honest selecting (parent_done handed now) l s h = parent_done-Honest l h now s
on_event-Honest selecting (upstream_exited now) l s h = exited-Honest l h l.cmd now
on_event-Honest selecting (wait_ready c) l s h = wait_ready-Honest (receive c l) h c s
on_event-Honest selecting (start req now) l s h = start-Honest (receive req.respond l) h req now s
on_event-Honest selecting (stop c handed now) l s h = stop-Honest (receive c l) h c now s
on_event-Honest (in_start req) (parent_done handed now) l s h =
    parent_done_in_start-Honest req l h s handed now
on_event-Honest (in_start req) (started p used now) l s h = started-Honest req l h s p used now
on_event-Honest (in_start req) (not_started f now) l s h = not_started-Honest req l h s f now
on_event-Honest (in_start req) (progressed lp) l s h = progressed-Honest req l h s lp
on_event-Honest (in_start req) (stop c handed now) l s h =
    stop_in_start-Honest req (receive c l) h s c handed now
on_event-Honest _ _ l s h = tt

pub step-Honest : (ev : Event) (l : Loop) → IsSettled l → Honest l → Whenever Honest (step ev l)
unfolding step
step-Honest ev l s h = on_event-Honest l.phase ev l s h
