-- ===== src/Process/Fresh.antt =====
-- internal/process/process_command.go: the run loop is handed each channel once.
use fork_llama_swap.Base.{
  ℕ, Bool, true, false, ◌+◌, ◌≤◌, ◌≡◌, refl, ap, subst, sym, [], ◌∷◌, ◌++◌, Whenever, Whenever-mono,
  Option, none, some, ◌==◌, arith,
}
use fork_llama_swap.Process.{
  Loop, Event, step, channel_of, LoadingProgress, receive, on_event, on_parent_done,
  on_parent_done_in_start, on_upstream_exited, on_wait_ready, on_start, on_started, on_not_started,
  on_stop_in_start, on_stop, set_loading, exited, Phase, selecting, in_start, StartReq, parent_done,
  upstream_exited, wait_ready, start, started, not_started, progressed, stop,
}
use fork_llama_swap.Process.Ledger.{times, times_snoc, one}

-- A request brings a channel that was not received before.
abbrev pub IsFresh : Option ℕ → Loop → Type 0
IsFresh none l = Unit
IsFresh (some c) l = times c l.received ≡ 0

-- The handlers leave the record of the requests alone.
module _ (l : Loop) where
  parent_done-received : (now : ℕ) → (on_parent_done now l).received ≡ l.received
  unfolding on_parent_done
  parent_done-received now = ground arith

  wait_ready-received : (c : ℕ) → (on_wait_ready c l).received ≡ l.received
  unfolding on_wait_ready
  wait_ready-received c = ground arith

  start-received : (req : StartReq) (now : ℕ) → (on_start req now l).received ≡ l.received
  unfolding on_start
  start-received req now = ground arith

  stop-received : (c now : ℕ) → (on_stop c now l).received ≡ l.received
  unfolding on_stop
  stop-received c now = ground arith

  parent_done_in_start-received :
      (req : StartReq) (handed : Option ℕ) (now : ℕ)
      → (on_parent_done_in_start req handed now l).received ≡ l.received
  unfolding on_parent_done_in_start
  parent_done_in_start-received req handed now = ground arith

  started-received :
      (req : StartReq) (p used now : ℕ) → (on_started req p used now l).received ≡ l.received
  unfolding on_started
  started-received req p used now = ground arith

  stop_in_start-received :
      (req : StartReq) (c : ℕ) (handed : Option ℕ) (now : ℕ)
      → (on_stop_in_start req c handed now l).received ≡ l.received
  unfolding on_stop_in_start
  stop_in_start-received req c handed now = ground arith

  progressed-received : (lp : LoadingProgress) → (set_loading lp l).received ≡ l.received
  unfolding set_loading
  progressed-received lp = ground arith

  exited-received :
      (p : Option ℕ) (now : ℕ) → Whenever (λ k. k.received ≡ l.received) (exited p now l)
  exited-received none now = tt
  exited-received (some p) now = ground arith

-- No channel was received twice.
abbrev pub Once : ℕ → Loop → Type 0
Once i l = times i l.received ≤ 1

number_of_test : (c i : ℕ) → (c == i) ≡ true → c ≡ i
number_of_test c i q = ground arith

-- The request is noted, and the handler leaves the note alone.
Once-receive :
    (i c : ℕ) (l k : Loop)
    → times c l.received ≡ 0
    → Once i l
    → k.received ≡ l.received ++ c ∷ []
    → Once i k
Once-receive i c l k f h e =
    subst (λ r. times i r ≤ 1) (sym e)
      (subst (λ n. n ≤ 1) (sym (times_snoc i l.received c)) (at_most (c == i) refl))
  where
    at_most : (b : Bool) → (c == i) ≡ b → times i l.received + one i c ≤ 1
    at_most true q = ground (arith, ap (λ d. times d l.received) (number_of_test c i q))
    at_most false q = ground arith

Once-same : (i : ℕ) (l k : Loop) → Once i l → k.received ≡ l.received → Once i k
Once-same i l k h e = subst (λ r. times i r ≤ 1) (sym e) h

on_event-Once :
    (i : ℕ) (f : Phase) (ev : Event) (l : Loop)
    → IsFresh (channel_of ev) l
    → Once i l
    → Whenever (Once i) (on_event f ev l)
unfolding on_event on_upstream_exited on_not_started
on_event-Once i selecting (parent_done handed now) l r h =
    Once-same i l (on_parent_done now l) h (parent_done-received l now)
on_event-Once i selecting (upstream_exited now) l r h =
    Whenever-mono (λ k. k.received ≡ l.received) (Once i) (exited l.cmd now l)
      (λ k e. Once-same i l k h e) (exited-received l l.cmd now)
on_event-Once i selecting (wait_ready c) l r h =
    Once-receive i c l (on_wait_ready c (receive c l)) r h (wait_ready-received (receive c l) c)
on_event-Once i selecting (start req now) l r h =
    Once-receive i req.respond l (on_start req now (receive req.respond l)) r h
      (start-received (receive req.respond l) req now)
on_event-Once i selecting (stop c handed now) l r h =
    Once-receive i c l (on_stop c now (receive c l)) r h (stop-received (receive c l) c now)
on_event-Once i (in_start req) (parent_done handed now) l r h =
    Once-same i l (on_parent_done_in_start req handed now l) h
      (parent_done_in_start-received l req handed now)
on_event-Once i (in_start req) (started p used now) l r h =
    Once-same i l (on_started req p used now l) h (started-received l req p used now)
on_event-Once i (in_start req) (not_started f now) l r h = h
on_event-Once i (in_start req) (progressed lp) l r h =
    Once-same i l (set_loading lp l) h (progressed-received l lp)
on_event-Once i (in_start req) (stop c handed now) l r h =
    Once-receive i c l (on_stop_in_start req c handed now (receive c l)) r h
      (stop_in_start-received (receive c l) req c handed now)
on_event-Once i _ _ l r h = tt

pub step-Once :
    (i : ℕ) (ev : Event) (l : Loop)
    → IsFresh (channel_of ev) l
    → Once i l
    → Whenever (Once i) (step ev l)
unfolding step
step-Once i ev l r h = on_event-Once i l.phase ev l r h
