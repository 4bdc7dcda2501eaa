-- ===== src/Process/Ledger.antt =====
-- internal/process/process_command.go: an account of the clients that the run loop was handed, answered,
-- and holds.
use fork_llama_swap.Base.{
  ℕ, ◌+◌, ◌≡◌, refl, ap, subst, sym, ◌==◌, if◌then◌else◌, List, [], ◌∷◌, ◌++◌, map, Option, none,
  some, arith,
}
use fork_llama_swap.Process.{
  Loop, Reply, Phase, selecting, in_start, returned, StartReq, Client, runner, answer_waiter,
  client_of, receive, channel, Error, answer, respond_to, notify_waiters, respond_parked,
  respond_run, tear_down, kill_process, take_over,
}

abbrev pub one : ℕ → ℕ → ℕ
one i c = if c == i then 1 else 0

-- How often a channel was received, answered, and is held.
unfoldable pub times : ℕ → List ℕ → ℕ
times i [] = 0
times i (c ∷ cs) = one i c + times i cs

unfoldable pub times_sent : ℕ → List Reply → ℕ
times_sent i [] = 0
times_sent i (r ∷ rs) = one i (channel r.to) + times_sent i rs

abbrev pub times_parked : ℕ → Option ℕ → ℕ
times_parked i none = 0
times_parked i (some c) = one i c

abbrev pub times_started : ℕ → Phase → ℕ
times_started i selecting = 0
times_started i (in_start req) = one i req.respond
times_started i (returned none) = 0
times_started i (returned (some req)) = one i req.respond

abbrev pub held : ℕ → Loop → ℕ
held i l = times i l.ready_waiters + times_parked i l.run_resp + times_started i l.phase

pub times_snoc : (i : ℕ) (cs : List ℕ) (c : ℕ) → times i (cs ++ c ∷ []) ≡ times i cs + one i c
unfolding times
times_snoc i [] c = omega arith
times_snoc i (d ∷ cs) c = omega (arith, times_snoc i cs c)

pub times_sent_snoc :
    (i : ℕ) (rs : List Reply) (r : Reply)
    → times_sent i (rs ++ r ∷ []) ≡ times_sent i rs + one i (channel r.to)
unfolding times_sent
times_sent_snoc i [] c = omega arith
times_sent_snoc i (d ∷ cs) c = omega (arith, times_sent_snoc i cs c)

pub times_sent-append :
    (i : ℕ) (rs qs : List Reply) → times_sent i (rs ++ qs) ≡ times_sent i rs + times_sent i qs
unfolding times_sent
times_sent-append i [] qs = omega arith
times_sent-append i (r ∷ rs) qs = omega (arith, times_sent-append i rs qs)

pub times_sent-map :
    (i : ℕ) (a : ℕ → Reply) (cs : List ℕ)
    → ((c : ℕ) → channel (a c).to ≡ c)
    → times_sent i (map a cs) ≡ times i cs
unfolding times times_sent
times_sent-map i a [] h = refl
times_sent-map i a (c ∷ cs) h = omega (arith, times_sent-map i a cs h, ap (one i) (h c))

-- Of the clients that were received, all but `n` were answered or are held.
abbrev pub Owes : ℕ → ℕ → Loop → Type 0
Owes i n l = times i l.received ≡ times_sent i l.sent + held i l + n

-- The parts of which the handlers are made.
module _ (i n : ℕ) (l : Loop) where
  pub receive-Owes : (c : ℕ) → Owes i n l → Owes i (n + one i c) (receive c l)
  receive-Owes c h = omega (arith, h, times_snoc i l.received c)

  pub respond_to-Owes :
      (c : Client) (e : Option Error)
      → Owes i (n + one i (channel c)) l
      → Owes i n (respond_to c e l)
  respond_to-Owes c e h = omega (arith, h, times_sent_snoc i l.sent (answer l e c))

  pub notify-Owes : (e : Option Error) → Owes i n l → Owes i n (notify_waiters e l)
  unfolding times
  notify-Owes e h = omega (
    arith,
    h,
    times_sent-append i l.sent (map (answer_waiter l e) l.ready_waiters),
    times_sent-map i (answer_waiter l e) l.ready_waiters (λ c. refl),
  )

  pub respond_parked-Owes :
      (p : Option ℕ) (e : Option Error)
      → l.run_resp ≡ p
      → Owes i n l
      → Owes i n (respond_parked p e l)
  respond_parked-Owes none e q h = h
  respond_parked-Owes (some c) e q h =
      omega (arith, h, ap (times_parked i) q, times_sent_snoc i l.sent (answer l e (runner c)))

  pub wait-Owes :
      (c : ℕ)
      → Owes i (n + one i c) l
      → Owes i n (record l { ready_waiters = l.ready_waiters ++ c ∷ [] })
  wait-Owes c h = omega (arith, h, times_snoc i l.ready_waiters c)

  pub park-Owes :
      (c : ℕ)
      → l.run_resp ≡ none
      → Owes i (n + one i c) l
      → Owes i n (record l { run_resp = some c })
  park-Owes c q h = omega (arith, h, ap (times_parked i) q)

  pub start_ends-Owes :
      (req : StartReq)
      → l.phase ≡ in_start req
      → Owes i n l
      → Owes i (n + one i req.respond) (record l { phase = selecting })
  start_ends-Owes req q h = omega (arith, h, ap (times_started i) q)

  pub start_begins-Owes :
      (req : StartReq)
      → l.phase ≡ selecting
      → Owes i (n + one i req.respond) l
      → Owes i n (record l { phase = in_start req })
  start_begins-Owes req q h = omega (arith, h, ap (times_started i) q)

  pub return-Owes :
      (f g : Phase)
      → l.phase ≡ f
      → times_started i f ≡ times_started i g
      → Owes i n l
      → Owes i n (record l { phase = g })
  return-Owes f g q r h = omega (arith, h, ap (times_started i) q, r)

  pub tear_down-Owes : (p : Option ℕ) → Owes i n l → Owes i n (tear_down p l)
  tear_down-Owes none h = h
  tear_down-Owes (some p) h = h

  pub hand_over-Owes : (p : Option ℕ) → Owes i n l → Owes i n (kill_process p (take_over p l))
  hand_over-Owes none h = h
  hand_over-Owes (some p) h = h

pub respond_run-Owes :
    (i n : ℕ) (l : Loop) (e : Option Error) → Owes i n l → Owes i n (respond_run e l)
respond_run-Owes i n l e h = respond_parked-Owes i n l l.run_resp e refl h

client_of-channel : (req : StartReq) → channel (client_of req) ≡ req.respond
client_of-channel req = ground arith

pub respond_start-Owes :
    (i n : ℕ) (l : Loop) (req : StartReq) (e : Option Error)
    → Owes i (n + one i req.respond) l
    → Owes i n (respond_to (client_of req) e l)
respond_start-Owes i n l req e h =
    respond_to-Owes i n l (client_of req) e
      (subst (λ c. Owes i (n + one i c) l) (sym (client_of-channel req)) h)
