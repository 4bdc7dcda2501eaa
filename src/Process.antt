-- ===== src/Process.antt =====
-- internal/process/process_command.go and process.go: the run loop of a process. It owns the state;
-- Run, EnsureReady, WaitReady and Stop are clients that send it a request and wait for the answer.
pub mod Diagram
pub mod Phases
pub mod Ledger
pub mod Answers
pub mod Ended
pub mod Honest
pub mod Fresh
pub mod Runs
use fork_llama_swap.Base.{
  ℕ, Bool, true, false, if◌then◌else◌, List, [], ◌∷◌, ◌++◌, map, Option, none, some, String,
}
use fork_llama_swap.Scheduler.Model.{ProcessState, stopped, starting, ready, stopping, shutdown}

-- What a client may be told. `start_failed` has the error of doStart.
pub data Error : Type 0 where
  is_shutdown exited_unexpectedly was_stopped aborted : Error
  not_startable : ProcessState → Error
  start_failed : ℕ → Error

-- A client that waits at the `respond` channel of its request, which has room for one answer. A start
-- request is of Run if it blocks, and of EnsureReady if not.
pub data Client : Type 0 where
  runner starter waiter stopper : ℕ → Client

-- The channel of the client.
abbrev pub channel : Client → ℕ
channel (runner c) = c
channel (starter c) = c
channel (waiter c) = c
channel (stopper c) = c

-- startReq.
pub record StartReq : Type 0 where
  pub respond : ℕ
  pub block : Bool

abbrev pub client_of : StartReq → Client
client_of r = if r.block then runner r.respond else starter r.respond

-- LoadingProgress. The fraction is a float64, in a unit that does not matter here.
pub record LoadingProgress : Type 0 where
  pub progress : Option ℕ
  pub message : String

-- Status. The zero time of ReadySince is none.
pub record Status : Type 0 where
  pub state : ProcessState
  pub ready_since : Option ℕ
  pub loading : Option LoadingProgress

-- Where the run loop stands: at the outer select, at the inner one with a start under way, or returned,
-- with the request of a start that was under way and is not answered.
pub data Phase : Type 0 where
  selecting : Phase
  in_start : StartReq → Phase
  returned : Option StartReq → Phase

-- An answer, with the state and the handler that clients could see when it was sent.
pub record Reply : Type 0 where
  pub to : Client
  pub error : Option Error
  pub seen : ProcessState
  pub serving : Option ℕ

-- The variables of the run loop. A number names the upstream process, of which cmdDone and cmdCancel
-- are the channel and the function; the handler proxies to it. Kept beside them are the channels of the
-- requests received, the answers, the state changes that were announced, the processes that doStart
-- handed over, and those that ended.
pub record Loop : Type 0 where
  pub status : Status
  pub cmd : Option ℕ
  pub handler : Option ℕ
  pub ready_waiters : List ℕ
  pub run_resp : Option ℕ
  pub last_use : ℕ
  pub phase : Phase
  pub received : List ℕ
  pub sent : List Reply
  pub emitted : List (ProcessState × ProcessState)
  pub spawned : List ℕ
  pub ended : List ℕ

-- New.
abbrev pub new_loop : Loop
new_loop = record {
  status = record { state = stopped; ready_since = none; loading = none };
  cmd = none;
  handler = none;
  ready_waiters = [];
  run_resp = none;
  last_use = 0;
  phase = selecting;
  received = [];
  sent = [];
  emitted = [];
  spawned = [];
  ended = [];
}

abbrev pub same_state : ProcessState → ProcessState → Bool
same_state stopped stopped = true
same_state starting starting = true
same_state ready ready = true
same_state stopping stopping = true
same_state shutdown shutdown = true
same_state _ _ = false

-- The moment that setState stores: of the first of two changes to ready.
abbrev pub since : ProcessState → Status → ℕ → Option ℕ
since ready old now = if same_state old.state ready then old.ready_since else some now
since _ old now = none

-- setState, at the moment `now`. The event is emitted if the state is another.
abbrev pub set_state : ProcessState → ℕ → Loop → Loop
set_state s now l = record l {
  status = record { state = s; ready_since = since s l.status now; loading = none };
  emitted =
      if same_state l.status.state s then l.emitted else l.emitted ++ (l.status.state, s) ∷ [];
}

abbrev pub receive : ℕ → Loop → Loop
receive c l = record l { received = l.received ++ c ∷ [] }

abbrev pub answer : Loop → Option Error → Client → Reply
answer l e c = record { to = c; error = e; seen = l.status.state; serving = l.handler }

abbrev pub answer_waiter : Loop → Option Error → ℕ → Reply
answer_waiter l e c = answer l e (waiter c)

abbrev pub respond_to : Client → Option Error → Loop → Loop
respond_to c e l = record l { sent = l.sent ++ answer l e c ∷ [] }

-- notifyWaiters.
abbrev pub notify_waiters : Option Error → Loop → Loop
notify_waiters e l = record l {
  sent = l.sent ++ map (answer_waiter l e) l.ready_waiters;
  ready_waiters = [];
}

abbrev pub respond_parked : Option ℕ → Option Error → Loop → Loop
respond_parked none e l = l
respond_parked (some c) e l = respond_to (runner c) e (record l { run_resp = none })

-- respondRun.
abbrev pub respond_run : Option Error → Loop → Loop
respond_run e l = respond_parked l.run_resp e l

-- killProcess of a process that doStart handed over: it returns when the process has ended.
abbrev pub kill_process : Option ℕ → Loop → Loop
kill_process none l = l
kill_process (some p) l = record l { ended = l.ended ++ p ∷ [] }

abbrev pub take_over : Option ℕ → Loop → Loop
take_over none l = l
take_over (some p) l = record l { spawned = l.spawned ++ p ∷ [] }

-- What a run loop may receive. A `now` is the time of a change of the state, `used` the one that is
-- stored in lastUse. `handed` is the process that doStart returns after all when it is cancelled, and
-- none outside of a start.
pub data Event : Type 0 where
  parent_done : Option ℕ → ℕ → Event
  upstream_exited : ℕ → Event
  wait_ready : ℕ → Event
  start : StartReq → ℕ → Event
  started : ℕ → ℕ → ℕ → Event
  not_started : ℕ → ℕ → Event
  progressed : LoadingProgress → Event
  stop : ℕ → Option ℕ → ℕ → Event

-- The process is killed, and its handler dropped.
abbrev pub tear_down : Option ℕ → Loop → Loop
tear_down none l = l
tear_down (some p) l = record l { cmd = none; handler = none; ended = l.ended ++ p ∷ [] }

-- parentCtx.Done() at the outer select. The handler goes before the process does.
unfoldable pub on_parent_done : ℕ → Loop → Loop
on_parent_done now l =
    let told = notify_waiters (some is_shutdown) (tear_down l.cmd (set_state shutdown now l)) in
    record (respond_run (some is_shutdown) told) { phase = returned none }

-- The same at the inner select: the process that doStart returned after all is killed.
unfoldable pub on_parent_done_in_start : StartReq → Option ℕ → ℕ → Loop → Loop
on_parent_done_in_start req handed now l =
    let killed = kill_process handed (take_over handed (set_state shutdown now l)) in
    let told = notify_waiters (some is_shutdown) killed in
    record (respond_run (some is_shutdown) told) { phase = returned (some req) }

-- cmdDone, which is nil while no process runs: then there is nothing to receive.
abbrev pub exited : Option ℕ → ℕ → Loop → Option Loop
exited none now l = none
exited (some p) now l =
    let left = set_state stopped now (tear_down (some p) l) in
    some (respond_run (some exited_unexpectedly) (notify_waiters (some exited_unexpectedly) left))

unfoldable pub on_upstream_exited : ℕ → Loop → Option Loop
on_upstream_exited now l = exited l.cmd now l

abbrev pub answer_wait : ProcessState → ℕ → Loop → Loop
answer_wait ready c l = respond_to (waiter c) none l
answer_wait shutdown c l = respond_to (waiter c) (some is_shutdown) l
answer_wait _ c l = record l { ready_waiters = l.ready_waiters ++ c ∷ [] }

-- waitReadyCh.
unfoldable pub on_wait_ready : ℕ → Loop → Loop
on_wait_ready c l = answer_wait l.status.state c l

-- Only a stopped process is started.
abbrev pub start_from : ProcessState → StartReq → ℕ → Loop → Loop
start_from stopped req now l = record (set_state starting now l) { phase = in_start req }
start_from other req now l = respond_to (client_of req) (some (not_startable other)) l

-- A start that does not block is answered at once where the question is settled.
abbrev pub settle : ProcessState → StartReq → ℕ → Loop → Loop
settle ready req now l = respond_to (client_of req) none l
settle shutdown req now l = respond_to (client_of req) (some is_shutdown) l
settle other req now l = start_from other req now l

-- startCh, up to the inner select.
unfoldable pub on_start : StartReq → ℕ → Loop → Loop
on_start req now l =
    if req.block then start_from l.status.state req now l else settle l.status.state req now l

-- The result of doStart with a process.
unfoldable pub on_started : StartReq → ℕ → ℕ → ℕ → Loop → Loop
on_started req p used now l =
    let latched = record l {
      cmd = some p;
      handler = some p;
      last_use = used;
      phase = selecting;
      spawned = l.spawned ++ p ∷ [];
    } in
    let told = notify_waiters none (set_state ready now latched) in
    if req.block
    then record told { run_resp = some req.respond }
    else respond_to (client_of req) none told

-- The result of doStart with an error.
unfoldable pub on_not_started : StartReq → ℕ → ℕ → Loop → Loop
on_not_started req e now l =
    let told = notify_waiters (some (start_failed e)) (set_state stopped now l) in
    respond_to (client_of req) (some (start_failed e)) (record told { phase = selecting })

-- stopCh at the inner select.
unfoldable pub on_stop_in_start : StartReq → ℕ → Option ℕ → ℕ → Loop → Loop
on_stop_in_start req c handed now l =
    let killed = kill_process handed (take_over handed l) in
    let told = notify_waiters (some aborted) (set_state stopped now killed) in
    let answered = respond_to (client_of req) (some aborted) told in
    respond_to (stopper c) none (record answered { phase = selecting })

abbrev pub stop_running : Option ℕ → ℕ → Loop → Loop
stop_running none now l = set_state stopped now l
stop_running (some p) now l =
    notify_waiters (some was_stopped)
      (set_state stopped now (tear_down (some p) (set_state stopping now l)))

-- stopCh at the outer select.
unfoldable pub on_stop : ℕ → ℕ → Loop → Loop
on_stop c now l = respond_to (stopper c) none (respond_run none (stop_running l.cmd now l))

-- setLoading, from the goroutine of doStart.
unfoldable pub set_loading : LoadingProgress → Loop → Loop
set_loading lp l =
    if same_state l.status.state starting
    then record l { status = record l.status { loading = some lp } }
    else l

-- One round of the loop, or one half of a round with a start. None is an event that the loop does not
-- receive where it stands, and whose sender waits.
unfoldable pub on_event : Phase → Event → Loop → Option Loop
on_event selecting (parent_done handed now) l = some (on_parent_done now l)
on_event selecting (upstream_exited now) l = on_upstream_exited now l
on_event selecting (wait_ready c) l = some (on_wait_ready c (receive c l))
on_event selecting (start req now) l = some (on_start req now (receive req.respond l))
on_event selecting (stop c handed now) l = some (on_stop c now (receive c l))
on_event (in_start req) (parent_done handed now) l = some (on_parent_done_in_start req handed now l)
on_event (in_start req) (started p used now) l = some (on_started req p used now l)
on_event (in_start req) (not_started e now) l = some (on_not_started req e now l)
on_event (in_start req) (progressed lp) l = some (set_loading lp l)
on_event (in_start req) (stop c handed now) l =
    some (on_stop_in_start req c handed now (receive c l))
on_event _ _ l = none

unfoldable pub step : Event → Loop → Option Loop
step e l = on_event l.phase e l

-- The channel that a request brings.
abbrev pub channel_of : Event → Option ℕ
channel_of (wait_ready c) = some c
channel_of (start req now) = some req.respond
channel_of (stop c handed now) = some c
channel_of _ = none
