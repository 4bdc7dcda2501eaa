-- ===== src/Inflight.antt =====
-- internal/server/inflight.go: the tracker of requests in flight. A mutex orders the changes of its map
-- and their updates; a publisher takes the updates from a bounded outbox, beside them.
pub mod Publishing
pub mod Changes
pub mod Tracks
pub mod Synced
pub mod Stale
use fork_llama_swap.Base.{
  ℕ, zero, suc, ◌+◌, ◌-◌, ◌^◌, ◌%◌, String, Bool, true, false, ◌&&◌, not, ltb, leb, ◌==◌,
  if◌then◌else◌, List, [], ◌∷◌, ◌++◌, length, Option, none, some,
}

-- InflightRequestEntry: what is known of the request from the start, and what changes.
pub record Entry : Type 0 where
  pub about : String
  pub resp_headers : List String
  pub resp_bytes : ℕ

-- inflightRequest. A timer calls emitPending.
pub record InflightRequest : Type 0 where
  pub entry : Entry
  pub last_emitted : ℕ
  pub has_timer : Bool

-- InFlightRequestsEvent, but for the snapshots.
pub data Update : Type 0 where
  upsert : ℕ → Entry → Update
  remove : ℕ → Update

-- What a client sees that applies the updates: the entries by their ids.
abbrev pub View : Type 0
View = ℕ → Option Entry

-- Where the goroutine that holds the mutex stands in enqueueLocked.
pub data Writer : Type 0 where
  unlocked : Writer
  overflowed : Writer
  enqueued : Writer

-- Where the publisher stands in publishUpdates and publishRecoverySnapshots.
pub data Publisher : Type 0 where
  idle : Publisher
  selecting : Publisher
  stopping : Publisher
  publishing : Update → Publisher
  swapping : Publisher
  discarding : Publisher
  reading : Publisher
  publishing_snapshot : View → Publisher

-- inflightTracker. `publisherRunning` is set exactly while there is a publisher that is not idle;
-- `rechecking` counts those that have cleared it and look at the outbox once more. The view is that of
-- the client.
pub record Tracker : Type 0 where
  pub next_id : ℕ
  pub requests : ℕ → Option InflightRequest
  pub updates : List Update
  pub needs_snapshot : Bool
  pub publisher_running : Bool
  pub writer : Writer
  pub publisher : Publisher
  pub rechecking : ℕ
  pub view : View

-- newInflightTrackerWithPublisher.
abbrev pub new_tracker : Tracker
new_tracker = record {
  next_id = 0;
  requests = λ id. none;
  updates = [];
  needs_snapshot = false;
  publisher_running = false;
  writer = unlocked;
  publisher = idle;
  rechecking = 0;
  view = λ id. none;
}

abbrev pub inflight_update_interval : ℕ
inflight_update_interval = 250

abbrev pub put :
    (ℕ → Option InflightRequest) → ℕ → Option InflightRequest → ℕ → Option InflightRequest
put f k v j = if k == j then v else f j

-- What an update says of the request `i`, if it says anything.
abbrev pub says : ℕ → Update → Option (Option Entry)
says i (upsert id e) = if id == i then some (some e) else none
says i (remove id) = if id == i then some none else none

abbrev pub told_or : Option (Option Entry) → Option Entry → Option Entry
told_or none old = old
told_or (some new) old = new

abbrev pub apply : Update → View → View
apply u v i = told_or (says i u) (v i)

abbrev pub entry_of : Option InflightRequest → Option Entry
entry_of none = none
entry_of (some r) = some r.entry

-- Current.
abbrev pub current : Tracker → View
current t i = entry_of (t.requests i)

-- The select of enqueueLocked.
unfoldable pub enqueue : ℕ → Update → Tracker → Tracker
enqueue size u t =
    if ltb (length t.updates) size
    then record t { updates = t.updates ++ u ∷ []; writer = enqueued }
    else record t { writer = overflowed }

-- Add, at the moment `now`.
unfoldable pub add : ℕ → String → ℕ → Tracker → Tracker
unfolding enqueue
add size about now t =
    let id = (t.next_id + 1) % 2 ^ 64 in
    let e : Entry = record { about = about; resp_headers = []; resp_bytes = 0 } in
    enqueue size (upsert id e) (record t {
      next_id = id;
      requests =
          put t.requests id (some (record { entry = e; last_emitted = now; has_timer = false }));
    })

-- Remove of a request that is there.
abbrev pub remove_found : ℕ → ℕ → Option InflightRequest → Tracker → Tracker
remove_found size id none t = t
remove_found size id (some r) t =
    enqueue size (remove id) (record t { requests = put t.requests id none })

unfoldable pub remove_request : ℕ → ℕ → Tracker → Tracker
unfolding enqueue
remove_request size id t = remove_found size id (t.requests id) t

-- The entry is emitted as it is now.
abbrev pub emit : ℕ → ℕ → InflightRequest → Tracker → Tracker
emit size id r t =
    enqueue size (upsert id r.entry) (record t { requests = put t.requests id (some r) })

abbrev pub set_headers_found : ℕ → ℕ → List String → ℕ → Option InflightRequest → Tracker → Tracker
set_headers_found size id values now none t = t
set_headers_found size id values now (some r) t =
    emit size id (record r { entry = record r.entry { resp_headers = values }; last_emitted = now })
      t

-- SetResponseHeaders.
unfoldable pub set_response_headers : ℕ → ℕ → List String → ℕ → Tracker → Tracker
unfolding enqueue
set_response_headers size id values now t = set_headers_found size id values now (t.requests id) t

-- The bytes are counted; they are emitted at once if the last update is long ago and no timer is set,
-- and else by a timer. A response has fewer than 2 ^ 63 bytes.
abbrev pub add_bytes_found : ℕ → ℕ → ℕ → ℕ → Option InflightRequest → Tracker → Tracker
add_bytes_found size id total now none t = t
add_bytes_found size id total now (some r) t =
    let counted : InflightRequest = record r {
      entry = record r.entry { resp_bytes = r.entry.resp_bytes + total };
    } in
    if leb (r.last_emitted + inflight_update_interval) now && not r.has_timer
    then emit size id (record counted { last_emitted = now }) t
    else record t { requests = put t.requests id (some (record counted { has_timer = true })) }

-- AddResponseBytes.
unfoldable pub add_response_bytes : ℕ → ℕ → ℕ → ℕ → Tracker → Tracker
unfolding enqueue
add_response_bytes size id total now t =
    if leb total 0 then t else add_bytes_found size id total now (t.requests id) t

abbrev pub emit_found : ℕ → ℕ → ℕ → Option InflightRequest → Tracker → Tracker
emit_found size id now none t = t
emit_found size id now (some r) t =
    emit size id (record r { has_timer = false; last_emitted = now }) t

-- emitPending.
unfoldable pub emit_pending : ℕ → ℕ → ℕ → Tracker → Tracker
unfolding enqueue
emit_pending size id now t = emit_found size id now (t.requests id) t

-- startPublisher: the first to set the flag starts a publisher.
unfoldable pub start_publisher : Tracker → Tracker
start_publisher t =
    if t.publisher_running then t else record t { publisher_running = true; publisher = selecting }

-- The rest of enqueueLocked after the select, in two steps; then the mutex is given back.
abbrev pub store_needs_snapshot : Writer → Tracker → Option Tracker
store_needs_snapshot overflowed t = some (record t { needs_snapshot = true; writer = enqueued })
store_needs_snapshot _ t = none

abbrev pub finish_enqueue : Writer → Tracker → Option Tracker
finish_enqueue enqueued t = some (start_publisher (record t { writer = unlocked }))
finish_enqueue _ t = none

-- The select of publishUpdates.
abbrev pub receive : List Update → Tracker → Tracker
receive [] t = record t { publisher = stopping }
receive (u ∷ us) t = record t { updates = us; publisher = publishing u }

-- A round of discardQueuedUpdates.
abbrev pub discard : List Update → Tracker → Tracker
discard [] t = record t { publisher = reading }
discard (u ∷ us) t = record t { updates = us }

-- Current takes the mutex, for readers.
abbrev pub read_current : Writer → Tracker → Option Tracker
read_current unlocked t = some (record t { publisher = publishing_snapshot (current t) })
read_current _ t = none

-- The next step of a publisher.
abbrev pub publish_step : Publisher → Tracker → Option Tracker
publish_step idle t = none
publish_step selecting t = some (receive t.updates t)
publish_step stopping t =
    some (record t { publisher_running = false; publisher = idle; rechecking = t.rechecking + 1 })
publish_step (publishing u) t = some (record t { view = apply u t.view; publisher = swapping })
publish_step swapping t = some (
    if t.needs_snapshot
    then record t { needs_snapshot = false; publisher = discarding }
    else record t { publisher = selecting })
publish_step discarding t = some (discard t.updates t)
publish_step reading t = read_current t.writer t
publish_step (publishing_snapshot v) t = some (record t { view = v; publisher = swapping })

abbrev pub is_empty : List Update → Bool
is_empty [] = true
is_empty (u ∷ us) = false

-- The last look of a publisher at the outbox: it goes on if there is work and no other runs.
abbrev pub recheck : ℕ → Tracker → Option Tracker
recheck zero t = none
recheck (suc n) t = some (
    if not (is_empty t.updates) && not t.publisher_running
    then record t { publisher_running = true; publisher = selecting; rechecking = n }
    else record t { rechecking = n })

-- What may happen next: a call, which takes the mutex, or a step of a goroutine on its way.
pub data Action : Type 0 where
  adds : String → ℕ → Action
  removes : ℕ → Action
  sets_headers : ℕ → List String → ℕ → Action
  adds_bytes : ℕ → ℕ → ℕ → Action
  timer_fires : ℕ → ℕ → Action
  stores : Action
  finishes : Action
  publishes : Action
  rechecks : Action

abbrev pub locked_by : Writer → Tracker → Option Tracker
locked_by unlocked t = some t
locked_by _ t = none

-- The tracker after the action, if it can happen. The outbox has room for `size` updates.
unfoldable pub step : ℕ → Action → Tracker → Option Tracker
unfolding add remove_request set_response_headers add_response_bytes emit_pending start_publisher
step size (adds about now) t = locked_by t.writer (add size about now t)
step size (removes id) t = locked_by t.writer (remove_request size id t)
step size (sets_headers id values now) t =
    locked_by t.writer (set_response_headers size id values now t)
step size (adds_bytes id total now) t = locked_by t.writer (add_response_bytes size id total now t)
step size (timer_fires id now) t = locked_by t.writer (emit_pending size id now t)
step size stores t = store_needs_snapshot t.writer t
step size finishes t = finish_enqueue t.writer t
step size publishes t = publish_step t.publisher t
step size rechecks t = recheck t.rechecking t
