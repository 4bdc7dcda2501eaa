-- ===== src/Scheduler/Model.antt =====
-- internal/router/scheduler/scheduler.go and fifo.go: requests, the answers of the world outside,
-- the calls that the scheduler makes, and the state of the FIFO scheduler.
use fork_llama_swap.Base.{
  ℕ, ◌-◌, String, Bool, List, [], ◌∷◌, Option, none, some, ltb, leb, ◌=ₛ◌, if◌then◌else◌,
}
use fork_llama_swap.Base.Int.{ℤ}

-- process.ProcessState.
pub data ProcessState : Type 0 where
  stopped starting ready stopping shutdown : ProcessState

pub data Error : Type 0 where
  model_not_found concurrency_limit : Error
  model_unloaded : String → Error
  swap_failed : String → Error
  shutting_down : String → Error

-- HandlerReq. A number names the `Respond` channel; `Admit` may be nil.
pub record HandlerReq : Type 0 where
  pub model : String
  pub respond : ℕ
  pub has_admit : Bool

-- What the interface `Effects`, and the callers at the ends of the channels, answer at one moment.
-- Each is an arbitrary function: processes and clients change on their own.
pub record World : Type 0 where
  pub model_state : String → Option ProcessState
  pub running_models : List String
  pub receives_admission : HandlerReq → Bool
  pub receives_grant : HandlerReq → Bool

-- The calls that the scheduler makes on `Effects`, on the planner and on channels.
pub data Effect : Type 0 where
  admission : HandlerReq → Option Error → Effect
  grant_serve : HandlerReq → String → Effect
  grant_error : HandlerReq → Error → Effect
  on_swap_start : String → List String → Effect
  start_swap : String → ℕ → List String → Effect
  cancel_swap : ℕ → Effect
  stop_processes : ℕ → List String → Effect
  queue_position : HandlerReq → ℕ → Effect

-- activeSwap. `cancel` is the call `cancel_swap generation`.
pub record ActiveSwap : Type 0 where
  pub model_id : String
  pub generation : ℕ
  pub evict : List String
  pub waiters : List HandlerReq

-- FIFO. The map `active` is the list of its values, whose keys are their `model_id`s. A map to int
-- reads 0 at a missing key, so it is a function. `effects` are the calls made, the newest first.
pub record Fifo : Type 0 where
  pub name : String
  pub priority : String → ℤ
  pub limits : String → Option ℕ
  pub active : List ActiveSwap
  pub reserved : String → ℕ
  pub in_flight : String → ℕ
  pub queued : List HandlerReq
  pub next_generation : ℕ
  pub effects : List Effect

abbrev pub default_concurrency_limit : ℕ
default_concurrency_limit = 10

-- The loop of NewFIFO over the models: an ID, and its `ConcurrencyLimit` (0 for what is not positive).
unfoldable pub model_limits : List (String × ℕ) → String → Option ℕ
model_limits [] id = none
model_limits ((m, configured) ∷ rest) id =
    if m =ₛ id
    then some (if ltb 0 configured then configured else default_concurrency_limit)
    else model_limits rest id

-- NewFIFO.
unfoldable pub new_fifo : String → (String → ℤ) → List (String × ℕ) → Fifo
new_fifo name priority models = record {
  name = name;
  priority = priority;
  limits = model_limits models;
  active = [];
  reserved = λ m. 0;
  in_flight = λ m. 0;
  queued = [];
  next_generation = 0;
  effects = [];
}

abbrev limit_or_default : Option ℕ → ℕ
limit_or_default none = default_concurrency_limit
limit_or_default (some l) = l

unfoldable pub limit : Fifo → String → ℕ
limit s m = limit_or_default (s.limits m)

-- m[k] = v.
abbrev pub update : (String → ℕ) → String → ℕ → String → ℕ
update f k v j = if k =ₛ j then v else f j

abbrev pub call : Effect → Fifo → Fifo
call e s = record s { effects = e ∷ s.effects }

-- release. It panics at a count of 0; a key whose count reaches 0 is deleted, and reads 0.
unfoldable pub release : Fifo → String → Option Fifo
release s m =
    if leb (s.reserved m) 0
    then none
    else some (record s { reserved = update s.reserved m (s.reserved m - 1) })
