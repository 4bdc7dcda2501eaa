-- ===== src/Selector.antt =====
-- internal/server/selector.go: how a selector chooses one of its targets.
pub mod Classes
pub mod LeastBusy
pub mod Choice
pub mod Middleware
pub mod Reservations
use fork_llama_swap.Base.{
  ℕ, zero, suc, ◌+◌, ◌-◌, ◌^◌, ◌%◌, String, Bool, true, false, ◌&&◌, ltb, ◌==◌, ◌=ₛ◌, if◌then◌else◌,
  List, [], ◌∷◌, map, length, Option, none, some, ◌>>=◌,
}
use fork_llama_swap.Scheduler.Model.{ProcessState, stopped, starting, ready, stopping, shutdown}

-- spilloverTarget.
pub record SpilloverTarget : Type 0 where
  pub target : String
  pub model_id : String
  pub is_local : Bool

-- How cfg.RealModelName and cfg.ResolvePeerModel read a target: its model, and whether it is local.
abbrev pub Reading : Type 0
Reading = String → String × Bool

abbrev pub target_of : Reading → String → SpilloverTarget
target_of read n = record { target = n; model_id = (read n).0; is_local = (read n).1 }

-- selectorSpilloverState. A map to int is a function, 0 at a missing key; the count is never below 0.
pub record SpilloverState : Type 0 where
  pub spillover : ℕ
  pub targets : List SpilloverTarget
  pub inflight : String → ℕ
  pub rr : ℕ

-- The state that newSelectorSpilloverTracker makes for a selector.
unfoldable pub new_state : Reading → ℕ → List String → SpilloverState
new_state read spillover targets = record {
  spillover = spillover;
  targets = map (target_of read) targets;
  inflight = λ m. 0;
  rr = 0;
}

pub data Error : Type 0 where
  not_configured : Error
  no_available_target : Error

-- The state of a process, if it runs now.
abbrev pub Running : Type 0
Running = String → Option ProcessState

-- strategyPin.
unfoldable pub strategy_pin : List String → Option String
strategy_pin [] = none
strategy_pin (t ∷ ts) = some t

abbrev pub is_state : ProcessState → Option ProcessState → Bool
is_state ready (some ready) = true
is_state starting (some starting) = true
is_state _ _ = false

-- A loop of strategyWarm: the first target whose process is in the state.
unfoldable pub first_in : ProcessState → (String → String) → Running → List String → Option String
first_in s real_model_name running [] = none
first_in s real_model_name running (t ∷ ts) =
    let rest = first_in s real_model_name running ts in
    if is_state s (running (real_model_name t)) then some t else rest

abbrev pub or_else : Option String → Option String → Option String
or_else none b = b
or_else (some a) b = some a

-- strategyWarm.
unfoldable pub strategy_warm : (String → String) → List String → Running → Option String
unfolding first_in strategy_pin
strategy_warm real_model_name targets running =
    or_else (first_in ready real_model_name running targets)
      (or_else (first_in starting real_model_name running targets) (strategy_pin targets))

-- What strategySpillover takes a target for.
pub data Class : Type 0 where
  active cold skipped : Class

abbrev pub by_inflight : ℕ → Class
by_inflight n = if ltb 0 n then active else cold

abbrev pub local_class : Option ProcessState → ℕ → Class
local_class (some stopping) n = skipped
local_class (some shutdown) n = skipped
local_class (some ready) n = active
local_class (some starting) n = active
local_class (some stopped) n = by_inflight n
local_class none n = by_inflight n

abbrev pub class_of : SpilloverState → Running → SpilloverTarget → Class
class_of s running t =
    if t.is_local
    then local_class (running t.model_id) (s.inflight t.model_id)
    else by_inflight (s.inflight t.model_id)

abbrev pub same_class : Class → Class → Bool
same_class active active = true
same_class cold cold = true
same_class skipped skipped = true
same_class _ _ = false

-- The active, or the cold targets.
unfoldable pub of_class :
    Class → (SpilloverTarget → Class) → List SpilloverTarget → List SpilloverTarget
of_class c class [] = []
of_class c class (t ∷ ts) =
    let rest = of_class c class ts in if same_class (class t) c then t ∷ rest else rest

-- The loop of minimum; none is -1.
abbrev pub less_busy : ℕ → Option ℕ → Option ℕ
less_busy count none = some count
less_busy count (some m) = if ltb count m then some count else some m

unfoldable pub minimum_from : (String → ℕ) → Option ℕ → List SpilloverTarget → Option ℕ
minimum_from inflight m [] = m
minimum_from inflight m (t ∷ ts) = minimum_from inflight (less_busy (inflight t.model_id) m) ts

-- minimum.
abbrev pub minimum : (String → ℕ) → List SpilloverTarget → Option ℕ
minimum inflight ts = minimum_from inflight none ts

abbrev pub update : (String → ℕ) → String → ℕ → String → ℕ
update f k v j = if k =ₛ j then v else f j

-- reserve.
abbrev pub reserve : SpilloverTarget → SpilloverState → String × SpilloverState
reserve t s =
    (t.target, record s { inflight = update s.inflight t.model_id (s.inflight t.model_id + 1) })

abbrev pub equals : Option ℕ → ℕ → Bool
equals none n = false
equals (some m) n = n == m

unfoldable pub tied_with : (String → ℕ) → Option ℕ → List SpilloverTarget → List SpilloverTarget
tied_with inflight m [] = []
tied_with inflight m (t ∷ ts) =
    let rest = tied_with inflight m ts in if equals m (inflight t.model_id) then t ∷ rest else rest

-- An index into a slice; none is a panic.
unfoldable pub get_elem? : List SpilloverTarget → ℕ → Option SpilloverTarget
get_elem? [] i = none
get_elem? (t ∷ ts) zero = some t
get_elem? (t ∷ ts) (suc i) = get_elem? ts i

-- The element at the next turn; a remainder by 0 is a panic.
abbrev pub turn : ℕ → List SpilloverTarget → Option SpilloverTarget
turn rr [] = none
turn rr (t ∷ ts) = get_elem? (t ∷ ts) (rr % length (t ∷ ts))

-- reserveLeastBusy.
unfoldable pub reserve_least_busy :
    List SpilloverTarget → SpilloverState → Option (String × SpilloverState)
unfolding minimum_from tied_with get_elem?
reserve_least_busy ts s = turn s.rr (tied_with s.inflight (minimum s.inflight ts) ts) >>= λ t.
    some (reserve t (record s { rr = (s.rr + 1) % 2 ^ 64 }))

-- An error, or the target with the state after it was reserved.
pub data Chosen : Type 0 where
  chose : String → SpilloverState → Chosen
  refused : Error → Chosen

abbrev pub as_chosen : String × SpilloverState → Chosen
as_chosen r = chose r.0 r.1

abbrev pub below : Option ℕ → ℕ → Bool
below none n = true
below (some m) n = ltb m n

abbrev pub pick : List SpilloverTarget → List SpilloverTarget → SpilloverState → Option Chosen
pick [] [] s = some (refused no_available_target)
pick [] (t ∷ ts) s = some (as_chosen (reserve t s))
pick (a ∷ as') [] s = reserve_least_busy (a ∷ as') s >>= λ r. some (as_chosen r)
pick (a ∷ as') (t ∷ ts) s =
    if below (minimum s.inflight (a ∷ as')) s.spillover
    then (reserve_least_busy (a ∷ as') s >>= λ r. some (as_chosen r))
    else some (as_chosen (reserve t s))

-- strategySpillover, with the state that the tracker has for the selector, if any. None is a panic.
unfoldable pub strategy_spillover : Option SpilloverState → Running → Option Chosen
unfolding of_class reserve_least_busy
strategy_spillover none running = some (refused not_configured)
strategy_spillover (some s) running =
    pick (of_class active (class_of s running) s.targets)
      (of_class cold (class_of s running) s.targets) s

-- The loop of release.
unfoldable pub release_in : List SpilloverTarget → String → (String → ℕ) → String → ℕ
release_in [] target inflight = inflight
release_in (c ∷ cs) target inflight =
    let rest = release_in cs target inflight in
    if (c.target =ₛ target) && ltb 0 (inflight c.model_id)
    then update inflight c.model_id (inflight c.model_id - 1)
    else rest

-- release.
unfoldable pub release : String → SpilloverState → SpilloverState
unfolding release_in
release target s = record s { inflight = release_in s.targets target s.inflight }
