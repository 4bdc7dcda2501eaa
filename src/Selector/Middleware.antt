-- ===== src/Selector/Middleware.antt =====
-- internal/server/selector.go: CreateSelectorMiddleware, for a request whose model is a selector.
use fork_llama_swap.Base.{ℕ, String, Bool, if◌then◌else◌, List, Option, none, some, ◌>>=◌}
use fork_llama_swap.Selector.{
  SpilloverState, Running, strategy_pin, strategy_warm, Chosen, chose, refused, strategy_spillover,
  release,
}

pub data Strategy : Type 0 where
  pin warm spillover unknown : Strategy

-- SelectorConfig.
pub record SelectorConfig : Type 0 where
  pub strategy : Strategy
  pub targets : List String
  pub spillover_limit : ℕ

-- What happens around a request: the processes that run, whether ReplaceRequestModel succeeds, and
-- whether it upgrades to a websocket of a local model that ignores websockets.
pub record Circumstances : Type 0 where
  pub running : Running
  pub replaced : Bool
  pub ignored : Bool

-- A request that holds its target releases it when it ends; the last two are statuses 503 and 400.
pub data Begun : Type 0 where
  holds passes : String → Begun
  unavailable bad_request : Begun

abbrev pub unreserved : Option String → Circumstances → Begun
unreserved none q = unavailable
unreserved (some t) q = if q.replaced then passes t else bad_request

abbrev pub reserved : Chosen → Circumstances → SpilloverState → Begun × SpilloverState
reserved (refused e) q s = (unavailable, s)
reserved (chose t s') q s =
    if q.replaced
    then (if q.ignored then (passes t, release t s') else (holds t, s'))
    else (bad_request, release t s')

-- The handler up to the call of the next one. None is a panic.
abbrev pub begin_with :
    Strategy
    → List String
    → (String → String)
    → Circumstances
    → SpilloverState
    → Option (Begun × SpilloverState)
begin_with pin targets names q s = some (unreserved (strategy_pin targets) q, s)
begin_with warm targets names q s = some (unreserved (strategy_warm names targets q.running) q, s)
begin_with spillover targets names q s =
    strategy_spillover (some s) q.running >>= λ c. some (reserved c q s)
begin_with unknown targets names q s = some (unavailable, s)

abbrev pub begin :
    SelectorConfig
    → (String → String)
    → Circumstances
    → SpilloverState
    → Option (Begun × SpilloverState)
begin sel names q s = begin_with sel.strategy sel.targets names q s
