-- ===== src/Scheduler.antt =====
-- internal/router/scheduler: the scheduling strategy that decides when a request starts a model
-- swap, joins one, is served at once or waits. `Model` has the state, `Collision` the tests between
-- swaps, `Grant` the answers to callers, `Decide` the decision tree, `Events` the handlers.
pub mod Model
pub mod Collision
pub mod Membership
pub mod Sorting
pub mod Grant
pub mod Decide
pub mod Events
pub mod Invariant
pub mod Wakeup
pub mod Order
pub mod Reach
pub mod Shutdown
pub mod Removal
