-- ===== src/Lib.antt =====
-- llama-swap, a proxy that starts and stops model servers on demand so that requests for many
-- models share one machine.
--
-- A request for a model comes to the run loop of a router (internal/router/base.go). The loop hands
-- it to the scheduler (internal/router/scheduler), which serves it, queues it, or starts a swap: the
-- planner of the router names the running models that have to stop for the target. There are three
-- planners: of groups (internal/router/group.go), of capacities (internal/router/capacity.go) and of
-- a matrix of sets (internal/matrix/program.go).
--
-- Scheduler models internal/router/scheduler/fifo.go and scheduler.go: `Fifo` is the struct FIFO,
-- and each of its methods is a function that takes it and returns it, none where the source panics.
-- `Scheduler.Model` has the state, `Collision` the tests between swaps, `Grant` the answers to
-- callers, `Decide` the decision tree of OnRequest and the drain of the queue, `Events` the
-- handlers and `step`, one round of the run loop. What the processes, the clients and the planner
-- answer is arbitrary: `World` has the answers of the Effects during one handler, and the planner
-- is a parameter. Where a map is iterated in any order, the model goes through a list. A map to int
-- is a function that reads 0 at a missing key. A generation is a uint64 and wraps. Logging and the
-- metadata of requests are left out.
--
-- Capacity models the planner of capacities. An amount is an int64 that the configuration has
-- validated to be nonnegative, in sums that fit, so it is a natural number here; a need below 0 is
-- met by any amounts, as the need 0 is. The search hands down what is freed and chosen, where the
-- source changes and restores it. Its recursion is on the candidates; the limit of its nodes is the
-- one of the source. `Capacity.Cached` has EvictionFor and OnSwapStart, which keep the last plan,
-- `Capacity.Config` has ValidateCapacity of internal/config/capacity.go.
--
-- Group models the planner of groups.
--
-- Matrix models the evaluator of compiled set expressions, `Matrix.Program` computeSupport, Solve,
-- CanContainAll and findContaining. The graph of the nodes has no cycle, so it is unfolded to a tree,
-- and the memo of the evaluator is left out, since a node has the same states each time. A []uint64
-- is a function of the number of a bit, with 64 bits for each word. `Matrix.Combos` says which
-- combinations of models an expression stands for, by the full Cartesian product. The costs of Solve are
-- ints, of which no sum is bounded by the configuration: they are added modulo 2 ^ 64 and compared as
-- signed numbers. `Matrix.Planner` has
-- matrixSwapper of internal/router/matrix.go, which keeps the last result.
--
-- Dsl models the parser of internal/matrix/dsl.go from the tokens on: each call and each round of a
-- loop spends one unit of fuel, and three units for each token, and three more, are given. `Dsl.Tokens`
-- models tokenize over code points, with the letters and digits of Unicode as parameters, and one unit
-- of fuel for each character, and one more.
--
-- ByteCache models internal/cache/cache.go and Ring internal/ring/buffer.go: a map and the slots of an
-- array are functions, with the ids or slots that count kept beside them.
--
-- Chain models internal/chain/chain.go, over handlers of any type.
--
-- `Matrix.Compile` models Compile of internal/matrix/program.go: the references of each set, the
-- topological order, the linking of the expressions, and simplifyEmptyRefs. The marks of the visit are
-- a function of the name, the path and the order are lists. A map of sets is a list of names with a
-- function. The depth of the visit is bounded by the number of sets; as many units of fuel and two more
-- are given. Its modules have the order (`Order`, `Marks`, `Visit`), the meaning of an expression with
-- the sets it refers to (`Meaning`), its simplification (`Simplify`, `Plain`, `Orphans`), the linked
-- program (`Link`, `Whole`, `Founded`, `Sound`), what the texts of the definitions say (`Source`) and that the loop over
-- them gets it (`Gather`, `Reading`), and the errors (`Walk`, `Read`, `Total`, `Explain`).
--
-- Process models the run loop of internal/process/process_command.go: `Loop` is what its variables
-- have, `step` one round of it, in the phase it is in. The requests of clients, and what the operating
-- system says of the child process (started, failed, ended, killed), are events that come in any
-- order; answers and announced states are kept in the order in which they are given.
-- `Process.Runs` states what holds in every reachable state.
--
-- Inflight models internal/server/inflight.go. The calls of Add, Remove and the others, the publisher
-- and the timer are goroutines: an `Action` is one step of one of them, between two uses of the lock, of
-- an atomic flag or of a channel, and a client applies what is published. The capacity of the outbox is
-- a parameter.
--
-- Selector models internal/server/selector.go: the strategies, the counts of the spillover, and
-- `Selector.Middleware` the handler up to the call of the next one. How the configuration reads a target
-- is a parameter; what runs, and how the request can be rewritten, is any answer.
-- `Selector.Reservations` has the requests that come and end.
--
-- Base has the shared tests, lists, outcomes and the order of texts, `Scheduler.Sorting` what sorting does, Tests runs the models at concrete inputs.
--
-- Not modelled are the loading of the configuration from YAML, the child processes themselves, the HTTP
-- server around the trackers and selectors, its tools, the monitors and the user interface: most of it
-- is input and output, or decoding by third-party packages.
mod Base
pub mod Scheduler
pub mod Process
pub mod Capacity
pub mod Group
pub mod Matrix
pub mod Dsl
pub mod ByteCache
pub mod Ring
pub mod Chain
pub mod Inflight
pub mod Selector
mod Tests
