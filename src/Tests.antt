-- ===== src/Tests.antt =====
-- Runs of the modelled code at concrete inputs.
mod Scenario
mod Fifo
mod Planners
mod Matrix
mod Buffers
mod Config
mod Dsl
mod Text
mod Process
mod Compile
mod Inflight
mod Selector
