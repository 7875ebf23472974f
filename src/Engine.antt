-- ===== src/Engine.antt =====
-- engine/net/execution_engine.hpp: the execution engine.
-- Engine/State.antt has its state, and each other child one part of the class: the kill switches,
-- the PnL book, the orders and their waiters, the signals, and the monitor of a pair of legs.
pub mod State
pub mod Breaker
pub mod Book
pub mod Orders
pub mod Signal
pub mod Monitor
mod Tests
