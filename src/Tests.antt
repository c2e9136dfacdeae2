-- ===== src/Tests.antt =====
-- Runs of the code at concrete inputs, at which the hypotheses of its theorems hold.
pub mod Data
mod Transfer
mod Withdrawal
mod Books
mod Money
mod Pipeline
mod Breaker
mod Relay
mod Sweeper
mod Consumer
mod Sessions
pub mod System
mod Records
mod ReadModel
