-- ===== src/Threading.antt =====
-- The guest thread scheduler of crates/compatra-threading/src/lib.rs. `State` has its data, `Ops`
-- the methods of `GuestThreadRuntime`, `Wake` the wake functions and the signals; the other children
-- prove what these do.
pub mod State
pub mod Ops
pub mod Wake
pub mod Waking
pub mod Queues
pub mod Pending
pub mod Blocking
pub mod Calls
pub mod Invariant
pub mod Population
pub mod Conservation
pub mod AnyCond
pub mod Fairness
pub mod Signals
pub mod Completion
mod Examples
pub mod Reservation
