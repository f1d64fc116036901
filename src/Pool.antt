-- ===== src/Pool.antt =====
-- src/class/NSAutoreleasePool.m: the pools of a thread.
-- A release build is modelled (NDEBUG, no DEBUG), with no trace output.
pub mod Runtime
pub mod Ops
pub mod Drain
pub mod Ledger
pub mod Induct
pub mod Frame
pub mod Total
pub mod Pop
pub mod Later
pub mod Api
pub mod Query
pub mod Early
pub mod Teardown
pub mod Order
pub mod Bulk
pub mod Reach
mod Examples
