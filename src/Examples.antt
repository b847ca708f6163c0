-- ===== src/Examples.antt =====
-- Small inputs, and each property at one of them.
pub mod Plans
pub mod Sorting
pub mod Gate
pub mod Streams
pub mod Running
pub mod Revising
pub mod Recovering
pub mod Appending
pub mod Restarting
pub mod Calling
pub mod Serving
pub mod Guarding
pub mod Repairing
