-- ===== src/Tests.antt =====
-- Examples: each theorem of the list of results at a concrete input, and small runs of the code.
pub mod Data
mod Overlaps
mod Servers
mod Caches
mod Queues
mod Program
mod Proofs
pub mod Queries
mod Web
mod Zones
pub mod Resolver
pub mod Recursion
mod Trust
pub mod Setup
pub mod Priming
pub mod Starting
mod Downloads
