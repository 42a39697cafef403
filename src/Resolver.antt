-- ===== src/Resolver.antt =====
-- resolver.go: the iterative resolution of a question, from the servers of the closest zone that is
-- cached along the delegations to an answer, with the checks of DNSSEC.
pub mod Exchange
pub mod Env
pub mod Hosts
pub mod Zones
pub mod Glue
pub mod Roots
pub mod Chain
pub mod Addresses
pub mod Answers
pub mod Delegations
pub mod Resolve
pub mod Priming
pub mod Soundness
pub mod Queue
pub mod Network
