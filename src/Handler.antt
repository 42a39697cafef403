-- ===== src/Handler.antt =====
-- handler.go: what a query goes through, from the access list to the reply.
pub mod Env
pub mod Safety
pub mod Cname
pub mod Prepare
pub mod Query
pub mod Invariant
