-- ===== src/Dnssec.antt =====
-- DNSSEC: the errors of utils.go and nsec3.go, and the proofs of absence, the key and the signature
-- checks of the same files. `nil` is `none`.
pub mod Nsec3
pub mod Keys
pub mod Signatures
pub mod Errors
