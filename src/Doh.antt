-- ===== src/Doh.antt =====
-- doh.go and doh/: DNS over HTTPS.
pub mod Qtype
pub mod Reply
pub mod Http
