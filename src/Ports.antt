-- ===== src/Ports.antt =====
-- ports/ports.go: the interfaces of the database pool and of services, as records of their methods.
pub mod Database
pub mod Ledger
pub mod Services
