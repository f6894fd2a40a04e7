-- ===== src/Xmqlookupd.antt =====
-- xmqlookupd: the lookup daemon. Its registration database, its calls and its requests are modelled.
pub mod Admin
pub mod Daemon
pub mod Dict
pub mod History
pub mod Members
pub mod Registrations
