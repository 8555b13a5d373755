-- ===== src/Ownership.antt =====
-- The ownership of profiles: what internal/store/postgres/email_profile_runtime_store.go does to
-- email.profile_runtime and email.profile. A poll runs under an assignment, the fencing token.
pub mod Store
pub mod Writes
pub mod Fencing
mod Tests
