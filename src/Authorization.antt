-- ===== src/Authorization.antt =====
-- services/authorization-service.ts and s3/authorize.ts: who may do what.
pub mod Actions
pub mod Access
pub mod Buckets
pub mod Decision
pub mod Resolve
mod Tests
