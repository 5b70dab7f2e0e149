-- ===== src/Policy.antt =====
-- s3/policy.ts: bucket policy documents.
mod Regexp
pub mod Wildcard
pub mod Statement
pub mod Cidr
pub mod Json
pub mod Evaluate
pub mod Parse
pub mod Decision
mod Tests
