-- ===== src/Multipart.antt =====
-- Multipart uploads: the parts that a completion names, and the states of an upload's row.
pub mod Parts
pub mod Uploads
pub mod Selection
pub mod Claims
pub mod Table
pub mod World
pub mod Samples
pub mod Complete
pub mod Retire
mod Tests
