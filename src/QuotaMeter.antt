-- ===== src/QuotaMeter.antt =====
-- drive/quota-meter.ts: the calls to Drive, counted in rings of time slots. Times are
-- milliseconds since the epoch.
pub mod Ring
pub mod Meter
pub mod Placed
pub mod Exact
pub mod Windows
pub mod Bounds
mod Tests
