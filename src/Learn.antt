-- ===== src/Learn.antt =====
-- internal/learn: what is proposed as an API from the traffic that was seen.
pub mod Values
pub mod Schema
mod Examples
pub mod PathPattern
pub mod Observing
