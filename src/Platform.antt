-- ===== src/Platform.antt =====
-- What the two processes connect to before they start, and what they leave open.
pub mod Life
pub mod Tracing
pub mod Stores
pub mod Metrics
pub mod Logging
