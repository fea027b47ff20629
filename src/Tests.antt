-- ===== src/Tests.antt =====
-- The theorems at concrete inputs, and runs of the code.
pub mod Samples
pub mod Parsing
pub mod Settings
pub mod Sessions
pub mod Streams
pub mod Silence
pub mod Programs
pub mod Delivery
pub mod Guards
pub mod Concurrency
pub mod Punctuality
pub mod Turns
