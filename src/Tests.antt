-- ===== src/Tests.antt =====
-- The theorems on concrete buffers, timers, descriptors, fibers and servlets.
pub mod Buffers
pub mod Timers
pub mod Events
pub mod Descriptors
pub mod Streams
pub mod Servlets
pub mod Rounds
pub mod Messages
pub mod Sessions
pub mod Logs
pub mod Sockets
