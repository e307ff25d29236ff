-- ===== src/Services.antt =====
-- The services on top of the threads.
pub mod Discovery
pub mod Messaging
pub mod Announce
pub mod Table
