-- ===== src/Tests.antt =====
-- The theorems at work on concrete configurations, workers, queues and packets.
pub mod Samples
pub mod Db
pub mod Server
pub mod Limits
pub mod Site
pub mod Whole
pub mod Many
pub mod Startup
