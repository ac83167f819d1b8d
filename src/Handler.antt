-- ===== src/Handler.antt =====
-- The handlers of src-server/src/handlers.rs.
pub mod Request
pub mod Upload
pub mod Php
pub mod Jobs
pub mod Health
pub mod Report
