-- ===== src/Log.antt =====
-- The two audit logs that the router index keeps, and how long they keep an event.
pub mod Connection
pub mod Inbound
pub mod Retention
mod Tests
