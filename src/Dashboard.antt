-- ===== src/Dashboard.antt =====
-- dashboard/: what guards the routes, and the fan-out of events.
pub mod Auth
pub mod Broadcast
