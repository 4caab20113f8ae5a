-- ===== src/Timing.antt =====
-- services/timing: the market calendar.
pub mod Calendar
pub mod NextOpen
pub mod Availability
pub mod PointInTime
