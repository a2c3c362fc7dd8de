-- ===== src/Vdev.antt =====
-- vhost-user sessions: vdev.c and vdev.h.
mod Tests
pub mod Flight
pub mod Types
pub mod Lifecycle
pub mod Callbacks
pub mod Messages
pub mod Session
pub mod Counters
pub mod Rings
pub mod Controls
pub mod Marks
pub mod Drains
pub mod Failures
pub mod Callings
pub mod Stuck
pub mod Faults
pub mod Handling
