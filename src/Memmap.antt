-- ===== src/Memmap.antt =====
-- memmap.c: guest memory as regions mapped into the process, in a table of each device.
pub mod Host
pub mod Region
pub mod Translate
pub mod Cache
pub mod Slots
mod Tests
