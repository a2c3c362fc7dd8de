-- ===== src/Blk.antt =====
-- The virtio-blk device: virtio/virtio_blk.c.
pub mod Device
pub mod Requests
mod Tests
