-- ===== src/Virtq.antt =====
-- virtio/virt_queue.c: a split virtqueue, from descriptor chains to completed requests.
pub mod Types
pub mod Chain
pub mod Inflight
pub mod Push
pub mod Dequeue
mod Tests
