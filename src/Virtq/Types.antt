-- ===== src/Virtq/Types.antt =====
-- The structures of virtio/virt_queue.h, virtio/virtio_spec.h and vhost_spec.h that a virtqueue
-- works on.
use yc_libvhost_server.Base.{test_bit, ℕ, Bool, Option, List}
use yc_libvhost_server.Memlog.{Memlog}
use yc_libvhost_server.Memmap.Region.{Memmap}

-- `struct virtq_desc`
pub record Desc : Type 0 where
  pub addr : ℕ
  pub len : ℕ
  pub flags : ℕ
  pub next : ℕ

-- VIRTQ_DESC_F_NEXT, VIRTQ_DESC_F_WRITE and VIRTQ_DESC_F_INDIRECT are the bits 0, 1 and 2.
abbrev pub has_next : Desc → Bool
has_next d = test_bit d.flags 0

abbrev pub is_write : Desc → Bool
is_write d = test_bit d.flags 1

abbrev pub is_indirect : Desc → Bool
is_indirect d = test_bit d.flags 2

-- `sizeof(struct virtq_desc)`
abbrev pub desc_size : ℕ
desc_size = 16

-- `struct virtq_avail`; the word behind the ring is `used_event`.
pub record Avail : Type 0 where
  pub flags : ℕ
  pub idx : ℕ
  pub ring : List ℕ
  pub used_event : ℕ

-- `struct virtq_used_elem`
pub record UsedElem : Type 0 where
  pub id : ℕ
  pub len : ℕ

-- `struct virtq_used`; the word behind the ring is `avail_event`.
pub record Used : Type 0 where
  pub idx : ℕ
  pub ring : List UsedElem
  pub avail_event : ℕ

-- `struct inflight_split_desc`
pub record InflightDesc : Type 0 where
  pub inflight : ℕ
  pub next : ℕ
  pub counter : ℕ

-- `struct inflight_split_region`
pub record InflightRegion : Type 0 where
  pub version : ℕ
  pub desc_num : ℕ
  pub last_batch_head : ℕ
  pub used_idx : ℕ
  pub desc : List InflightDesc

-- `struct vhd_buffer`
pub record Buffer : Type 0 where
  pub base : ℕ
  pub len : ℕ
  pub write_only : Bool

-- `niov_out`, `niov_in` and `buffers` of a virtqueue: where a chain is collected.
pub record Scratch : Type 0 where
  pub niov_out : ℕ
  pub niov_in : ℕ
  pub buffers : List Buffer

-- `struct virtio_iov` with its private part: the buffers of a request.
pub record Iov : Type 0 where
  pub used_head : ℕ
  pub mm : Memmap
  pub iov_out : List Buffer
  pub iov_in : List Buffer

-- `struct vhd_vq_metrics`
pub record Metrics : Type 0 where
  pub dispatch_total : ℕ
  pub dispatch_empty : ℕ
  pub request_total : ℕ
  pub request_completed : ℕ
  pub queue_len_last : ℕ
  pub queue_len_max_60s : ℕ

-- `struct virtio_virtq`. `desc` is an address, the rings are what the guest's memory holds, and
-- `signals` counts the writes to the eventfd of `notify_fd`.
pub record Virtq : Type 0 where
  pub flags : ℕ
  pub desc : ℕ
  pub avail : Avail
  pub used : Used
  pub used_gpa_base : ℕ
  pub qsz : ℕ
  pub max_chain_len : ℕ
  pub last_avail : ℕ
  pub scratch : Scratch
  pub broken : Bool
  pub has_event_idx : Bool
  pub notify_fd : Option ℕ
  pub enabled : Bool
  pub req_cnt : ℕ
  pub inflight_region : Option InflightRegion
  pub inflight_check : Bool
  pub mm : Memmap
  pub log : Option Memlog
  pub metrics : Metrics
  pub period_start_ts : ℕ
  pub signals : ℕ
