-- ===== src/Virtq/Push.antt =====
-- Completing a request: virtq_push, virtq_notify, virtq_set_notify_fd and the logging of what was
-- written, of virtio/virt_queue.c.
pub mod Crash
pub mod Effects
use mathlib.Core.Option
use yc_libvhost_server.Base.{
  ◌==◌, if◌then◌else◌, set, add16, sub16, add64, test_bit, ℕ, ◌+◌, ◌*◌, ◌%◌, Bool, not, Option,
  none, some, List, [], ◌∷◌,
}
use yc_libvhost_server.Memlog.{Memlog, mark_gpa_range_dirty, mark_range_dirty}
use yc_libvhost_server.Memmap.Region.{Memmap}
use yc_libvhost_server.Virtq.Inflight.{inflight_used_update, inflight_used_commit}
use yc_libvhost_server.Virtq.Types.{Buffer, Iov, Virtq}

store_used_elem : ℕ → ℕ → Virtq → Virtq
store_used_elem head len vq = record vq {
  used = record (vq.used) {
    ring = set vq.used.ring (vq.used.idx % vq.qsz) (record { id = head; len = len });
  };
}

bump_used_idx : Virtq → Virtq
bump_used_idx vq = record vq { used = record (vq.used) { idx = add16 vq.used.idx 1 } }

-- vhd_log_buffers; `none` is the failed assertion of vhd_mark_gpa_range_dirty.
log_buffers : Memmap → List Buffer → Memlog → Option Memlog
log_buffers mm [] log = some log
log_buffers mm (b ∷ bs) log = Option.bind (mark_range_dirty log mm b.base b.len) (log_buffers mm bs)

-- VHOST_VRING_F_LOG is the bit 0; `idx` is at 2 in the used ring, and the elements at 4.
log_ring : Virtq → ℕ → Memlog → Option Memlog
log_ring vq used_idx log =
    if test_bit vq.flags 0
    then Option.bind (mark_gpa_range_dirty log (add64 vq.used_gpa_base 2) 2)
        (λ log'. mark_gpa_range_dirty log' (add64 vq.used_gpa_base (4 + 8 * used_idx)) 8)
    else some log

-- vhd_log_modified, with the map that the request was started with.
log_modified_in : Virtq → Iov → ℕ → Memlog → Option Virtq
unfolding log_buffers log_ring
log_modified_in vq iov used_idx log =
    Option.map (λ log'. record vq { log = some log' })
      (Option.bind (log_buffers iov.mm iov.iov_in log) (log_ring vq used_idx))

-- `if (vq->log)`
log_if_any : Virtq → Iov → ℕ → Option Memlog → Option Virtq
log_if_any vq iov used_idx none = some vq
log_if_any vq iov used_idx (some log) = log_modified_in vq iov used_idx log

log_modified : Virtq → Iov → ℕ → Option Virtq
log_modified vq iov used_idx = log_if_any vq iov used_idx vq.log

pub do_notify : Virtq → Virtq
do_notify vq = elim vq.notify_fd [ none ↦ vq | some fd ↦ record vq { signals = vq.signals + 1 } ]

-- VIRTQ_AVAIL_F_NO_INTERRUPT is the bit 0.
pub need_notify : Virtq → Bool
need_notify vq =
    if not vq.has_event_idx
    then not (test_bit vq.avail.flags 0)
    else vq.avail.used_event == sub16 vq.used.idx 1

pub notify : Virtq → Virtq
notify vq = if need_notify vq then do_notify vq else vq

count_completed : Virtq → Virtq
count_completed vq = record vq {
  metrics = record (vq.metrics) { request_completed = add64 vq.metrics.request_completed 1 };
}

-- The part of virtq_push that writes the memory that outlives the server.
-- The source reads the head back from the used ring, which the driver can write; here the driver
-- leaves it alone.
pub push_memory : Virtq → ℕ → ℕ → Virtq
unfolding store_used_elem bump_used_idx
push_memory vq head len =
    let vq1 = store_used_elem head len vq in
    let vq2 = inflight_used_update vq1 head in
    let vq3 = bump_used_idx vq2 in inflight_used_commit vq3 head

pub virtq_push : Virtq → Iov → ℕ → Option Virtq
unfolding log_modified count_completed
virtq_push vq iov len =
    Option.map (λ vq'. count_completed (notify vq'))
      (log_modified (push_memory vq iov.used_head len) iov (vq.used.idx % vq.qsz))

pub set_notify_fd : Virtq → Option ℕ → Virtq
set_notify_fd vq fd = do_notify (record vq { notify_fd = fd })
