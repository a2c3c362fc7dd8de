-- ===== src/Vdev/Messages/Shared.antt =====
-- Memory that the client shares besides its own: the dirty log and the inflight regions of vdev.c.
use yc_libvhost_server.Base.{
  ltb, ◌==◌, if◌then◌else◌, Errno, einval, efault, eisconn, Result, ok, err, ℕ, zero, suc, ◌+◌, ◌*◌,
  ◌%◌, ◌^◌, min, ◌||◌, not, Option, none, some, List, [], ◌∷◌,
}
use yc_libvhost_server.Memlog.{Memlog}
use yc_libvhost_server.Vdev.Counters.{num}
use yc_libvhost_server.Vdev.Lifecycle.{vhost_reply, vhost_ack}
use yc_libvhost_server.Vdev.Messages.{
  InflightInfo, Msg, Host, inflight_size, log_size, Outcome, fail, has_fds, finish_in_all,
}
use yc_libvhost_server.Vdev.Messages.Features.{update_shadow_vq_memlog}
use yc_libvhost_server.Vdev.Types.{log_base_complete, inflight_desc, Vdev, close_fd}

-- Of an old log vdev.c frees the structure only, which the mapping outlives.
abbrev pub use_memlog : Host → Vdev → Option Memlog → Outcome
use_memlog env d none = fail efault d
use_memlog env d (some memlog) =
    finish_in_all env log_base_complete
      (update_shadow_vq_memlog (record d { old_memlog = d.memlog; memlog = some memlog }))

abbrev pub set_log_from : Host → Msg → List ℕ → Vdev → Outcome
set_log_from env msg [] d = fail einval d
set_log_from env msg (fd ∷ []) d =
    if ltb msg.size log_size then fail einval d else use_memlog env d (env.memlog msg.body.log fd)
set_log_from env msg (fd ∷ other ∷ fds) d = fail einval d

unfoldable pub set_log_base : Host → Msg → Vdev → Outcome
set_log_base env msg d = set_log_from env msg msg.fds d

-- vring_inflight_buf_size: a header and a descriptor for each entry, of 16 bytes each.
unfoldable pub inflight_buf_size : ℕ → ℕ
inflight_buf_size num = 16 + num * 16

abbrev pub mul64 : ℕ → ℕ → ℕ
mul64 a b = a * b % 2 ^ 64

-- The regions of the vrings in memory that is mapped at `buf`.
abbrev pub place_regions : ℕ → ℕ → ℕ → Vdev → Vdev
place_regions buf region_size num d = record d {
  vring = λ i.
      if ltb i (min num d.num_queues)
      then record (d.vring i) {
        vq = record ((d.vring i).vq) { inflight_region = some (buf + i * region_size) };
      }
      else d.vring i;
}

-- inflight_mmap_region; the memory that was mapped before is unmapped first. An error of mmap
-- leaves the device without it.
abbrev pub map_regions : ℕ → ℕ → Vdev → Result ℕ → Vdev × Option Errno
map_regions region_size num d (err e) = (record d { inflight_mem = none }, some e)
map_regions region_size num d (ok buf) = (
  record (place_regions buf region_size num d) {
    inflight_mem = some buf;
    inflight_size = mul64 region_size num;
  },
  none,
)

unfoldable pub inflight_mmap_region : Host → ℕ → ℕ → ℕ → Vdev → Vdev × Option Errno
inflight_mmap_region env fd region_size num d =
    map_regions region_size num d (env.mmap fd (mul64 region_size num))

-- The new memory is filled by inflight_mem_init, and its descriptor is sent and closed.
abbrev pub reply_inflight : Host → ℕ → Vdev × Option Errno → Outcome
reply_inflight env fd (d, some e) = fail e (close_fd (some fd) d)
reply_inflight env fd (d, none) =
    let out = vhost_reply env.sent (inflight_desc d.inflight_size fd) d in
    some (close_fd (some fd) out.0, out.1)

abbrev pub fill_inflight : Host → InflightInfo → ℕ → Vdev → Option Errno → Outcome
fill_inflight env info fd d (some e) = fail e (close_fd (some fd) d)
fill_inflight env info fd d none =
    reply_inflight env fd
      (inflight_mmap_region env fd (inflight_buf_size info.queue_size) info.num_queues d)

abbrev pub create_inflight : Host → InflightInfo → Vdev → Result ℕ → Outcome
create_inflight env info d (err e) = fail e d
create_inflight env info d (ok fd) =
    fill_inflight env info fd d
      (env.truncate (mul64 (inflight_buf_size info.queue_size) info.num_queues))

unfoldable pub get_inflight_fd : Host → Msg → Vdev → Outcome
get_inflight_fd env msg d =
    if has_fds msg || ltb msg.size inflight_size
    then fail einval d
    else if ltb 0 d.num_vrings_in_flight
    then fail eisconn d
    else create_inflight env msg.body.inflight_desc d env.memfd

abbrev pub ack_unless : Host → Vdev × Option Errno → Outcome
ack_unless env (d, some e) = fail e d
ack_unless env (d, none) = some (vhost_ack env.sent 0 d)

abbrev pub set_inflight_from : Host → Msg → List ℕ → Vdev → Outcome
set_inflight_from env msg [] d = fail einval d
set_inflight_from env msg (fd ∷ []) d =
    let info = msg.body.inflight_desc in
    let region_size = inflight_buf_size info.queue_size in
    if ltb msg.size inflight_size
    then fail einval d
    else if ltb 0 d.num_vrings_in_flight
    then fail eisconn d
    else if not (info.mmap_offset == 0)
    then fail einval d
    else if not (info.mmap_size == mul64 region_size info.num_queues)
    then fail einval d
    else ack_unless env (inflight_mmap_region env fd region_size info.num_queues d)
set_inflight_from env msg (fd ∷ other ∷ fds) d = fail einval d

unfoldable pub set_inflight_fd : Host → Msg → Vdev → Outcome
set_inflight_fd env msg d = set_inflight_from env msg msg.fds d

-- inflight_mem_init: what the regions hold, by their number; the rest of the memory is zero.
pub record InflightHead : Type 0 where
  pub version : ℕ
  pub desc_num : ℕ

pub inflight_mem_init : ℕ → ℕ → List InflightHead
inflight_mem_init zero queue_size = []
inflight_mem_init (suc num_queues) queue_size =
    record { version = 1; desc_num = queue_size } ∷ inflight_mem_init num_queues queue_size
