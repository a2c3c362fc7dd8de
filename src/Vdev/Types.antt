-- ===== src/Vdev/Types.antt =====
-- The device and its vrings: the structures of vdev.h.
use yc_libvhost_server.Base.{ltb, if◌then◌else◌, ℕ, Bool, false, Option, none, some, List, ◌∷◌}
use yc_libvhost_server.Memlog.{Memlog}
use yc_libvhost_server.Memmap.Cache.{Store}
use yc_libvhost_server.Memmap.Region.{Memmap}
use yc_libvhost_server.Server.{put}
use yc_libvhost_server.Vdev.Flight.{Flight}

-- `shadow_vq` of `struct vhd_vring`: what the control event loop hands to the dataplane.
pub record Shadow : Type 0 where
  pub desc_addr : ℕ
  pub used_addr : ℕ
  pub avail_addr : ℕ
  pub flags : ℕ
  pub used_gpa_base : ℕ
  pub desc : Option ℕ
  pub used : Option ℕ
  pub avail : Option ℕ
  pub mm : Option Memmap
  pub log : Option Memlog
  pub enabled : Bool

-- The fields of `struct virtio_virtq` that vdev.c sets. `has_buffers` tells that `buffers` is
-- allocated, `inflight_region` is an address, and the other fields are those of Virtq.Types.
pub record Vq : Type 0 where
  pub flags : ℕ
  pub desc : Option ℕ
  pub used : Option ℕ
  pub avail : Option ℕ
  pub used_gpa_base : ℕ
  pub qsz : ℕ
  pub last_avail : ℕ
  pub mm : Option Memmap
  pub log : Option Memlog
  pub enabled : Bool
  pub has_event_idx : Bool
  pub notify_fd : Option ℕ
  pub inflight_region : Option ℕ
  pub has_buffers : Bool

-- `struct vhd_vring`. The last six fields count the callbacks that were handed to an event loop
-- and have not run: vring_start_bh, vring_stop_bh and vring_sync_to_virtq_bh in the request queue,
-- vring_mark_msg_handled_bh, vring_mark_stopped_bh and vring_start_failed_bh in the control loop.
-- Those of vring_mark_drained_bh are counted in `flight`.
pub record Vring : Type 0 where
  pub kickfd : Option ℕ
  pub callfd : Option ℕ
  pub errfd : Option ℕ
  pub started_in_ctl : Bool
  pub disconnecting : Bool
  pub has_kick_handler : Bool
  pub on_drain_cb : Bool
  pub shadow : Shadow
  pub vq : Vq
  pub flight : Flight
  pub starts : ℕ
  pub stops : ℕ
  pub syncs : ℕ
  pub handled : ℕ
  pub stopped : ℕ
  pub failed : ℕ

-- The functions that `handle_complete` points to.
pub data Completion : Type 0 where
  features_complete mem_table_complete vring_kick_complete vring_kick_fail_complete : Completion
  vring_call_complete vring_err_complete vring_addr_complete log_base_complete : Completion
  vring_enable_complete : Completion

-- What a reply carries: a word, the index and the number of a vring, the offset, the size and the
-- bytes of a config space, or the size and the descriptor of inflight memory.
pub data Payload : Type 0 where
  u64 : ℕ → Payload
  vring_state : ℕ → ℕ → Payload
  config_space : ℕ → ℕ → List ℕ → Payload
  inflight_desc : ℕ → ℕ → Payload

-- `struct vhd_vdev`. The handlers of the listening socket and of the connection are none if they
-- do not exist, and otherwise tell whether they are attached. `queued_work` tells that `work` is
-- set and `finished_work` lists the results that were posted. `replies` is what was sent, with
-- the request that each reply answers, `closed` the descriptors that were closed, and `released`
-- tells that vhd_vdev_release has freed the device.
pub record Vdev : Type 0 where
  pub listen_handler : Option Bool
  pub conn_handler : Option Bool
  pub connfd : Option ℕ
  pub timer_attached : Bool
  pub req : ℕ
  pub ack_pending : Bool
  pub supported_protocol_features : ℕ
  pub negotiated_protocol_features : ℕ
  pub supported_features : ℕ
  pub negotiated_features : ℕ
  pub num_rqs : ℕ
  pub num_queues : ℕ
  pub map_cb : ℕ
  pub unmap_cb : ℕ
  pub vring : ℕ → Vring
  pub store : Store
  pub memmap : Option Memmap
  pub old_memmap : Option Memmap
  pub memlog : Option Memlog
  pub old_memlog : Option Memlog
  pub inflight_mem : Option ℕ
  pub inflight_size : ℕ
  pub num_vrings_in_flight : ℕ
  pub num_vrings_started : ℕ
  pub num_vrings_handling_msg : ℕ
  pub handle_complete : Option Completion
  pub keep_fd : Option ℕ
  pub queued_work : Bool
  pub finished_work : List ℕ
  pub replies : List (ℕ × Payload)
  pub closed : List ℕ
  pub released : Bool

abbrev pub set_vring : ℕ → Vring → Vdev → Vdev
set_vring i v d = record d { vring = put i v d.vring }

abbrev pub on_vring : (Vring → Vring) → ℕ → Vdev → Vdev
on_vring f i d = set_vring i (f (d.vring i)) d

-- A change of every vring of the device.
abbrev pub on_vrings : (Vring → Vring) → Vdev → Vdev
on_vrings f d = record d { vring = λ i. if ltb i d.num_queues then f (d.vring i) else d.vring i }

abbrev pub closing : Option ℕ → List ℕ → List ℕ
closing none fds = fds
closing (some fd) fds = fd ∷ fds

-- replace_fd: what it closes is the old descriptor.
abbrev pub close_fd : Option ℕ → Vdev → Vdev
close_fd fd d = record d { closed = closing fd d.closed }

abbrev pub empty_shadow : Shadow
empty_shadow = record {
  desc_addr = 0;
  used_addr = 0;
  avail_addr = 0;
  flags = 0;
  used_gpa_base = 0;
  desc = none;
  used = none;
  avail = none;
  mm = none;
  log = none;
  enabled = false;
}

-- A virtqueue of zeroes, as virtio_virtq_release leaves it.
abbrev pub empty_vq : Vq
empty_vq = record {
  flags = 0;
  desc = none;
  used = none;
  avail = none;
  used_gpa_base = 0;
  qsz = 0;
  last_avail = 0;
  mm = none;
  log = none;
  enabled = false;
  has_event_idx = false;
  notify_fd = none;
  inflight_region = none;
  has_buffers = false;
}
