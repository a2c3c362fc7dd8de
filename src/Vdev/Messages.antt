-- ===== src/Vdev/Messages.antt =====
-- The messages of vhost_spec.h and what their handlers in vdev.c have in common.
pub mod Features
pub mod Memory
pub mod Rings
pub mod Shared
pub mod Counted
pub mod Sessions
pub mod Tables
pub mod Starts
pub mod Kicks
use yc_libvhost_server.Base.{
  ltb, ◌==◌, if◌then◌else◌, length, test_bit, Errno, einval, Result, ℕ, ◌%◌, ◌^◌, Bool, ◌||◌, not,
  Option, none, some, List,
}
use yc_libvhost_server.Memlog.{Memlog}
use yc_libvhost_server.Memmap.Host.{Os}
use yc_libvhost_server.Vdev.Lifecycle.{complete, handle_msg_all}
use yc_libvhost_server.Vdev.Types.{Completion, Vdev}

-- `struct vhost_user_vring_state`
pub record VringState : Type 0 where
  pub index : ℕ
  pub num : ℕ

-- `struct vhost_user_vring_addr`
pub record VringAddr : Type 0 where
  pub index : ℕ
  pub flags : ℕ
  pub desc_addr : ℕ
  pub used_addr : ℕ
  pub avail_addr : ℕ
  pub used_gpa_base : ℕ

-- `struct vhost_user_mem_region`
pub record MemRegion : Type 0 where
  pub guest_addr : ℕ
  pub size : ℕ
  pub user_addr : ℕ
  pub mmap_offset : ℕ

-- `struct vhost_user_config_space`, less the payload, which no handler reads.
pub record ConfigSpace : Type 0 where
  pub offset : ℕ
  pub size : ℕ

-- `struct vhost_user_inflight_desc`
pub record InflightInfo : Type 0 where
  pub mmap_size : ℕ
  pub mmap_offset : ℕ
  pub num_queues : ℕ
  pub queue_size : ℕ

-- `struct vhost_user_log`
pub record Log : Type 0 where
  pub size : ℕ
  pub offset : ℕ

-- `union vhost_user_msg_payload`: the same bytes, read as each of the members.
pub record Body : Type 0 where
  pub u64 : ℕ
  pub config : ConfigSpace
  pub nregions : ℕ
  pub regions : List MemRegion
  pub region : MemRegion
  pub vring_state : VringState
  pub vring_addr : VringAddr
  pub inflight_desc : InflightInfo
  pub log : Log

-- A message: `hdr.req`, `hdr.flags`, `hdr.size`, the payload and the descriptors that came along.
pub record Msg : Type 0 where
  pub req : ℕ
  pub flags : ℕ
  pub size : ℕ
  pub body : Body
  pub fds : List ℕ

-- What the host answers while a message is handled: whether a reply was sent, the duplicate of a
-- descriptor, the log that vhd_memlog_new maps, and the memory file and the address of
-- memfd_create, ftruncate and mmap. `config` is get_config of the device type.
pub record Host : Type 0 where
  pub os : Os
  pub sent : Option Errno
  pub dup : ℕ → Result ℕ
  pub memlog : Log → ℕ → Option Memlog
  pub memfd : Result ℕ
  pub truncate : ℕ → Option Errno
  pub mmap : ℕ → ℕ → Result ℕ
  pub device_features : ℕ
  pub config : ℕ → ℕ → List ℕ

-- sizeof of the members of the payload, and VHOST_CONFIG_HDR_SIZE.
abbrev pub u64_size : ℕ
u64_size = 8

abbrev pub vring_state_size : ℕ
vring_state_size = 8

abbrev pub vring_addr_size : ℕ
vring_addr_size = 40

abbrev pub single_mem_size : ℕ
single_mem_size = 40

abbrev pub inflight_size : ℕ
inflight_size = 24

abbrev pub log_size : ℕ
log_size = 16

abbrev pub config_hdr_size : ℕ
config_hdr_size = 12

-- `sizeof(struct vhost_user_config_space)`
abbrev pub config_space_size : ℕ
config_space_size = 268

-- What a handler leaves: the device and 0 or an errno, or none where an assertion fails.
abbrev pub Outcome : Type 0
Outcome = Option (Vdev × Option Errno)

abbrev pub fail : Errno → Vdev → Outcome
fail e d = some (d, some e)

abbrev pub has_fds : Msg → Bool
has_fds msg = ltb 0 (length msg.fds)

-- get_vring, whose index is cut to 16 bits.
abbrev pub get_vring : Vdev → ℕ → Option ℕ
get_vring d index = if ltb (index % 2 ^ 16) d.num_queues then some (index % 2 ^ 16) else none

-- msg_u64_get_vring
abbrev pub msg_u64_get_vring : Vdev → Msg → Option ℕ
msg_u64_get_vring d msg =
    let has_fd = if test_bit msg.body.u64 8 then 0 else 1 in
    if ltb msg.size u64_size
    then none
    else if not (length msg.fds == has_fd)
    then none
    else get_vring d (msg.body.u64 % 2 ^ 8)

abbrev pub with_vring : (ℕ → Outcome) → Vdev → Option ℕ → Outcome
with_vring handler d none = fail einval d
with_vring handler d (some i) = handler i

-- A handler that wants a vring state and no descriptor, on the vring that it names.
abbrev pub on_state : (ℕ → Outcome) → Vdev → Msg → Outcome
on_state handler d msg =
    if has_fds msg || ltb msg.size vring_state_size
    then fail einval d
    else elim (get_vring d msg.body.vring_state.index) [ none ↦ fail einval d | some i ↦ handler i ]

-- The message is finished once all vrings have taken the change over, or at once if there are
-- none that could have requests in flight.
abbrev pub finish_in_all : Host → Completion → Vdev → Outcome
finish_in_all env k d =
    if d.num_vrings_in_flight == 0
    then some (complete env.os env.sent k d)
    else some (handle_msg_all d.num_queues (record d { handle_complete = some k }), none)
