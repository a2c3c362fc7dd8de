-- ===== src/Vdev/Messages/Features.antt =====
-- Negotiation of features: vhost_get_features, vhost_set_features and the like in vdev.c.
use yc_libvhost_server.Base.{
  ltb, ◌==◌, if◌then◌else◌, length, test_bit, einval, enotsup, eisconn, ℕ, ◌+◌, ◌-◌, ◌^◌, bit_and,
  bit_or, bit_xor, ◌||◌, not, Option, none, some,
}
use yc_libvhost_server.Memlog.{Memlog}
use yc_libvhost_server.Memmap.Region.{ram_slots_max}
use yc_libvhost_server.Vdev.Lifecycle.{vhost_reply, vhost_ack, complete, handle_msg_all}
use yc_libvhost_server.Vdev.Messages.{
  Msg, Host, u64_size, config_hdr_size, config_space_size, Outcome, fail, has_fds,
}
use yc_libvhost_server.Vdev.Types.{
  Vring, features_complete, Payload, u64, config_space, Vdev, on_vrings,
}

-- `a & ~b`
abbrev pub and_not : ℕ → ℕ → ℕ
and_not a b = a - bit_and a b

-- VHOST_USER_F_PROTOCOL_FEATURES and VHOST_F_LOG_ALL
abbrev pub default_features : ℕ
default_features = 2 ^ 30 + 2 ^ 26

-- MQ, LOG_SHMFD, REPLY_ACK, CONFIG, INFLIGHT_SHMFD and CONFIGURE_MEM_SLOTS
abbrev pub default_protocol_features : ℕ
default_protocol_features = 2 ^ 0 + 2 ^ 1 + 2 ^ 3 + 2 ^ 9 + 2 ^ 12 + 2 ^ 15

abbrev pub get_protocol_features : Host → Msg → Vdev → Outcome
get_protocol_features env msg d =
    if has_fds msg
    then fail einval d
    else some (vhost_reply env.sent (u64 d.supported_protocol_features) d)

unfoldable pub set_protocol_features : Host → Msg → Vdev → Outcome
set_protocol_features env msg d =
    if has_fds msg || ltb msg.size u64_size
    then fail einval d
    else if ltb 0 d.num_vrings_in_flight
    then fail eisconn d
    else if ltb 0 (and_not msg.body.u64 d.supported_protocol_features)
    then fail enotsup d
    else some (vhost_ack env.sent 0 (record d { negotiated_protocol_features = msg.body.u64 }))

abbrev pub get_features : Host → Msg → Vdev → Outcome
get_features env msg d =
    let d' = record d { supported_features = bit_or default_features env.device_features } in
    if has_fds msg
    then fail einval d
    else some (vhost_reply env.sent (u64 d'.supported_features) d')

abbrev pub set_log : Option Memlog → Vring → Vring
set_log log v = record v { shadow = record (v.shadow) { log = log } }

-- What the vrings log to, if anything.
abbrev pub used_log : Vdev → Option Memlog
used_log d = if test_bit d.negotiated_features 26 then d.memlog else none

abbrev pub update_shadow_vq_memlog : Vdev → Vdev
update_shadow_vq_memlog d = on_vrings (set_log (used_log d)) d

-- The change of a vring that is not started.
abbrev pub feature_vring : ℕ → Vring → Vring
feature_vring features v =
    let enabled = not (test_bit features 30) in
    record v {
      vq = record (v.vq) { has_event_idx = test_bit features 29; enabled = enabled };
      shadow = record (v.shadow) { enabled = enabled };
    }

-- Without vrings that could have requests in flight the features may be chosen freely.
abbrev pub choose_features : Host → ℕ → Vdev → Outcome
choose_features env features d = some (
    complete env.os env.sent features_complete
      (on_vrings (feature_vring features) (record d { negotiated_features = features })))

-- Only logging may be toggled in a started device.
abbrev pub toggle_log : ℕ → Vdev → Outcome
toggle_log features d =
    let d' = update_shadow_vq_memlog (record d { negotiated_features = features }) in
    if ltb 0 (and_not (bit_xor d.negotiated_features features) (2 ^ 26))
    then fail eisconn d
    else some
        (handle_msg_all d.num_queues (record d' { handle_complete = some features_complete }), none)

unfoldable pub set_features : Host → Msg → Vdev → Outcome
set_features env msg d =
    if has_fds msg || ltb msg.size u64_size
    then fail einval d
    else if ltb 0 (and_not msg.body.u64 d.supported_features)
    then fail enotsup d
    else if d.num_vrings_in_flight == 0
    then choose_features env msg.body.u64 d
    else toggle_log msg.body.u64 d

abbrev pub set_owner : Host → Msg → Vdev → Outcome
set_owner env msg d = if has_fds msg then fail einval d else some (vhost_ack env.sent 0 d)

abbrev pub get_queue_num : Host → Msg → Vdev → Outcome
get_queue_num env msg d =
    if has_fds msg then fail einval d else some (vhost_reply env.sent (u64 d.num_queues) d)

abbrev pub get_max_mem_slots : Host → Msg → Vdev → Outcome
get_max_mem_slots env msg d =
    if has_fds msg then fail einval d else some (vhost_reply env.sent (u64 ram_slots_max) d)

-- The size of the reply is what the device type returns, and as many bytes are sent as came.
abbrev pub config_reply : Host → Msg → Payload
config_reply env msg =
    let room = msg.size - config_hdr_size in
    let want = if ltb room msg.body.config.size then room else msg.body.config.size in
    let bytes = env.config want msg.body.config.offset in
    config_space msg.body.config.offset (length bytes) bytes

abbrev pub get_config : Host → Msg → Vdev → Outcome
get_config env msg d =
    if has_fds msg || ltb msg.size config_hdr_size || ltb config_space_size msg.size
    then fail einval d
    else some (vhost_reply env.sent (config_reply env msg) d)
