-- ===== src/Vdev/Session.antt =====
-- A session with a client: vhost_handle_msg, conn_read, server_read and the start and stop of a
-- server in vdev.c.
use mathlib.Core.Option
use yc_libvhost_server.Base.{
  ltb, leb, ◌==◌, if◌then◌else◌, is_some, test_bit, Errno, enotsup, emsgsize, eio, Result, ok, err,
  ◌>>=◌, ℕ, ◌+◌, ◌%◌, ◌^◌, Bool, true, false, ◌&&◌, not, Option, none, some, List, [], ◌∷◌, ◌++◌,
}
use yc_libvhost_server.Memmap.Cache.{Store}
use yc_libvhost_server.Memmap.Host.{Os}
use yc_libvhost_server.Vdev.Lifecycle.{handle_finish, vdev_maybe_finished, vdev_disconnect}
use yc_libvhost_server.Vdev.Messages.{Msg, Host, Outcome, fail}
use yc_libvhost_server.Vdev.Messages.Features.{
  get_config, default_protocol_features, get_protocol_features, set_protocol_features, get_features,
  set_features, set_owner, get_queue_num, get_max_mem_slots,
}
use yc_libvhost_server.Vdev.Messages.Memory.{set_mem_table, add_mem_reg, rem_mem_reg}
use yc_libvhost_server.Vdev.Messages.Rings.{
  set_vring_num, set_vring_base, get_vring_base, set_vring_addr, set_vring_call, set_vring_err,
  set_vring_kick, vring_enable,
}
use yc_libvhost_server.Vdev.Messages.Shared.{set_log_base, get_inflight_fd, set_inflight_fd}
use yc_libvhost_server.Vdev.Types.{Vring, Vdev, close_fd, empty_shadow, empty_vq}

-- The table of handlers, by the number of the request in vhost_spec.h.
unfoldable pub vhost_handle_msg : Host → Msg → Vdev → Outcome
vhost_handle_msg env msg d =
    if msg.req == 1
    then get_features env msg d
    else if msg.req == 2
    then set_features env msg d
    else if msg.req == 3
    then set_owner env msg d
    else if msg.req == 5
    then set_mem_table env msg d
    else if msg.req == 6
    then set_log_base env msg d
    else if msg.req == 8
    then set_vring_num env msg d
    else if msg.req == 9
    then set_vring_addr env msg d
    else if msg.req == 10
    then set_vring_base env msg d
    else if msg.req == 11
    then get_vring_base env msg d
    else if msg.req == 12
    then set_vring_kick env msg d
    else if msg.req == 13
    then set_vring_call env msg d
    else if msg.req == 14
    then set_vring_err env msg d
    else if msg.req == 15
    then get_protocol_features env msg d
    else if msg.req == 16
    then set_protocol_features env msg d
    else if msg.req == 17
    then get_queue_num env msg d
    else if msg.req == 18
    then vring_enable env msg d
    else if msg.req == 24
    then get_config env msg d
    else if msg.req == 31
    then get_inflight_fd env msg d
    else if msg.req == 32
    then set_inflight_fd env msg d
    else if msg.req == 36
    then get_max_mem_slots env msg d
    else if msg.req == 37
    then add_mem_reg env msg d
    else if msg.req == 38
    then rem_mem_reg env msg d
    else fail enotsup d

-- VHOST_USER_PROTOCOL_F_REPLY_ACK was negotiated and the message has the flag.
abbrev pub msg_ack_needed : Vdev → ℕ → Bool
msg_ack_needed d flags = test_bit d.negotiated_protocol_features 3 && test_bit flags 3

-- vdev_handle_start
abbrev pub handle_start : ℕ → Bool → Vdev → Vdev
handle_start req ack_pending d = record d {
  conn_handler = Option.map (λ attached. false) d.conn_handler;
  req = req;
  ack_pending = ack_pending;
  timer_attached = true;
}

-- The descriptors that came along are closed whether the handler failed or not.
abbrev pub close_all : List ℕ → Vdev → Vdev
close_all fds d = record d { closed = fds ++ d.closed }

abbrev pub after_handler : Os → List ℕ → Vdev × Option Errno → Option Vdev
after_handler os fds (d, none) = some (close_all fds d)
after_handler os fds (d, some e) = vdev_disconnect os (handle_finish (close_all fds d))

-- conn_read; `none` for the message stands for a failure of net_recv_msg.
unfoldable pub conn_read : Host → Option Msg → Vdev → Option Vdev
conn_read env none d = vdev_disconnect env.os d
conn_read env (some msg) d = do
  out ← vhost_handle_msg env msg (handle_start msg.req (msg_ack_needed d msg.flags) d)
  after_handler env.os msg.fds out

-- What recvmsg and read give for a message: the bytes that were read of the header and of the
-- payload, or an error.
pub record Received : Type 0 where
  pub header : Result ℕ
  pub payload : Result ℕ
  pub size : ℕ

abbrev pub msg_hdr_size : ℕ
msg_hdr_size = 12

-- `sizeof(union vhost_user_msg_payload)`
abbrev pub payload_size : ℕ
payload_size = 272

-- net_recv_msg, which returns the number of bytes, 0 if the peer has closed the connection.
unfoldable pub net_recv_msg : Received → Result ℕ
net_recv_msg r = received r.header
  where
    read_payload : Result ℕ → Result ℕ
    read_payload (err e) = err e
    read_payload (ok n) = if n == r.size then ok (msg_hdr_size + n) else err eio

    received : Result ℕ → Result ℕ
    received (err e) = err e
    received (ok n) =
        if n == 0
        then ok 0
        else if not (n == msg_hdr_size)
        then err eio
        else if ltb payload_size r.size
        then err emsgsize
        else read_payload r.payload

-- server_read, with what the host answers to accept4, timerfd_create and the two epoll_ctl;
-- `none` where the assertion fails that no client is connected.
unfoldable pub server_read : Result ℕ → Bool → Result ℕ → Bool → Vdev → Option Vdev
server_read client conn_ok timer timer_ok d =
    if is_some d.connfd then none else some (connected client timer)
  where
    connected : Result ℕ → Result ℕ → Vdev
    connected (err e) t = d
    connected (ok connfd) (err e) = close_fd (some connfd) d
    connected (ok connfd) (ok timerfd) =
        if not conn_ok
        then close_fd (some connfd) d
        else if not timer_ok
        then close_fd (some connfd) (close_fd (some timerfd) d)
        else record d {
          listen_handler = some false;
          connfd = some connfd;
          conn_handler = some true;
          negotiated_features = 0;
          negotiated_protocol_features = 0;
        }

-- The checks of vhd_vdev_init_server; the last is false if the socket could not be made.
abbrev pub can_init_server : (max_queues num_rqs : ℕ) → Bool → Bool
can_init_server max_queues num_rqs has_socket =
    leb max_queues 256 && leb 1 num_rqs && leb num_rqs 256 && leb num_rqs max_queues && has_socket

-- vring_idx and vhd_get_rq_for_vring: the number of the request queue of a vring.
unfoldable pub rq_for_vring : Vdev → ℕ → ℕ
rq_for_vring d i = i % 2 ^ 16 % d.num_rqs

abbrev pub fresh_vring : Vring
fresh_vring = record {
  kickfd = none;
  callfd = none;
  errfd = none;
  started_in_ctl = false;
  disconnecting = false;
  has_kick_handler = false;
  on_drain_cb = false;
  shadow = empty_shadow;
  vq = empty_vq;
  flight = record {
    num_in_flight = 0;
    num_in_flight_at_stop = 0;
    started_in_rq = false;
    drained = 0;
  };
  starts = 0;
  stops = 0;
  syncs = 0;
  handled = 0;
  stopped = 0;
  failed = 0;
}

-- The device that vhd_vdev_init_server fills, and that vdev_start makes listen.
unfoldable pub init_server : (max_queues num_rqs map_cb unmap_cb : ℕ) → Store → Vdev
init_server max_queues num_rqs map_cb unmap_cb store = record {
  listen_handler = some true;
  conn_handler = none;
  connfd = none;
  timer_attached = false;
  req = 0;
  ack_pending = false;
  supported_protocol_features = default_protocol_features;
  negotiated_protocol_features = 0;
  supported_features = 0;
  negotiated_features = 0;
  num_rqs = num_rqs;
  num_queues = max_queues % 2 ^ 16;
  map_cb = map_cb;
  unmap_cb = unmap_cb;
  vring = λ i. fresh_vring;
  store = store;
  memmap = none;
  old_memmap = none;
  memlog = none;
  old_memlog = none;
  inflight_mem = none;
  inflight_size = 0;
  num_vrings_in_flight = 0;
  num_vrings_started = 0;
  num_vrings_handling_msg = 0;
  handle_complete = none;
  keep_fd = none;
  queued_work = false;
  finished_work = [];
  replies = [];
  closed = [];
  released = false;
}

-- vdev_work_fn and vdev_stop: the result -EBUSY is posted if other work is queued, and otherwise
-- the device stops to listen and disconnects its client.
unfoldable pub stop_server : Os → Vdev → Option Vdev
stop_server os d =
    let d' = record d { queued_work = true; listen_handler = none } in
    let disconnected = vdev_disconnect os d' in
    let finished = vdev_maybe_finished os d' in
    if d.queued_work
    then some (record d { finished_work = 16 ∷ d.finished_work })
    else if is_some d.conn_handler
    then disconnected
    else finished
