-- ===== src/Vdev/Lifecycle.antt =====
-- How vrings start, take over changes, stop and drain, in the control event loop and in their
-- request queue: the first half of vdev.c. A callback that is handed to the other event loop is
-- counted until it runs, in whatever order. `none` where an assertion fails.
use mathlib.Core.Option
use yc_libvhost_server.Base.{
  ltb, ◌==◌, if◌then◌else◌, is_some, add16, sub16, Errno, ℕ, zero, suc, ◌-◌, ◌^◌, Bool, true, false,
  ◌||◌, not, Option, none, some, ◌∷◌,
}
use yc_libvhost_server.Memmap.Cache.{Store}
use yc_libvhost_server.Memmap.Host.{Os}
use yc_libvhost_server.Memmap.Region.{Memmap}
use yc_libvhost_server.Memmap.Slots.{memmap_unref}
use yc_libvhost_server.Vdev.Types.{
  Vring, Completion, features_complete, mem_table_complete, vring_kick_complete,
  vring_kick_fail_complete, vring_call_complete, vring_err_complete, vring_addr_complete,
  log_base_complete, vring_enable_complete, Payload, u64, vring_state, Vdev, on_vring, on_vrings,
  close_fd, empty_shadow,
}

-- `sent` is the answer of the host when the device sends: an error, if it had one.
abbrev pub handle_finish : Vdev → Vdev
handle_finish d = record d {
  timer_attached = false;
  ack_pending = false;
  req = 0;
  conn_handler = Option.map (λ attached. true) d.conn_handler;
}

abbrev pub vhost_reply : Option Errno → Payload → Vdev → Vdev × Option Errno
vhost_reply none payload d =
    (handle_finish (record d { replies = (d.req, payload) ∷ d.replies }), none)
vhost_reply (some e) payload d = (d, some e)

-- The value of an acknowledgement is 0 or an errno as a 64-bit word.
abbrev pub vhost_ack : Option Errno → ℕ → Vdev → Vdev × Option Errno
vhost_ack sent value d =
    if d.ack_pending then vhost_reply sent (u64 value) d else (handle_finish d, none)

abbrev pub send_vring_base : Option Errno → ℕ → Vdev → Vdev × Option Errno
send_vring_base sent i d = vhost_reply sent (vring_state i (d.vring i).vq.last_avail) d

-- The value of -EIO.
abbrev pub ack_eio : ℕ
ack_eio = 2 ^ 64 - 5

-- The references of a map are given back.
abbrev pub unref_if : Os → Option Memmap → Store → Store
unref_if os none st = st
unref_if os (some mm) st = (memmap_unref os st mm).0

abbrev pub drop_memmap : Os → Option Memmap → Vdev → Vdev
drop_memmap os mm d = record d { store = unref_if os mm d.store }

-- The device drops its own reference only: those of the requests in flight are not in the store.
abbrev pub drop_old_memmap : Os → Vdev → Vdev
drop_old_memmap os d = record (drop_memmap os d.old_memmap d) { old_memmap = none }

abbrev pub close_kept : Vdev → Vdev
close_kept d = record (close_fd d.keep_fd d) { keep_fd = none }

-- A call of `handle_complete`.
unfoldable pub complete : Os → Option Errno → Completion → Vdev → Vdev × Option Errno
complete os sent features_complete d = vhost_ack sent 0 d
complete os sent mem_table_complete d = vhost_ack sent 0 (drop_old_memmap os d)
complete os sent vring_kick_complete d = vhost_ack sent 0 d
complete os sent vring_kick_fail_complete d = vhost_ack sent ack_eio d
complete os sent vring_call_complete d = vhost_ack sent 0 (close_kept d)
complete os sent vring_err_complete d = vhost_ack sent 0 (close_kept d)
complete os sent vring_addr_complete d = vhost_ack sent 0 d
complete os sent log_base_complete d = vhost_reply sent (u64 0) (record d { old_memlog = none })
complete os sent vring_enable_complete d = vhost_ack sent 0 d

-- What vring_handle_msg hands to the request queue of a vring that is started.
abbrev pub ask_sync : Vring → Vring
ask_sync v = if v.started_in_ctl then record v { syncs = suc v.syncs } else v

abbrev pub ask_start : Vring → Vring
ask_start v = if v.started_in_ctl then record v { starts = suc v.starts } else v

abbrev pub handle_msg : (Vring → Vring) → ℕ → Vdev → Vdev
handle_msg ask i d =
    if (d.vring i).started_in_ctl
    then record (on_vring ask i d) { num_vrings_handling_msg = add16 d.num_vrings_handling_msg 1 }
    else d

-- The loop over the vrings below `n`.
unfoldable pub handle_msg_all : ℕ → Vdev → Vdev
handle_msg_all zero d = d
handle_msg_all (suc n) d = handle_msg ask_sync n (handle_msg_all n d)

abbrev pub vdev_in_use : Vdev → Bool
vdev_in_use d =
    ltb 0 d.num_vrings_in_flight
    || ltb 0 d.num_vrings_handling_msg
    || ltb 0 d.num_vrings_started
    || is_some d.conn_handler

-- vring_reset, less the descriptors that it closes.
abbrev pub vring_reset : Vring → Vring
vring_reset v = record v {
  callfd = none;
  kickfd = none;
  errfd = none;
  shadow = empty_shadow;
  flight = record (v.flight) { num_in_flight_at_stop = 0 };
  disconnecting = false;
}

abbrev pub close_vring : Vring → Vdev → Vdev
close_vring v d = close_fd v.errfd (close_fd v.kickfd (close_fd v.callfd d))

unfoldable pub reset_vrings : ℕ → Vdev → Vdev
reset_vrings zero d = d
reset_vrings (suc n) d =
    let d' = reset_vrings n d in on_vring vring_reset n (close_vring (d.vring n) d')

-- The assertions of vdev_cleanup fail.
abbrev pub is_unfinished : Vdev → Bool
is_unfinished d =
    ltb 0 d.num_vrings_handling_msg
    || not (d.req == 0)
    || is_some d.old_memmap
    || is_some d.old_memlog
    || is_some d.keep_fd

-- The closing of the timer's descriptor is not recorded.
abbrev pub cleaned : Os → Vdev → Vdev
cleaned os e = close_fd e.connfd (record (drop_memmap os e.memmap e) {
  inflight_mem = none;
  memmap = none;
  memlog = none;
  timer_attached = false;
  connfd = none;
})

-- vdev_cleanup
abbrev pub vdev_cleanup : Os → Vdev → Option Vdev
vdev_cleanup os d =
    if is_unfinished d then none else some (cleaned os (reset_vrings d.num_queues d))

abbrev pub listen_or_release : Vdev → Vdev
listen_or_release d =
    if is_some d.listen_handler
    then record d { listen_handler = some true }
    else record d { released = true }

-- vdev_drained: a device that is shut down is released, the others listen again.
abbrev pub vdev_drained : Os → Vdev → Option Vdev
vdev_drained os d = Option.map listen_or_release (vdev_cleanup os d)

-- vdev_complete_work
abbrev pub complete_work : ℕ → Vdev → Vdev
complete_work result d =
    if d.queued_work
    then record d { queued_work = false; finished_work = result ∷ d.finished_work }
    else d

abbrev pub vdev_vrings_stopped : Vdev → Vdev
vdev_vrings_stopped d = if is_some d.listen_handler then d else complete_work 0 d

abbrev pub tell_stopped : Vdev → Vdev
tell_stopped d = if d.num_vrings_started == 0 then vdev_vrings_stopped d else d

unfoldable pub vdev_maybe_finished : Os → Vdev → Option Vdev
vdev_maybe_finished os d =
    let drained = vdev_drained os (tell_stopped d) in
    if vdev_in_use (tell_stopped d) then some (tell_stopped d) else drained

abbrev pub vring_disconnect : Vring → Vring
vring_disconnect v =
    if v.started_in_ctl then record v { disconnecting = true; stops = suc v.stops } else v

unfoldable pub vdev_disconnect : Os → Vdev → Option Vdev
vdev_disconnect os d =
    let gone =
      vdev_maybe_finished os (on_vrings vring_disconnect (record d { conn_handler = none })) in
    if is_some d.conn_handler then gone else some d

-- The end of a call of `handle_complete` or of `on_drain_cb`.
abbrev pub disconnect_on_error : Os → Vdev × Option Errno → Option Vdev
disconnect_on_error os (d, none) = some d
disconnect_on_error os (d, some e) = vdev_disconnect os d

unfoldable pub complete_or_fault : Os → Option Errno → Option Completion → Vdev → Option Vdev
complete_or_fault os sent none d = none
complete_or_fault os sent (some c) d =
    disconnect_on_error os
      ((record ((complete os sent c d).0) { handle_complete = none }), (complete os sent c d).1)

-- vring_mark_msg_handled
unfoldable pub mark_msg_handled : Os → Option Errno → Vdev → Option Vdev
mark_msg_handled os sent d =
    let d' = record d { num_vrings_handling_msg = sub16 d.num_vrings_handling_msg 1 } in
    let last = complete_or_fault os sent d'.handle_complete d' in
    if d.num_vrings_handling_msg == 0
    then none
    else if d'.num_vrings_handling_msg == 0
    then last
    else some d'

-- vring_mark_stopped
unfoldable pub mark_stopped : Os → ℕ → Vdev → Option Vdev
mark_stopped os i d =
    let d' = on_vring (λ v. record v { kickfd = none }) i (close_fd (d.vring i).kickfd d) in
    if d.num_vrings_started == 0
    then none
    else vdev_maybe_finished os (record d' { num_vrings_started = sub16 d.num_vrings_started 1 })
