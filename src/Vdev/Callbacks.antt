-- ===== src/Vdev/Callbacks.antt =====
-- The callbacks of vdev.c that one event loop hands to the other, each with the count of those
-- that wait to run. `none` where an assertion fails.
use yc_libvhost_server.Base.{
  ◌==◌, if◌then◌else◌, sub16, Errno, ◌>>=◌, ℕ, zero, suc, ◌-◌, Bool, true, false, ◌&&◌, ◌||◌, not,
  Option, none, some,
}
use yc_libvhost_server.Memmap.Host.{Os}
use yc_libvhost_server.Vdev.Flight.{Flight, dec_in_flight}
use yc_libvhost_server.Vdev.Lifecycle.{
  send_vring_base, vdev_maybe_finished, disconnect_on_error, mark_msg_handled, mark_stopped,
}
use yc_libvhost_server.Vdev.Types.{Vring, vring_kick_fail_complete, Vdev, on_vring, empty_vq}

-- virtio_virtq_release, with its assertion.
abbrev pub release_vq : ℕ → Vdev → Option Vdev
release_vq i d =
    if (d.vring i).vq.has_buffers
    then some (on_vring (λ v. record v { vq = empty_vq }) i d)
    else none

-- `on_drain_cb` is vhost_send_vring_base wherever it is set.
abbrev pub call_on_drain : Os → Option Errno → ℕ → Vdev → Option Vdev
call_on_drain os sent i d =
    let called = disconnect_on_error os (
      (on_vring (λ v. record v { on_drain_cb = false }) i (send_vring_base sent i d).0),
      (send_vring_base sent i d).1,
    ) in
    if (d.vring i).on_drain_cb then called else some d

abbrev pub count_drained : Os → Vdev → Option Vdev
count_drained os d =
    let rest =
      vdev_maybe_finished os (record d { num_vrings_in_flight = sub16 d.num_vrings_in_flight 1 }) in
    if d.num_vrings_in_flight == 0 then none else rest

-- vring_mark_drained
unfoldable pub mark_drained : Os → Option Errno → ℕ → Vdev → Option Vdev
mark_drained os sent i d =
    let rest = (do
      d' ← call_on_drain os sent i (on_vring (λ v. record v { started_in_ctl = false }) i d)
      d'' ← release_vq i d'
      count_drained os d'') in
    if (d.vring i).started_in_ctl then rest else none

-- The callbacks of the control event loop.
abbrev pub msg_handled_bh : Os → Option Errno → ℕ → Vdev → Option Vdev
msg_handled_bh os sent i d =
    mark_msg_handled os sent (on_vring (λ v. record v { handled = v.handled - 1 }) i d)

abbrev pub stopped_bh : Os → ℕ → Vdev → Option Vdev
stopped_bh os i d = mark_stopped os i (on_vring (λ v. record v { stopped = v.stopped - 1 }) i d)

abbrev pub drained_bh : Os → Option Errno → ℕ → Vdev → Option Vdev
drained_bh os sent i d =
    mark_drained os sent i (
      on_vring (λ v. record v { flight = record (v.flight) { drained = v.flight.drained - 1 } }) i
        d)

unfoldable pub start_failed_bh : Os → Option Errno → ℕ → Vdev → Option Vdev
start_failed_bh os sent i d = do
  d' ← mark_msg_handled os sent (record (on_vring (λ v. record v { failed = v.failed - 1 }) i d) {
    handle_complete = some vring_kick_fail_complete;
  })
  d'' ← mark_stopped os i d'
  mark_drained os sent i d''

-- vring_sync_to_virtq. The kick eventfd is written, to wake the vring, if `should_kick`.
abbrev pub sync_to_virtq : Vring → Vring
sync_to_virtq v = record v {
  vq = record (v.vq) {
    flags = v.shadow.flags;
    desc = v.shadow.desc;
    used = v.shadow.used;
    avail = v.shadow.avail;
    used_gpa_base = v.shadow.used_gpa_base;
    mm = v.shadow.mm;
    log = v.shadow.log;
    enabled = v.shadow.enabled;
    notify_fd = v.callfd;
  };
}

abbrev pub should_kick : Vring → Bool
should_kick v = not v.vq.enabled && v.shadow.enabled

-- vring_sync_to_virtq_bh, in the request queue.
abbrev pub sync_bh : Vring → Vring
sync_bh v = let v' = sync_to_virtq v in record v' { syncs = v.syncs - 1; handled = suc v.handled }

-- vring_start_bh, by whether the vring is started and whether it is not to start.
abbrev pub start_as : (started refused : Bool) → Vring → Option Vring
start_as true refused v = none
start_as false true v = some (record v { starts = v.starts - 1; failed = suc v.failed })
start_as false false v =
    let w = sync_to_virtq v in
    some (record w {
      has_kick_handler = true;
      flight = record (w.flight) { started_in_rq = true };
      starts = w.starts - 1;
      handled = suc w.handled;
    })

-- `attached` tells whether the handler of the kick descriptor was attached.
abbrev pub start_bh : Bool → Vring → Option Vring
start_bh attached v = start_as v.flight.started_in_rq (v.disconnecting || not attached) v

-- vhd_cancel_queued_requests completes the requests of the vring that wait in the queue, of which
-- there are `n`.
unfoldable pub cancel_requests : ℕ → Flight → Flight
cancel_requests zero f = f
cancel_requests (suc n) f = cancel_requests n (dec_in_flight f)

-- vring_stop_bh; `queued` is the number of requests of the vring that wait in the queue.
unfoldable pub stop_bh : ℕ → Vring → Vring
stop_bh queued v = stop (record v { stops = v.stops - 1 })
  where
    stopped_at : Flight → Flight
    stopped_at f = record f {
      started_in_rq = false;
      num_in_flight_at_stop = f.num_in_flight;
      drained = if f.num_in_flight == 0 then suc f.drained else f.drained;
    }

    stop : Vring → Vring
    stop w =
        if w.flight.started_in_rq
        then record w {
          has_kick_handler = false;
          stopped = suc w.stopped;
          flight =
              stopped_at (if w.disconnecting then cancel_requests queued w.flight else w.flight);
        }
        else w
