-- ===== src/Vdev/Callings.antt =====
-- The callbacks of vdev.c together: whichever of those that wait runs, no assertion fails.
use yc_libvhost_server.Base.{ℕ, ◌^◌, ◌≤◌, ◌<◌, ◌≡◌, Bool, Option, none, some}
use yc_libvhost_server.Memmap.Host.{Os}
use yc_libvhost_server.Vdev.Callbacks.{
  msg_handled_bh, stopped_bh, drained_bh, start_failed_bh, sync_bh, start_bh, stop_bh,
}
use yc_libvhost_server.Vdev.Controls.{IsAnswered}
use yc_libvhost_server.Vdev.Failures.{KeepsNothing}
use yc_libvhost_server.Vdev.Types.{Vring, Completion, Vdev, set_vring, on_vring}

-- A callback that an event loop may run, with what decides about it: whether the kick handler is
-- attached, how many requests wait in the request queue, or how the message ends.
pub data Call : Type 0 where
  start_call : Bool → ℕ → Call
  sync_call : ℕ → Call
  stop_call : ℕ → ℕ → Call
  handled_call : Completion → ℕ → Call
  stopped_call : ℕ → Call
  drained_call : ℕ → Call
  failed_call : ℕ → Call

-- The callback is among those that wait, and what it finds is what the other parts of the program
-- keep: a vring has fewer than 2^16 requests and those that wait in its queue are some of them, a
-- message that vrings take part in has a completion, a device without a connection that handles no
-- message has finished the last one, and the message during which a vring fails to start is
-- VHOST_USER_SET_VRING_KICK, which keeps no map, log or descriptor for its end.
unfoldable pub Waits : Vdev → Call → Type 0
Waits d (start_call attached i) = (i < d.num_queues) × (0 < (d.vring i).starts)
Waits d (sync_call i) = (i < d.num_queues) × (0 < (d.vring i).syncs)
Waits d (stop_call queued i) =
    (i < d.num_queues)
    × (0 < (d.vring i).stops)
    × (queued ≤ (d.vring i).flight.num_in_flight)
    × ((d.vring i).flight.num_in_flight < 2 ^ 16)
Waits d (handled_call k i) =
    (i < d.num_queues) × (0 < (d.vring i).handled) × (d.handle_complete ≡ some k)
Waits d (stopped_call i) = (i < d.num_queues) × (0 < (d.vring i).stopped) × IsAnswered d
Waits d (drained_call i) = (i < d.num_queues) × (0 < (d.vring i).flight.drained) × IsAnswered d
Waits d (failed_call i) = (i < d.num_queues) × (0 < (d.vring i).failed) × KeepsNothing d

abbrev pub put_if : ℕ → Vdev → Option Vring → Option Vdev
put_if i d none = none
put_if i d (some v) = some (set_vring i v d)

-- `none` where an assertion fails.
unfoldable pub run_call : Os → Vdev → Call → Option Vdev
run_call os d (start_call attached i) = put_if i d (start_bh attached (d.vring i))
run_call os d (sync_call i) = some (on_vring sync_bh i d)
run_call os d (stop_call queued i) = some (on_vring (stop_bh queued) i d)
run_call os d (handled_call k i) = msg_handled_bh os none i d
run_call os d (stopped_call i) = stopped_bh os i d
run_call os d (drained_call i) = drained_bh os none i d
run_call os d (failed_call i) = start_failed_bh os none i d
