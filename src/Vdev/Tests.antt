-- ===== src/Vdev/Tests.antt =====
-- The theorems about vdev.c at concrete inputs.
use yc_libvhost_server.Base.{
  ltb, ◌==◌, if◌then◌else◌, if-elim, eio, ok, ℕ, ◌+◌, ◌^◌, ◌≡◌, refl, true, false, none, some, List,
  [], arith,
}
use yc_libvhost_server.Memmap.Host.{Os}
use yc_libvhost_server.Vdev.Callbacks.{drained_bh}
use yc_libvhost_server.Vdev.Callings.{Call}
use yc_libvhost_server.Vdev.Counters.{key, IsSound, total, IsCounted}
use yc_libvhost_server.Vdev.Faults.{cleanup-dangles, late_answer-stays, unsent_answer-aborts}
use yc_libvhost_server.Vdev.Handling.{vhost_handle_msg-IsCounted}
use yc_libvhost_server.Vdev.Lifecycle.{vdev_in_use, vdev_cleanup, mark_msg_handled}
use yc_libvhost_server.Vdev.Messages.{Msg, Host}
use yc_libvhost_server.Vdev.Messages.Counted.{Holds}
use yc_libvhost_server.Vdev.Session.{vhost_handle_msg, fresh_vring, init_server}
use yc_libvhost_server.Vdev.Stuck.{run_calls}
use yc_libvhost_server.Vdev.Types.{Vring, vring_kick_complete, Vdev}

abbrev linux : Os
linux = record {
  reserve = λ len. if ltb len (2 ^ 48) then some 0x4000_0000 else none;
  fix_file = λ addr len fd offset. true;
  fix_anonymous = λ addr len. true;
  errno = 12;
  fstat = λ fd. some (1, 7);
  run_map_cb = λ cb addr len. none;
  run_unmap_cb = λ cb addr len. none;
}

abbrev host : Host
host = record {
  os = linux;
  sent = none;
  dup = λ fd. ok (fd + 100);
  memlog = λ log fd. none;
  memfd = ok 30;
  truncate = λ size. none;
  mmap = λ fd size. ok 0x5000_0000;
  device_features = 2 ^ 32;
  config = λ offset size. [];
}

fresh_vring-IsSound : IsSound (key fresh_vring)
fresh_vring-IsSound = record {
  one_phase = refl;
  one_stop = omega arith;
  one_message = omega arith;
  buffered = refl;
}

-- A server of two vrings.
abbrev new_device : Vdev
new_device = init_server 2 1 0 0 (record { g_regions = []; next_id = 0; calls = [] })

new_device-IsCounted : IsCounted new_device
unfolding total init_server
new_device-IsCounted = record {
  few = omega arith;
  sound = λ i b. fresh_vring-IsSound;
  started = refl;
  flying = refl;
  handling = refl;
}

-- A vring that is started and is to take over a change.
abbrev changed_vring : Vring
changed_vring = record fresh_vring {
  started_in_ctl = true;
  flight = record (fresh_vring.flight) { started_in_rq = true };
  vq = record (fresh_vring.vq) { has_buffers = true };
  syncs = 1;
}

-- Vring 0 of a device is, in answer to VHOST_USER_SET_VRING_KICK.
abbrev changing : Vdev
changing = record new_device {
  conn_handler = some false;
  connfd = some 9;
  req = 12;
  ack_pending = true;
  handle_complete = some vring_kick_complete;
  num_vrings_in_flight = 1;
  num_vrings_started = 1;
  num_vrings_handling_msg = 1;
  vring = λ i. if i == 0 then changed_vring else fresh_vring;
}

-- SET_VRING_NUM of vring 1 to 128.
abbrev set_num : Msg
set_num = record {
  req = 8;
  flags = 1;
  size = 8;
  fds = [];
  body = record {
    u64 = 0;
    config = record { offset = 0; size = 0 };
    nregions = 0;
    regions = [];
    region = record { guest_addr = 0; size = 0; user_addr = 0; mmap_offset = 0 };
    vring_state = record { index = 1; num = 128 };
    vring_addr = record {
      index = 0;
      flags = 0;
      desc_addr = 0;
      used_addr = 0;
      avail_addr = 0;
      used_gpa_base = 0;
    };
    inflight_desc = record { mmap_size = 0; mmap_offset = 0; num_queues = 0; queue_size = 0 };
    log = record { size = 0; offset = 0 };
  };
}

vhost_handle_msg-IsCounted_example : Holds IsCounted (vhost_handle_msg host set_num new_device)
unfolding init_server
vhost_handle_msg-IsCounted_example =
    vhost_handle_msg-IsCounted host set_num new_device
      (record { counted = new_device-IsCounted; settled = refl; rested = λ i off. refl })

-- The server was stopped while the device handled a message.
abbrev stopping : Vdev
stopping = record changing { conn_handler = none; num_vrings_in_flight = 0; num_vrings_started = 0 }

late_answer-stays_example :
    (d' : Vdev) × (mark_msg_handled linux none stopping ≡ some d')
    × (vdev_in_use d' ≡ false)
    × (d'.connfd ≡ some 9)
    × (d'.released ≡ false)
unfolding init_server
late_answer-stays_example =
    late_answer-stays linux vring_kick_complete stopping refl refl refl refl refl refl

unsent_answer-aborts_example :
    (d' : Vdev) × (mark_msg_handled linux (some eio) changing ≡ some d')
    × ((calls : List Call) (last : Vdev)
        → run_calls linux d' calls ≡ some last
        → (vdev_in_use last ≡ true)
          × (last.req ≡ 12)
          × (last.num_vrings_in_flight ≡ 1
              → last.num_vrings_started ≡ 0
              → (i : ℕ) → drained_bh linux none i last ≡ none))
unfolding init_server
unsent_answer-aborts_example =
    unsent_answer-aborts linux eio vring_kick_complete changing refl refl refl refl
      (λ j. if-elim {A = Vring} (λ v. v.on_drain_cb ≡ false) (j == 0) (λ _. refl) (λ _. refl))
      (omega arith) (omega arith)

-- The client has set up inflight memory, and started nothing.
abbrev with_inflight : Vdev
with_inflight = record new_device {
  inflight_mem = some 0x5000_0000;
  vring = λ i. record fresh_vring {
    vq = record (fresh_vring.vq) { inflight_region = some 0x5000_0000 };
  };
}

cleanup-dangles_example :
    (d' : Vdev) × (vdev_cleanup linux with_inflight ≡ some d')
    × (d'.inflight_mem ≡ none)
    × ((d'.vring 1).vq.inflight_region ≡ some 0x5000_0000)
unfolding init_server
cleanup-dangles_example = cleanup-dangles linux with_inflight 1 refl
