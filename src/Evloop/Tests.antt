-- ===== src/Evloop/Tests.antt =====
-- The theorems about event.c at concrete inputs.
use yc_libvhost_server.Base.{
  Errno, ℕ, ◌≤◌, ◌<◌, ◌≡◌, refl, Bool, true, false, Option, none, some, List, [], ◌∷◌, ◌++◌, arith,
}
use yc_libvhost_server.Evloop.{
  user, IoHandlers, Loop, no_flags, notify_accept, bh_schedule, terminate_event_loop, bh_poll,
}
use yc_libvhost_server.Evloop.Ending.{terminate_event_loop-ends}
use yc_libvhost_server.Evloop.Handlers.{del_io_handler, Event}
use yc_libvhost_server.Evloop.Linked.{is_pending, IsLinked, bh_enqueue-IsLinked}
use yc_libvhost_server.Evloop.Polled.{IsWellBehaved, is_runnable}
use yc_libvhost_server.Evloop.Rounds.{runnable, bh_poll-calls}
use yc_libvhost_server.Evloop.Wakeup.{
  Reach, here, next, Wake, inserts, exchanges, writes, created, bh_wakes_loop, asleep,
  next_iteration, stale_wakeup,
}
use yc_libvhost_server.Server.Sums.{sum, occurrences}

abbrev quiet_loop : Loop
quiet_loop = record {
  notified = false;
  eventfd = 0;
  is_terminated = false;
  bh_list = [];
  bh = λ id. record { cb = user 0; flags = no_flags; freed = false };
  next_bh = 1;
  calls = [];
  io = record {
    handler = λ h. record { fd = 4; attached = true; freed = false };
    next_handler = 2;
    num_events_attached = 2;
    deleted_handlers = [];
    reads = [];
  };
}

-- A loop whose bottom half 0 was scheduled.
abbrev loop_with_bh : Loop
loop_with_bh = bh_schedule 0 quiet_loop

abbrev does_nothing : ℕ → Loop → Loop
does_nothing k loop = loop

does_nothing-IsWellBehaved : IsWellBehaved does_nothing
does_nothing-IsWellBehaved = record {
  keeps = λ k local loop l. l;
  same_bh = λ k local loop a l h. refl;
  leaves_dead = λ k local loop a l known idle dead. idle;
  same_calls = λ k loop. refl;
  same_end = λ k loop. refl;
}

quiet_loop-IsLinked : IsLinked [] quiet_loop
unfolding sum
quiet_loop-IsLinked = record {
  once = λ a. refl;
  alive = λ a h. refl;
  allocated = λ a h. refl;
  announced = λ h. absurd (omega arith);
  signalled = λ e. cc;
}

loop_with_bh-IsLinked : IsLinked [] loop_with_bh
loop_with_bh-IsLinked =
    bh_enqueue-IsLinked 0 (record no_flags { scheduled = true }) [] quiet_loop refl (omega arith)
      quiet_loop-IsLinked

bh_poll-calls_example :
    IsLinked [] (bh_poll does_nothing (notify_accept loop_with_bh))
    × ((bh_poll does_nothing (notify_accept loop_with_bh)).calls
        ≡ [] ++ runnable loop_with_bh.bh loop_with_bh.bh_list)
    × ((a : ℕ) → occurrences a (runnable loop_with_bh.bh loop_with_bh.bh_list) ≤ 1)
    × ((a : ℕ)
        → is_pending loop_with_bh a ≡ true
        → is_runnable (loop_with_bh.bh a).flags ≡ true
        → occurrences a (runnable loop_with_bh.bh loop_with_bh.bh_list) ≡ 1)
bh_poll-calls_example =
    bh_poll-calls does_nothing loop_with_bh does_nothing-IsWellBehaved loop_with_bh-IsLinked

terminate_event_loop-ends_example :
    (0 < (terminate_event_loop loop_with_bh).eventfd)
    × ((bh_poll does_nothing (notify_accept (terminate_event_loop loop_with_bh))).is_terminated
        ≡ true)
    × IsLinked [] (bh_poll does_nothing (notify_accept (terminate_event_loop loop_with_bh)))
terminate_event_loop-ends_example =
    terminate_event_loop-ends does_nothing loop_with_bh does_nothing-IsWellBehaved
      loop_with_bh-IsLinked

-- One thread has put a bottom half on the list and written the eventfd.
abbrev scheduled : Wake
scheduled = record created { notified = true; eventfd = 1; linked_bhs = 1 }

created-scheduled : Reach created scheduled
created-scheduled =
    next (next (next here (inserts _)) (exchanges _ (omega arith))) (writes _ (omega arith))

bh_wakes_loop_example : 0 < scheduled.eventfd
bh_wakes_loop_example = bh_wakes_loop scheduled created-scheduled refl refl refl (omega arith)

stale_wakeup_example :
    Reach (asleep 0 1 0) (asleep 1 1 0) × Reach (next_iteration (asleep 1 1 0)) (asleep 1 1 0)
stale_wakeup_example = stale_wakeup 0 1 0

-- What is read deletes handler 1, unless an assertion fails.
abbrev deleted_from : Loop → Option (IoHandlers × Option Errno) → Loop
deleted_from loop none = loop
deleted_from loop (some out) = record loop { io = out.0 }

abbrev deleting : ℕ → Loop → Loop × Bool
deleting h loop = (deleted_from loop (del_io_handler none 1 loop.io), false)

-- Both have an event.
abbrev both_ready : List Event
both_ready =
    record { ptr = some 0; is_readable = true } ∷ record { ptr = some 1; is_readable = true } ∷ []
