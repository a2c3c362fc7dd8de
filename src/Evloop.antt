-- ===== src/Evloop.antt =====
-- Event loops: event.c and event.h. A bottom half or a handler is known by a number. What a
-- callback does to the loop that runs it, and what the host answers, are parameters.
mod Tests
pub mod Handlers
pub mod Wakeup
pub mod Linked
pub mod Polled
pub mod Rounds
pub mod Ending
use yc_libvhost_server.Base.{
  if◌then◌else◌, ℕ, suc, Bool, true, false, ◌&&◌, ◌||◌, not, Option, none, some, List, [], ◌∷◌,
  ◌++◌,
}
use yc_libvhost_server.Server.{put}

-- What a bottom half runs: evloop_stop_bh, or a function of the loop's user.
pub data Callback : Type 0 where
  stop : Callback
  user : ℕ → Callback

-- The bits BH_PENDING, BH_SCHEDULED, BH_DELETED and BH_ONESHOT.
pub record BhFlags : Type 0 where
  pub pending : Bool
  pub scheduled : Bool
  pub deleted : Bool
  pub oneshot : Bool

-- `struct vhd_bh`; `freed` tells that its memory went back.
pub record Bh : Type 0 where
  pub cb : Callback
  pub flags : BhFlags
  pub freed : Bool

-- `struct vhd_io_handler`; `freed` tells that its memory went back.
pub record Handler : Type 0 where
  pub fd : ℕ
  pub attached : Bool
  pub freed : Bool

-- The handlers of `struct vhd_event_loop`. `next_handler` is the number of the next allocation, and
-- `reads` lists the calls of `read` functions.
pub record IoHandlers : Type 0 where
  pub handler : ℕ → Handler
  pub next_handler : ℕ
  pub num_events_attached : ℕ
  pub deleted_handlers : List ℕ
  pub reads : List ℕ

-- `struct vhd_event_loop`. `eventfd` is the counter behind `notifyfd`,
-- `next_bh` the number of the next allocation, and `calls` lists what was called.
pub record Loop : Type 0 where
  pub notified : Bool
  pub eventfd : ℕ
  pub is_terminated : Bool
  pub bh_list : List ℕ
  pub bh : ℕ → Bh
  pub next_bh : ℕ
  pub calls : List ℕ
  pub io : IoHandlers

abbrev pub no_flags : BhFlags
no_flags = record { pending = false; scheduled = false; deleted = false; oneshot = false }

abbrev pub fetch_or : BhFlags → BhFlags → BhFlags
fetch_or a b = record {
  pending = a.pending || b.pending;
  scheduled = a.scheduled || b.scheduled;
  deleted = a.deleted || b.deleted;
  oneshot = a.oneshot || b.oneshot;
}

abbrev pub evloop_notify : Loop → Loop
evloop_notify loop =
    if loop.notified then loop else record loop { notified = true; eventfd = suc loop.eventfd }

abbrev pub notify_accept : Loop → Loop
notify_accept loop = if loop.notified then record loop { eventfd = 0; notified = false } else loop

abbrev pub set_flags : ℕ → BhFlags → Loop → Loop
set_flags id flags loop = record loop {
  bh = put id (record (loop.bh id) { flags = flags }) loop.bh;
}

abbrev pub bh_enqueue : ℕ → BhFlags → Loop → Loop
bh_enqueue id new_flags loop =
    let old_flags = (loop.bh id).flags in
    let marked = set_flags id (fetch_or old_flags (record new_flags { pending = true })) loop in
    evloop_notify
      (if old_flags.pending then marked else record marked { bh_list = id ∷ loop.bh_list })

abbrev pub bh_new : Callback → Loop → Loop × ℕ
bh_new cb loop = (
  record loop {
    bh = put loop.next_bh (record { cb = cb; flags = no_flags; freed = false }) loop.bh;
    next_bh = suc loop.next_bh;
  },
  loop.next_bh,
)

abbrev pub bh_schedule_oneshot : Callback → Loop → Loop
bh_schedule_oneshot cb loop =
    bh_enqueue (bh_new cb loop).1 (record no_flags { scheduled = true; oneshot = true })
      (bh_new cb loop).0

abbrev pub bh_schedule : ℕ → Loop → Loop
bh_schedule id loop = bh_enqueue id (record no_flags { scheduled = true }) loop

abbrev pub bh_cancel : ℕ → Loop → Loop
bh_cancel id loop = set_flags id (record ((loop.bh id).flags) { scheduled = false }) loop

abbrev pub bh_delete : ℕ → Loop → Loop
bh_delete id loop = bh_enqueue id (record no_flags { deleted = true }) loop

-- The flags of a bottom half that bh_dequeue unlinks; they are read before they are cleared.
abbrev pub bh_dequeue : ℕ → Loop → Loop × BhFlags
bh_dequeue id loop =
    let flags = (loop.bh id).flags in
    (set_flags id (record flags { pending = false; scheduled = false }) loop, flags)

abbrev pub free_bh : ℕ → Loop → Loop
free_bh id loop = record loop { bh = put id (record (loop.bh id) { freed = true }) loop.bh }

abbrev pub terminate_event_loop : Loop → Loop
terminate_event_loop = bh_schedule_oneshot stop

-- `user_cb` is what the user's functions do to the loop.
module _ (user_cb : ℕ → Loop → Loop) where
  pub run_callback : Callback → Loop → Loop
  run_callback stop loop = record loop { is_terminated = true }
  run_callback (user k) loop = user_cb k loop

  abbrev pub bh_call : ℕ → Loop → Loop
  bh_call id loop = run_callback (loop.bh id).cb (record loop { calls = loop.calls ++ id ∷ [] })

  -- One round of the loop of bh_poll.
  abbrev pub poll_one : ℕ → Loop → Loop
  poll_one id loop =
      let flags = (bh_dequeue id loop).1 in
      let taken = (bh_dequeue id loop).0 in
      let called = if flags.scheduled && not flags.deleted then bh_call id taken else taken in
      if flags.deleted || flags.oneshot then free_bh id called else called

  unfoldable pub poll_rounds : List ℕ → Loop → Loop
  poll_rounds [] loop = loop
  poll_rounds (id ∷ ids) loop = poll_rounds ids (poll_one id loop)

  abbrev pub bh_poll : Loop → Loop
  bh_poll loop = poll_rounds loop.bh_list (record loop { bh_list = [] })

-- bh_cleanup; `none` where its assertion fails.
pub bh_cleanup : List ℕ → Loop → Option Loop
bh_cleanup [] loop = some (record loop { bh_list = [] })
bh_cleanup (id ∷ ids) loop =
    let rest = bh_cleanup ids (free_bh id (bh_dequeue id loop).0) in
    if (loop.bh id).flags.deleted then rest else none
