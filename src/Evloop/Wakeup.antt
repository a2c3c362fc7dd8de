-- ===== src/Evloop/Wakeup.antt =====
-- The wake-up of an event loop, in the atomic steps of event.c: bh_enqueue and evloop_notify of
-- the threads that schedule, and vhd_run_event_loop, notify_accept and bh_poll of the loop.
use mathlib.Core.Path.{subst}
use yc_libvhost_server.Base.{
  if◌then◌else◌, ℕ, suc, ◌+◌, ◌-◌, ◌<◌, ◌≡◌, refl, ◌≢◌, Bool, true, false, arith,
}

-- Where the loop's own thread is.
pub data Pc : Type 0 where
  in_epoll woken saw_notified cleared accepted : Pc

-- `linked_bhs` is the length of the list. `inserted` counts the threads between the insertion and
-- the exchange of `notified`, `writing` those between the exchange and the write of the eventfd.
pub record Wake : Type 0 where
  pub notified : Bool
  pub eventfd : ℕ
  pub linked_bhs : ℕ
  pub inserted : ℕ
  pub writing : ℕ
  pub pc : Pc

pub data Step : Wake → Wake → Type 0 where
  -- SLIST_INSERT_HEAD_ATOMIC
  inserts :
      (w : Wake) → Step w (record w { linked_bhs = suc w.linked_bhs; inserted = suc w.inserted })
  -- catomic_xchg(&evloop->notified, true)
  exchanges :
      (w : Wake)
      → 0 < w.inserted
      → Step w (record w {
        inserted = w.inserted - 1;
        writing = if w.notified then w.writing else suc w.writing;
        notified = true;
      })
  -- vhd_set_eventfd
  writes :
      (w : Wake)
      → 0 < w.writing
      → Step w (record w { writing = w.writing - 1; eventfd = suc w.eventfd })
  -- epoll_wait returns, because of the eventfd or of another event
  wakes : (w : Wake) → w.pc ≡ in_epoll → Step w (record w { pc = woken })
  -- catomic_read(&evloop->notified)
  reads :
      (w : Wake)
      → w.pc ≡ woken
      → Step w (record w { pc = if w.notified then saw_notified else accepted })
  -- vhd_clear_eventfd
  clears : (w : Wake) → w.pc ≡ saw_notified → Step w (record w { eventfd = 0; pc = cleared })
  -- catomic_xchg(&evloop->notified, false)
  resets : (w : Wake) → w.pc ≡ cleared → Step w (record w { notified = false; pc = accepted })
  -- SLIST_MOVE_ATOMIC, and the rounds of bh_poll up to the next call of epoll_wait
  polls : (w : Wake) → w.pc ≡ accepted → Step w (record w { linked_bhs = 0; pc = in_epoll })

pub data Reach (w : Wake) : Wake → Type 0 where
  here : Reach w w
  next : {mid last : Wake} → Reach w mid → Step mid last → Reach w last

-- An event loop that was just created.
abbrev pub created : Wake
created = record {
  notified = false;
  eventfd = 0;
  linked_bhs = 0;
  inserted = 0;
  writing = 0;
  pc = in_epoll;
}

record IsAwake (w : Wake) : Type 0 where
  signalled : w.notified ≡ true → w.pc ≢ cleared → 0 < w.eventfd + w.writing
  announced : 0 < w.linked_bhs → w.inserted ≡ 0 → w.pc ≢ accepted → w.notified ≡ true

Step-IsAwake : {w w' : Wake} → Step w w' → IsAwake w → IsAwake w'
Step-IsAwake (inserts w) a = record { signalled = a.signalled; announced = ground arith }
Step-IsAwake (exchanges w h) a = record { signalled = ground arith; announced = ground arith }
Step-IsAwake (writes w h) a = record { signalled = ground arith; announced = a.announced }
Step-IsAwake (wakes w e) a = record { signalled = ground arith; announced = ground arith }
Step-IsAwake (reads w e) a = record { signalled = ground arith; announced = ground arith }
Step-IsAwake (clears w e) a = record { signalled = ground arith; announced = ground arith }
Step-IsAwake (resets w e) a = record { signalled = ground arith; announced = ground arith }
Step-IsAwake (polls w e) a = record { signalled = ground arith; announced = ground arith }

Reach-IsAwake : {w w' : Wake} → IsAwake w → Reach w w' → IsAwake w'
Reach-IsAwake a here = a
Reach-IsAwake a (next r s) = Step-IsAwake s (Reach-IsAwake a r)

-- No wake-up is lost: however the threads interleave, when a bottom half is on the list, no thread
-- is in the middle of scheduling and the loop is in epoll_wait, then the eventfd is readable, so
-- that epoll_wait returns.
pub bh_wakes_loop :
    (w : Wake)
    → Reach created w
    → w.inserted ≡ 0
    → w.writing ≡ 0
    → w.pc ≡ in_epoll
    → 0 < w.linked_bhs
    → 0 < w.eventfd
bh_wakes_loop w r i x p l =
    let a = Reach-IsAwake (record { signalled = ground arith; announced = ground arith }) r in
    ground (arith, a.signalled, a.announced)

-- An event loop that sleeps and was not notified.
abbrev pub asleep : ℕ → ℕ → ℕ → Wake
asleep eventfd inserted writing = record {
  notified = false;
  eventfd = eventfd;
  linked_bhs = 0;
  inserted = inserted;
  writing = writing;
  pc = in_epoll;
}

-- epoll_wait has returned.
abbrev pub next_iteration : Wake → Wake
next_iteration w = record w { pc = woken }

-- A thread that is between the exchange and the write of the eventfd while the loop accepts the
-- notification leaves the eventfd readable with `notified` clear and nothing on the list,
-- whatever other threads are doing; an iteration of the loop then changes nothing, so without a
-- further notification epoll_wait returns at once, over and over.
pub stale_wakeup :
    (eventfd inserted writing : ℕ)
    → Reach (asleep eventfd inserted writing) (asleep 1 inserted writing)
      × Reach (next_iteration (asleep 1 inserted writing)) (asleep 1 inserted writing)
stale_wakeup eventfd inserted writing = (
  subst (λ i. Reach start (asleep 1 i writing)) (pred inserted)
      (subst (λ k. Reach start (asleep 1 (suc inserted - 1) k)) (pred writing) raced),
  next (next here (reads _ refl)) (polls _ refl),
)
  where
    start : Wake
    start = asleep eventfd inserted writing

    pred : (n : ℕ) → suc n - 1 ≡ n
    pred n = omega arith

    taken : Reach start (record start {
      inserted = suc inserted - 1;
      writing = suc writing;
      notified = true;
      linked_bhs = 1;
    })
    taken = next (next here (inserts _)) (exchanges _ (omega arith))

    raced : Reach start (asleep 1 (suc inserted - 1) (suc writing - 1))
    raced =
        next
          (next
            (next (next (next (next taken (wakes _ refl)) (reads _ refl)) (clears _ refl))
              (resets _ refl))
            (polls _ refl))
          (writes _ (omega arith))
