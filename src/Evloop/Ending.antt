-- ===== src/Evloop/Ending.antt =====
-- The end of an event loop: vhd_terminate_event_loop and evloop_stop_bh of event.c.
use yc_libvhost_server.Base.{
  ◌==◌, if◌then◌else◌, ==_iff, Bool-cases, if-elim, length, ℕ, ◌<◌, ◌≡◌, refl, ap, ◌∙◌, inl, inr,
  true, false, ◌||◌, List, [], ◌∷◌, arith,
}
use yc_libvhost_server.Evloop.{
  Callback, stop, user, BhFlags, Bh, Loop, no_flags, fetch_or, evloop_notify, notify_accept,
  bh_enqueue, bh_new, bh_dequeue, terminate_event_loop, run_callback, bh_call, poll_one,
  poll_rounds, bh_poll,
}
use yc_libvhost_server.Evloop.Linked.{
  is_pending, IsLinked, put-elim, pending_put, freed_put, bh_enqueue-IsLinked,
}
use yc_libvhost_server.Evloop.Polled.{IsWellBehaved, is_runnable, poll_one-Visited}
use yc_libvhost_server.Evloop.Rounds.{bh_poll-calls}
use yc_libvhost_server.Server.{put}
use yc_libvhost_server.Server.Sums.{sum, occurrences}

module _ (user_cb : ℕ → Loop → Loop) (wb : IsWellBehaved user_cb) where
  run_callback-ends :
      (cb : Callback) (loop : Loop)
      → loop.is_terminated ≡ true
      → (run_callback user_cb cb loop).is_terminated ≡ true
  unfolding run_callback
  run_callback-ends stop loop t = refl
  run_callback-ends (user k) loop t = wb.same_end k loop ∙ t

  -- The flag stays up.
  poll_one-ends :
      (id : ℕ) (loop : Loop)
      → loop.is_terminated ≡ true
      → (poll_one user_cb id loop).is_terminated ≡ true
  poll_one-ends id loop t =
      if-elim {A = Loop} (λ s. s.is_terminated ≡ true)
        ((loop.bh id).flags.deleted || (loop.bh id).flags.oneshot) (λ _. called_ends)
        (λ _. called_ends)
    where
      called_ends :
          (if is_runnable (loop.bh id).flags
            then bh_call user_cb id (bh_dequeue id loop).0
            else (bh_dequeue id loop).0).is_terminated
          ≡ true
      called_ends =
          if-elim {A = Loop} (λ s. s.is_terminated ≡ true) (is_runnable (loop.bh id).flags)
            (λ _. run_callback-ends ((bh_dequeue id loop).0.bh id).cb _ t) (λ _. t)

  poll_rounds-ended :
      (ids : List ℕ) (loop : Loop)
      → loop.is_terminated ≡ true
      → (poll_rounds user_cb ids loop).is_terminated ≡ true
  unfolding poll_rounds
  poll_rounds-ended [] loop t = t
  poll_rounds-ended (id ∷ ids) loop t = poll_rounds-ended ids _ (poll_one-ends id loop t)

  stop_ends :
      (id : ℕ) (loop : Loop)
      → (loop.bh id).cb ≡ stop
      → is_runnable (loop.bh id).flags ≡ true
      → (poll_one user_cb id loop).is_terminated ≡ true
  unfolding run_callback
  stop_ends id loop c r =
      if-elim {A = Loop} (λ s. s.is_terminated ≡ true)
        ((loop.bh id).flags.deleted || (loop.bh id).flags.oneshot) (λ _. called_ends)
        (λ _. called_ends)
    where
      cb_same : ((bh_dequeue id loop).0.bh id).cb ≡ stop
      cb_same = put-elim (λ b. b.cb ≡ stop) id id _ loop.bh (λ e. c) (λ n. absurd (n refl))

      called_ends :
          (if is_runnable (loop.bh id).flags
            then bh_call user_cb id (bh_dequeue id loop).0
            else (bh_dequeue id loop).0).is_terminated
          ≡ true
      called_ends =
          if-elim {A = Loop} (λ s. s.is_terminated ≡ true) (is_runnable (loop.bh id).flags)
            (λ _. rw cb_same refl) (λ n. cc)

  poll_rounds-ends :
      (ids : List ℕ) (id : ℕ) (loop : Loop)
      → IsLinked ids loop
      → 0 < occurrences id ids
      → (loop.bh id).cb ≡ stop
      → is_runnable (loop.bh id).flags ≡ true
      → (poll_rounds user_cb ids loop).is_terminated ≡ true
  unfolding poll_rounds sum
  poll_rounds-ends [] id loop l listed c r = absurd (omega arith)
  poll_rounds-ends (x ∷ ids) id loop l listed c r = elim (Bool-cases (x == id)) [
    | inl y ↦
        let e = (==_iff x id).0 y in
        poll_rounds-ended ids _ (
          stop_ends x loop (ap (λ k. (loop.bh k).cb) e ∙ c)
            (ap (λ k. is_runnable (loop.bh k).flags) e ∙ r))
    | inr n ↦
        let v = poll_one-Visited user_cb wb x ids loop l in
        let same = v.bh_left id (ground arith) in
        poll_rounds-ends ids id (poll_one user_cb x loop) v.linked (ground arith)
          (ap (λ b. b.cb) same ∙ c) (ap (λ b. is_runnable b.flags) same ∙ r)
  ]

-- An allocated bottom half is not linked.
bh_new-IsLinked : (cb : Callback) (loop : Loop) → IsLinked [] loop → IsLinked [] (bh_new cb loop).0
bh_new-IsLinked cb loop l = record {
  once =
      λ a. ground (arith, l.once a, pending_put loop loop.next_bh a new, l.allocated loop.next_bh);
  alive = λ a h.
      ground
        (arith, l.alive a, pending_put loop loop.next_bh a new, freed_put loop loop.next_bh a new);
  allocated = λ a h. ground (arith, l.allocated a, pending_put loop loop.next_bh a new);
  announced = l.announced;
  signalled = l.signalled;
}
  where
    new : Bh
    new = record { cb = cb; flags = no_flags; freed = false }

-- The bottom half that is enqueued: its callback stays, and it can run unless it was deleted.
enqueued_bh :
    (id : ℕ) (new_flags : BhFlags) (loop : Loop)
    → (bh_enqueue id new_flags loop).bh id ≡ record (loop.bh id) {
      flags = fetch_or (loop.bh id).flags (record new_flags { pending = true });
    }
enqueued_bh id new_flags loop = notified pushed listed
  where
    new : Bh
    new = record (loop.bh id) {
      flags = fetch_or (loop.bh id).flags (record new_flags { pending = true });
    }

    marked : Loop
    marked = record loop { bh = put id new loop.bh }

    pushed : Loop
    pushed =
        if (loop.bh id).flags.pending then marked else record marked { bh_list = id ∷ loop.bh_list }

    hit : put id new loop.bh id ≡ new
    hit = put-elim (λ b. b ≡ new) id id new loop.bh (λ _. refl) (λ n. absurd (n refl))

    listed : pushed.bh id ≡ new
    listed =
        if-elim {A = Loop} (λ s. s.bh id ≡ new) (loop.bh id).flags.pending (λ _. hit) (λ _. hit)

    notified : (s : Loop) → s.bh id ≡ new → (evloop_notify s).bh id ≡ new
    notified s e = if-elim {A = Loop} (λ t. t.bh id ≡ new) s.notified (λ _. e) (λ _. e)

abbrev stop_flags : BhFlags
stop_flags = record no_flags { scheduled = true; oneshot = true }

abbrev enqueued_stop : Bh
enqueued_stop = record { cb = stop; flags = record stop_flags { pending = true }; freed = false }

asked_bh : (loop : Loop) → (terminate_event_loop loop).bh loop.next_bh ≡ enqueued_stop
asked_bh loop =
    enqueued_bh loop.next_bh stop_flags (bh_new stop loop).0
    ∙ ap {A = Bh}
        (λ b. record b { flags = fetch_or b.flags (record stop_flags { pending = true }) }) new_bh
  where
    new : Bh
    new = record { cb = stop; flags = no_flags; freed = false }

    new_bh : (bh_new stop loop).0.bh loop.next_bh ≡ new
    new_bh =
        put-elim (λ b. b ≡ new) loop.next_bh loop.next_bh new loop.bh (λ _. refl)
          (λ n. absurd (n refl))

asked-IsLinked : (loop : Loop) → IsLinked [] loop → IsLinked [] (terminate_event_loop loop)
asked-IsLinked loop l =
    bh_enqueue-IsLinked loop.next_bh stop_flags [] (bh_new stop loop).0
      (put-elim (λ b. b.freed ≡ false) loop.next_bh loop.next_bh _ loop.bh (λ _. refl)
        (λ n. absurd (n refl)))
      (omega arith) (bh_new-IsLinked stop loop l)

some_listed : (xs : List ℕ) (a : ℕ) → 0 < occurrences a xs → 0 < length xs
unfolding sum
some_listed [] a h = absurd (omega arith)
some_listed (x ∷ xs) a h = omega arith

-- A request to terminate makes the eventfd readable, so that the loop wakes, and at its next round
-- of bottom halves the loop is terminated, whatever else is in the list and whatever the other
-- callbacks do, given that they leave alone what waits in this round and what is about to be
-- freed.
pub terminate_event_loop-ends :
    (user_cb : ℕ → Loop → Loop) (loop : Loop)
    → IsWellBehaved user_cb
    → IsLinked [] loop
    → let asked = terminate_event_loop loop in
      (0 < asked.eventfd)
      × ((bh_poll user_cb (notify_accept asked)).is_terminated ≡ true)
      × IsLinked [] (bh_poll user_cb (notify_accept asked))
unfolding sum
terminate_event_loop-ends user_cb loop wb l =
    (l'.signalled notified, ends, (bh_poll-calls user_cb asked wb l').0)
  where
    id : ℕ
    id = loop.next_bh

    asked : Loop
    asked = terminate_event_loop loop

    l' : IsLinked [] asked
    l' = asked-IsLinked loop l

    waits : is_pending asked id ≡ true
    waits = ap (λ b. b.flags.pending) (asked_bh loop)

    listed : 0 < occurrences id asked.bh_list
    listed = ground (arith, l'.once id, waits)

    notified : asked.notified ≡ true
    notified = l'.announced (some_listed asked.bh_list id listed)

    taken-IsLinked :
        IsLinked asked.bh_list (record asked { eventfd = 0; notified = false; bh_list = [] })
    taken-IsLinked = record {
      once = λ a. omega (arith, l'.once a);
      alive = l'.alive;
      allocated = l'.allocated;
      announced = λ h. absurd (omega arith);
      signalled = λ e. cc;
    }

    ends : (bh_poll user_cb (notify_accept asked)).is_terminated ≡ true
    ends =
        if-elim {A = Loop} (λ s. (bh_poll user_cb s).is_terminated ≡ true) asked.notified
          (λ _.
            poll_rounds-ends user_cb wb asked.bh_list id
              (record asked { eventfd = 0; notified = false; bh_list = [] }) taken-IsLinked listed
              (ap (λ b. b.cb) (asked_bh loop)) (ap (λ b. is_runnable b.flags) (asked_bh loop)))
          (λ n. let y = notified in cc)
