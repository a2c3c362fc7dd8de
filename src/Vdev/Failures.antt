-- ===== src/Vdev/Failures.antt =====
-- The last callbacks of a vring in vdev.c: vring_mark_drained_bh and vring_start_failed_bh.
use yc_libvhost_server.Base.{
  ◌==◌, if◌then◌else◌, Bool-cases, if-elim, sub16, Errno, ◌>>=◌, ℕ, ◌-◌, ◌<◌, ◌≡◌, refl, sym, ap,
  ◌∙◌, inl, inr, Bool, true, false, Option, none, some, arith,
}
use yc_libvhost_server.Memmap.Host.{Os}
use yc_libvhost_server.Vdev.Callbacks.{mark_drained, drained_bh, start_failed_bh}
use yc_libvhost_server.Vdev.Controls.{
  IsAnswered, IsQuiet, Shares-fields, on_vring-Shares, tell_stopped-elim,
}
use yc_libvhost_server.Vdev.Counters.{
  num, Key, key, started_of, flying_of, handling_of, IsCounted, put_self, total-part, Shares,
  Shares-refl, Shares-trans, IsCounted-Shares, IsCounted-put,
}
use yc_libvhost_server.Vdev.Drains.{drained_vring, drained_out, mark_drained-some}
use yc_libvhost_server.Vdev.Lifecycle.{
  vhost_ack, ack_eio, complete, vdev_in_use, vdev_drained, tell_stopped, vdev_maybe_finished,
  disconnect_on_error, complete_or_fault, mark_msg_handled, mark_stopped,
}
use yc_libvhost_server.Vdev.Marks.{few_started, few_handling, few_flying}
use yc_libvhost_server.Vdev.Types.{
  Vring, vring_kick_fail_complete, Vdev, set_vring, on_vring, close_fd,
}

is_on : (b : Bool) → 0 < num b → b ≡ true
is_on true h = refl
is_on false h = absurd (omega arith)

-- Whenever vring_mark_drained_bh runs, the vring is started as the control event loop sees it, it
-- has buffers to release and the counter of vrings in flight is not 0; and the counters agree with
-- the vrings afterwards, given that the host sends the answer that waits for it.
pub drained_bh-IsCounted :
    (os : Os) (i : ℕ) (d : Vdev)
    → IsCounted d
    → i < d.num_queues
    → 0 < (d.vring i).flight.drained
    → IsAnswered d
    → (d' : Vdev) × (drained_bh os none i d ≡ some d') × IsCounted d'
drained_bh-IsCounted os i d c b there answered =
    let one = c.sound i b in
    let on : (d.vring i).started_in_ctl ≡ true =
      is_on (d.vring i).started_in_ctl (omega (arith, one.one_phase)) in
    let (d', e, s) =
      mark_drained-some os i noted (ap (λ w. w.started_in_ctl) (put_self d.vring i less) ∙ on)
        (ap (λ w. w.vq.has_buffers) (put_self d.vring i less) ∙ one.buffered ∙ on)
        (omega (arith, c.flying, total-part flying_of d.num_queues i d.vring b, ap num on))
        (λ k h.
          let q = answered k h in
          record {
            no_req = q.no_req;
            no_old_memmap = q.no_old_memmap;
            no_old_memlog = q.no_old_memlog;
            no_keep_fd = q.no_keep_fd;
          }) in
    (
      d',
      e,
      IsCounted-Shares counted_out d' (Shares-trans counted_out (drained_out i noted) d' same s) (
          IsCounted-put d i v _ (sub16 d.num_vrings_in_flight 1) _ c b
            (record {
              one_phase = omega (arith, one.one_phase, ap num on);
              one_stop = one.one_stop;
              one_message = one.one_message;
              buffered = refl;
            })
            refl
            (omega (
              arith,
              ap num on,
              few_flying d i c b,
              c.flying,
              total-part flying_of d.num_queues i d.vring b,
            ))
            refl),
    )
  where
    less : Vring
    less = record (d.vring i) {
      flight = record ((d.vring i).flight) { drained = (d.vring i).flight.drained - 1 };
    }

    noted : Vdev
    noted = set_vring i less d

    v : Vring
    v = drained_vring less

    counted_out : Vdev
    counted_out = record (set_vring i v d) { num_vrings_in_flight = sub16 d.num_vrings_in_flight 1 }

    keys :
        (j : ℕ) (b : Bool)
        → key (if b then drained_vring (noted.vring i) else if b then less else d.vring j)
          ≡ key (if b then v else d.vring j)
    keys j true = ap (λ w. key (drained_vring w)) (put_self d.vring i less)
    keys j false = refl

    same : Shares counted_out (drained_out i noted)
    same = record {
      keys = λ j. keys j (j == i);
      queues = refl;
      started = refl;
      flying = refl;
      handling = refl;
    }

-- A device with vrings in flight is not finished.
busy_goes_on :
    (os : Os) (d : Vdev)
    → 0 < d.num_vrings_in_flight
    → vdev_maybe_finished os d ≡ some (tell_stopped d)
unfolding vdev_maybe_finished
busy_goes_on os d there =
    ap (λ b. if b then some (tell_stopped d) else vdev_drained os (tell_stopped d))
      (tell_stopped-elim (λ t. vdev_in_use t ≡ true) d (ground arith) (ground arith))

tell_stopped-Shares :
    (d : Vdev) → IsAnswered d → Shares d (tell_stopped d) × IsAnswered (tell_stopped d)
tell_stopped-Shares d answered =
    tell_stopped-elim (λ t. Shares d t × IsAnswered t) d (Shares-refl d, answered)
      (
        Shares-fields d _ refl refl refl refl refl,
        λ k h.
            let q = answered k h in
            record {
              no_req = q.no_req;
              no_old_memmap = q.no_old_memmap;
              no_old_memlog = q.no_old_memlog;
              no_keep_fd = q.no_keep_fd;
            },
      )

mark_stopped-busy :
    (os : Os) (i : ℕ) (d : Vdev)
    → 0 < d.num_vrings_started
    → 0 < d.num_vrings_in_flight
    → IsAnswered d
    → (d' : Vdev) × (mark_stopped os i d ≡ some d')
      × Shares (record d { num_vrings_started = sub16 d.num_vrings_started 1 }) d'
      × IsAnswered d'
unfolding mark_stopped
mark_stopped-busy os i d there flying answered =
    let base = record d { num_vrings_started = sub16 d.num_vrings_started 1 } in
    let closed = close_fd (d.vring i).kickfd base in
    let less = on_vring (λ v. record v { kickfd = none }) i closed in
    let same : Shares base less =
      Shares-trans base closed less (Shares-fields base closed refl refl refl refl refl)
        (on_vring-Shares (λ v. record v { kickfd = none }) i closed refl) in
    let counted : (d.num_vrings_started == 0) ≡ false = ground arith in
    let (s, a) = tell_stopped-Shares less (λ k h.
      let q = answered k h in
      record {
        no_req = q.no_req;
        no_old_memmap = q.no_old_memmap;
        no_old_memlog = q.no_old_memlog;
        no_keep_fd = q.no_keep_fd;
      }) in
    (
      tell_stopped less,
      ap (λ x. if x then none else vdev_maybe_finished os less) counted
          ∙ busy_goes_on os less flying,
      Shares-trans base less (tell_stopped less) same s,
      a,
    )

-- A message of which a vring failed to start: it keeps no map, log or descriptor for its end.
pub record KeepsNothing (d : Vdev) : Type 0 where
  pub no_old_memmap : d.old_memmap ≡ none
  pub no_old_memlog : d.old_memlog ≡ none
  pub no_keep_fd : d.keep_fd ≡ none

-- The end of a message of which nothing is kept.
failed-handled :
    (os : Os) (d : Vdev)
    → 0 < d.num_vrings_handling_msg
    → d.handle_complete ≡ some vring_kick_fail_complete
    → KeepsNothing d
    → (d' : Vdev) × (mark_msg_handled os none d ≡ some d')
      × Shares (record d { num_vrings_handling_msg = sub16 d.num_vrings_handling_msg 1 }) d'
      × IsAnswered d'
unfolding mark_msg_handled complete_or_fault complete
failed-handled os d there awaits kept =
    let less = record d { num_vrings_handling_msg = sub16 d.num_vrings_handling_msg 1 } in
    let out = vhost_ack none ack_eio less in
    let done = record (out.0) { handle_complete = none } in
    let counted : (d.num_vrings_handling_msg == 0) ≡ false = ground arith in
    let last = complete_or_fault os none d.handle_complete less in
    let start : mark_msg_handled os none d
        ≡ (if less.num_vrings_handling_msg == 0 then last else some less) =
      ap (λ x. if x then none else if less.num_vrings_handling_msg == 0 then last else some less)
        counted in
    elim (Bool-cases (less.num_vrings_handling_msg == 0)) [
      | inl y ↦ (
        done,
        start
            ∙ ap (λ x. if x then last else some less) y
            ∙ ap (λ h. complete_or_fault os none h less) awaits
            ∙ ap (λ r. disconnect_on_error os (done, r)) (acked less),
        (ended less (record {
          no_old_memmap = kept.no_old_memmap;
          no_old_memlog = kept.no_old_memlog;
          no_keep_fd = kept.no_keep_fd;
        })).0,
        λ k h.
            (ended less (record {
              no_old_memmap = kept.no_old_memmap;
              no_old_memlog = kept.no_old_memlog;
              no_keep_fd = kept.no_keep_fd;
            })).1,
      )
      | inr n ↦ (
        less,
        start ∙ ap (λ x. if x then last else some less) n,
        Shares-refl less,
        λ k h. absurd (ground arith),
      )
    ]
  where
    acked : (less : Vdev) → (vhost_ack none ack_eio less).1 ≡ none
    acked less =
        if-elim {A = Vdev × Option Errno} (λ out. out.1 ≡ none) less.ack_pending (λ _. refl)
          (λ _. refl)

    ended :
        (less : Vdev)
        → KeepsNothing less
        → Shares less (record ((vhost_ack none ack_eio less).0) { handle_complete = none })
          × IsQuiet (record ((vhost_ack none ack_eio less).0) { handle_complete = none })
    ended less k =
        if-elim {A = Vdev × Option Errno}
          (λ out.
            Shares less (record (out.0) { handle_complete = none })
            × IsQuiet (record (out.0) { handle_complete = none }))
          less.ack_pending
          (λ _. (
            Shares-fields less _ refl refl refl refl refl,
            record {
              no_req = refl;
              no_old_memmap = k.no_old_memmap;
              no_old_memlog = k.no_old_memlog;
              no_keep_fd = k.no_keep_fd;
            },
          ))
          (λ _. (
            Shares-fields less _ refl refl refl refl refl,
            record {
              no_req = refl;
              no_old_memmap = k.no_old_memmap;
              no_old_memlog = k.no_old_memlog;
              no_keep_fd = k.no_keep_fd;
            },
          ))

-- Whenever vring_start_failed_bh runs, during a VHOST_USER_SET_VRING_KICK message, which keeps
-- nothing for its end, and the host sends the answer, none of the three counters that it takes the
-- vring out of is 0, the vring has buffers to release, and the counters agree with the vrings
-- afterwards.
pub start_failed_bh-IsCounted :
    (os : Os) (i : ℕ) (d : Vdev)
    → IsCounted d
    → i < d.num_queues
    → 0 < (d.vring i).failed
    → KeepsNothing d
    → (d' : Vdev) × (start_failed_bh os none i d ≡ some d') × IsCounted d'
unfolding start_failed_bh
start_failed_bh-IsCounted os i d c b there kept =
    let one = c.sound i b in
    let on : (d.vring i).started_in_ctl ≡ true =
      is_on (d.vring i).started_in_ctl (omega (arith, one.one_phase)) in
    let started : 0 < d.num_vrings_started =
      omega (arith, c.started, total-part started_of d.num_queues i d.vring b) in
    let flying : 0 < d.num_vrings_in_flight =
      omega (arith, c.flying, total-part flying_of d.num_queues i d.vring b, ap num on) in
    let handling : 0 < d.num_vrings_handling_msg =
      omega (arith, c.handling, total-part handling_of d.num_queues i d.vring b) in
    let (d1, e1, s1, a1) = failed-handled os noted handling refl (record {
      no_old_memmap = kept.no_old_memmap;
      no_old_memlog = kept.no_old_memlog;
      no_keep_fd = kept.no_keep_fd;
    }) in
    let (d2, e2, s2, a2) =
      mark_stopped-busy os i d1 (omega (arith, s1.started, started))
        (omega (arith, s1.flying, flying)) a1 in
    let same : (j : ℕ) → key (d2.vring j) ≡ key (noted.vring j) = λ j. s2.keys j ∙ s1.keys j in
    let at_i : key (d2.vring i) ≡ key less = same i ∙ ap key (put_self d.vring i less) in
    let (d3, e3, s3) =
      mark_drained-some os i d2 (ap (λ k. k.in_ctl) at_i ∙ on)
        (ap (λ k. k.buffers) at_i ∙ one.buffered ∙ on) (omega (arith, s2.flying, s1.flying, flying))
        a2 in
    (
      d3,
      ap (λ o. o >>= (λ x. mark_stopped os i x >>= (λ y. mark_drained os none i y))) e1
          ∙ ap (λ o. o >>= (λ y. mark_drained os none i y)) e2
          ∙ e3,
      IsCounted-Shares counted_out d3
          (Shares-trans counted_out (drained_out i d2) d3
            (record {
              keys = λ j. keys d2 same at_i j (j == i) refl;
              queues = s2.queues ∙ s1.queues;
              started = s2.started ∙ ap (λ n. sub16 n 1) s1.started;
              flying = ap (λ n. sub16 n 1) (s2.flying ∙ s1.flying);
              handling = s2.handling ∙ s1.handling;
            })
            s3)
          (IsCounted-put d i v (sub16 d.num_vrings_started 1) (sub16 d.num_vrings_in_flight 1)
            (sub16 d.num_vrings_handling_msg 1) c b
            (record {
              one_phase = omega (arith, one.one_phase, ap num on);
              one_stop = omega (arith, one.one_stop);
              one_message = omega (arith, one.one_message);
              buffered = refl;
            })
            (omega (arith, started, few_started d i c b))
            (omega (arith, ap num on, flying, few_flying d i c b))
            (omega (arith, handling, few_handling d i c b))),
    )
  where
    less : Vring
    less = record (d.vring i) { failed = (d.vring i).failed - 1 }

    noted : Vdev
    noted = record (set_vring i less d) { handle_complete = some vring_kick_fail_complete }

    v : Vring
    v = drained_vring less

    counted_out : Vdev
    counted_out = record (set_vring i v d) {
      num_vrings_started = sub16 d.num_vrings_started 1;
      num_vrings_in_flight = sub16 d.num_vrings_in_flight 1;
      num_vrings_handling_msg = sub16 d.num_vrings_handling_msg 1;
    }

    keys :
        (d2 : Vdev)
        → ((j : ℕ) → key (d2.vring j) ≡ key (noted.vring j))
        → key (d2.vring i) ≡ key less
        → (j : ℕ) (b : Bool) → b ≡ (j == i)
        → key (if b then drained_vring (d2.vring i) else d2.vring j)
          ≡ key (if b then v else d.vring j)
    keys d2 same at_i j true e =
        ap {A = Key} (λ k. record k { in_ctl = false; buffers = false }) at_i
    keys d2 same at_i j false e = same j ∙ ap (λ x. key (if x then less else d.vring j)) (sym e)
