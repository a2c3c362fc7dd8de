-- ===== src/Vdev/Stuck.antt =====
-- A device of vdev.c that lost its connection while the answer to a message could not be sent.
use mathlib.Core.Path.{subst}
use mathlib.Core.Option
use yc_libvhost_server.Base.{
  ◌==◌, if◌then◌else◌, if-elim, sub16, Errno, ◌>>=◌, ℕ, suc, ◌-◌, ◌<◌, ◌≡◌, refl, sym, ap, ◌∙◌,
  Bool, true, false, ◌||◌, not, Option, none, some, List, [], ◌∷◌, arith,
}
use yc_libvhost_server.Memmap.Host.{Os}
use yc_libvhost_server.Vdev.Callbacks.{
  release_vq, count_drained, mark_drained, drained_bh, start_failed_bh, sync_to_virtq, sync_bh,
  start_as, stop_bh,
}
use yc_libvhost_server.Vdev.Callings.{
  Call, start_call, sync_call, stop_call, handled_call, stopped_call, drained_call, failed_call,
  put_if, run_call,
}
use yc_libvhost_server.Vdev.Controls.{tell_stopped-elim}
use yc_libvhost_server.Vdev.Lifecycle.{
  send_vring_base, vdev_in_use, reset_vrings, is_unfinished, cleaned, listen_or_release,
  vdev_drained, vdev_maybe_finished, disconnect_on_error, complete_or_fault, mark_msg_handled,
  mark_stopped,
}
use yc_libvhost_server.Vdev.Types.{
  Vring, vring_kick_fail_complete, Vdev, set_vring, on_vring, close_fd, empty_vq,
}

-- The device has lost its connection, with message `r` still marked as being handled, while no
-- vring takes part in it and none has an answer to send when it drains.
pub record IsParted (r : ℕ) (d : Vdev) : Type 0 where
  pub same_req : d.req ≡ r
  pub unconnected : d.conn_handler ≡ none
  pub silent : (j : ℕ) → (d.vring j).on_drain_cb ≡ false
  pub unhandled : d.num_vrings_handling_msg ≡ 0

-- What a step leaves of such a device, unless an assertion fails: one that is still in use.
abbrev pub Leaves : ℕ → Option Vdev → Type 0
Leaves r none = Unit {0}
Leaves r (some d) = IsParted r d × (vdev_in_use d ≡ true)

put-silent :
    (i : ℕ) (v : Vring) (d : Vdev)
    → ((j : ℕ) → (d.vring j).on_drain_cb ≡ false)
    → v.on_drain_cb ≡ false
    → (j : ℕ) → ((set_vring i v d).vring j).on_drain_cb ≡ false
put-silent i v d silent same j =
    if-elim {A = Vring} (λ w. w.on_drain_cb ≡ false) (j == i) (λ _. same) (λ _. silent j)

-- A change of one vring.
pub put-IsParted :
    (r i : ℕ) (v : Vring) (d : Vdev)
    → IsParted r d
    → v.on_drain_cb ≡ false
    → IsParted r (set_vring i v d)
put-IsParted r i v d p same = record {
  same_req = p.same_req;
  unconnected = p.unconnected;
  silent = put-silent i v d p.silent same;
  unhandled = p.unhandled;
}

vdev_drained-none : (os : Os) (r : ℕ) (d : Vdev) → 0 < r → IsParted r d → vdev_drained os d ≡ none
vdev_drained-none os r d there p =
    let busy : 0 < d.req = omega (arith, p.same_req, there) in
    let marked : is_unfinished d ≡ true = ground arith in
    ap
      (λ b.
        Option.map listen_or_release
          (if b then none else some (cleaned os (reset_vrings d.num_queues d))))
      marked

told-IsParted :
    (r : ℕ) (d : Vdev)
    → IsParted r d
    → IsParted r (record d { queued_work = false; finished_work = 0 ∷ d.finished_work })
told-IsParted r d p = record {
  same_req = p.same_req;
  unconnected = p.unconnected;
  silent = p.silent;
  unhandled = p.unhandled;
}

-- vdev_cleanup does not run with the message still marked.
pub vdev_maybe_finished-Leaves :
    (os : Os) (r : ℕ) (d : Vdev) → 0 < r → IsParted r d → Leaves r (vdev_maybe_finished os d)
unfolding vdev_maybe_finished
vdev_maybe_finished-Leaves os r d there p =
    tell_stopped-elim (λ t. Leaves r (if vdev_in_use t then some t else vdev_drained os t)) d
      (at d p)
      (at (record d { queued_work = false; finished_work = 0 ∷ d.finished_work })
        (told-IsParted r d p))
  where
    at : (t : Vdev) → IsParted r t → Leaves r (if vdev_in_use t then some t else vdev_drained os t)
    at t q =
        if-elim (Leaves r) (vdev_in_use t) (λ used. (q, used))
          (λ _. subst (Leaves r) (sym (vdev_drained-none os r t there q)) tt)

-- A device that nothing uses any longer.
idle-none :
    (os : Os) (r : ℕ) (d : Vdev)
    → 0 < r
    → IsParted r d
    → d.num_vrings_in_flight ≡ 0
    → d.num_vrings_started ≡ 0
    → vdev_maybe_finished os d ≡ none
unfolding vdev_maybe_finished
idle-none os r d there p drained ended =
    tell_stopped-elim (λ t. (if vdev_in_use t then some t else vdev_drained os t) ≡ none) d
      (at d p drained ended)
      (at (record d { queued_work = false; finished_work = 0 ∷ d.finished_work })
        (told-IsParted r d p) drained ended)
  where
    at :
        (t : Vdev)
        → IsParted r t
        → t.num_vrings_in_flight ≡ 0
        → t.num_vrings_started ≡ 0
        → (if vdev_in_use t then some t else vdev_drained os t) ≡ none
    at t q drained' ended' =
        let idle : vdev_in_use t ≡ false = rw (drained', q.unhandled, ended', q.unconnected) refl in
        ap (λ b. if b then some t else vdev_drained os t) idle ∙ vdev_drained-none os r t there q

mark_stopped-Leaves :
    (os : Os) (r i : ℕ) (d : Vdev) → 0 < r → IsParted r d → Leaves r (mark_stopped os i d)
unfolding mark_stopped
mark_stopped-Leaves os r i d there p =
    let closed = close_fd (d.vring i).kickfd d in
    let less = on_vring (λ v. record v { kickfd = none }) i closed in
    if-elim (Leaves r) (d.num_vrings_started == 0) (λ _. tt)
      (λ _.
        vdev_maybe_finished-Leaves os r
          (record less { num_vrings_started = sub16 d.num_vrings_started 1 }) there
          (record {
            same_req = p.same_req;
            unconnected = p.unconnected;
            silent = put-silent i (record (d.vring i) { kickfd = none }) d p.silent (p.silent i);
            unhandled = p.unhandled;
          }))

count_drained-Leaves :
    (os : Os) (r : ℕ) (d : Vdev) → 0 < r → IsParted r d → Leaves r (count_drained os d)
count_drained-Leaves os r d there p =
    if-elim (Leaves r) (d.num_vrings_in_flight == 0) (λ _. tt)
      (λ _.
        vdev_maybe_finished-Leaves os r
          (record d { num_vrings_in_flight = sub16 d.num_vrings_in_flight 1 }) there
          (record {
            same_req = p.same_req;
            unconnected = p.unconnected;
            silent = p.silent;
            unhandled = p.unhandled;
          }))

release-Leaves :
    (os : Os) (r i : ℕ) (d : Vdev)
    → 0 < r
    → IsParted r d
    → Leaves r (release_vq i d >>= (λ x. count_drained os x))
release-Leaves os r i d there p =
    if-elim (λ o. Leaves r (o >>= (λ x. count_drained os x))) (d.vring i).vq.has_buffers
      (λ _.
        count_drained-Leaves os r (on_vring (λ v. record v { vq = empty_vq }) i d) there
          (put-IsParted r i (record (d.vring i) { vq = empty_vq }) d p (p.silent i)))
      (λ _. tt)

-- With no answer to send, a vring that drains is released and counted out.
mark_drained-silent {ℓ} :
    (P : Option Vdev → Type ℓ) (os : Os) (sent : Option Errno) (i : ℕ) (d : Vdev)
    → ((j : ℕ) → (d.vring j).on_drain_cb ≡ false)
    → P none
    → P (
        release_vq i (on_vring (λ v. record v { started_in_ctl = false }) i d)
        >>= (λ x. count_drained os x))
    → P (mark_drained os sent i d)
unfolding mark_drained
mark_drained-silent P os sent i d silent fails released =
    let less = on_vring (λ v. record v { started_in_ctl = false }) i d in
    let quiet =
      put-silent i (record (d.vring i) { started_in_ctl = false }) d silent (silent i) i in
    if-elim P (d.vring i).started_in_ctl
      (λ _.
        subst (λ o. P (o >>= (λ x. release_vq i x >>= (λ y. count_drained os y))))
          (sym (ap (λ b. if b then called less else some less) quiet)) released)
      (λ _. fails)
  where
    called : Vdev → Option Vdev
    called x = disconnect_on_error os (
      (on_vring (λ v. record v { on_drain_cb = false }) i (send_vring_base sent i x).0),
      (send_vring_base sent i x).1,
    )

mark_drained-Leaves :
    (os : Os) (sent : Option Errno) (r i : ℕ) (d : Vdev)
    → 0 < r
    → IsParted r d
    → Leaves r (mark_drained os sent i d)
mark_drained-Leaves os sent r i d there p = mark_drained-silent (Leaves r) os sent i d p.silent tt (
    release-Leaves os r i (on_vring (λ v. record v { started_in_ctl = false }) i d) there
      (put-IsParted r i (record (d.vring i) { started_in_ctl = false }) d p (p.silent i)))

mark_msg_handled-none :
    (os : Os) (sent : Option Errno) (d : Vdev)
    → d.num_vrings_handling_msg ≡ 0
    → mark_msg_handled os sent d ≡ none
unfolding mark_msg_handled
mark_msg_handled-none os sent d e =
    let less = record d { num_vrings_handling_msg = sub16 d.num_vrings_handling_msg 1 } in
    ap
      (λ n.
        if n == 0
        then none
        else if less.num_vrings_handling_msg == 0
        then complete_or_fault os sent less.handle_complete less
        else some less)
      e

start-Leaves :
    (r i : ℕ) (d : Vdev)
    → IsParted r d
    → vdev_in_use d ≡ true
    → (started refused : Bool) → Leaves r (put_if i d (start_as started refused (d.vring i)))
start-Leaves r i d p used true refused = tt
start-Leaves r i d p used false true =
    let v = record (d.vring i) {
      starts = (d.vring i).starts - 1;
      failed = suc (d.vring i).failed;
    } in
    (put-IsParted r i v d p (p.silent i), used)
start-Leaves r i d p used false false =
    let w = sync_to_virtq (d.vring i) in
    let v = record w {
      has_kick_handler = true;
      flight = record (w.flight) { started_in_rq = true };
      starts = w.starts - 1;
      handled = suc w.handled;
    } in
    (put-IsParted r i v d p (p.silent i), used)

stop_bh-silent :
    (queued : ℕ) (v : Vring) → v.on_drain_cb ≡ false → (stop_bh queued v).on_drain_cb ≡ false
unfolding stop_bh
stop_bh-silent queued v silent =
    if-elim {A = Vring} (λ w. w.on_drain_cb ≡ false) v.flight.started_in_rq (λ _. silent)
      (λ _. silent)

-- Whichever callback runs on such a device.
pub run_call-Leaves :
    (os : Os) (r : ℕ) (d : Vdev) (call : Call)
    → 0 < r
    → IsParted r d
    → vdev_in_use d ≡ true
    → Leaves r (run_call os d call)
unfolding run_call start_failed_bh
run_call-Leaves os r d (start_call attached i) there p used =
    start-Leaves r i d p used (d.vring i).flight.started_in_rq
      ((d.vring i).disconnecting || not attached)
run_call-Leaves os r d (sync_call i) there p used =
    (put-IsParted r i (sync_bh (d.vring i)) d p (p.silent i), used)
run_call-Leaves os r d (stop_call queued i) there p used = (
  put-IsParted r i (stop_bh queued (d.vring i)) d p
      (stop_bh-silent queued (d.vring i) (p.silent i)),
  used,
)
run_call-Leaves os r d (handled_call k i) there p used =
    subst (Leaves r)
      (sym (
        mark_msg_handled-none os none (on_vring (λ v. record v { handled = v.handled - 1 }) i d)
          p.unhandled))
      tt
run_call-Leaves os r d (stopped_call i) there p used =
    mark_stopped-Leaves os r i (on_vring (λ v. record v { stopped = v.stopped - 1 }) i d) there
      (put-IsParted r i (record (d.vring i) { stopped = (d.vring i).stopped - 1 }) d p (p.silent i))
run_call-Leaves os r d (drained_call i) there p used =
    let f = record ((d.vring i).flight) { drained = (d.vring i).flight.drained - 1 } in
    mark_drained-Leaves os none r i (set_vring i (record (d.vring i) { flight = f }) d) there
      (put-IsParted r i (record (d.vring i) { flight = f }) d p (p.silent i))
run_call-Leaves os r d (failed_call i) there p used =
    let noted = record (on_vring (λ v. record v { failed = v.failed - 1 }) i d) {
      handle_complete = some vring_kick_fail_complete;
    } in
    subst (λ o. Leaves r (o >>= (λ x. mark_stopped os i x >>= (λ y. mark_drained os none i y))))
      (sym (mark_msg_handled-none os none noted p.unhandled)) tt

-- Callbacks one after the other.
unfoldable pub run_calls : Os → Vdev → List Call → Option Vdev
run_calls os d [] = some d
run_calls os d (call ∷ calls) = run_call os d call >>= (λ x. run_calls os x calls)

pub run_calls-Leaves :
    (os : Os) (r : ℕ) (d : Vdev) (calls : List Call)
    → 0 < r
    → IsParted r d
    → vdev_in_use d ≡ true
    → Leaves r (run_calls os d calls)
unfolding run_calls
run_calls-Leaves os r d [] there p used = (p, used)
run_calls-Leaves os r d (call ∷ calls) there p used =
    after (run_call os d call) (run_call-Leaves os r d call there p used)
      (λ x q in_use. run_calls-Leaves os r x calls there q in_use)
  where
    after :
        (o : Option Vdev)
        → Leaves r o
        → ((x : Vdev) → IsParted r x → vdev_in_use x ≡ true → Leaves r (run_calls os x calls))
        → Leaves r (o >>= (λ x. run_calls os x calls))
    after none l rest = tt
    after (some x) l rest = rest x l.0 l.1

-- The last vring drains: nothing keeps vdev_cleanup from running.
pub drained_bh-none :
    (os : Os) (r i : ℕ) (d : Vdev)
    → 0 < r
    → IsParted r d
    → d.num_vrings_in_flight ≡ 1
    → d.num_vrings_started ≡ 0
    → drained_bh os none i d ≡ none
drained_bh-none os r i d there p one ended =
    let f = record ((d.vring i).flight) { drained = (d.vring i).flight.drained - 1 } in
    let noted = set_vring i (record (d.vring i) { flight = f }) d in
    let p1 = put-IsParted r i (record (d.vring i) { flight = f }) d p (p.silent i) in
    let less = on_vring (λ v. record v { started_in_ctl = false }) i noted in
    let p2 =
      put-IsParted r i (record (noted.vring i) { started_in_ctl = false }) noted p1 (p1.silent i) in
    let p3 = put-IsParted r i (record (less.vring i) { vq = empty_vq }) less p2 (p2.silent i) in
    let out = on_vring (λ v. record v { vq = empty_vq }) i less in
    mark_drained-silent (λ o. o ≡ none) os none i noted p1.silent refl
      (if-elim (λ o. (o >>= (λ x. count_drained os x)) ≡ none) (less.vring i).vq.has_buffers
        (λ _.
          if-elim (λ o. o ≡ none) (out.num_vrings_in_flight == 0) (λ _. refl)
            (λ _.
              idle-none os r
                (record out { num_vrings_in_flight = sub16 out.num_vrings_in_flight 1 }) there
                (record {
                  same_req = p3.same_req;
                  unconnected = p3.unconnected;
                  silent = p3.silent;
                  unhandled = p3.unhandled;
                })
                (ap (λ n. sub16 n 1) one) ended))
        (λ _. refl))
