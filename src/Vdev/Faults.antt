-- ===== src/Vdev/Faults.antt =====
-- What goes wrong at the end of a session of vdev.c.
use mathlib.Core.Path.{subst}
use mathlib.Core.Option
use yc_libvhost_server.Base.{
  ltb, if◌then◌else◌, if-elim, is_some, Errno, ℕ, ◌<◌, ◌≡◌, refl, ap, ◌∙◌, true, false, Option,
  none, some, List, arith,
}
use yc_libvhost_server.Memmap.Host.{Os}
use yc_libvhost_server.Vdev.Callbacks.{drained_bh}
use yc_libvhost_server.Vdev.Callings.{Call}
use yc_libvhost_server.Vdev.Controls.{tell_stopped-elim, reset_vrings-vq}
use yc_libvhost_server.Vdev.Lifecycle.{
  handle_finish, vhost_reply, vhost_ack, ack_eio, drop_old_memmap, close_kept, complete,
  vdev_in_use, reset_vrings, is_unfinished, cleaned, vdev_cleanup, vdev_drained, tell_stopped,
  vdev_maybe_finished, vring_disconnect, vdev_disconnect, disconnect_on_error, complete_or_fault,
  mark_msg_handled,
}
use yc_libvhost_server.Vdev.Marks.{complete-Shares}
use yc_libvhost_server.Vdev.Stuck.{IsParted, Leaves, run_calls, run_calls-Leaves, drained_bh-none}
use yc_libvhost_server.Vdev.Types.{
  Vring, Completion, features_complete, mem_table_complete, vring_kick_complete,
  vring_kick_fail_complete, vring_call_complete, vring_err_complete, vring_addr_complete,
  log_base_complete, vring_enable_complete, u64, Vdev, on_vrings,
}

-- The inflight regions that a client set up for vrings that it did not start outlive the session:
-- after vdev_cleanup the memory is unmapped, and the vrings still point into it.
pub cleanup-dangles :
    (os : Os) (d : Vdev) (i : ℕ)
    → is_unfinished d ≡ false
    → (d' : Vdev) × (vdev_cleanup os d ≡ some d')
      × (d'.inflight_mem ≡ none)
      × ((d'.vring i).vq.inflight_region ≡ (d.vring i).vq.inflight_region)
cleanup-dangles os d i passes = (
  cleaned os (reset_vrings d.num_queues d),
  ap (λ b. if b then none else some (cleaned os (reset_vrings d.num_queues d))) passes,
  refl,
  ap (λ vq. vq.inflight_region) (keeps_vq d.num_queues),
)
  where
    keeps_vq : (n : ℕ) → ((reset_vrings n d).vring i).vq ≡ (d.vring i).vq
    keeps_vq n = reset_vrings-vq n d i

-- A completion on a device that has lost its connection.
abbrev IsGone : Vdev → Vdev → Type 0
IsGone d d' = (d'.conn_handler ≡ none) × (d'.connfd ≡ d.connfd) × (d'.released ≡ d.released)

ack-IsGone : (value : ℕ) (d : Vdev) → d.conn_handler ≡ none → IsGone d (vhost_ack none value d).0
ack-IsGone value d lost =
    if-elim {A = Vdev × Option Errno} (λ out. IsGone d out.0) d.ack_pending
      (λ _. (ap (Option.map (λ b. true)) lost, refl, refl))
      (λ _. (ap (Option.map (λ b. true)) lost, refl, refl))

complete-IsGone :
    (os : Os) (k : Completion) (d : Vdev)
    → d.conn_handler ≡ none
    → IsGone d (complete os none k d).0
unfolding complete
complete-IsGone os features_complete d lost = ack-IsGone 0 d lost
complete-IsGone os mem_table_complete d lost = ack-IsGone 0 (drop_old_memmap os d) lost
complete-IsGone os vring_kick_complete d lost = ack-IsGone 0 d lost
complete-IsGone os vring_kick_fail_complete d lost = ack-IsGone ack_eio d lost
complete-IsGone os vring_call_complete d lost = ack-IsGone 0 (close_kept d) lost
complete-IsGone os vring_err_complete d lost = ack-IsGone 0 (close_kept d) lost
complete-IsGone os vring_addr_complete d lost = ack-IsGone 0 d lost
complete-IsGone os log_base_complete d lost = (ap (Option.map (λ b. true)) lost, refl, refl)
complete-IsGone os vring_enable_complete d lost = ack-IsGone 0 d lost

-- A message that was in the works when the server was stopped: its last vring answers after all
-- vrings have stopped and drained, the device is no longer in use, and still it is not drained, so
-- neither is its connection closed nor is it released.
pub late_answer-stays :
    (os : Os) (k : Completion) (d : Vdev)
    → d.num_vrings_handling_msg ≡ 1
    → d.handle_complete ≡ some k
    → d.conn_handler ≡ none
    → d.num_vrings_in_flight ≡ 0
    → d.num_vrings_started ≡ 0
    → d.released ≡ false
    → (d' : Vdev) × (mark_msg_handled os none d ≡ some d')
      × (vdev_in_use d' ≡ false)
      × (d'.connfd ≡ d.connfd)
      × (d'.released ≡ false)
unfolding mark_msg_handled complete_or_fault
late_answer-stays os k d one awaits lost drained ended alive =
    let less = record d { num_vrings_handling_msg = 0 } in
    let last = record ((complete os none k less).0) { handle_complete = none } in
    let (s, sent) = complete-Shares os k less in
    let (unconnected, same_fd, same_end) = complete-IsGone os k less lost in
    (
      last,
      ap {A = ℕ} (λ n. mark_msg_handled os none (record d { num_vrings_handling_msg = n })) one
          ∙ ap (λ h. complete_or_fault os none h less) awaits
          ∙ ap (λ r. disconnect_on_error os (last, r)) sent,
      rw (s.flying ∙ drained, s.handling, s.started ∙ ended, unconnected) refl,
      same_fd,
      same_end ∙ alive,
    )

-- A completion whose answer cannot be sent leaves the message marked.
unsent :
    (os : Os) (e : Errno) (k : Completion) (d : Vdev)
    → d.ack_pending ≡ true
    → (d' : Vdev) × (complete os (some e) k d ≡ (d', some e))
      × (d'.req ≡ d.req)
      × (d'.vring ≡ d.vring)
      × (d'.num_vrings_handling_msg ≡ d.num_vrings_handling_msg)
      × (d'.num_vrings_in_flight ≡ d.num_vrings_in_flight)
      × (d'.conn_handler ≡ d.conn_handler)
unfolding complete
unsent os e k d ack = by k
  where
    kept : (v : ℕ) (x : Vdev) → x.ack_pending ≡ true → vhost_ack (some e) v x ≡ (x, some e)
    kept v x ack' =
        ap (λ b. if b then vhost_reply (some e) (u64 v) x else (handle_finish x, none)) ack'

    by :
        (k : Completion)
        → (d' : Vdev) × (complete os (some e) k d ≡ (d', some e))
          × (d'.req ≡ d.req)
          × (d'.vring ≡ d.vring)
          × (d'.num_vrings_handling_msg ≡ d.num_vrings_handling_msg)
          × (d'.num_vrings_in_flight ≡ d.num_vrings_in_flight)
          × (d'.conn_handler ≡ d.conn_handler)
    by features_complete = (d, kept 0 d ack, refl, refl, refl, refl, refl)
    by mem_table_complete =
        let x = drop_old_memmap os d in (x, kept 0 x ack, refl, refl, refl, refl, refl)
    by vring_kick_complete = (d, kept 0 d ack, refl, refl, refl, refl, refl)
    by vring_kick_fail_complete = (d, kept ack_eio d ack, refl, refl, refl, refl, refl)
    by vring_call_complete = let x = close_kept d in (x, kept 0 x ack, refl, refl, refl, refl, refl)
    by vring_err_complete = let x = close_kept d in (x, kept 0 x ack, refl, refl, refl, refl, refl)
    by vring_addr_complete = (d, kept 0 d ack, refl, refl, refl, refl, refl)
    by log_base_complete = (record d { old_memlog = none }, refl, refl, refl, refl, refl, refl)
    by vring_enable_complete = (d, kept 0 d ack, refl, refl, refl, refl, refl)

-- What vdev_disconnect leaves of a device with vrings in flight.
disconnect-IsParted :
    (os : Os) (d : Vdev)
    → d.conn_handler ≡ some false
    → ((j : ℕ) → (d.vring j).on_drain_cb ≡ false)
    → d.num_vrings_handling_msg ≡ 0
    → 0 < d.num_vrings_in_flight
    → (d' : Vdev) × (vdev_disconnect os d ≡ some d') × IsParted d.req d' × (vdev_in_use d' ≡ true)
unfolding vdev_disconnect vdev_maybe_finished
disconnect-IsParted os d conn silent unhandled flying = (
  tell_stopped out,
  ap (λ c. if is_some c then vdev_maybe_finished os out else some d) conn
      ∙ ap (λ b. if b then some (tell_stopped out) else vdev_drained os (tell_stopped out)) used,
  tell_stopped-elim (IsParted d.req) out
      (record { same_req = refl; unconnected = refl; silent = quiet; unhandled = unhandled })
      (record { same_req = refl; unconnected = refl; silent = quiet; unhandled = unhandled }),
  used,
)
  where
    out : Vdev
    out = on_vrings vring_disconnect (record d { conn_handler = none })

    used : vdev_in_use (tell_stopped out) ≡ true
    used = tell_stopped-elim (λ t. vdev_in_use t ≡ true) out (ground arith) (ground arith)

    quiet : (j : ℕ) → (out.vring j).on_drain_cb ≡ false
    quiet j =
        if-elim {A = Vring} (λ v. v.on_drain_cb ≡ false) (ltb j d.num_queues)
          (λ _.
            if-elim {A = Vring} (λ v. v.on_drain_cb ≡ false) (d.vring j).started_in_ctl
              (λ _. silent j) (λ _. silent j))
          (λ _. silent j)

-- The answer that a client waits for when it closes its end cannot be sent, whichever message it
-- answers, while no vring has a VHOST_USER_GET_VRING_BASE to answer. The device is then
-- disconnected with the message still marked as being handled. Whichever callbacks run from there
-- on, if no assertion fails the device is still in use and the message is still marked; and when
-- the last of its vrings drains, after it stopped, the assertion of vdev_cleanup fails.
pub unsent_answer-aborts :
    (os : Os) (e : Errno) (k : Completion) (d : Vdev)
    → d.num_vrings_handling_msg ≡ 1
    → d.handle_complete ≡ some k
    → d.ack_pending ≡ true
    → d.conn_handler ≡ some false
    → ((j : ℕ) → (d.vring j).on_drain_cb ≡ false)
    → 0 < d.num_vrings_in_flight
    → 0 < d.req
    → (d' : Vdev) × (mark_msg_handled os (some e) d ≡ some d')
      × ((calls : List Call) (last : Vdev)
          → run_calls os d' calls ≡ some last
          → (vdev_in_use last ≡ true)
            × (last.req ≡ d.req)
            × (last.num_vrings_in_flight ≡ 1
                → last.num_vrings_started ≡ 0
                → (i : ℕ) → drained_bh os none i last ≡ none))
unfolding mark_msg_handled complete_or_fault
unsent_answer-aborts os e k d one awaits ack conn silent flying busy =
    let less = record d { num_vrings_handling_msg = 0 } in
    let (x, refused, req, vrings, handling, in_flight, connection) = unsent os e k less ack in
    let (out, left, parted, used) =
      disconnect-IsParted os (record x { handle_complete = none }) (connection ∙ conn)
        (λ j. ap (λ v. (v j).on_drain_cb) vrings ∙ silent j) handling
        (omega (arith, in_flight, flying)) in
    let there : 0 < x.req = omega (arith, req, busy) in
    (
      out,
      ap {A = ℕ} (λ n. mark_msg_handled os (some e) (record d { num_vrings_handling_msg = n })) one
          ∙ ap (λ h. complete_or_fault os (some e) h less) awaits
          ∙ ap {A = Vdev × Option Errno}
              (λ r. disconnect_on_error os (record (r.0) { handle_complete = none }, r.1)) refused
          ∙ left,
      λ calls last ran.
          let (p, in_use) =
            subst (Leaves x.req) ran (run_calls-Leaves os x.req out calls there parted used) in
          (
            in_use,
            p.same_req ∙ req,
            λ flies ended i. drained_bh-none os x.req i last there p flies ended,
          ),
    )
