-- ===== src/Vdev/Marks.antt =====
-- The notices of a request queue to the control event loop, and the counters of vdev.h.
use yc_libvhost_server.Base.{
  ◌==◌, if◌then◌else◌, Bool-cases, if-elim, sub16, Errno, ℕ, ◌-◌, ◌≤◌, ◌<◌, ◌≡◌, refl, ap, ◌∙◌, inl,
  inr, false, Option, none, some, arith,
}
use yc_libvhost_server.Memmap.Host.{Os}
use yc_libvhost_server.Vdev.Callbacks.{msg_handled_bh, stopped_bh}
use yc_libvhost_server.Vdev.Controls.{
  IsAnswered, Shares-fields, on_vring-Shares, vdev_maybe_finished-some,
}
use yc_libvhost_server.Vdev.Counters.{
  key, IsSound, started_of, flying_of, handling_of, IsCounted, total-part, total-le, Shares,
  Shares-refl, Shares-trans, IsCounted-Shares, IsCounted-put,
}
use yc_libvhost_server.Vdev.Lifecycle.{
  handle_finish, vhost_reply, vhost_ack, ack_eio, drop_old_memmap, close_kept, complete,
  vdev_maybe_finished, disconnect_on_error, complete_or_fault, mark_msg_handled, mark_stopped,
}
use yc_libvhost_server.Vdev.Types.{
  Completion, features_complete, mem_table_complete, vring_kick_complete, vring_kick_fail_complete,
  vring_call_complete, vring_err_complete, vring_addr_complete, log_base_complete,
  vring_enable_complete, Payload, Vdev, set_vring, on_vring, close_fd,
}

-- A vring that has stopped: there is one to count out.
mark_stopped-some :
    (os : Os) (i : ℕ) (d : Vdev)
    → 0 < d.num_vrings_started
    → IsAnswered d
    → (d' : Vdev) × (mark_stopped os i d ≡ some d')
      × Shares (record d { num_vrings_started = sub16 d.num_vrings_started 1 }) d'
unfolding mark_stopped
mark_stopped-some os i d there answered =
    let base = record d { num_vrings_started = sub16 d.num_vrings_started 1 } in
    let closed = close_fd (d.vring i).kickfd base in
    let less = on_vring (λ v. record v { kickfd = none }) i closed in
    let same : Shares base less =
      Shares-trans base closed less (Shares-fields base closed refl refl refl refl refl)
        (on_vring-Shares (λ v. record v { kickfd = none }) i closed refl) in
    let counted : (d.num_vrings_started == 0) ≡ false = ground arith in
    let (d', e, s) = vdev_maybe_finished-some os less (λ k h.
      let q = answered k h in
      record {
        no_req = q.no_req;
        no_old_memmap = q.no_old_memmap;
        no_old_memlog = q.no_old_memlog;
        no_keep_fd = q.no_keep_fd;
      }) in
    (
      d',
      ap (λ x. if x then none else vdev_maybe_finished os less) counted ∙ e,
      Shares-trans base less d' same s,
    )

module _ (d : Vdev) (i : ℕ) (c : IsCounted d) (b : i < d.num_queues) where
  one : IsSound (key (d.vring i))
  one = c.sound i b

  some_started : 0 < (d.vring i).stopped → 0 < d.num_vrings_started
  some_started h = omega (arith, c.started, total-part started_of d.num_queues i d.vring b)

  pub few_started : d.num_vrings_started ≤ 256
  few_started = omega (
    arith,
    c.started,
    c.few,
    total-le started_of d.num_queues d.vring (λ j h. (c.sound j h).one_stop),
  )

  pub few_handling : d.num_vrings_handling_msg ≤ 256
  few_handling = omega (
    arith,
    c.handling,
    c.few,
    total-le handling_of d.num_queues d.vring (λ j h. (c.sound j h).one_message),
  )

  pub few_flying : d.num_vrings_in_flight ≤ 256
  few_flying = omega (
    arith,
    c.flying,
    c.few,
    total-le flying_of d.num_queues d.vring (λ j h.
        if-elim {A = ℕ} (λ n. n ≤ 1) (d.vring j).started_in_ctl (λ _. omega arith)
          (λ _. omega arith)),
  )

-- Whenever vring_mark_stopped_bh runs, the counter of started vrings is not 0, and it and the
-- other counters agree with the vrings afterwards, also if the device was drained, which passes
-- the assertions of vdev_cleanup if the last message was finished.
pub stopped_bh-IsCounted :
    (os : Os) (i : ℕ) (d : Vdev)
    → IsCounted d
    → i < d.num_queues
    → 0 < (d.vring i).stopped
    → IsAnswered d
    → (d' : Vdev) × (stopped_bh os i d ≡ some d') × IsCounted d'
stopped_bh-IsCounted os i d c b there answered =
    let v = record (d.vring i) { stopped = (d.vring i).stopped - 1 } in
    let noted = set_vring i v d in
    let (d', e, s) = mark_stopped-some os i noted (some_started d i c b there) (λ k h.
      let q = answered k h in
      record {
        no_req = q.no_req;
        no_old_memmap = q.no_old_memmap;
        no_old_memlog = q.no_old_memlog;
        no_keep_fd = q.no_keep_fd;
      }) in
    (
      d',
      e,
      IsCounted-Shares _ d' s (
          IsCounted-put d i v (sub16 d.num_vrings_started 1) _ _ c b
            (record {
              one_phase = (one d i c b).one_phase;
              one_stop = omega (arith, (one d i c b).one_stop);
              one_message = (one d i c b).one_message;
              buffered = (one d i c b).buffered;
            })
            (omega (arith, some_started d i c b there, few_started d i c b)) refl refl),
    )

pub handle_finish-Shares : (d : Vdev) → Shares d (handle_finish d)
handle_finish-Shares d = Shares-fields d _ refl refl refl refl refl

ack-Shares :
    (value : ℕ) (d d' : Vdev)
    → Shares d d'
    → Shares d (vhost_ack none value d').0 × ((vhost_ack none value d').1 ≡ none)
ack-Shares value d d' s =
    if-elim {A = Vdev × Option Errno} (λ out. Shares d out.0 × (out.1 ≡ none)) d'.ack_pending
      (λ _. (Shares-trans d d' _ s (Shares-fields d' _ refl refl refl refl refl), refl))
      (λ _. (Shares-trans d d' _ s (handle_finish-Shares d'), refl))

-- A completion that sends its answer.
pub complete-Shares :
    (os : Os) (k : Completion) (d : Vdev)
    → Shares d (complete os none k d).0 × ((complete os none k d).1 ≡ none)
unfolding complete
complete-Shares os features_complete d = ack-Shares 0 d d (Shares-refl d)
complete-Shares os mem_table_complete d =
    ack-Shares 0 d (drop_old_memmap os d) (Shares-fields d _ refl refl refl refl refl)
complete-Shares os vring_kick_complete d = ack-Shares 0 d d (Shares-refl d)
complete-Shares os vring_kick_fail_complete d = ack-Shares ack_eio d d (Shares-refl d)
complete-Shares os vring_call_complete d =
    ack-Shares 0 d (close_kept d) (Shares-fields d _ refl refl refl refl refl)
complete-Shares os vring_err_complete d =
    ack-Shares 0 d (close_kept d) (Shares-fields d _ refl refl refl refl refl)
complete-Shares os vring_addr_complete d = ack-Shares 0 d d (Shares-refl d)
complete-Shares os log_base_complete d = (Shares-fields d _ refl refl refl refl refl, refl)
complete-Shares os vring_enable_complete d = ack-Shares 0 d d (Shares-refl d)

-- Whenever vring_mark_msg_handled_bh runs during a message whose answer the host sends, the
-- counter of vrings that take part in the message is not 0, the completion runs if it was the
-- last, and the counters agree with the vrings afterwards.
pub msg_handled_bh-IsCounted :
    (os : Os) (k : Completion) (i : ℕ) (d : Vdev)
    → IsCounted d
    → i < d.num_queues
    → 0 < (d.vring i).handled
    → d.handle_complete ≡ some k
    → (d' : Vdev) × (msg_handled_bh os none i d ≡ some d') × IsCounted d'
unfolding mark_msg_handled complete_or_fault
msg_handled_bh-IsCounted os k i d c b there awaits =
    let v = record (d.vring i) { handled = (d.vring i).handled - 1 } in
    let less = record (set_vring i v d) {
      num_vrings_handling_msg = sub16 d.num_vrings_handling_msg 1;
    } in
    let there' : 0 < d.num_vrings_handling_msg =
      omega (arith, c.handling, total-part handling_of d.num_queues i d.vring b) in
    let counted : (d.num_vrings_handling_msg == 0) ≡ false = ground arith in
    let less-IsCounted : IsCounted less =
      IsCounted-put d i v _ _ (sub16 d.num_vrings_handling_msg 1) c b
        (record {
          one_phase = (one d i c b).one_phase;
          one_stop = (one d i c b).one_stop;
          one_message = omega (arith, (one d i c b).one_message);
          buffered = (one d i c b).buffered;
        })
        refl refl (omega (arith, few_handling d i c b)) in
    let (s, sent) = complete-Shares os k less in
    let done = record ((complete os none k less).0) { handle_complete = none } in
    let last : complete_or_fault os none d.handle_complete less ≡ some done =
      ap (λ h. complete_or_fault os none h less) awaits
      ∙ ap (λ r. disconnect_on_error os (done, r)) sent in
    let start : msg_handled_bh os none i d ≡ (
        if less.num_vrings_handling_msg == 0
        then complete_or_fault os none d.handle_complete less
        else some less) =
      ap
        (λ x.
          if x
          then none
          else if less.num_vrings_handling_msg == 0
          then complete_or_fault os none d.handle_complete less
          else some less)
        counted in
    elim (Bool-cases (less.num_vrings_handling_msg == 0)) [
      | inl y ↦ (
        done,
        start
            ∙ ap (λ x. if x then complete_or_fault os none d.handle_complete less else some less) y
            ∙ last,
        IsCounted-Shares less done
            (Shares-trans less _ done s (Shares-fields _ done refl refl refl refl refl))
            less-IsCounted,
      )
      | inr n ↦ (
        less,
        start
            ∙ ap (λ x. if x then complete_or_fault os none d.handle_complete less else some less) n,
        less-IsCounted,
      )
    ]

pub reply-Shares :
    (sent : Option Errno) (payload : Payload) (d d' : Vdev)
    → Shares d d'
    → Shares d (vhost_reply sent payload d').0
reply-Shares none payload d d' s =
    Shares-trans d d' _ s (Shares-fields d' _ refl refl refl refl refl)
reply-Shares (some e) payload d d' s = s
