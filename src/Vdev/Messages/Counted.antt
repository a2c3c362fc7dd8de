-- ===== src/Vdev/Messages/Counted.antt =====
-- Messages of vdev.c and the counters of vrings: what the handlers share.
use mathlib.Core.Path.{subst}
use yc_libvhost_server.Base.{
  ◌==◌, if◌then◌else◌, ==_iff, Bool-cases, if-elim, add16, Errno, ℕ, zero, suc, ◌≤◌, ◌<◌, ◌≡◌, refl,
  sym, ap, ◌∙◌, ◌≢◌, inl, inr, false, Option, none, some, arith,
}
use yc_libvhost_server.Memmap.Host.{Os}
use yc_libvhost_server.Vdev.Controls.{Shares-fields}
use yc_libvhost_server.Vdev.Counters.{
  key, handling_of, IsCounted, total-part, total-le, Shares, Shares-refl, Shares-trans,
  IsCounted-Shares, IsCounted-put,
}
use yc_libvhost_server.Vdev.Lifecycle.{
  vhost_ack, ack_eio, drop_old_memmap, close_kept, complete, ask_sync, handle_msg, handle_msg_all,
}
use yc_libvhost_server.Vdev.Marks.{handle_finish-Shares, reply-Shares}
use yc_libvhost_server.Vdev.Messages.{Host, Outcome, finish_in_all}
use yc_libvhost_server.Vdev.Messages.Rings.{finish_in}
use yc_libvhost_server.Vdev.Types.{
  Vring, Completion, features_complete, mem_table_complete, vring_kick_complete,
  vring_kick_fail_complete, vring_call_complete, vring_err_complete, vring_addr_complete,
  log_base_complete, vring_enable_complete, u64, Vdev, set_vring, on_vring,
}

-- What holds of the device that a handler leaves.
abbrev pub Holds : (Vdev → Type 0) → Outcome → Type 0
Holds P none = Unit
Holds P (some out) = P out.0

-- A device between two messages. A vring that is not started is not to be marked as stopped:
-- vring_stop_bh hands that notice over before the one that the vring has drained, and a round of
-- bottom halves runs both before it comes to the next message.
pub record IsReady (d : Vdev) : Type 0 where
  pub counted : IsCounted d
  pub settled : d.num_vrings_handling_msg ≡ 0
  pub rested : (i : ℕ) → (d.vring i).started_in_ctl ≡ false → (d.vring i).stopped ≡ 0

pub IsReady-Shares : (d d' : Vdev) → Shares d d' → IsReady d → IsReady d'
IsReady-Shares d d' s r = record {
  counted = IsCounted-Shares d d' s r.counted;
  settled = s.handling ∙ r.settled;
  rested = λ i off.
      ap (λ k. k.stopped) (s.keys i) ∙ r.rested i (sym (ap (λ k. k.in_ctl) (s.keys i)) ∙ off);
}

pub ack-any :
    (sent : Option Errno) (value : ℕ) (d d' : Vdev)
    → Shares d d'
    → Shares d (vhost_ack sent value d').0
ack-any sent value d d' s =
    if-elim {A = Vdev × Option Errno} (λ out. Shares d out.0) d'.ack_pending
      (λ _. reply-Shares sent (u64 value) d d' s)
      (λ _. Shares-trans d d' _ s (handle_finish-Shares d'))

pub complete-any :
    (os : Os) (sent : Option Errno) (k : Completion) (d : Vdev) → Shares d (complete os sent k d).0
unfolding complete
complete-any os sent features_complete d = ack-any sent 0 d d (Shares-refl d)
complete-any os sent mem_table_complete d =
    ack-any sent 0 d (drop_old_memmap os d) (Shares-fields d _ refl refl refl refl refl)
complete-any os sent vring_kick_complete d = ack-any sent 0 d d (Shares-refl d)
complete-any os sent vring_kick_fail_complete d = ack-any sent ack_eio d d (Shares-refl d)
complete-any os sent vring_call_complete d =
    ack-any sent 0 d (close_kept d) (Shares-fields d _ refl refl refl refl refl)
complete-any os sent vring_err_complete d =
    ack-any sent 0 d (close_kept d) (Shares-fields d _ refl refl refl refl refl)
complete-any os sent vring_addr_complete d = ack-any sent 0 d d (Shares-refl d)
complete-any os sent log_base_complete d =
    reply-Shares sent (u64 0) d (record d { old_memlog = none })
      (Shares-fields d _ refl refl refl refl refl)
complete-any os sent vring_enable_complete d = ack-any sent 0 d d (Shares-refl d)

-- Asking a vring that takes part in no message to take over a change.
handle_msg-IsCounted :
    (i : ℕ) (d : Vdev)
    → IsCounted d
    → i < d.num_queues
    → handling_of (key (d.vring i)) ≡ 0
    → IsCounted (handle_msg ask_sync i d)
handle_msg-IsCounted i d c b idle = elim (Bool-cases (d.vring i).started_in_ctl) [
  | inl on ↦
      let s = c.sound i b in
      let v = record (d.vring i) { syncs = suc (d.vring i).syncs } in
      subst IsCounted
        (ap
            (λ x. record (set_vring i x d) {
              num_vrings_handling_msg = add16 d.num_vrings_handling_msg 1;
            })
            (ap (λ x. if x then v else d.vring i) (sym on))
          ∙ ap
              (λ x.
                if x
                then record (on_vring ask_sync i d) {
                  num_vrings_handling_msg = add16 d.num_vrings_handling_msg 1;
                }
                else d)
              (sym on))
        (IsCounted-put d i v _ _ (add16 d.num_vrings_handling_msg 1) c b
          (record {
            one_phase = s.one_phase;
            one_stop = s.one_stop;
            one_message = omega (arith, idle);
            buffered = s.buffered;
          })
          refl refl (omega (arith, few)))
  | inr off ↦
      subst IsCounted
        (ap
          (λ x.
            if x
            then record (on_vring ask_sync i d) {
              num_vrings_handling_msg = add16 d.num_vrings_handling_msg 1;
            }
            else d)
          (sym off))
        c
]
  where
    few : d.num_vrings_handling_msg ≤ 256
    few = omega (
      arith,
      c.handling,
      c.few,
      total-le handling_of d.num_queues d.vring (λ j h. (c.sound j h).one_message),
    )

handle_msg-others : (i j : ℕ) (d : Vdev) → j ≢ i → (handle_msg ask_sync i d).vring j ≡ d.vring j
handle_msg-others i j d n =
    if-elim {A = Vdev} (λ e. e.vring j ≡ d.vring j) (d.vring i).started_in_ctl
      (λ _.
        if-elim {A = Vring} (λ v. v ≡ d.vring j) (j == i) (λ y. absurd (n ((==_iff j i).0 y)))
          (λ _. refl))
      (λ _. refl)

handle_msg-queues : (i : ℕ) (d : Vdev) → (handle_msg ask_sync i d).num_queues ≡ d.num_queues
handle_msg-queues i d =
    if-elim {A = Vdev} (λ e. e.num_queues ≡ d.num_queues) (d.vring i).started_in_ctl (λ _. refl)
      (λ _. refl)

-- The loop over the vrings, which has not reached those from `n` on.
handle_msg_all-part :
    (n : ℕ) (d : Vdev)
    → IsReady d
    → n ≤ d.num_queues
    → let d' = handle_msg_all n d in
      IsCounted d' × (d'.num_queues ≡ d.num_queues) × ((j : ℕ) → n ≤ j → d'.vring j ≡ d.vring j)
unfolding handle_msg_all
handle_msg_all-part zero d r b = (r.counted, refl, λ j h. refl)
handle_msg_all-part (suc n) d r b =
    let (c, q, same) = handle_msg_all-part n d r (omega arith) in
    let d' = handle_msg_all n d in
    (
      handle_msg-IsCounted n d' c (omega (arith, q)) (
          omega (
            arith,
            ap (λ v. handling_of (key v)) (same n (omega arith)),
            total-part handling_of d.num_queues n d.vring (omega arith),
            r.counted.handling,
            r.settled,
          )),
      handle_msg-queues n d' ∙ q,
      λ j h. handle_msg-others n j d' (λ e. absurd (omega arith)) ∙ same j (omega arith),
    )

pub handle_msg_all-IsCounted : (d : Vdev) → IsReady d → IsCounted (handle_msg_all d.num_queues d)
handle_msg_all-IsCounted d r = (handle_msg_all-part d.num_queues d r (omega arith)).0

pub asked-IsCounted :
    (i : ℕ) (d : Vdev) → IsReady d → i < d.num_queues → IsCounted (handle_msg ask_sync i d)
asked-IsCounted i d r b =
    handle_msg-IsCounted i d r.counted b (
      omega (arith, total-part handling_of d.num_queues i d.vring b, r.counted.handling, r.settled))

-- A change that all vrings take over.
pub finish_in_all-IsCounted :
    (env : Host) (k : Completion) (d d' : Vdev)
    → IsReady d
    → Shares d d'
    → Holds IsCounted (finish_in_all env k d')
finish_in_all-IsCounted env k d d' r s =
    if-elim (Holds IsCounted) (d'.num_vrings_in_flight == 0)
      (λ _.
        IsCounted-Shares d _ (Shares-trans d d' _ s (complete-any env.os env.sent k d')) r.counted)
      (λ _.
        let e = record d' { handle_complete = some k } in
        handle_msg_all-IsCounted e (
          IsReady-Shares d e (Shares-trans d d' e s (Shares-fields d' e refl refl refl refl refl))
            r))

-- A change that one vring takes over.
pub finish_in-IsCounted :
    (env : Host) (k : Completion) (i : ℕ) (d d' : Vdev)
    → IsReady d
    → i < d.num_queues
    → Shares d d'
    → Holds IsCounted (finish_in env k i d')
finish_in-IsCounted env k i d d' r b s =
    if-elim (Holds IsCounted) (d'.vring i).started_in_ctl
      (λ _.
        let e = record d' { handle_complete = some k } in
        asked-IsCounted i e
          (IsReady-Shares d e (Shares-trans d d' e s (Shares-fields d' e refl refl refl refl refl))
            r)
          (omega (arith, s.queues)))
      (λ _.
        IsCounted-Shares d _ (Shares-trans d d' _ s (complete-any env.os env.sent k d')) r.counted)
