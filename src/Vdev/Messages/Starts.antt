-- ===== src/Vdev/Messages/Starts.antt =====
-- The messages to one vring of vdev.c keep the counters, among them the one that starts it.
use yc_libvhost_server.Base.{
  ltb, ◌==◌, if◌then◌else◌, if-elim, length, is_some, test_bit, Errno, einval, Result, ok, err, ℕ,
  ◌%◌, ◌^◌, ◌<◌, refl, ◌||◌, not, Option, none, some, arith,
}
use yc_libvhost_server.Vdev.Controls.{Shares-fields, on_vring-Shares}
use yc_libvhost_server.Vdev.Counters.{IsCounted, Shares, Shares-refl, Shares-trans}
use yc_libvhost_server.Vdev.Lifecycle.{complete}
use yc_libvhost_server.Vdev.Messages.{
  VringAddr, Msg, Host, u64_size, vring_state_size, vring_addr_size, Outcome, fail, has_fds,
  get_vring, msg_u64_get_vring, with_vring, on_state,
}
use yc_libvhost_server.Vdev.Messages.Counted.{
  IsReady, Holds, IsReady-Shares, complete-any, asked-IsCounted, finish_in-IsCounted,
}
use yc_libvhost_server.Vdev.Messages.Rings.{
  set_qsz, set_vring_num, set_last_avail, set_vring_base, ask_base, get_vring_base, set_addr,
  same_addr, change_addr, set_vring_addr, dup_first, or_close, with_callfd, swap_callfd,
  undo_callfd, set_call, set_vring_call, with_errfd, swap_errfd, undo_errfd, set_err, set_vring_err,
  toggle, vring_enable,
}
use yc_libvhost_server.Vdev.Messages.Sessions.{Keeps, replied, acked, shared}
use yc_libvhost_server.Vdev.Types.{
  Vring, vring_call_complete, vring_err_complete, vring_addr_complete, vring_enable_complete,
  vring_state, Vdev, on_vring, close_fd,
}

-- The vring that a message names is one of the device.
named :
    (P : Outcome → Type 0) (handler : ℕ → Outcome) (d : Vdev) (index : ℕ)
    → P (fail einval d)
    → ((i : ℕ) → i < d.num_queues → P (handler i))
    → P (with_vring handler d (get_vring d index))
named P handler d index missing found =
    if-elim {A = Option ℕ} (λ o. P (with_vring handler d o)) (ltb (index % 2 ^ 16) d.num_queues)
      (λ y. found (index % 2 ^ 16) (ground arith)) (λ _. missing)

pub named_u64 :
    (P : Outcome → Type 0) (handler : ℕ → Outcome) (d : Vdev) (msg : Msg)
    → P (fail einval d)
    → ((i : ℕ) → i < d.num_queues → P (handler i))
    → P (with_vring handler d (msg_u64_get_vring d msg))
named_u64 P handler d msg missing found =
    if-elim {A = Option ℕ} (λ o. P (with_vring handler d o)) (ltb msg.size u64_size) (λ _. missing)
      (λ _.
        if-elim {A = Option ℕ} (λ o. P (with_vring handler d o))
          (not (length msg.fds == (if test_bit msg.body.u64 8 then 0 else 1))) (λ _. missing)
          (λ _. named P handler d (msg.body.u64 % 2 ^ 8) missing found))

on_state-Holds :
    (handler : ℕ → Outcome) (d : Vdev) (msg : Msg)
    → IsReady d
    → ((i : ℕ) → i < d.num_queues → Holds IsCounted (handler i))
    → Holds IsCounted (on_state handler d msg)
on_state-Holds handler d msg r found =
    if-elim (Holds IsCounted) (has_fds msg || ltb msg.size vring_state_size) (λ _. r.counted)
      (λ _. named (Holds IsCounted) handler d msg.body.vring_state.index r.counted found)

pub set_vring_num-Keeps : Keeps set_vring_num
unfolding set_vring_num
set_vring_num-Keeps env msg d r = on_state-Holds _ d msg r (λ i b.
    if-elim (Holds IsCounted) (d.vring i).started_in_ctl (λ _. r.counted)
      (λ _. acked env d r 0 _ (on_vring-Shares (set_qsz msg.body.vring_state.num) i d refl)))

pub set_vring_base-Keeps : Keeps set_vring_base
unfolding set_vring_base
set_vring_base-Keeps env msg d r = on_state-Holds _ d msg r (λ i b.
    if-elim (Holds IsCounted) (d.vring i).started_in_ctl (λ _. r.counted)
      (λ _. acked env d r 0 _ (on_vring-Shares (set_last_avail msg.body.vring_state.num) i d refl)))

pub get_vring_base-Keeps : Keeps get_vring_base
unfolding get_vring_base
get_vring_base-Keeps env msg d r = on_state-Holds _ d msg r (λ i b.
    if-elim (Holds IsCounted) (d.vring i).started_in_ctl
      (λ _. shared env d r _ (on_vring-Shares ask_base i d refl))
      (λ _. replied env d r (vring_state i (d.vring i).vq.last_avail) d (Shares-refl d)))

pub vring_enable-Keeps : Keeps vring_enable
unfolding vring_enable
vring_enable-Keeps env msg d r = on_state-Holds _ d msg r (λ i b.
    if-elim (Holds IsCounted) (not (test_bit d.negotiated_features 30)) (λ _. r.counted)
      (λ _.
        finish_in-IsCounted env vring_enable_complete i d (on_vring toggle i d) r b
          (on_vring-Shares toggle i d refl)))

abbrev set_addr_flags : VringAddr → Vring → Vring
set_addr_flags a v = record v { shadow = record (v.shadow) { flags = a.flags } }

change_addr-Holds :
    (env : Host) (a : VringAddr) (i : ℕ) (d : Vdev)
    → IsReady d
    → i < d.num_queues
    → Holds IsCounted (change_addr env a i d)
change_addr-Holds env a i d r b =
    if-elim (Holds IsCounted) (not (d.vring i).started_in_ctl)
      (λ _.
        finish_in-IsCounted env vring_addr_complete i d (on_vring (set_addr a) i d) r b
          (on_vring-Shares (set_addr a) i d refl))
      (λ _.
        if-elim (Holds IsCounted) (not (same_addr a (d.vring i).shadow)) (λ _. r.counted)
          (λ _.
            finish_in-IsCounted env vring_addr_complete i d (on_vring (set_addr_flags a) i d) r b
              (on_vring-Shares (set_addr_flags a) i d refl)))

pub set_vring_addr-Keeps : Keeps set_vring_addr
unfolding set_vring_addr
set_vring_addr-Keeps env msg d r =
    if-elim (Holds IsCounted) (has_fds msg || ltb msg.size vring_addr_size) (λ _. r.counted)
      (λ _.
        named (Holds IsCounted) (λ i. change_addr env msg.body.vring_addr i d) d
          msg.body.vring_addr.index r.counted
          (λ i b. change_addr-Holds env msg.body.vring_addr i d r b))

set_call-Holds :
    (env : Host) (i : ℕ) (d : Vdev)
    → IsReady d
    → i < d.num_queues
    → (fd : Result (Option ℕ)) → Holds IsCounted (set_call env i d fd)
set_call-Holds env i d r b (err e) = r.counted
set_call-Holds env i d r b (ok fd) =
    if-elim (Holds IsCounted) (is_some d.keep_fd) (λ _. tt)
      (λ _.
        if-elim (Holds IsCounted) (d.vring i).started_in_ctl
          (λ _.
            let e = record d' { handle_complete = some vring_call_complete } in
            asked-IsCounted i e
              (IsReady-Shares d e
                (Shares-trans d d' e swapped (Shares-fields d' e refl refl refl refl refl)) r)
              b)
          (λ _.
            ended (complete env.os env.sent vring_call_complete d')
              (Shares-trans d d' _ swapped (complete-any env.os env.sent vring_call_complete d'))))
  where
    d' : Vdev
    d' = swap_callfd fd i d

    kept : Vdev
    kept = record d { keep_fd = (d.vring i).callfd }

    swapped : Shares d d'
    swapped =
        Shares-trans d kept d' (Shares-fields d kept refl refl refl refl refl)
          (on_vring-Shares (with_callfd fd) i kept refl)

    ended :
        (out : Vdev × Option Errno)
        → Shares d out.0
        → Holds IsCounted (or_close (undo_callfd fd i) out)
    ended (e, none) s = shared env d r e s
    ended (e, some x) s =
        let f = close_fd fd e in
        shared env d r _ (
          Shares-trans d f _ (Shares-trans d e f s (Shares-fields e f refl refl refl refl refl))
            (on_vring-Shares (with_callfd none) i f refl))

pub set_vring_call-Keeps : Keeps set_vring_call
unfolding set_vring_call
set_vring_call-Keeps env msg d r =
    named_u64 (Holds IsCounted) (λ i. set_call env i d (dup_first env msg.fds)) d msg r.counted
      (λ i b. set_call-Holds env i d r b (dup_first env msg.fds))

set_err-Holds :
    (env : Host) (i : ℕ) (d : Vdev)
    → IsReady d
    → i < d.num_queues
    → (fd : Result (Option ℕ)) → Holds IsCounted (set_err env i d fd)
set_err-Holds env i d r b (err e) = r.counted
set_err-Holds env i d r b (ok fd) =
    if-elim (Holds IsCounted) (is_some d.keep_fd) (λ _. tt)
      (λ _.
        if-elim (Holds IsCounted) (d.vring i).started_in_ctl
          (λ _.
            let e = record d' { handle_complete = some vring_err_complete } in
            asked-IsCounted i e
              (IsReady-Shares d e
                (Shares-trans d d' e swapped (Shares-fields d' e refl refl refl refl refl)) r)
              b)
          (λ _.
            ended (complete env.os env.sent vring_err_complete d')
              (Shares-trans d d' _ swapped (complete-any env.os env.sent vring_err_complete d'))))
  where
    d' : Vdev
    d' = swap_errfd fd i d

    kept : Vdev
    kept = record d { keep_fd = (d.vring i).errfd }

    swapped : Shares d d'
    swapped =
        Shares-trans d kept d' (Shares-fields d kept refl refl refl refl refl)
          (on_vring-Shares (with_errfd fd) i kept refl)

    ended :
        (out : Vdev × Option Errno)
        → Shares d out.0
        → Holds IsCounted (or_close (undo_errfd fd i) out)
    ended (e, none) s = shared env d r e s
    ended (e, some x) s =
        let f = close_fd fd e in
        shared env d r _ (
          Shares-trans d f _ (Shares-trans d e f s (Shares-fields e f refl refl refl refl refl))
            (on_vring-Shares (with_errfd none) i f refl))

pub set_vring_err-Keeps : Keeps set_vring_err
unfolding set_vring_err
set_vring_err-Keeps env msg d r =
    named_u64 (Holds IsCounted) (λ i. set_err env i d (dup_first env msg.fds)) d msg r.counted
      (λ i b. set_err-Holds env i d r b (dup_first env msg.fds))
