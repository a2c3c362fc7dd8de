-- ===== src/Vdev/Messages/Rings.antt =====
-- The messages to one vring in vdev.c: SET_VRING_NUM, BASE, ADDR, KICK, CALL, ERR and ENABLE, and
-- GET_VRING_BASE.
use yc_libvhost_server.Base.{
  ltb, ◌==◌, if◌then◌else◌, is_some, add16, test_bit, Errno, einval, enotsup, eisconn, Result, ok,
  err, ℕ, suc, ◌%◌, ◌^◌, Bool, true, ◌&&◌, ◌||◌, not, Option, none, some, List, [], ◌∷◌,
}
use yc_libvhost_server.Memmap.Host.Footprint.{undo}
use yc_libvhost_server.Memmap.Region.{Memmap}
use yc_libvhost_server.Vdev.Callbacks.{sync_to_virtq}
use yc_libvhost_server.Vdev.Counters.{num}
use yc_libvhost_server.Vdev.Lifecycle.{
  vhost_ack, send_vring_base, complete, ask_sync, ask_start, handle_msg,
}
use yc_libvhost_server.Vdev.Messages.{
  VringAddr, Msg, Host, vring_addr_size, Outcome, fail, has_fds, get_vring, msg_u64_get_vring,
  with_vring, on_state,
}
use yc_libvhost_server.Vdev.Messages.Memory.{resolved}
use yc_libvhost_server.Vdev.Types.{
  Shadow, Vring, Completion, vring_kick_complete, vring_call_complete, vring_err_complete,
  vring_addr_complete, vring_enable_complete, Vdev, set_vring, on_vring, close_fd,
}

-- `num` of the message has 32 bits, and is cut to the 16 of `qsz` and of `last_avail`.
abbrev pub unless_started : (Vdev → Outcome) → ℕ → Vdev → Outcome
unless_started handler i d = if (d.vring i).started_in_ctl then fail eisconn d else handler d

abbrev pub set_qsz : ℕ → Vring → Vring
set_qsz num v = record v { vq = record (v.vq) { qsz = num % 2 ^ 16 } }

unfoldable pub set_vring_num : Host → Msg → Vdev → Outcome
set_vring_num env msg d =
    on_state
      (λ i.
        unless_started
          (λ e. some (vhost_ack env.sent 0 (on_vring (set_qsz msg.body.vring_state.num) i e))) i d)
      d msg

abbrev pub set_last_avail : ℕ → Vring → Vring
set_last_avail num v = record v { vq = record (v.vq) { last_avail = num % 2 ^ 16 } }

unfoldable pub set_vring_base : Host → Msg → Vdev → Outcome
set_vring_base env msg d =
    on_state
      (λ i.
        unless_started
          (λ e.
            some (vhost_ack env.sent 0 (on_vring (set_last_avail msg.body.vring_state.num) i e)))
          i d)
      d msg

-- A vring that is started is stopped, and answers when it is drained.
abbrev pub ask_base : Vring → Vring
ask_base v = record v { on_drain_cb = true; stops = suc v.stops }

unfoldable pub get_vring_base : Host → Msg → Vdev → Outcome
get_vring_base env msg d =
    on_state
      (λ i.
        if (d.vring i).started_in_ctl
        then some (on_vring ask_base i d, none)
        else some (send_vring_base env.sent i d))
      d msg

abbrev pub set_addr : VringAddr → Vring → Vring
set_addr a v = record v {
  shadow = record (v.shadow) {
    desc_addr = a.desc_addr;
    used_addr = a.used_addr;
    avail_addr = a.avail_addr;
    flags = a.flags;
    used_gpa_base = a.used_gpa_base;
  };
}

-- A change that one vring takes over.
abbrev pub finish_in : Host → Completion → ℕ → Vdev → Outcome
finish_in env k i d =
    if (d.vring i).started_in_ctl
    then some (handle_msg ask_sync i (record d { handle_complete = some k }), none)
    else some (complete env.os env.sent k d)

abbrev pub same_addr : VringAddr → Shadow → Bool
same_addr a s =
    (s.desc_addr == a.desc_addr)
    && (s.used_addr == a.used_addr)
    && (s.avail_addr == a.avail_addr)
    && (s.used_gpa_base == a.used_gpa_base)

-- Of a started vring only the flags may change.
abbrev pub change_addr : Host → VringAddr → ℕ → Vdev → Outcome
change_addr env a i d =
    if not (d.vring i).started_in_ctl
    then finish_in env vring_addr_complete i (on_vring (set_addr a) i d)
    else if not (same_addr a (d.vring i).shadow)
    then fail eisconn d
    else finish_in env vring_addr_complete i
        (on_vring (λ v. record v { shadow = record (v.shadow) { flags = a.flags } }) i d)

unfoldable pub set_vring_addr : Host → Msg → Vdev → Outcome
set_vring_addr env msg d =
    if has_fds msg || ltb msg.size vring_addr_size
    then fail einval d
    else with_vring (λ i. change_addr env msg.body.vring_addr i d) d
        (get_vring d msg.body.vring_addr.index)

-- The descriptor that came along, duplicated; none if there is none.
abbrev pub dup_first : Host → List ℕ → Result (Option ℕ)
dup_first env [] = ok none
dup_first env (fd ∷ fds) = duplicated (env.dup fd)
  where
    duplicated : Result ℕ → Result (Option ℕ)
    duplicated (err e) = err e
    duplicated (ok new) = ok (some new)

-- The answer of SET_VRING_CALL or SET_VRING_ERR to a vring that is not started; on an error the
-- new descriptor is closed.
abbrev pub or_close : (Vdev → Vdev) → Vdev × Option Errno → Outcome
or_close undo (d, none) = some (d, none)
or_close undo (d, some e) = some (undo d, some e)

abbrev pub with_callfd : Option ℕ → Vring → Vring
with_callfd callfd v = record v { callfd = callfd }

-- The old descriptor is kept open until the vring has left it.
abbrev pub swap_callfd : Option ℕ → ℕ → Vdev → Vdev
swap_callfd callfd i d = on_vring (with_callfd callfd) i (record d { keep_fd = (d.vring i).callfd })

abbrev pub undo_callfd : Option ℕ → ℕ → Vdev → Vdev
undo_callfd callfd i d = on_vring (with_callfd none) i (close_fd callfd d)

-- vhost_set_vring_call, once the descriptor is duplicated.
abbrev pub set_call : Host → ℕ → Vdev → Result (Option ℕ) → Outcome
set_call env i d (err e) = fail e d
set_call env i d (ok callfd) =
    let d' = swap_callfd callfd i d in
    if is_some d.keep_fd
    then none
    else if (d.vring i).started_in_ctl
    then some
        (handle_msg ask_sync i (record d' { handle_complete = some vring_call_complete }), none)
    else or_close (undo_callfd callfd i) (complete env.os env.sent vring_call_complete d')

unfoldable pub set_vring_call : Host → Msg → Vdev → Outcome
set_vring_call env msg d =
    with_vring (λ i. set_call env i d (dup_first env msg.fds)) d (msg_u64_get_vring d msg)

abbrev pub with_errfd : Option ℕ → Vring → Vring
with_errfd errfd v = record v { errfd = errfd }

-- The old descriptor is kept open until the vring has left it.
abbrev pub swap_errfd : Option ℕ → ℕ → Vdev → Vdev
swap_errfd errfd i d = on_vring (with_errfd errfd) i (record d { keep_fd = (d.vring i).errfd })

abbrev pub undo_errfd : Option ℕ → ℕ → Vdev → Vdev
undo_errfd errfd i d = on_vring (with_errfd none) i (close_fd errfd d)

-- vhost_set_vring_err, once the descriptor is duplicated.
abbrev pub set_err : Host → ℕ → Vdev → Result (Option ℕ) → Outcome
set_err env i d (err e) = fail e d
set_err env i d (ok errfd) =
    let d' = swap_errfd errfd i d in
    if is_some d.keep_fd
    then none
    else if (d.vring i).started_in_ctl
    then some
        (handle_msg ask_sync i (record d' { handle_complete = some vring_err_complete }), none)
    else or_close (undo_errfd errfd i) (complete env.os env.sent vring_err_complete d')

unfoldable pub set_vring_err : Host → Msg → Vdev → Outcome
set_vring_err env msg d =
    with_vring (λ i. set_err env i d (dup_first env msg.fds)) d (msg_u64_get_vring d msg)

-- The start of a vring whose addresses are resolved: the assertions are that it has no kick
-- descriptor, and that of virtio_virtq_init.
abbrev pub started_vring : ℕ → Vring → Vring
started_vring kickfd v =
    let synced = sync_to_virtq (record v { kickfd = some kickfd }) in
    record synced { vq = record (synced.vq) { has_buffers = true }; started_in_ctl = true }

abbrev pub count_start : Vdev → Vdev
count_start d = record d {
  num_vrings_started = add16 d.num_vrings_started 1;
  num_vrings_in_flight = add16 d.num_vrings_in_flight 1;
  handle_complete = some vring_kick_complete;
}

-- virtio_virtq_init also asserts that the batches of the inflight region are of one request, which
-- lies in memory that a session does not see.
abbrev pub start_vring : ℕ → ℕ → Vring → Vdev → Outcome
start_vring kickfd i v d =
    if is_some v.kickfd || v.vq.has_buffers
    then none
    else some (handle_msg ask_start i (count_start (set_vring i (started_vring kickfd v) d)), none)

abbrev pub kick_with : ℕ → Vring → Vdev → Result ℕ → Outcome
kick_with i v d (err e) = fail e (set_vring i v d)
kick_with i v d (ok kickfd) = start_vring kickfd i v d

abbrev pub kick_resolved : Host → ℕ → ℕ → Vdev → Option Vring → Outcome
kick_resolved env fd i d none = fail einval d
kick_resolved env fd i d (some v) = kick_with i v d (env.dup fd)

-- Without a memory table the addresses are resolved in a null map, which none stands for.
abbrev pub kick_in : Host → ℕ → ℕ → Option Memmap → Vdev → Outcome
kick_in env fd i none d = none
kick_in env fd i (some mm) d = kick_resolved env fd i d (resolved mm (d.vring i))

abbrev pub set_kick : Host → List ℕ → ℕ → Vdev → Outcome
set_kick env [] i d = fail enotsup d
set_kick env (fd ∷ fds) i d =
    if (d.vring i).started_in_ctl then fail eisconn d else kick_in env fd i d.memmap d

unfoldable pub set_vring_kick : Host → Msg → Vdev → Outcome
set_vring_kick env msg d = with_vring (λ i. set_kick env msg.fds i d) d (msg_u64_get_vring d msg)

abbrev pub toggle : Vring → Vring
toggle v = record v { shadow = record (v.shadow) { enabled = not v.shadow.enabled } }

-- The message is taken as a toggle: its number, 0 or 1, is not read.
unfoldable pub vring_enable : Host → Msg → Vdev → Outcome
vring_enable env msg d =
    on_state
      (λ i.
        if not (test_bit d.negotiated_features 30)
        then fail einval d
        else finish_in env vring_enable_complete i (on_vring toggle i d))
      d msg
