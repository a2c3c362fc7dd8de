-- ===== src/Vdev/Drains.antt =====
-- vring_mark_drained and vring_start_failed_bh of vdev.c, and the counters of vdev.h.
use mathlib.Core.Option
use yc_libvhost_server.Base.{
  ◌==◌, if◌then◌else◌, Bool-cases, sub16, ◌>>=◌, ℕ, ◌<◌, ◌≡◌, refl, ap, ◌∙◌, inl, inr, Bool, true,
  false, Option, none, some, arith,
}
use yc_libvhost_server.Memmap.Host.{Os}
use yc_libvhost_server.Vdev.Callbacks.{release_vq, call_on_drain, count_drained, mark_drained}
use yc_libvhost_server.Vdev.Controls.{
  IsAnswered, Shares-fields, on_vring-Shares, vdev_maybe_finished-some,
}
use yc_libvhost_server.Vdev.Counters.{Key, key, put_self, Shares, Shares-refl, Shares-trans}
use yc_libvhost_server.Vdev.Lifecycle.{send_vring_base, vdev_maybe_finished}
use yc_libvhost_server.Vdev.Types.{Vring, Vdev, set_vring, on_vring, empty_vq}

-- A vring that has drained, and a device with one that was counted out.
abbrev pub drained_vring : Vring → Vring
drained_vring v = record v { started_in_ctl = false; vq = empty_vq }

abbrev pub drained_out : ℕ → Vdev → Vdev
drained_out i d = record (set_vring i (drained_vring (d.vring i)) d) {
  num_vrings_in_flight = sub16 d.num_vrings_in_flight 1;
}

abbrev out_of_ctl : Vring → Vring
out_of_ctl v = record v { started_in_ctl = false }

abbrev cleared_vq : Vring → Vring
cleared_vq v = record v { vq = empty_vq }

-- Clearing the virtqueue of a vring, on devices that share their counters.
cleared-Shares :
    (i : ℕ) (d d' : Vdev)
    → Shares d d'
    → Shares (on_vring cleared_vq i d) (on_vring cleared_vq i d')
cleared-Shares i d d' s = record {
  keys = λ j. keys j (j == i);
  queues = s.queues;
  started = s.started;
  flying = s.flying;
  handling = s.handling;
}
  where
    keys :
        (j : ℕ) (b : Bool)
        → key (if b then cleared_vq (d'.vring i) else d'.vring j)
          ≡ key (if b then cleared_vq (d.vring i) else d.vring j)
    keys j true = ap {A = Key} (λ k. record k { buffers = false }) (s.keys i)
    keys j false = s.keys j

out-Shares :
    (i : ℕ) (d : Vdev)
    → Shares
        (set_vring i (drained_vring (d.vring i)) d)
        (on_vring cleared_vq i (on_vring out_of_ctl i d))
out-Shares i d = record {
  keys = λ j. keys j (j == i);
  queues = refl;
  started = refl;
  flying = refl;
  handling = refl;
}
  where
    keys :
        (j : ℕ) (b : Bool)
        → key (
            if b
            then cleared_vq ((on_vring out_of_ctl i d).vring i)
            else if b
            then out_of_ctl (d.vring i)
            else d.vring j)
          ≡ key (if b then drained_vring (d.vring i) else d.vring j)
    keys j true = ap (λ v. key (cleared_vq v)) (put_self d.vring i (out_of_ctl (d.vring i)))
    keys j false = refl

no_map : (o : Option Bool) → Option.map (λ b. true) o ≡ none → o ≡ none
no_map none e = refl
no_map (some b) e = cc

-- The answer to VHOST_USER_GET_VRING_BASE, which the host sends, if the client waits for it.
call_on_drain-some :
    (os : Os) (i : ℕ) (d : Vdev)
    → IsAnswered d
    → (d' : Vdev) × (call_on_drain os none i d ≡ some d') × Shares d d' × IsAnswered d'
call_on_drain-some os i d answered = elim (Bool-cases (d.vring i).on_drain_cb) [
  | inl waits ↦ (
    called,
    ap (λ b. if b then some called else some d) waits,
    Shares-trans d replied called (Shares-fields d replied refl refl refl refl refl)
        (on_vring-Shares (λ v. record v { on_drain_cb = false }) i replied refl),
    λ c h.
        let q = answered (no_map d.conn_handler c) h in
        record {
          no_req = refl;
          no_old_memmap = q.no_old_memmap;
          no_old_memlog = q.no_old_memlog;
          no_keep_fd = q.no_keep_fd;
        },
  )
  | inr none_waits ↦
      (d, ap (λ b. if b then some called else some d) none_waits, Shares-refl d, answered)
]
  where
    replied : Vdev
    replied = (send_vring_base none i d).0

    called : Vdev
    called = on_vring (λ v. record v { on_drain_cb = false }) i replied

-- A vring that has drained: its assertions hold, and it is counted out.
pub mark_drained-some :
    (os : Os) (i : ℕ) (d : Vdev)
    → (d.vring i).started_in_ctl ≡ true
    → (d.vring i).vq.has_buffers ≡ true
    → 0 < d.num_vrings_in_flight
    → IsAnswered d
    → (d' : Vdev) × (mark_drained os none i d ≡ some d') × Shares (drained_out i d) d'
unfolding mark_drained
mark_drained-some os i d on buffered there answered =
    let d1 = on_vring out_of_ctl i d in
    let (d2, e2, s2, a2) = call_on_drain-some os i d1 (λ c h.
      let q = answered c h in
      record {
        no_req = q.no_req;
        no_old_memmap = q.no_old_memmap;
        no_old_memlog = q.no_old_memlog;
        no_keep_fd = q.no_keep_fd;
      }) in
    let d3 = on_vring cleared_vq i d2 in
    let full : (d2.vring i).vq.has_buffers ≡ true =
      ap (λ k. k.buffers) (s2.keys i)
      ∙ ap (λ v. v.vq.has_buffers) (put_self d.vring i (out_of_ctl (d.vring i)))
      ∙ buffered in
    let less = record d3 { num_vrings_in_flight = sub16 d3.num_vrings_in_flight 1 } in
    let counted : (d2.num_vrings_in_flight == 0) ≡ false = ground (arith, s2.flying) in
    let (d4, e4, s4) = vdev_maybe_finished-some os less (λ c h.
      let q = a2 c h in
      record {
        no_req = q.no_req;
        no_old_memmap = q.no_old_memmap;
        no_old_memlog = q.no_old_memlog;
        no_keep_fd = q.no_keep_fd;
      }) in
    let cleared = cleared-Shares i d1 d2 s2 in
    let out = out-Shares i d in
    (
      d4,
      ap (λ b. if b then after (call_on_drain os none i d1) else none) on
          ∙ ap after e2
          ∙ ap (λ b. (if b then some d3 else none) >>= count_drained os) full
          ∙ ap (λ b. if b then none else vdev_maybe_finished os less) counted
          ∙ e4,
      Shares-trans (drained_out i d) less d4
          (record {
            keys = λ j. cleared.keys j ∙ out.keys j;
            queues = cleared.queues;
            started = cleared.started;
            flying = ap (λ n. sub16 n 1) cleared.flying;
            handling = cleared.handling;
          })
          s4,
    )
  where
    after : Option Vdev → Option Vdev
    after o = do d' ← o; d'' ← release_vq i d'; count_drained os d''
