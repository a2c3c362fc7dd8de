-- ===== src/Vdev/Controls.antt =====
-- What the callbacks that run in the control event loop do to the counters of vdev.h.
use mathlib.Core.Option
use yc_libvhost_server.Base.{
  ◌==◌, if◌then◌else◌, ==_iff, Bool-cases, if-elim, is_some, ℕ, zero, suc, ◌≡◌, refl, sym, ap, ◌∙◌,
  inl, inr, Bool, false, Option, none, some, ◌∷◌, arith,
}
use yc_libvhost_server.Memmap.Host.{Os}
use yc_libvhost_server.Vdev.Counters.{key, Shares, Shares-refl, Shares-trans}
use yc_libvhost_server.Vdev.Lifecycle.{
  vdev_in_use, vring_reset, close_vring, reset_vrings, is_unfinished, cleaned, listen_or_release,
  vdev_drained, tell_stopped, vdev_maybe_finished,
}
use yc_libvhost_server.Vdev.Types.{Vring, Vdev, on_vring}

-- The fields that a message sets and its completion clears.
pub record IsQuiet (d : Vdev) : Type 0 where
  pub no_req : d.req ≡ 0
  pub no_old_memmap : d.old_memmap ≡ none
  pub no_old_memlog : d.old_memlog ≡ none
  pub no_keep_fd : d.keep_fd ≡ none

-- A device without a connection that handles no message has finished the last one.
abbrev pub IsAnswered : Vdev → Type 0
IsAnswered d = d.conn_handler ≡ none → d.num_vrings_handling_msg ≡ 0 → IsQuiet d

pub Shares-fields :
    (d d' : Vdev)
    → d'.vring ≡ d.vring
    → d'.num_queues ≡ d.num_queues
    → d'.num_vrings_started ≡ d.num_vrings_started
    → d'.num_vrings_in_flight ≡ d.num_vrings_in_flight
    → d'.num_vrings_handling_msg ≡ d.num_vrings_handling_msg
    → Shares d d'
Shares-fields d d' v q s f h = record {
  keys = λ i. ap (λ vring. key (vring i)) v;
  queues = q;
  started = s;
  flying = f;
  handling = h;
}

-- A change of one vring that its key does not see.
pub on_vring-Shares :
    (f : Vring → Vring) (i : ℕ) (d : Vdev)
    → key (f (d.vring i)) ≡ key (d.vring i)
    → Shares d (on_vring f i d)
on_vring-Shares f i d same = record {
  keys = λ j.
      if-elim (λ w. key w ≡ key (d.vring j)) (j == i)
        (λ y. same ∙ ap (λ k. key (d.vring k)) (sym ((==_iff j i).0 y))) (λ _. refl);
  queues = refl;
  started = refl;
  flying = refl;
  handling = refl;
}

reset_vrings-Shares : (n : ℕ) (d : Vdev) → Shares d (reset_vrings n d)
unfolding reset_vrings
reset_vrings-Shares zero d = Shares-refl d
reset_vrings-Shares (suc n) d =
    let d' = reset_vrings n d in
    let c = close_vring (d.vring n) d' in
    Shares-trans d d' (on_vring vring_reset n c) (reset_vrings-Shares n d) (
      Shares-trans d' c (on_vring vring_reset n c) (Shares-fields d' c refl refl refl refl refl)
        (on_vring-Shares vring_reset n c refl))

-- Posting the result of a piece of work changes nothing else.
pub tell_stopped-elim {ℓ} :
    (P : Vdev → Type ℓ) (d : Vdev)
    → P d
    → P (record d { queued_work = false; finished_work = 0 ∷ d.finished_work })
    → P (tell_stopped d)
tell_stopped-elim P d same told =
    if-elim P (d.num_vrings_started == 0)
      (λ _.
        if-elim P (is_some d.listen_handler) (λ _. same)
          (λ _. if-elim P d.queued_work (λ _. told) (λ _. same)))
      (λ _. same)

cleaned-Shares : (os : Os) (d : Vdev) → Shares d (cleaned os d)
cleaned-Shares os d = Shares-fields d _ refl refl refl refl refl

-- What vdev_drained leaves when no assertion of vdev_cleanup fails.
abbrev pub drained_device : Os → Vdev → Vdev
drained_device os d = listen_or_release (cleaned os (reset_vrings d.num_queues d))

drained_device-Shares : (os : Os) (d : Vdev) → Shares d (drained_device os d)
drained_device-Shares os d =
    let r = reset_vrings d.num_queues d in
    let c = cleaned os r in
    Shares-trans d c (drained_device os d)
      (Shares-trans d r c (reset_vrings-Shares d.num_queues d) (cleaned-Shares os r))
      (if-elim {A = Vdev} (Shares c) (is_some c.listen_handler)
        (λ _. Shares-fields c _ refl refl refl refl refl)
        (λ _. Shares-fields c _ refl refl refl refl refl))

vdev_drained-some :
    (os : Os) (d : Vdev)
    → d.num_vrings_handling_msg ≡ 0
    → IsQuiet d
    → vdev_drained os d ≡ some (drained_device os d)
vdev_drained-some os d h q =
    ap
      (λ b.
        Option.map listen_or_release
          (if b then none else some (cleaned os (reset_vrings d.num_queues d))))
      finished
  where
    finished : is_unfinished d ≡ false
    finished = rw (h, q.no_req, q.no_old_memmap, q.no_old_memlog, q.no_keep_fd) refl

-- A device that may be finished: it goes on, or is drained and then passes the assertions.
pub vdev_maybe_finished-some :
    (os : Os) (d : Vdev)
    → IsAnswered d
    → (d' : Vdev) × (vdev_maybe_finished os d ≡ some d') × Shares d d'
unfolding vdev_maybe_finished
vdev_maybe_finished-some os d answered =
    tell_stopped-elim
      (λ t.
        (d' : Vdev) × ((if vdev_in_use t then some t else vdev_drained os t) ≡ some d')
        × Shares d d')
      d (at d (Shares-refl d) answered)
      (at told (Shares-fields d told refl refl refl refl refl) (λ c h.
        let q = answered c h in
        record {
          no_req = q.no_req;
          no_old_memmap = q.no_old_memmap;
          no_old_memlog = q.no_old_memlog;
          no_keep_fd = q.no_keep_fd;
        }))
  where
    told : Vdev
    told = record d { queued_work = false; finished_work = 0 ∷ d.finished_work }

    no_handler : (o : Option Bool) → is_some o ≡ false → o ≡ none
    no_handler none e = refl
    no_handler (some b) e = cc

    at :
        (t : Vdev)
        → Shares d t
        → IsAnswered t
        → (d' : Vdev) × ((if vdev_in_use t then some t else vdev_drained os t) ≡ some d')
          × Shares d d'
    at t s a = elim (Bool-cases (vdev_in_use t)) [
      | inl busy ↦ (t, ap (λ b. if b then some t else vdev_drained os t) busy, s)
      | inr idle ↦
          let unused : is_some t.conn_handler ≡ false = ground arith in
          let settled : t.num_vrings_handling_msg ≡ 0 = ground arith in
          (
            drained_device os t,
            ap (λ b. if b then some t else vdev_drained os t) idle
                ∙ vdev_drained-some os t settled (a (no_handler t.conn_handler unused) settled),
            Shares-trans d t (drained_device os t) s (drained_device-Shares os t),
          )
    ]

-- A reset of vrings leaves their virtqueues alone.
pub reset_vrings-vq : (n : ℕ) (d : Vdev) (i : ℕ) → ((reset_vrings n d).vring i).vq ≡ (d.vring i).vq
unfolding reset_vrings
reset_vrings-vq zero d i = refl
reset_vrings-vq (suc n) d i =
    if-elim {A = Vring} (λ w. w.vq ≡ (d.vring i).vq) (i == n)
      (λ y.
        ap (λ k. ((reset_vrings n d).vring k).vq) (sym ((==_iff i n).0 y)) ∙ reset_vrings-vq n d i)
      (λ _. reset_vrings-vq n d i)
