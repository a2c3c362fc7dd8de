-- ===== src/Vdev/Messages/Kicks.antt =====
-- vhost_set_vring_kick of vdev.c starts a vring, and counts it.
use mathlib.Core.Path.{subst}
use yc_libvhost_server.Base.{
  ◌==◌, if◌then◌else◌, if-elim, if-elim_both, is_some, add16, Result, ok, err, ◌>>=◌, ℕ, suc, ◌≤◌,
  ◌<◌, ◌≡◌, refl, sym, ap, ◌∙◌, false, ◌||◌, Option, none, some, List, [], ◌∷◌, arith,
}
use yc_libvhost_server.Memmap.Region.{Memmap}
use yc_libvhost_server.Memmap.Translate.{uva_to_ptr}
use yc_libvhost_server.Vdev.Controls.{on_vring-Shares}
use yc_libvhost_server.Vdev.Counters.{
  key, IsSound, started_of, flying_of, handling_of, IsCounted, put_self, total-part, total-le,
  Shares, IsCounted-Shares, IsCounted-put,
}
use yc_libvhost_server.Vdev.Lifecycle.{ask_start}
use yc_libvhost_server.Vdev.Messages.{Host}
use yc_libvhost_server.Vdev.Messages.Counted.{IsReady, Holds}
use yc_libvhost_server.Vdev.Messages.Memory.{resolved}
use yc_libvhost_server.Vdev.Messages.Rings.{
  started_vring, count_start, start_vring, kick_with, kick_resolved, kick_in, set_kick,
  set_vring_kick,
}
use yc_libvhost_server.Vdev.Messages.Sessions.{Keeps}
use yc_libvhost_server.Vdev.Messages.Starts.{named_u64}
use yc_libvhost_server.Vdev.Types.{Vring, Vdev, set_vring, on_vring}

module _ (kickfd i : ℕ) (v : Vring) (d : Vdev) (r : IsReady d) (b : i < d.num_queues) where
  -- The vring when it waits for vring_start_bh.
  waiting : Vring
  waiting = record (started_vring kickfd v) { starts = suc v.starts }

  base : Vdev
  base = record (set_vring i waiting d) {
    num_vrings_started = add16 d.num_vrings_started 1;
    num_vrings_in_flight = add16 d.num_vrings_in_flight 1;
    num_vrings_handling_msg = add16 d.num_vrings_handling_msg 1;
  }

  base-IsCounted : key v ≡ key (d.vring i) → (d.vring i).started_in_ctl ≡ false → IsCounted base
  unfolding waiting base
  base-IsCounted same off =
      IsCounted-put d i waiting _ _ _ r.counted b
        (record {
          one_phase = ground (arith, s.one_phase, st, rq, nr, fa, dr);
          one_stop = ground (arith, s.one_phase, rested, st, rq, fa, sp);
          one_message = ground (arith, idle, st, sy, ha, fa);
          buffered = refl;
        })
        (ground (arith, s.one_phase, few, st, rq, fa, sp)) (ground (arith, few', off))
        (ground (arith, idle, r.settled, st, sy, ha, fa))
    where
      s : IsSound (key (d.vring i))
      s = r.counted.sound i b

      rested : (d.vring i).stopped ≡ 0
      rested = r.rested i off

      st : v.starts ≡ (d.vring i).starts
      st = ap (λ k. k.starts) same

      sy : v.syncs ≡ (d.vring i).syncs
      sy = ap (λ k. k.syncs) same

      ha : v.handled ≡ (d.vring i).handled
      ha = ap (λ k. k.handled) same

      fa : v.failed ≡ (d.vring i).failed
      fa = ap (λ k. k.failed) same

      sp : v.stopped ≡ (d.vring i).stopped
      sp = ap (λ k. k.stopped) same

      dr : v.flight.drained ≡ (d.vring i).flight.drained
      dr = ap (λ k. k.drained) same

      nr : v.flight.num_in_flight ≡ (d.vring i).flight.num_in_flight
      nr = ap (λ k. k.requests) same

      rq : v.flight.started_in_rq ≡ (d.vring i).flight.started_in_rq
      rq = ap (λ k. k.in_rq) same

      idle : handling_of (key (d.vring i)) ≡ 0
      idle =
          omega
            (arith, total-part handling_of d.num_queues i d.vring b, r.counted.handling, r.settled)

      few : d.num_vrings_started ≤ 256
      few = omega (
        arith,
        r.counted.started,
        r.counted.few,
        total-le started_of d.num_queues d.vring (λ j h. (r.counted.sound j h).one_stop),
      )

      few' : d.num_vrings_in_flight ≤ 256
      few' = omega (
        arith,
        r.counted.flying,
        r.counted.few,
        total-le flying_of d.num_queues d.vring (λ j h.
            if-elim {A = ℕ} (λ n. n ≤ 1) (d.vring j).started_in_ctl (λ _. omega arith)
              (λ _. omega arith)),
      )

  counted : Vdev
  counted = count_start (set_vring i (started_vring kickfd v) d)

  asked : Vdev
  asked = record (on_vring ask_start i counted) {
    num_vrings_handling_msg = add16 d.num_vrings_handling_msg 1;
  }

  base-asked : Shares base asked
  unfolding waiting base counted asked
  base-asked = record {
    keys = λ j.
        if-elim_both {A = Vring} {B = Vring} (λ x y. key x ≡ key y) (j == i)
          (λ y. ap (λ w. key (ask_start w)) (put_self d.vring i (started_vring kickfd v)))
          (λ n.
            if-elim {A = Vring} (λ w. key w ≡ key (d.vring j)) (j == i) (λ y. absurd (ground arith))
              (λ _. refl));
    queues = refl;
    started = refl;
    flying = refl;
    handling = refl;
  }

  start_vring-Holds :
      key v ≡ key (d.vring i)
      → (d.vring i).started_in_ctl ≡ false
      → Holds IsCounted (start_vring kickfd i v d)
  unfolding counted asked
  start_vring-Holds same off =
      if-elim (Holds IsCounted) (is_some v.kickfd || v.vq.has_buffers) (λ _. tt)
        (λ _.
          subst IsCounted
            (ap (λ x. if x then asked else counted)
              (sym (ap (λ w. w.started_in_ctl) (put_self d.vring i (started_vring kickfd v)))))
            (IsCounted-Shares base asked base-asked (base-IsCounted same off)))

kick_with-Holds :
    (env : Host) (i : ℕ) (v : Vring) (d : Vdev)
    → IsReady d
    → i < d.num_queues
    → key v ≡ key (d.vring i)
    → (d.vring i).started_in_ctl ≡ false
    → (answer : Result ℕ) → Holds IsCounted (kick_with i v d answer)
kick_with-Holds env i v d r b same off (err e) =
    IsCounted-Shares d (set_vring i v d) (on_vring-Shares (λ w. v) i d same) r.counted
kick_with-Holds env i v d r b same off (ok kickfd) = start_vring-Holds kickfd i v d r b same off

resolved-key :
    (mm : Memmap) (v : Vring) (o : Option Vring)
    → resolved mm v ≡ o
    → (w : Vring) → o ≡ some w
    → key w ≡ key v
resolved-key mm v o e w p =
    cases (uva_to_ptr mm v.shadow.desc_addr) (uva_to_ptr mm v.shadow.used_addr)
      (uva_to_ptr mm v.shadow.avail_addr) (e ∙ p)
  where
    cases :
        (desc used avail : Option ℕ)
        → (do
          a ← desc
          b ← used
          c ← avail
          some (record v {
            shadow = record (v.shadow) {
              desc = some a;
              used = some b;
              avail = some c;
              mm = some mm;
            };
          }))
          ≡ some w
        → key w ≡ key v
    cases none used avail q = cc
    cases (some a) none avail q = cc
    cases (some a) (some b) none q = cc
    cases (some a) (some b) (some c) q = cc

pub set_vring_kick-Keeps : Keeps set_vring_kick
unfolding set_vring_kick
set_vring_kick-Keeps env msg d r =
    named_u64 (Holds IsCounted) (λ i. set_kick env msg.fds i d) d msg r.counted
      (λ i b. kicked i b msg.fds)
  where
    outcome :
        (fd i : ℕ) (mm : Memmap)
        → i < d.num_queues
        → (d.vring i).started_in_ctl ≡ false
        → (o : Option Vring) → resolved mm (d.vring i) ≡ o
        → Holds IsCounted (kick_resolved env fd i d o)
    outcome fd i mm b off none e = r.counted
    outcome fd i mm b off (some v) e =
        kick_with-Holds env i v d r b (resolved-key mm (d.vring i) (some v) e v refl) off
          (env.dup fd)

    mapped :
        (fd i : ℕ)
        → i < d.num_queues
        → (d.vring i).started_in_ctl ≡ false
        → (o : Option Memmap) → Holds IsCounted (kick_in env fd i o d)
    mapped fd i b off none = tt
    mapped fd i b off (some mm) = outcome fd i mm b off (resolved mm (d.vring i)) refl

    kicked : (i : ℕ) → i < d.num_queues → (fds : List ℕ) → Holds IsCounted (set_kick env fds i d)
    kicked i b [] = r.counted
    kicked i b (fd ∷ fds) =
        if-elim (Holds IsCounted) (d.vring i).started_in_ctl (λ _. r.counted)
          (λ off. mapped fd i b off d.memmap)
