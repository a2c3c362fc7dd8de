-- ===== src/Vdev/Rings.antt =====
-- What the callbacks that run in a request queue do to the counters of vdev.h.
use yc_libvhost_server.Base.{
  ◌==◌, if◌then◌else◌, Bool-cases, if-elim, sub16, ℕ, zero, suc, ◌+◌, ◌-◌, ◌^◌, ◌≤◌, ◌<◌, ◌≡◌, refl,
  ap, ◌∙◌, inl, inr, Bool, true, false, ◌&&◌, ◌||◌, not, some, arith,
}
use yc_libvhost_server.Vdev.Callbacks.{
  sync_to_virtq, sync_bh, start_as, start_bh, cancel_requests, stop_bh,
}
use yc_libvhost_server.Vdev.Counters.{num, key, IsSound, IsCounted, IsCounted-put}
use yc_libvhost_server.Vdev.Flight.{Flight, inc_in_flight, dec_in_flight}
use yc_libvhost_server.Vdev.Types.{Vring, Vdev, set_vring, on_vring}

-- vring_start_bh meets no vring that is started, whether it attaches the handler or fails.
pub start_bh-IsCounted :
    (attached : Bool) (i : ℕ) (d : Vdev)
    → IsCounted d
    → i < d.num_queues
    → 0 < (d.vring i).starts
    → (v : Vring) × (start_bh attached (d.vring i) ≡ some v) × IsCounted (set_vring i v d)
start_bh-IsCounted attached i d c b asked = elim (Bool-cases (v.disconnecting || not attached)) [
  | inl y ↦ (
    record v { starts = v.starts - 1; failed = suc v.failed },
    ap (λ b. start_as b (v.disconnecting || not attached) v) idle ∙ ap (λ r. start_as false r v) y,
    IsCounted-put d i (record v { starts = v.starts - 1; failed = suc v.failed }) _ _ _ c b
        (record {
          one_phase = omega (arith, s.one_phase);
          one_stop = omega (arith, s.one_stop);
          one_message = omega (arith, s.one_message);
          buffered = s.buffered;
        })
        (omega arith) refl (omega arith),
  )
  | inr n ↦ (
    started,
    ap (λ b. start_as b (v.disconnecting || not attached) v) idle ∙ ap (λ r. start_as false r v) n,
    IsCounted-put d i started _ _ _ c b
        (record {
          one_phase = ground (arith, s.one_phase);
          one_stop = ground (arith, s.one_stop);
          one_message = omega (arith, s.one_message);
          buffered = s.buffered;
        })
        (ground (arith, idle)) refl (omega arith),
  )
]
  where
    v : Vring
    v = d.vring i

    s : IsSound (key v)
    s = c.sound i b

    idle : v.flight.started_in_rq ≡ false
    idle = ground (arith, s.one_phase)

    started : Vring
    started = record (sync_to_virtq v) {
      has_kick_handler = true;
      flight = record (v.flight) { started_in_rq = true };
      starts = v.starts - 1;
      handled = suc v.handled;
    }

pub sync_bh-IsCounted :
    (i : ℕ) (d : Vdev)
    → IsCounted d
    → i < d.num_queues
    → 0 < (d.vring i).syncs
    → IsCounted (on_vring sync_bh i d)
sync_bh-IsCounted i d c b asked =
    IsCounted-put d i (sync_bh (d.vring i)) _ _ _ c b
      (record {
        one_phase = s.one_phase;
        one_stop = s.one_stop;
        one_message = omega (arith, s.one_message);
        buffered = s.buffered;
      })
      refl refl (omega arith)
  where
    s : IsSound (key (d.vring i))
    s = c.sound i b

-- A request enters a vring that is started, which has fewer than 2^16 - 1 of them.
pub inc_in_flight-IsCounted :
    (i : ℕ) (d : Vdev)
    → IsCounted d
    → i < d.num_queues
    → (d.vring i).flight.started_in_rq ≡ true
    → (d.vring i).flight.num_in_flight + 1 < 2 ^ 16
    → IsCounted (on_vring (λ v. record v { flight = inc_in_flight v.flight }) i d)
inc_in_flight-IsCounted i d c b on small =
    IsCounted-put d i (record (d.vring i) { flight = inc_in_flight (d.vring i).flight }) _ _ _ c b
      (record {
        one_phase = ground (arith, s.one_phase);
        one_stop = s.one_stop;
        one_message = s.one_message;
        buffered = s.buffered;
      })
      refl refl refl
  where
    s : IsSound (key (d.vring i))
    s = c.sound i b

-- The end of a request: the last one of a vring that has stopped marks it as drained.
dec_cases :
    (f : Flight)
    → 0 < f.num_in_flight
    → f.num_in_flight < 2 ^ 16
    → let f' = dec_in_flight f in
      (f'.started_in_rq ≡ f.started_in_rq)
      × (f'.num_in_flight ≡ f.num_in_flight - 1)
      × (f'.drained
          ≡ (if (f.num_in_flight == 1) && not f.started_in_rq then suc f.drained else f.drained))
dec_cases f some_left small =
    if-elim {A = Flight}
      (λ f'.
        (f'.started_in_rq ≡ f.started_in_rq)
        × (f'.num_in_flight ≡ f.num_in_flight - 1)
        × (f'.drained
            ≡ (if (f.num_in_flight == 1) && not f.started_in_rq then suc f.drained else f.drained)))
      ((sub16 f.num_in_flight 1 == 0) && not f.started_in_rq)
      (λ y. (refl, omega arith, ground arith)) (λ n. (refl, omega arith, ground arith))

pub dec_in_flight-IsCounted :
    (i : ℕ) (d : Vdev)
    → IsCounted d
    → i < d.num_queues
    → 0 < (d.vring i).flight.num_in_flight
    → (d.vring i).flight.num_in_flight < 2 ^ 16
    → IsCounted (on_vring (λ v. record v { flight = dec_in_flight v.flight }) i d)
dec_in_flight-IsCounted i d c b some_left small =
    IsCounted-put d i (record (d.vring i) { flight = dec_in_flight (d.vring i).flight }) _ _ _ c b
      (record {
        one_phase = ground (arith, s.one_phase, same_rq, fewer, drains);
        one_stop = ground (arith, s.one_stop, same_rq);
        one_message = s.one_message;
        buffered = s.buffered;
      })
      (ground (arith, same_rq)) refl refl
  where
    s : IsSound (key (d.vring i))
    s = c.sound i b

    effect :
        let f = (d.vring i).flight in
        let f' = dec_in_flight f in
        (f'.started_in_rq ≡ f.started_in_rq)
        × (f'.num_in_flight ≡ f.num_in_flight - 1)
        × (f'.drained
            ≡ (if (f.num_in_flight == 1) && not f.started_in_rq then suc f.drained else f.drained))
    effect = dec_cases (d.vring i).flight some_left small

    same_rq : (dec_in_flight (d.vring i).flight).started_in_rq ≡ (d.vring i).flight.started_in_rq
    same_rq = effect.0

    fewer : (dec_in_flight (d.vring i).flight).num_in_flight ≡ (d.vring i).flight.num_in_flight - 1
    fewer = effect.1

    drains : (dec_in_flight (d.vring i).flight).drained ≡ (
        if ((d.vring i).flight.num_in_flight == 1) && not (d.vring i).flight.started_in_rq
        then suc (d.vring i).flight.drained
        else (d.vring i).flight.drained)
    drains = effect.2

-- The requests that a stopping vring cancels are some of those in flight, and it is not marked as
-- drained while they are, since it is still started.
cancel_requests_lem :
    (n : ℕ) (f : Flight)
    → n ≤ f.num_in_flight
    → f.num_in_flight < 2 ^ 16
    → f.started_in_rq ≡ true
    → let f' = cancel_requests n f in
      (f'.num_in_flight ≡ f.num_in_flight - n) × (f'.drained ≡ f.drained)
unfolding cancel_requests
cancel_requests_lem zero f few small on = (omega arith, refl)
cancel_requests_lem (suc n) f few small on =
    let (rq, num, drained) = dec_cases f (omega arith) small in
    let (num', drained') =
      cancel_requests_lem n (dec_in_flight f) (omega (arith, num)) (omega (arith, num)) (rq ∙ on) in
    (omega (arith, num', num), ground (arith, drained', drained))

-- vring_stop_bh hands over one notice that the vring has stopped, and one that it has drained if
-- it has no request left, both only if it was started.
pub stop_bh-IsCounted :
    (queued i : ℕ) (d : Vdev)
    → IsCounted d
    → i < d.num_queues
    → queued ≤ (d.vring i).flight.num_in_flight
    → (d.vring i).flight.num_in_flight < 2 ^ 16
    → IsCounted (on_vring (stop_bh queued) i d)
unfolding stop_bh
stop_bh-IsCounted queued i d c b some_of small =
    if-elim {A = Vring} (λ w. IsCounted (set_vring i w d)) v.flight.started_in_rq
      (λ on.
        let left : Flight = if v.disconnecting then cancel_requests queued v.flight else v.flight in
        let same : left.drained ≡ v.flight.drained =
          if-elim {A = Flight} (λ f. f.drained ≡ v.flight.drained) v.disconnecting
            (λ _. (cancel_requests_lem queued v.flight some_of small on).1) (λ _. refl) in
        IsCounted-put d i _ _ _ _ c b
          (record {
            one_phase = ground (arith, s.one_phase, same);
            one_stop = ground (arith, s.one_stop);
            one_message = s.one_message;
            buffered = s.buffered;
          })
          (ground arith) refl refl)
      (λ off.
        IsCounted-put d i (record v { stops = v.stops - 1 }) _ _ _ c b
          (record {
            one_phase = s.one_phase;
            one_stop = s.one_stop;
            one_message = s.one_message;
            buffered = s.buffered;
          })
          refl refl refl)
  where
    v : Vring
    v = d.vring i

    s : IsSound (key v)
    s = c.sound i b
