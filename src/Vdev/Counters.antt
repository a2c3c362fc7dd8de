-- ===== src/Vdev/Counters.antt =====
-- The counters of vrings in vdev.h against the vrings themselves.
use mathlib.Core.Path.{subst}
use yc_libvhost_server.Base.{
  ltb, ◌==◌, if◌then◌else◌, ==_iff, Bool-cases, if-elim, ℕ, zero, suc, ◌+◌, ◌≤◌, ◌<◌, ◌≡◌, refl,
  sym, ap, ◌∙◌, ◌≢◌, inl, inr, Bool, ◌&&◌, not, arith,
}
use yc_libvhost_server.Server.{put}
use yc_libvhost_server.Vdev.Types.{Vring, Vdev, set_vring}

abbrev pub num : Bool → ℕ
num b = if b then 1 else 0

-- What the counters depend on.
pub record Key : Type 0 where
  pub in_ctl : Bool
  pub in_rq : Bool
  pub requests : ℕ
  pub drained : ℕ
  pub starts : ℕ
  pub syncs : ℕ
  pub handled : ℕ
  pub stopped : ℕ
  pub failed : ℕ
  pub buffers : Bool

abbrev pub key : Vring → Key
key v = record {
  in_ctl = v.started_in_ctl;
  in_rq = v.flight.started_in_rq;
  requests = v.flight.num_in_flight;
  drained = v.flight.drained;
  starts = v.starts;
  syncs = v.syncs;
  handled = v.handled;
  stopped = v.stopped;
  failed = v.failed;
  buffers = v.vq.has_buffers;
}

-- A vring that is started as the control loop sees it is to start, started, draining or to be
-- marked as drained, one of them at a time; it has not stopped more than once, and takes part in
-- one message at most.
pub record IsSound (k : Key) : Type 0 where
  pub one_phase :
      num k.in_ctl
      ≡ num k.in_rq + k.drained + k.starts + k.failed + num (not k.in_rq && ltb 0 k.requests)
  pub one_stop : num k.in_rq + k.stopped + k.starts + k.failed ≤ 1
  pub one_message : k.starts + k.syncs + k.handled + k.failed ≤ 1
  pub buffered : k.buffers ≡ k.in_ctl

abbrev pub started_of : Key → ℕ
started_of k = num k.in_rq + k.stopped + k.starts + k.failed

abbrev pub flying_of : Key → ℕ
flying_of k = num k.in_ctl

abbrev pub handling_of : Key → ℕ
handling_of k = k.starts + k.syncs + k.handled + k.failed

unfoldable pub total : (Key → ℕ) → ℕ → (ℕ → Vring) → ℕ
total f zero vring = 0
total f (suc n) vring = f (key (vring n)) + total f n vring

pub record IsCounted (d : Vdev) : Type 0 where
  pub few : d.num_queues ≤ 256
  pub sound : (i : ℕ) → i < d.num_queues → IsSound (key (d.vring i))
  pub started : d.num_vrings_started ≡ total started_of d.num_queues d.vring
  pub flying : d.num_vrings_in_flight ≡ total flying_of d.num_queues d.vring
  pub handling : d.num_vrings_handling_msg ≡ total handling_of d.num_queues d.vring

pub total_same :
    (f : Key → ℕ) (n : ℕ) (vring vring' : ℕ → Vring)
    → ((i : ℕ) → i < n → key (vring' i) ≡ key (vring i))
    → total f n vring' ≡ total f n vring
unfolding total
total_same f zero vring vring' same = refl
total_same f (suc n) vring vring' same =
    omega (
      arith,
      ap f (same n (omega arith)),
      total_same f n vring vring' (λ i h. same i (omega arith)),
    )

put_other : (vring : ℕ → Vring) (i j : ℕ) (v : Vring) → j ≢ i → put i v vring j ≡ vring j
put_other vring i j v n =
    if-elim (λ x. x ≡ vring j) (j == i) (λ y. absurd (n ((==_iff j i).0 y))) (λ _. refl)

pub put_self : (vring : ℕ → Vring) (i : ℕ) (v : Vring) → put i v vring i ≡ v
put_self vring i v = if-elim (λ x. x ≡ v) (i == i) (λ _. refl) (λ n. absurd (ground arith))

pub total-put :
    (f : Key → ℕ) (n i : ℕ) (v : Vring) (vring : ℕ → Vring)
    → i < n
    → total f n (put i v vring) + f (key (vring i)) ≡ total f n vring + f (key v)
unfolding total
total-put f zero i v vring h = absurd (omega arith)
total-put f (suc n) i v vring h = elim (Bool-cases (n == i)) [
  | inl y ↦
      let e = (==_iff n i).0 y in
      omega (
        arith,
        ap (λ w. f (key w)) (ap (put i v vring) e ∙ put_self vring i v),
        ap (λ k. f (key (vring k))) e,
        total_same f n vring (put i v vring)
            (λ j b. ap key (put_other vring i j v (λ q. absurd (omega arith)))),
      )
  | inr m ↦ omega (
    arith,
    ap (λ w. f (key w)) (put_other vring i n v (λ q. absurd (ground arith))),
    total-put f n i v vring (ground arith),
  )
]

pub total-part :
    (f : Key → ℕ) (n i : ℕ) (vring : ℕ → Vring) → i < n → f (key (vring i)) ≤ total f n vring
unfolding total
total-part f zero i vring h = absurd (omega arith)
total-part f (suc n) i vring h = elim (Bool-cases (n == i)) [
  | inl y ↦ omega (arith, ap (λ k. f (key (vring k))) ((==_iff n i).0 y))
  | inr m ↦ omega (arith, total-part f n i vring (ground arith))
]

pub total-le :
    (f : Key → ℕ) (n : ℕ) (vring : ℕ → Vring)
    → ((i : ℕ) → i < n → f (key (vring i)) ≤ 1)
    → total f n vring ≤ n
unfolding total
total-le f zero vring small = omega arith
total-le f (suc n) vring small =
    omega (arith, small n (omega arith), total-le f n vring (λ i h. small i (omega arith)))

-- Changes that the counters do not see.
pub record Shares (d d' : Vdev) : Type 0 where
  pub keys : (i : ℕ) → key (d'.vring i) ≡ key (d.vring i)
  pub queues : d'.num_queues ≡ d.num_queues
  pub started : d'.num_vrings_started ≡ d.num_vrings_started
  pub flying : d'.num_vrings_in_flight ≡ d.num_vrings_in_flight
  pub handling : d'.num_vrings_handling_msg ≡ d.num_vrings_handling_msg

pub Shares-refl : (d : Vdev) → Shares d d
Shares-refl d = record {
  keys = λ i. refl;
  queues = refl;
  started = refl;
  flying = refl;
  handling = refl;
}

pub Shares-trans : (a b c : Vdev) → Shares a b → Shares b c → Shares a c
Shares-trans a b c p q = record {
  keys = λ i. q.keys i ∙ p.keys i;
  queues = q.queues ∙ p.queues;
  started = q.started ∙ p.started;
  flying = q.flying ∙ p.flying;
  handling = q.handling ∙ p.handling;
}

pub IsCounted-Shares : (d d' : Vdev) → Shares d d' → IsCounted d → IsCounted d'
IsCounted-Shares d d' s c = record {
  few = omega (arith, s.queues, c.few);
  sound = λ i h. subst IsSound (sym (s.keys i)) (c.sound i (omega (arith, s.queues)));
  started = s.started ∙ c.started ∙ same started_of;
  flying = s.flying ∙ c.flying ∙ same flying_of;
  handling = s.handling ∙ c.handling ∙ same handling_of;
}
  where
    same : (f : Key → ℕ) → total f d.num_queues d.vring ≡ total f d'.num_queues d'.vring
    same f =
        sym (total_same f d.num_queues d.vring d'.vring (λ i h. s.keys i))
        ∙ ap (λ n. total f n d'.vring) (sym s.queues)

-- One vring changes, and the counters with it.
pub IsCounted-put :
    (d : Vdev) (i : ℕ) (v : Vring) (s f h : ℕ)
    → IsCounted d
    → i < d.num_queues
    → IsSound (key v)
    → s + started_of (key (d.vring i)) ≡ d.num_vrings_started + started_of (key v)
    → f + flying_of (key (d.vring i)) ≡ d.num_vrings_in_flight + flying_of (key v)
    → h + handling_of (key (d.vring i)) ≡ d.num_vrings_handling_msg + handling_of (key v)
    → IsCounted (record (set_vring i v d) {
      num_vrings_started = s;
      num_vrings_in_flight = f;
      num_vrings_handling_msg = h;
    })
IsCounted-put d i v s f h c b sound es ef eh = record {
  few = c.few;
  sound = λ j bj. if-elim (λ w. IsSound (key w)) (j == i) (λ _. sound) (λ _. c.sound j bj);
  started = omega (arith, c.started, total-put started_of d.num_queues i v d.vring b);
  flying = omega (arith, c.flying, total-put flying_of d.num_queues i v d.vring b);
  handling = omega (arith, c.handling, total-put handling_of d.num_queues i v d.vring b);
}
