-- ===== src/Virtq/Dequeue/Unmarked.antt =====
-- What virtio/virt_queue.c does to the mark of a broken queue while it takes requests.
use mathlib.Core.Path.{subst}
use yc_libvhost_server.Base.{
  ltb, leb, Bool-cases, Option-cases, if-elim, ok, err, ℕ, ◌+◌, ◌≡◌, refl, sym, ◌∙◌, inl, inr, Bool,
  true, false, Option, none, some, List, [], ◌∷◌,
}
use yc_libvhost_server.Virtq.Chain.{Walk}
use yc_libvhost_server.Virtq.Dequeue.{
  Dequeued, poll_avail, prepare, dequeue_one, inflight_resubmit, done, resubmit_in, unless_failed,
  deliver, start_period, advance, resubmit_all, count_dispatch,
}
use yc_libvhost_server.Virtq.Dequeue.Order.{
  IsReady, IsTraced, IsOneTaken, dequeue_one_lem, kept-IsReady,
}
use yc_libvhost_server.Virtq.Inflight.{inflight_avail_update, Resubmit, resubmit_array}
use yc_libvhost_server.Virtq.Types.{Desc, InflightRegion, Scratch, Iov, Virtq}

module _ {S : Type 0} (read : S → ℕ → Desc) (handle : Virtq → S → Iov → Virtq × S)
    (trace : S → List ℕ) (polite : IsTraced read handle trace)
    (unmarked : (vq : Virtq) (s : S) (iov : Iov) → (handle vq s iov).0.broken ≡ vq.broken) where
  AreUnmarked : Virtq → Option (Dequeued S) → Type 0
  AreUnmarked vq none = Unit {0}
  AreUnmarked vq (some d) = d.vq.broken ≡ vq.broken

  avail_update_unmarked :
      (vq : Virtq) (head : ℕ) → (inflight_avail_update vq head).broken ≡ vq.broken
  unfolding inflight_avail_update
  avail_update_unmarked vq head = elim (Option-cases vq.inflight_region) [
    | inl e ↦ rw (e) refl
    | inr (r, e) ↦ rw (e) refl
  ]

  deliver-AreUnmarked :
      (resubmit : Bool) (head : ℕ) (vq : Virtq) (s : S) (w : Walk (ℕ × Scratch))
      → AreUnmarked vq (deliver read handle resubmit head vq s w)
  unfolding deliver advance AreUnmarked
  deliver-AreUnmarked resubmit head vq s none = tt
  deliver-AreUnmarked resubmit head vq s (some (err e)) = refl
  deliver-AreUnmarked resubmit head vq s (some (ok (n, sc))) =
      unmarked _ s _
      ∙ if-elim {A = Virtq} (λ q. q.broken ≡ vq.broken) resubmit (λ _. refl)
          (λ _. avail_update_unmarked (record vq { scratch = sc }) head)

  pub dequeue_one_unmarked :
      (resubmit : Bool) (head : ℕ) (vq : Virtq) (s : S) (d : Dequeued S)
      → dequeue_one read handle resubmit head vq s ≡ some d
      → d.vq.broken ≡ vq.broken
  unfolding dequeue_one AreUnmarked
  dequeue_one_unmarked resubmit head vq s d e =
      subst (AreUnmarked vq) e (deliver-AreUnmarked resubmit head vq s _)

  -- What submitting requests again leaves of the queue.
  unfoldable pub AreKept : Virtq → Option (Dequeued S) → Type 0
  AreKept vq m = (d : Dequeued S) × (m ≡ some d) × (d.vq.broken ≡ vq.broken) × IsReady d.vq

  resubmit_next-AreKept :
      (x : Resubmit) (xs : List Resubmit) (vq : Virtq) (s : S)
      → IsReady vq
      → ((vq' : Virtq) (s' : S) → IsReady vq' → AreKept vq' (resubmit_all read handle xs vq' s'))
      → (m : Option (Dequeued S)) → ((d : Dequeued S) → m ≡ some d → d.vq.broken ≡ vq.broken)
      → IsOneTaken read handle trace vq s x.head m
      → AreKept vq (unless_failed read handle m (resubmit_all read handle xs))
  unfolding unless_failed AreKept
  resubmit_next-AreKept x xs vq s ready rest m same (d, e, inl (code, failed, same_vq, same_s)) =
      rw (e, failed) (_, refl, same d e, subst IsReady (sym same_vq) ready)
  resubmit_next-AreKept x xs vq s ready rest m same (d, e, inr (fine, moved, kept, traced)) =
      let (d', e', b, ready') =
        rest d.vq d.state (kept-IsReady read handle trace vq d.vq kept moved ready) in
      rw (e, fine) (d', e', b ∙ same d e, ready')

  resubmit_all-AreKept :
      (xs : List Resubmit) (vq : Virtq) (s : S)
      → IsReady vq
      → AreKept vq (resubmit_all read handle xs vq s)
  unfolding resubmit_all done AreKept
  resubmit_all-AreKept [] vq s ready = (_, refl, refl, ready)
  resubmit_all-AreKept (x ∷ xs) vq s ready = elim (Bool-cases (leb vq.qsz x.head)) [
    | inl past ↦ rw (past) (_, refl, refl, ready)
    | inr inside ↦ rw (inside) (
        resubmit_next-AreKept x xs vq s ready (λ vq' s' r. resubmit_all-AreKept xs vq' s' r)
          (dequeue_one read handle true x.head vq s) (dequeue_one_unmarked true x.head vq s)
          (dequeue_one_lem read handle trace true x.head vq s polite ready))
  ]

  pub inflight_resubmit-AreKept :
      (vq : Virtq) (s : S) → IsReady vq → AreKept vq (inflight_resubmit read handle vq s)
  unfolding inflight_resubmit resubmit_in done AreKept
  inflight_resubmit-AreKept vq s ready = kept vq.inflight_region
    where
      kept : (o : Option InflightRegion) → AreKept vq (resubmit_in read handle o vq s)
      kept none = (_, refl, refl, ready)
      kept (some r) = resubmit_all-AreKept (resubmit_array r) vq s ready

  pub prepare_unmarked :
      (now : ℕ) (later : List ℕ) (vq : Virtq) → (prepare now later vq).broken ≡ vq.broken
  unfolding prepare poll_avail count_dispatch start_period
  prepare_unmarked now later vq =
      if-elim {A = Virtq} (λ q. q.broken ≡ vq.broken) _ (λ _. started) (λ _. started)
    where
      started :
          (count_dispatch (start_period now (record vq { inflight_check = false }))).broken
          ≡ vq.broken
      started =
          if-elim {A = Virtq} (λ q. q.broken ≡ vq.broken) (ltb (vq.period_start_ts + 60) now)
            (λ _. refl) (λ _. refl)
