-- ===== src/Virtq/Push/Crash/Stages.antt =====
-- A crash of virtq_push of virtio/virt_queue.c after each of its stores.
use mathlib.Core.Option
use mathlib.Core.Path.{subst}
-- Before the used index moves, the request is still in flight.
use yc_libvhost_server.Base.{
  ◌==◌, length, add16, ℕ, zero, suc, ◌^◌, ◌≤◌, ◌<◌, ◌≡◌, refl, sym, ap, ◌∙◌, ◌⊎◌, inl, inr, true,
  false, not, some, arith,
}
use yc_libvhost_server.Virtq.Inflight.{set_inflight, set_next, set_last_batch_head, set_used_idx}
use yc_libvhost_server.Virtq.Inflight.Recovery.{IsUsedRegion}
use yc_libvhost_server.Virtq.Push.{store_used_elem, bump_used_idx}
use yc_libvhost_server.Virtq.Push.Crash.{
  crashed, IsRecovered, on_region, behind-IsRecovered, run, in_step-IsRecovered, stores,
}
use yc_libvhost_server.Virtq.Push.Crash.Regions.{
  linked, announced, settled, linked-flags, linked-IsUsedRegion, linked-length, settled-flags,
  settled-IsUsedRegion, no_flag, settled-length, other_flag,
}
use yc_libvhost_server.Virtq.Types.{InflightRegion, Virtq}

before-IsRecovered :
    (vq : Virtq) (r : InflightRegion) (head len k : ℕ)
    → vq.inflight_region ≡ some r
    → IsUsedRegion r
    → r.used_idx ≡ vq.used.idx
    → vq.used.idx < 2 ^ 16
    → head < length r.desc
    → k < 4
    → IsRecovered head false r (crashed k head len vq)
unfolding crashed run stores on_region store_used_elem bump_used_idx set_last_batch_head
    set_used_idx set_next
before-IsRecovered vq r head len zero e used step word inside lt =
    in_step-IsRecovered (crashed 0 head len vq) r r head false e used (omega arith) (no_flag r head)
before-IsRecovered vq r head len (suc zero) e used step word inside lt =
    in_step-IsRecovered (crashed 1 head len vq) r r head false e used (omega arith) (no_flag r head)
before-IsRecovered vq r head len (suc (suc zero)) e used step word inside lt =
    in_step-IsRecovered (crashed 2 head len vq) (linked head r) r head false
      (ap (Option.map (set_next head)) e) (linked-IsUsedRegion r head inside used) (omega arith)
      (λ j. linked-flags r head j inside ∙ no_flag r head j)
before-IsRecovered vq r head len (suc (suc (suc zero))) e used step word inside lt =
    in_step-IsRecovered (crashed 3 head len vq) (announced head r) r head false
      (ap (λ o. Option.map (set_last_batch_head head) (Option.map (set_next head) o)) e)
      (linked-IsUsedRegion r head inside used) (omega arith)
      (λ j. linked-flags r head j inside ∙ no_flag r head j)
before-IsRecovered vq r head len (suc (suc (suc (suc k)))) e used step word inside lt =
    absurd (omega arith)

-- Once it has moved, the request is complete.
after-IsRecovered :
    (vq : Virtq) (r : InflightRegion) (head len k : ℕ)
    → vq.inflight_region ≡ some r
    → IsUsedRegion r
    → r.used_idx ≡ vq.used.idx
    → vq.used.idx < 2 ^ 16
    → head < length r.desc
    → k < 3
    → IsRecovered head true r (crashed (suc (suc (suc (suc k)))) head len vq)
unfolding crashed run stores on_region store_used_elem bump_used_idx set_last_batch_head
    set_used_idx set_next set_inflight
after-IsRecovered vq r head len zero e used step word inside lt =
    behind-IsRecovered (crashed 4 head len vq) (announced head r) r head
      (ap (λ o. Option.map (set_last_batch_head head) (Option.map (set_next head) o)) e)
      (linked-IsUsedRegion r head inside used) (omega arith) refl (linked-length r head inside)
      (λ j other. linked-flags r head j inside)
after-IsRecovered vq r head len (suc zero) e used step word inside lt =
    behind-IsRecovered (crashed 5 head len vq) (settled head r) r head
      (ap
        (λ o.
          Option.map (set_inflight head 0)
            (Option.map (set_last_batch_head head) (Option.map (set_next head) o)))
        e)
      (settled-IsUsedRegion r head inside used) (omega arith) refl (settled-length r head inside)
      (λ j other. settled-flags r head j inside ∙ other_flag r head j other)
after-IsRecovered vq r head len (suc (suc zero)) e used step word inside lt =
    in_step-IsRecovered (crashed 6 head len vq)
      (record (settled head r) { used_idx = add16 vq.used.idx 1 }) r head true
      (ap
        (λ o. Option.map (set_used_idx (add16 vq.used.idx 1)) (
          Option.map (set_inflight head 0)
            (Option.map (set_last_batch_head head) (Option.map (set_next head) o))))
        e)
      (settled-IsUsedRegion r head inside used) (omega arith) (λ j. settled-flags r head j inside)
after-IsRecovered vq r head len (suc (suc (suc k))) e used step word inside lt =
    absurd (omega arith)

k_cases : (k : ℕ) → (k < 4) ⊎ ((n : ℕ) × (k ≡ suc (suc (suc (suc n)))))
k_cases zero = inl (omega arith)
k_cases (suc zero) = inl (omega arith)
k_cases (suc (suc zero)) = inl (omega arith)
k_cases (suc (suc (suc zero))) = inl (omega arith)
k_cases (suc (suc (suc (suc n)))) = inr (n, refl)

-- The used index after `k` stores.
early_idx :
    (vq : Virtq) (head len k : ℕ)
    → k < 4
    → not ((crashed k head len vq).used.idx == vq.used.idx) ≡ false
unfolding crashed run stores on_region store_used_elem
early_idx vq head len zero lt = ground arith
early_idx vq head len (suc zero) lt = ground arith
early_idx vq head len (suc (suc zero)) lt = ground arith
early_idx vq head len (suc (suc (suc zero))) lt = ground arith
early_idx vq head len (suc (suc (suc (suc k)))) lt = absurd (omega arith)

late_idx :
    (vq : Virtq) (head len k : ℕ)
    → k < 3
    → vq.used.idx < 2 ^ 16
    → not ((crashed (suc (suc (suc (suc k)))) head len vq).used.idx == vq.used.idx) ≡ true
unfolding crashed run stores on_region store_used_elem bump_used_idx
late_idx vq head len zero lt word = ground arith
late_idx vq head len (suc zero) lt word = ground arith
late_idx vq head len (suc (suc zero)) lt word = ground arith
late_idx vq head len (suc (suc (suc k))) lt word = absurd (omega arith)

-- The server dies after `k` of the six stores of a push: the next one takes over the queue, and
-- the requests in flight are those of before, less the pushed one exactly if the used index had
-- moved, which is when the driver sees it completed. The region had been used and was in step
-- with the used ring, whose index is of 16 bits, and the head is one of the region's.
pub crashed-IsRecovered :
    (vq : Virtq) (r : InflightRegion) (head len k : ℕ)
    → vq.inflight_region ≡ some r
    → IsUsedRegion r
    → r.used_idx ≡ vq.used.idx
    → vq.used.idx < 2 ^ 16
    → head < length r.desc
    → k ≤ 6
    → IsRecovered head
        (not ((crashed k head len vq).used.idx == vq.used.idx))
        r
        (crashed k head len vq)
crashed-IsRecovered vq r head len k e used step word inside le = elim (k_cases k) [
  | inl early ↦
      subst (λ b. IsRecovered head b r (crashed k head len vq))
        (sym (early_idx vq head len k early))
        (before-IsRecovered vq r head len k e used step word inside early)
  | inr (n, late) ↦
      subst
        (λ i.
          IsRecovered head (not ((crashed i head len vq).used.idx == vq.used.idx)) r
            (crashed i head len vq))
        (sym late)
        (subst (λ b. IsRecovered head b r (crashed (suc (suc (suc (suc n)))) head len vq))
          (sym (late_idx vq head len n (omega arith) word))
          (after-IsRecovered vq r head len n e used step word inside (omega arith)))
]
