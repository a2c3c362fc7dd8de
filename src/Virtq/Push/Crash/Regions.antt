-- ===== src/Virtq/Push/Crash/Regions.antt =====
-- The inflight region between two stores of virtq_push of virtio/virt_queue.c.
use yc_libvhost_server.Base.{
  ◌==◌, Bool-cases, length, length-set, ℕ, ◌<◌, ◌≡◌, refl, ap, ◌∙◌, ◌≢◌, inl, inr, true, false,
  arith,
}
use yc_libvhost_server.Virtq.Inflight.{desc_at, update_desc}
use yc_libvhost_server.Virtq.Inflight.Recovery.{IsUsedRegion}
use yc_libvhost_server.Virtq.Push.Crash.{flag_after, update-IsUsedRegion, at_update}
use yc_libvhost_server.Virtq.Types.{InflightRegion}

-- The regions after two, three and five stores.
abbrev pub linked : ℕ → InflightRegion → InflightRegion
linked head r = update_desc r head (λ d. record d { next = r.last_batch_head })

abbrev pub announced : ℕ → InflightRegion → InflightRegion
announced head r = record (linked head r) { last_batch_head = head }

abbrev pub settled : ℕ → InflightRegion → InflightRegion
settled head r = update_desc (announced head r) head (λ d. record d { inflight = 0 })

pub linked-flags :
    (r : InflightRegion) (head j : ℕ)
    → head < length r.desc
    → (desc_at (linked head r) j).inflight ≡ (desc_at r j).inflight
linked-flags r head j inside = elim (Bool-cases (j == head)) [
  | inl here ↦
      ap (λ d. d.inflight) (at_update r head j (λ d. record d { next = r.last_batch_head }) inside)
      ∙ rw (here) (ap (λ i. (desc_at r i).inflight) (ground arith))
  | inr there ↦
      ap (λ d. d.inflight) (at_update r head j (λ d. record d { next = r.last_batch_head }) inside)
      ∙ rw (there) refl
]

pub linked-IsUsedRegion :
    (r : InflightRegion) (head : ℕ)
    → head < length r.desc
    → IsUsedRegion r
    → IsUsedRegion (linked head r)
linked-IsUsedRegion r head inside =
    update-IsUsedRegion r head (λ d. record d { next = r.last_batch_head }) inside (λ d. refl)

pub linked-length :
    (r : InflightRegion) (head : ℕ) → head < length r.desc → head < length (linked head r).desc
linked-length r head inside =
    omega (arith, length-set r.desc head (record (desc_at r head) { next = r.last_batch_head }))

pub settled-flags :
    (r : InflightRegion) (head j : ℕ)
    → head < length r.desc
    → (desc_at (settled head r) j).inflight ≡ flag_after head true r j
settled-flags r head j inside = elim (Bool-cases (j == head)) [
  | inl here ↦
      ap (λ d. d.inflight)
        (at_update (announced head r) head j (λ d. record d { inflight = 0 })
          (linked-length r head inside))
      ∙ rw (here) refl
  | inr there ↦
      ap (λ d. d.inflight)
        (at_update (announced head r) head j (λ d. record d { inflight = 0 })
          (linked-length r head inside))
      ∙ rw (there) (linked-flags r head j inside)
]

pub settled-IsUsedRegion :
    (r : InflightRegion) (head : ℕ)
    → head < length r.desc
    → IsUsedRegion r
    → IsUsedRegion (settled head r)
settled-IsUsedRegion r head inside used =
    update-IsUsedRegion (announced head r) head (λ d. record d { inflight = 0 })
      (linked-length r head inside) (λ d. refl) (linked-IsUsedRegion r head inside used)

pub no_flag : (r : InflightRegion) (head j : ℕ) → (desc_at r j).inflight ≡ flag_after head false r j
no_flag r head j = elim (Bool-cases (j == head)) [
  | inl here ↦ rw (here) refl
  | inr there ↦ rw (there) refl
]

pub settled-length :
    (r : InflightRegion) (head : ℕ) → head < length r.desc → head < length (settled head r).desc
settled-length r head inside = omega (
  arith,
  linked-length r head inside,
  length-set (linked head r).desc head (record (desc_at (announced head r) head) { inflight = 0 }),
)

pub other_flag :
    (r : InflightRegion) (head j : ℕ) → j ≢ head → flag_after head true r j ≡ (desc_at r j).inflight
other_flag r head j other = elim (Bool-cases (j == head)) [
  | inl here ↦ absurd (other (ground arith))
  | inr there ↦ rw (there) refl
]
