-- ===== src/Virtq/Push/Crash.antt =====
-- Death of the server in the middle of virtq_push of virtio/virt_queue.c, and its recovery by
-- virtq_inflight_reconnect_update.
pub mod Regions
pub mod Stages
use mathlib.Core.Option
use mathlib.Core.Path.{subst}
use yc_libvhost_server.Base.{
  ◌==◌, if◌then◌else◌, Bool-cases, Option-cases, length, take, get_or-set_self, get_or-set_ne,
  sub16, ℕ, ◌<◌, ◌≡◌, refl, sym, ap, ◌∙◌, ◌≢◌, inl, inr, Bool, true, ◌&&◌, Option, some, List, [],
  ◌∷◌, arith,
}
use yc_libvhost_server.Virtq.Inflight.{
  no_desc, desc_at, update_desc, set_inflight, set_next, set_last_batch_head, set_used_idx,
  inflight_used_update, inflight_used_commit, inflight_reconnect_update,
}
use yc_libvhost_server.Virtq.Inflight.Recovery.{IsUsedRegion, recovered, reconnect_fixes}
use yc_libvhost_server.Virtq.Push.{push_memory, store_used_elem, bump_used_idx}
use yc_libvhost_server.Virtq.Types.{InflightDesc, InflightRegion, Virtq}

on_region : (InflightRegion → InflightRegion) → Virtq → Virtq
on_region f vq = record vq { inflight_region = Option.map f vq.inflight_region }

-- The stores of virtq_push to the memory that outlives the server, in the order in which the code
-- has them. The id and the length of the used element are one store here. Nothing but the order in
-- the program keeps the clearing of the mark behind the new index; the others have barriers.
stores : ℕ → ℕ → List (Virtq → Virtq)
unfolding on_region store_used_elem bump_used_idx
stores head len =
    store_used_elem head len
    ∷ on_region (set_next head)
    ∷ on_region (set_last_batch_head head)
    ∷ bump_used_idx
    ∷ on_region (set_inflight head 0)
    ∷ (λ vq. on_region (set_used_idx vq.used.idx) vq)
    ∷ []

run : List (Virtq → Virtq) → Virtq → Virtq
run [] vq = vq
run (f ∷ fs) vq = run fs (f vq)

-- The memory that the next server finds if this one dies after `k` stores.
pub crashed : ℕ → ℕ → ℕ → Virtq → Virtq
unfolding run stores
crashed k head len vq = run (take k (stores head len)) vq

-- All stores together are what a push without a crash leaves.
pub crashed-all : (vq : Virtq) (head len : ℕ) → crashed 6 head len vq ≡ push_memory vq head len
unfolding crashed run stores on_region push_memory inflight_used_update inflight_used_commit
    store_used_elem bump_used_idx
crashed-all vq head len = elim (Option-cases vq.inflight_region) [
  | inl e ↦ rw (e) refl
  | inr (r, e) ↦ rw (e) refl
]

-- A change of one descriptor, seen at every index.
at_update :
    (r : InflightRegion) (head j : ℕ) (f : InflightDesc → InflightDesc)
    → head < length r.desc
    → desc_at (update_desc r head f) j ≡ (if j == head then f (desc_at r head) else desc_at r j)
at_update r head j f inside = elim (Bool-cases (j == head)) [
  | inl found ↦ rw (found) (
      ap (desc_at (update_desc r head f)) (ground arith)
      ∙ get_or-set_self r.desc head (f (desc_at r head)) no_desc inside)
  | inr there ↦
      rw (there) (get_or-set_ne r.desc head j (f (desc_at r head)) no_desc (λ e. ground arith))
]

update-counter :
    (r : InflightRegion) (head j : ℕ) (f : InflightDesc → InflightDesc)
    → head < length r.desc
    → ((d : InflightDesc) → (f d).counter ≡ d.counter)
    → (desc_at (update_desc r head f) j).counter ≡ (desc_at r j).counter
update-counter r head j f inside same = elim (Bool-cases (j == head)) [
  | inl found ↦
      ap (λ d. d.counter) (at_update r head j f inside)
      ∙ rw (found) (same (desc_at r head) ∙ ap (λ i. (desc_at r i).counter) (ground arith))
  | inr there ↦ ap (λ d. d.counter) (at_update r head j f inside) ∙ rw (there) refl
]

-- A change that keeps the counter keeps a used region used.
update-IsUsedRegion :
    (r : InflightRegion) (head : ℕ) (f : InflightDesc → InflightDesc)
    → head < length r.desc
    → ((d : InflightDesc) → (f d).counter ≡ d.counter)
    → IsUsedRegion r
    → IsUsedRegion (update_desc r head f)
update-IsUsedRegion r head f inside same (j, in_ring, counted) =
    (j, in_ring, subst (λ n. 0 < n) (sym (update-counter r head j f inside same)) counted)

-- The flag of a request in flight, unless it is the one of `head` and `completed`.
abbrev pub flag_after : ℕ → Bool → InflightRegion → ℕ → ℕ
flag_after head completed r j = if (j == head) && completed then 0 else (desc_at r j).inflight

-- What the next server makes of the memory: it goes on from the used ring, and the requests in
-- flight are those of `r`, less the one of `head` if it is `completed`.
abbrev pub IsRecovered : ℕ → Bool → InflightRegion → Virtq → Type 0
IsRecovered head completed r vq =
    (vq' : Virtq) × (r' : InflightRegion) × (inflight_reconnect_update vq ≡ some vq')
    × (vq'.inflight_region ≡ some r')
    × (r'.used_idx ≡ vq.used.idx)
    × ((j : ℕ) → (desc_at r' j).inflight ≡ flag_after head completed r j)

-- A crash with the used ring and the region in step.
in_step-IsRecovered :
    (vq : Virtq) (r r0 : InflightRegion) (head : ℕ) (completed : Bool)
    → vq.inflight_region ≡ some r
    → IsUsedRegion r
    → sub16 vq.used.idx r.used_idx ≡ 0
    → ((j : ℕ) → (desc_at r j).inflight ≡ flag_after head completed r0 j)
    → IsRecovered head completed r0 vq
unfolding set_used_idx
in_step-IsRecovered vq r r0 head completed e used step flags =
    let (vq', recovers, region, counter) = reconnect_fixes vq r e used (omega arith) in
    (vq', recovered vq.used.idx r, recovers, region, refl, λ j. as_before j ∙ flags j)
  where
    as_before : (j : ℕ) → (desc_at (recovered vq.used.idx r) j).inflight ≡ (desc_at r j).inflight
    as_before j =
        ap (λ n. (desc_at (if n == 1 then set_inflight r.last_batch_head 0 r else r) j).inflight)
          step

-- A crash with the used ring one request ahead of the region, which knows its head.
behind-IsRecovered :
    (vq : Virtq) (r r0 : InflightRegion) (head : ℕ)
    → vq.inflight_region ≡ some r
    → IsUsedRegion r
    → sub16 vq.used.idx r.used_idx ≡ 1
    → r.last_batch_head ≡ head
    → head < length r.desc
    → ((j : ℕ) → j ≢ head → (desc_at r j).inflight ≡ (desc_at r0 j).inflight)
    → IsRecovered head true r0 vq
unfolding set_used_idx set_inflight
behind-IsRecovered vq r r0 head e used step last inside flags =
    let (vq', recovers, region, counter) = reconnect_fixes vq r e used (omega arith) in
    (vq', recovered vq.used.idx r, recovers, region, refl, λ j. cleared j ∙ others j)
  where
    cleared :
        (j : ℕ)
        → (desc_at (recovered vq.used.idx r) j).inflight
          ≡ (desc_at (set_inflight head 0 r) j).inflight
    cleared j =
        ap (λ n. (desc_at (if n == 1 then set_inflight r.last_batch_head 0 r else r) j).inflight)
          step
        ∙ ap (λ h. (desc_at (set_inflight h 0 r) j).inflight) last

    others : (j : ℕ) → (desc_at (set_inflight head 0 r) j).inflight ≡ flag_after head true r0 j
    others j = elim (Bool-cases (j == head)) [
      | inl found ↦
          ap (λ d. d.inflight) (at_update r head j (λ d. record d { inflight = 0 }) inside)
          ∙ rw (found) refl
      | inr there ↦
          ap (λ d. d.inflight) (at_update r head j (λ d. record d { inflight = 0 }) inside)
          ∙ rw (there) (flags j (λ e. ground arith))
    ]
