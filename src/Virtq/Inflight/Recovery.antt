-- ===== src/Virtq/Inflight/Recovery.antt =====
-- What virtq_inflight_reconnect_update finds after a restart.
use yc_libvhost_server.Base.{
  ltb, ◌==◌, if◌then◌else◌, ==_iff, Bool-cases, if-elim, length, get_or, set, get_or-set_self,
  get_or-set_ne, sub16, add64, ℕ, zero, suc, ◌+◌, ◌-◌, ◌^◌, ◌≤◌, ◌<◌, ◌≡◌, refl, sym, ap, ◌∙◌, inl,
  inr, Bool, true, false, ◌&&◌, some, arith,
}
use yc_libvhost_server.Virtq.Inflight.{
  no_desc, desc_at, set_inflight, set_used_idx, max_counter, clear_batch, inflight_reconnect_update,
  fix_batch,
}
use yc_libvhost_server.Virtq.Types.{InflightDesc, InflightRegion, Virtq}

pub max_counter-ge-start : (n i : ℕ) (r : InflightRegion) (cnt : ℕ) → cnt ≤ max_counter n i r cnt
unfolding max_counter
max_counter-ge-start zero i r cnt = omega arith
max_counter-ge-start (suc n) i r cnt = ground (
  arith,
  max_counter-ge-start n (suc i) r
      (if ltb cnt (desc_at r i).counter then (desc_at r i).counter else cnt),
)

pub max_counter-ge :
    (n i : ℕ) (r : InflightRegion) (cnt j : ℕ)
    → i ≤ j
    → j < i + n
    → (desc_at r j).counter ≤ max_counter n i r cnt
unfolding max_counter
max_counter-ge zero i r cnt j lo hi = absurd (omega arith)
max_counter-ge (suc n) i r cnt j lo hi = elim (Bool-cases (i == j)) [
  | inl found ↦ ground (
    arith,
    max_counter-ge-start n (suc i) r
        (if ltb cnt (desc_at r i).counter then (desc_at r i).counter else cnt),
    index_desc r i j,
  )
  | inr there ↦
      max_counter-ge n (suc i) r
        (if ltb cnt (desc_at r i).counter then (desc_at r i).counter else cnt) j (ground arith)
        (omega arith)
]
  where
    index_desc : (r : InflightRegion) (i j : ℕ) → i ≡ j → desc_at r i ≡ desc_at r j
    index_desc r i j e = ap (desc_at r) e

-- A region that a queue has used: some request was counted in it.
abbrev pub IsUsedRegion : InflightRegion → Type 0
IsUsedRegion r = (j : ℕ) × (j < r.desc_num) × (0 < (desc_at r j).counter)

-- The region that a restart makes of one whose last completed request the used ring has and the
-- region may not have: that request is no longer in flight.
abbrev pub recovered : ℕ → InflightRegion → InflightRegion
recovered used_idx r =
    set_used_idx used_idx
      (if sub16 used_idx r.used_idx == 1 then set_inflight r.last_batch_head 0 r else r)

fix_batch_one :
    (r : InflightRegion) (cnt used_idx : ℕ)
    → 0 < cnt
    → sub16 used_idx r.used_idx ≤ 1
    → fix_batch cnt used_idx r
      ≡ some (if sub16 used_idx r.used_idx == 1 then set_inflight r.last_batch_head 0 r else r)
unfolding fix_batch clear_batch
fix_batch_one r cnt used_idx counted batch = elim (Bool-cases (sub16 used_idx r.used_idx == 1)) [
  | inl one ↦ rw (one, counts, ==-one (sub16 used_idx r.used_idx) one) refl
  | inr other ↦ rw (other, counts, ==-zero (sub16 used_idx r.used_idx) batch other) refl
]
  where
    counts : cnt == 0 ≡ false
    counts = ground arith

    ==-one : (n : ℕ) → n == 1 ≡ true → n ≡ 1
    ==-one n e = ground arith

    ==-zero : (n : ℕ) → n ≤ 1 → n == 1 ≡ false → n ≡ 0
    ==-zero n le e = ground arith

-- The next server finds the region without the mark of its last request, if the used ring was one
-- element ahead.
pub reconnect_fixes :
    (vq : Virtq) (r : InflightRegion)
    → vq.inflight_region ≡ some r
    → IsUsedRegion r
    → sub16 vq.used.idx r.used_idx ≤ 1
    → (vq' : Virtq) × (inflight_reconnect_update vq ≡ some vq')
      × (vq'.inflight_region ≡ some (recovered vq.used.idx r))
      × (vq'.req_cnt ≡ add64 (max_counter r.desc_num 0 r 0) 1)
unfolding inflight_reconnect_update
reconnect_fixes vq r e (j, in_ring, counted) batch = (
  record vq {
    req_cnt = add64 (max_counter r.desc_num 0 r 0) 1;
    inflight_region = some (recovered vq.used.idx r);
  },
  rw (e, fix_batch_one r (max_counter r.desc_num 0 r 0) vq.used.idx some_counter batch),
  refl,
  refl,
)
  where
    some_counter : 0 < max_counter r.desc_num 0 r 0
    some_counter = ground (arith, max_counter-ge r.desc_num 0 r 0 j)

max_counter-lt :
    (n i : ℕ) (r : InflightRegion) (cnt bound : ℕ)
    → cnt < bound
    → ((j : ℕ) → i ≤ j → j < i + n → (desc_at r j).counter < bound)
    → max_counter n i r cnt < bound
unfolding max_counter
max_counter-lt zero i r cnt bound start below = start
max_counter-lt (suc n) i r cnt bound start below =
    max_counter-lt n (suc i) r _ bound
      (if-elim {A = ℕ} (λ c. c < bound) (ltb cnt (desc_at r i).counter)
        (λ _. below i (omega arith) (omega arith)) (λ _. start))
      (λ j lo hi. below j (omega arith) (omega arith))

-- The request that a region lists as completed last may still have its mark, if the used ring is
-- one element ahead of the region: whether it is the one at `j`.
abbrev pub is_late : Virtq → InflightRegion → ℕ → Bool
is_late vq r j = (sub16 vq.used.idx r.used_idx == 1) && (r.last_batch_head == j)

-- A restart of a queue with a used region, of as many descriptors as it says, with at most one
-- request between the used ring and the region, and with counters that are not at their top, takes
-- the in-flight mark from that request, which is the last one of the region, and from no other; it
-- goes on counting above the counters of all requests in the region, and the region is then in step
-- with the used ring.
pub reconnect_recovers :
    (vq : Virtq) (r : InflightRegion)
    → vq.inflight_region ≡ some r
    → IsUsedRegion r
    → length r.desc ≡ r.desc_num
    → sub16 vq.used.idx r.used_idx ≤ 1
    → ((j : ℕ) → j < r.desc_num → (desc_at r j).counter < 2 ^ 64 - 1)
    → (vq' : Virtq) × (r' : InflightRegion) × (inflight_reconnect_update vq ≡ some vq')
      × (vq'.inflight_region ≡ some r')
      × (r'.used_idx ≡ vq.used.idx)
      × ((j : ℕ) → j < r.desc_num → (desc_at r j).counter < vq'.req_cnt)
      × ((j : ℕ)
          → j < r.desc_num
          → (desc_at r' j).inflight ≡ (if is_late vq r j then 0 else (desc_at r j).inflight))
unfolding set_used_idx set_inflight
reconnect_recovers vq r e used sized batch low =
    let (vq', recovers, region, counter) = reconnect_fixes vq r e used batch in
    (
      vq',
      recovered vq.used.idx r,
      recovers,
      region,
      refl,
      λ k b.
          omega
            (arith, counter, max_counter-ge r.desc_num 0 r 0 k (omega arith) (omega arith), top),
      flags,
    )
  where
    top : max_counter r.desc_num 0 r 0 < 2 ^ 64 - 1
    top =
        max_counter-lt r.desc_num 0 r 0 (2 ^ 64 - 1) (omega arith) (λ k lo hi. low k (omega arith))

    flags :
        (j : ℕ)
        → j < r.desc_num
        → (desc_at (recovered vq.used.idx r) j).inflight
          ≡ (if is_late vq r j then 0 else (desc_at r j).inflight)
    flags j b = elim (Bool-cases (sub16 vq.used.idx r.used_idx == 1)) [
      | inl ahead ↦ elim (Bool-cases (r.last_batch_head == j)) [
        | inl last ↦
            rw (ahead, last)
              (ap (λ k. (get_or (set r.desc r.last_batch_head new) k no_desc).inflight)
                  (sym ((==_iff r.last_batch_head j).0 last))
                ∙ ap (λ d. d.inflight)
                    (get_or-set_self r.desc r.last_batch_head new no_desc (ground arith)))
        | inr other ↦
            rw (ahead, other)
              (ap (λ d. d.inflight)
                (get_or-set_ne r.desc r.last_batch_head j new no_desc (λ e. ground arith)))
      ]
      | inr in_step ↦ rw in_step refl
    ]
      where
        new : InflightDesc
        new = record (desc_at r r.last_batch_head) { inflight = 0 }
