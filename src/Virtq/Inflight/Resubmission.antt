-- ===== src/Virtq/Inflight/Resubmission.antt =====
-- The requests that virtq_inflight_resubmit of virtio/virt_queue.c submits again.
use yc_libvhost_server.Base.{
  ltb, leb, ◌==◌, if◌then◌else◌, Bool-cases, All, Pairs, ℕ, zero, suc, ◌+◌, ◌≤◌, ◌≡◌, refl, ap, ◌∙◌,
  inl, inr, ◌&&◌, not, List, [], ◌∷◌, arith,
}
use yc_libvhost_server.Virtq.Inflight.{
  desc_at, Resubmit, collect, insert_by_counter, sort_by_counter, resubmit_array,
}
use yc_libvhost_server.Virtq.Types.{InflightRegion}

-- How often a head is in the array.
abbrev pub times : ℕ → List Resubmit → ℕ
times head [] = 0
times head (x ∷ xs) = (if x.head == head then 1 else 0) + times head xs

-- Earlier requests come first.
abbrev pub IsInOrder : List Resubmit → Type 0
IsInOrder xs = Pairs (λ x y. x.counter ≤ y.counter) xs

times-insert :
    (head : ℕ) (x : Resubmit) (xs : List Resubmit)
    → times head (insert_by_counter x xs) ≡ times head (x ∷ xs)
unfolding insert_by_counter
times-insert head x [] = refl
times-insert head x (y ∷ ys) = elim (Bool-cases (ltb x.counter y.counter)) [
  | inl first ↦ rw (first) refl
  | inr later ↦ rw (later) (omega (arith, times-insert head x ys))
]

times-sort : (head : ℕ) (xs : List Resubmit) → times head (sort_by_counter xs) ≡ times head xs
unfolding sort_by_counter
times-sort head [] = refl
times-sort head (x ∷ xs) =
    omega (arith, times-insert head x (sort_by_counter xs), times-sort head xs)

flag_at : (r : InflightRegion) (i j : ℕ) → i ≡ j → (desc_at r i).inflight ≡ (desc_at r j).inflight
flag_at r i j e = ap (λ k. (desc_at r k).inflight) e

times-collect :
    (n i head : ℕ) (r : InflightRegion)
    → times head (collect n i r)
      ≡ (if (leb i head && ltb head (i + n)) && not ((desc_at r head).inflight == 0) then 1 else 0)
unfolding collect
times-collect zero i head r = ground arith
times-collect (suc n) i head r = elim (Bool-cases ((desc_at r i).inflight == 0)) [
  | inl idle ↦ rw (idle) (times-collect n (suc i) head r ∙ ground (arith, flag_at r i head))
  | inr flying ↦ rw (flying) (ground (arith, flag_at r i head, times-collect n (suc i) head r))
]

All-insert_by_counter :
    (P : Resubmit → Type 0) (x : Resubmit) (xs : List Resubmit)
    → P x
    → All P xs
    → All P (insert_by_counter x xs)
unfolding insert_by_counter
All-insert_by_counter P x [] p ps = (p, tt)
All-insert_by_counter P x (y ∷ ys) p ps = elim (Bool-cases (ltb x.counter y.counter)) [
  | inl first ↦ rw (first) (p, ps)
  | inr later ↦ rw (later) (ps.0, All-insert_by_counter P x ys p ps.1)
]

All-mono_le :
    (x y : Resubmit)
    → x.counter ≤ y.counter
    → (zs : List Resubmit) → All (λ z. y.counter ≤ z.counter) zs
    → All (λ z. x.counter ≤ z.counter) zs
All-mono_le x y le [] h = tt
All-mono_le x y le (z ∷ zs) h = (omega (arith, h.0), All-mono_le x y le zs h.1)

insert-IsInOrder :
    (x : Resubmit) (xs : List Resubmit) → IsInOrder xs → IsInOrder (insert_by_counter x xs)
unfolding insert_by_counter
insert-IsInOrder x [] sorted = (tt, tt)
insert-IsInOrder x (y ∷ ys) sorted = elim (Bool-cases (ltb x.counter y.counter)) [
  | inl first ↦ rw (first) ((ground arith, All-mono_le x y (ground arith) ys sorted.0), sorted)
  | inr later ↦ rw (later) (
    All-insert_by_counter (λ z. y.counter ≤ z.counter) x ys (ground arith) sorted.0,
    insert-IsInOrder x ys sorted.1,
  )
]

sort-IsInOrder : (xs : List Resubmit) → IsInOrder (sort_by_counter xs)
unfolding sort_by_counter
sort-IsInOrder [] = tt
sort-IsInOrder (x ∷ xs) = insert-IsInOrder x (sort_by_counter xs) (sort-IsInOrder xs)

-- Every request in flight is submitted again exactly once, no other is, and they go in the order
-- in which they were fetched.
pub resubmit_array_lem :
    (r : InflightRegion)
    → IsInOrder (resubmit_array r)
      × ((head : ℕ)
          → times head (resubmit_array r)
            ≡ (if ltb head r.desc_num && not ((desc_at r head).inflight == 0) then 1 else 0))
unfolding resubmit_array
resubmit_array_lem r = (
  sort-IsInOrder (collect r.desc_num 0 r),
  λ head.
      times-sort head (collect r.desc_num 0 r) ∙ times-collect r.desc_num 0 head r ∙ ground arith,
)
