-- ===== src/Memmap/Cache/Counts.antt =====
-- How each operation on the region list changes the reference counts.
use yc_libvhost_server.Base.{
  ◌==◌, if◌then◌else◌, Bool-cases, Option-cases, ℕ, ◌+◌, ◌-◌, ◌^◌, ◌≤◌, ◌<◌, ◌≡◌, refl, inl, inr,
  some, List, [], ◌∷◌, arith,
}
use yc_libvhost_server.Memmap.Cache.{Slot, Cached, matches, find_cached, ref_in, unref_in}
use yc_libvhost_server.Memmap.Region.{Callbacks, Region}

unfoldable pub refcount_of : ℕ → List Cached → ℕ
refcount_of id [] = 0
refcount_of id (c ∷ cs) = if c.region.id == id then c.refcount else refcount_of id cs

-- The list is newest first, so the addresses fall along it and stay under the next one.
abbrev pub Below : ℕ → List Cached → Type 0
Below n [] = Unit {0}
Below n (c ∷ cs) = (c.region.id < n) × Below c.region.id cs

-- 1 at the region that is meant, 0 elsewhere.
abbrev pub one_at : ℕ → ℕ → ℕ
one_at id j = if id == j then 1 else 0

pub refcount_of-above : (n id : ℕ) (cs : List Cached) → Below n cs → n ≤ id → refcount_of id cs ≡ 0
unfolding refcount_of
refcount_of-above n id [] b h = refl
refcount_of-above n id (c ∷ cs) b h = ground (arith, refcount_of-above c.region.id id cs b.1)

pub refcount_of-ref_in :
    (id j : ℕ) (cs : List Cached)
    → 0 < refcount_of id cs
    → refcount_of id cs < 2 ^ 64 - 1
    → refcount_of j (ref_in id cs) ≡ refcount_of j cs + one_at id j
unfolding refcount_of ref_in
refcount_of-ref_in id j [] p f = absurd (omega arith)
refcount_of-ref_in id j (c ∷ cs) p f = ground (arith, refcount_of-ref_in id j cs)

pub Below-ref_in : (n id : ℕ) (cs : List Cached) → Below n cs → Below n (ref_in id cs)
unfolding ref_in
Below-ref_in n id [] b = tt
Below-ref_in n id (c ∷ cs) b = ground (arith, Below-ref_in c.region.id id cs b.1)

pub Below-mono : (m n : ℕ) (cs : List Cached) → m ≤ n → Below m cs → Below n cs
Below-mono m n [] h b = tt
Below-mono m n (c ∷ cs) h b = (omega arith, b.1)

pub Below-unref_in : (n id : ℕ) (cs : List Cached) → Below n cs → Below n (unref_in id cs)
unfolding unref_in
Below-unref_in n id [] b = tt
Below-unref_in n id (c ∷ cs) b =
    ground (arith, Below-unref_in c.region.id id cs b.1, Below-mono c.region.id n cs)

pub refcount_of-unref_in :
    (n id j : ℕ) (cs : List Cached)
    → Below n cs
    → 0 < refcount_of id cs
    → refcount_of id cs < 2 ^ 64
    → refcount_of j (unref_in id cs) + one_at id j ≡ refcount_of j cs
unfolding refcount_of unref_in
refcount_of-unref_in n id j [] b p f = absurd (omega arith)
refcount_of-unref_in n id j (c ∷ cs) b p f = ground (
  arith,
  refcount_of-unref_in c.region.id id j cs b.1,
  refcount_of-above c.region.id id cs b.1,
  refcount_of-above c.region.id j cs b.1,
)

-- A cache hit counts one more reference of the region that it returns, and of no other.
pub find_cached-counts :
    (n : ℕ) (s : Slot) (cbs : Callbacks) (stat : ℕ × ℕ) (cs cs' : List Cached) (reg : Region)
    → Below n cs
    → ((id : ℕ) → refcount_of id cs < 2 ^ 64 - 1)
    → find_cached s cbs stat cs ≡ some (reg, cs')
    → ((j : ℕ) → refcount_of j cs' ≡ refcount_of j cs + one_at reg.id j)
      × Below n cs'
      × (reg.id < n)
unfolding find_cached refcount_of
find_cached-counts n s cbs stat [] cs' reg b f e = cc
find_cached-counts n s cbs stat (c ∷ cs) cs' reg b f e =
    elim (Bool-cases (matches c.region s cbs stat)) [
      | inl hit ↦ (λ j. ground (arith, f c.region.id), ground arith, ground arith)
      | inr miss ↦ elim (Option-cases (find_cached s cbs stat cs)) [
        | inl no_hit ↦ ground arith
        | inr ((r, rest), found) ↦
            let small : (id : ℕ) → refcount_of id cs < 2 ^ 64 - 1 =
              λ id. ground (arith, f id, refcount_of-above c.region.id id cs b.1) in
            let (count, below, older) =
              find_cached-counts c.region.id s cbs stat cs rest r b.1 small found in
            (
              λ j. ground (arith, count j, refcount_of-above c.region.id j cs b.1),
              ground arith,
              ground arith,
            )
      ]
    ]
