-- ===== src/Memmap/Cache/Open.antt =====
-- Opening a region, cached or new: what is counted, and what is mapped.
use yc_libvhost_server.Base.{
  Option-cases, Result, ok, err, ℕ, ◌+◌, ◌-◌, ◌^◌, ◌<◌, ◌≡◌, inl, inr, some, List, [], ◌∷◌, arith,
}
use yc_libvhost_server.Memmap.Cache.{
  Slot, Cached, Store, matches, find_cached, region_get_cached, map_region, region_open, add_new,
  map_callback,
}
use yc_libvhost_server.Memmap.Cache.Counts.{
  refcount_of, Below, one_at, refcount_of-above, find_cached-counts,
}
use yc_libvhost_server.Memmap.Host.{Os, Syscall, map_memory}
use yc_libvhost_server.Memmap.Region.{Callbacks, Region}

-- No count is at the top of `unsigned long`.
abbrev pub Countable : Store → Type 0
Countable st = (id : ℕ) → refcount_of id st.g_regions < 2 ^ 64 - 1

-- What opening a region adds to the counts.
unfoldable pub opened : Result Region → ℕ → ℕ
opened (ok reg) id = one_at reg.id id
opened (err e) id = 0

pub record Opened (st : Store) (out : Store × Result Region) : Type 0 where
  pub below : Below out.0.next_id out.0.g_regions
  pub counts :
      (id : ℕ) → refcount_of id out.0.g_regions ≡ refcount_of id st.g_regions + opened out.1 id

abbrev HasId : ℕ → Result Region → Type 0
HasId id (ok reg) = reg.id ≡ id
HasId id (err e) = Unit {0}

map_region-HasId :
    (os : Os) (id : ℕ) (cbs : Callbacks) (s : Slot) → HasId id (map_region os id cbs s).0
unfolding map_region
map_region-HasId os id cbs s = elim (Option-cases (map_memory os s.size s.fd s.offset).ptr) [
  | inl failed ↦ rw (failed, map_region) tt
  | inr (ptr, mapped) ↦ elim (Option-cases (map_callback os cbs ptr s.size)) [
    | inl accepted ↦ ground arith
    | inr (e, refused) ↦ ground arith
  ]
]

add_new-Opened :
    (st : Store) (r : Result Region) (calls : List Syscall)
    → Below st.next_id st.g_regions
    → HasId st.next_id r
    → Opened st (add_new st (r, calls))
unfolding add_new opened refcount_of
add_new-Opened st (err e) calls b h = record { below = b; counts = λ id. omega arith }
add_new-Opened st (ok reg) calls b h = record {
  below = ground arith;
  counts = λ id. ground (arith, refcount_of-above st.next_id id st.g_regions b);
}

hit-Opened :
    (os : Os) (st st' : Store) (s : Slot) (cbs : Callbacks) (reg : Region)
    → Below st.next_id st.g_regions
    → Countable st
    → region_get_cached os st s cbs ≡ some (reg, st')
    → Opened st (st', ok reg)
unfolding region_get_cached opened
hit-Opened os st st' s cbs reg b f e = elim (Option-cases (os.fstat s.fd)) [
  | inl unknown ↦ ground arith
  | inr (stat, known) ↦ elim (Option-cases (find_cached s cbs stat st.g_regions)) [
    | inl miss ↦ ground arith
    | inr ((r, cs), found) ↦
        let (count, below, older) =
          find_cached-counts st.next_id s cbs stat st.g_regions cs r b f found in
        record { below = ground arith; counts = λ id. ground (arith, count id) }
  ]
]

-- Opening a region counts it once more if it succeeds, whether the region is cached or new,
-- changes no other count, and changes none if it fails, given that no count is at the top of its
-- type and that the cached regions are older than the next one.
pub region_open-Opened :
    (os : Os) (st : Store) (s : Slot) (cbs : Callbacks)
    → Below st.next_id st.g_regions
    → Countable st
    → Opened st (region_open os st s cbs)
unfolding region_open
region_open-Opened os st s cbs b f = elim (Option-cases (region_get_cached os st s cbs)) [
  | inl miss ↦
      rw (miss, region_open)
        (add_new-Opened st (map_region os st.next_id cbs s).0 (map_region os st.next_id cbs s).1 b
          (map_region-HasId os st.next_id cbs s))
  | inr ((reg, st'), hit) ↦ rw (hit, region_open) (hit-Opened os st st' s cbs reg b f hit)
]

-- An opened region is at the addresses of its slot.
abbrev pub IsAt : Slot → Result Region → Type 0
IsAt s (ok reg) = (reg.gpa ≡ s.gpa) × (reg.uva ≡ s.uva) × (reg.size ≡ s.size)
IsAt s (err e) = Unit {0}

map_region-IsAt :
    (os : Os) (id : ℕ) (cbs : Callbacks) (s : Slot) → IsAt s (map_region os id cbs s).0
unfolding map_region
map_region-IsAt os id cbs s = elim (Option-cases (map_memory os s.size s.fd s.offset).ptr) [
  | inl failed ↦ rw (failed, map_region) tt
  | inr (ptr, mapped) ↦ elim (Option-cases (map_callback os cbs ptr s.size)) [
    | inl accepted ↦ ground arith
    | inr (e, refused) ↦ ground arith
  ]
]

find_cached-IsAt :
    (s : Slot) (cbs : Callbacks) (stat : ℕ × ℕ) (cs cs' : List Cached) (reg : Region)
    → find_cached s cbs stat cs ≡ some (reg, cs')
    → IsAt s (ok reg)
unfolding find_cached matches
find_cached-IsAt s cbs stat [] cs' reg e = cc
find_cached-IsAt s cbs stat (c ∷ cs) cs' reg e = elim (Option-cases (find_cached s cbs stat cs)) [
  | inl none_left ↦ ground arith
  | inr ((r, rest), found) ↦ ground (arith, find_cached-IsAt s cbs stat cs rest r found)
]

add_new-IsAt :
    (st : Store) (s : Slot) (r : Result Region) (calls : List Syscall)
    → IsAt s r
    → IsAt s (add_new st (r, calls)).1
unfolding add_new
add_new-IsAt st s (ok reg) calls h = h
add_new-IsAt st s (err e) calls h = tt

hit-IsAt :
    (os : Os) (st st' : Store) (s : Slot) (cbs : Callbacks) (reg : Region)
    → region_get_cached os st s cbs ≡ some (reg, st')
    → IsAt s (ok reg)
unfolding region_get_cached
hit-IsAt os st st' s cbs reg e = elim (Option-cases (os.fstat s.fd)) [
  | inl unknown ↦ ground arith
  | inr (stat, known) ↦ elim (Option-cases (find_cached s cbs stat st.g_regions)) [
    | inl miss ↦ ground arith
    | inr ((r, cs), found) ↦ ground (arith, find_cached-IsAt s cbs stat st.g_regions cs r found)
  ]
]

-- A region that is opened for a slot, cached or new, has the guest address, the master's address
-- and the size of the slot.
pub region_open-IsAt :
    (os : Os) (st : Store) (s : Slot) (cbs : Callbacks) → IsAt s (region_open os st s cbs).1
unfolding region_open
region_open-IsAt os st s cbs = elim (Option-cases (region_get_cached os st s cbs)) [
  | inl miss ↦
      rw (miss, region_open)
        (add_new-IsAt st s (map_region os st.next_id cbs s).0 (map_region os st.next_id cbs s).1
          (map_region-IsAt os st.next_id cbs s))
  | inr ((reg, st'), hit) ↦ rw (hit, region_open) (hit-IsAt os st st' s cbs reg hit)
]
