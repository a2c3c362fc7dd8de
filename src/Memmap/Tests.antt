-- ===== src/Memmap/Tests.antt =====
-- The theorems about memmap.c at concrete inputs, and runs of its functions.
use yc_libvhost_server.Base.{
  ltb, if◌then◌else◌, Bool-cases, All, enxio, ok, err, ◌+◌, ◌-◌, ◌^◌, ◌≤◌, ◌<◌, ◌≡◌, refl, ◌↔◌, ◌⊎◌,
  inl, inr, true, false, none, some, List, [], ◌∷◌, map, arith,
}
use yc_libvhost_server.Memmap.Cache.{
  Slot, Store, matches, find_cached, region_get_cached, new_region, map_callback, map_region,
  region_unref, region_open,
}
use yc_libvhost_server.Memmap.Cache.Counts.{refcount_of}
use yc_libvhost_server.Memmap.Cache.Open.{Countable, IsAt, region_open-IsAt}
use yc_libvhost_server.Memmap.Host.{Os, munmap, place, map_in, map_memory}
use yc_libvhost_server.Memmap.Host.Footprint.{
  is_mapped, WellBehaved, undo, map_memory-undo, map_memory-guard,
}
use yc_libvhost_server.Memmap.Region.{Callbacks, Region, Memmap}
use yc_libvhost_server.Memmap.Slots.{add_slot, slots_after, del_slot, memmap_unref}
use yc_libvhost_server.Memmap.Slots.Balance.{
  occurs, IsBalanced, add_slot-IsBalanced, del_slot-IsBalanced, slots_left, memmap_unref-IsBalanced,
}
use yc_libvhost_server.Memmap.Slots.Ordered.{IsTable, add_slot-IsTable}
use yc_libvhost_server.Memmap.Slots.Removal.{IsNamed, IsTakenOut, del_slot_lem, add_slot-shadows}
use yc_libvhost_server.Memmap.Translate.{uva_to_ptr, ptr_to_gpa, gpa_range_to_ptr, IsMapped}
use yc_libvhost_server.Memmap.Translate.Inverse.{ptr_to_gpa-gpa_range_to_ptr, uva_to_ptr-none}
use yc_libvhost_server.Memmap.Translate.Sound.{Covers, gpa_range_to_ptr-Covers}

abbrev cbs : Callbacks
cbs = record { map_cb = 0; unmap_cb = 0 }

abbrev ram : Region
ram = record {
  id = 0;
  gpa = 0x1000;
  uva = 0x7000;
  ptr = 0x20_0000;
  size = 0x4000;
  offset = 0;
  device = 1;
  inode = 2;
  callbacks = cbs;
}

abbrev one_region : Memmap
one_region = record { ref = 1; callbacks = cbs; regions = ram ∷ [] }

abbrev high_slot : Slot
high_slot = record { gpa = 0x1_0000; uva = 0x2_0000; size = 0x2000; fd = 3; offset = 0 }

abbrev shadowing_slot : Slot
shadowing_slot = record { gpa = 0x1000; uva = 0x2_0000; size = 0x2000; fd = 3; offset = 0 }

abbrev linux : Os
linux = record {
  reserve = λ len. if ltb len (2 ^ 48) then some 0x4000_0000 else none;
  fix_file = λ addr len fd offset. true;
  fix_anonymous = λ addr len. true;
  errno = 12;
  fstat = λ fd. some (1, 7);
  run_map_cb = λ cb addr len. none;
  run_unmap_cb = λ cb addr len. none;
}

abbrev one_cached : Store
one_cached = record {
  g_regions = record { region = ram; refcount = 1 } ∷ [];
  next_id = 1;
  calls = [];
}

linux-WellBehaved : WellBehaved linux
linux-WellBehaved len map e = elim (Bool-cases (ltb len (2 ^ 48))) [
  | inl small ↦ ground arith
  | inr large ↦ ground arith
]

ram-IsMapped : All IsMapped one_region.regions
ram-IsMapped = (
  record {
    gpa_fits = omega arith;
    uva_fits = omega arith;
    ptr_fits = omega arith;
    size_fits = omega arith;
  },
  tt,
)

ram-IsTable : IsTable one_region.regions
ram-IsTable = record {
  within_slots = omega arith;
  fits = ((omega arith, omega arith), tt);
  apart = (tt, tt);
  ascending = (tt, tt);
}

one_cached-Countable : Countable one_cached
unfolding refcount_of
one_cached-Countable id = ground arith

one_cached-IsBalanced : IsBalanced (λ id. 0) one_cached one_region.regions
unfolding occurs refcount_of
one_cached-IsBalanced = record { below = (omega arith, tt); counts = λ id. ground arith }

add_slot-IsTable_example :
    IsTable (slots_after one_region (add_slot linux one_cached one_region high_slot).1)
add_slot-IsTable_example =
    add_slot-IsTable linux one_cached one_region high_slot ram-IsTable
      (omega arith, omega arith, omega arith)

del_slot_lem_example :
    ((reg : Region) × (rest : List Region) × IsTakenOut 0x1000 0x7000 0x4000 reg rest
        one_region.regions
      × (del_slot linux one_cached one_region 0x1000 0x7000 0x4000
          ≡ (region_unref linux reg.id one_cached, ok (record one_region { regions = rest })))
      × IsTable rest)
    ⊎ (All (λ r. ¬ IsNamed 0x1000 0x7000 0x4000 r) one_region.regions
        × (del_slot linux one_cached one_region 0x1000 0x7000 0x4000 ≡ (one_cached, err enxio)))
del_slot_lem_example = del_slot_lem linux one_cached one_region 0x1000 0x7000 0x4000 ram-IsTable

add_slot-IsBalanced_example :
    IsBalanced
      (λ id. 0)
      (add_slot linux one_cached one_region high_slot).0
      (slots_after one_region (add_slot linux one_cached one_region high_slot).1)
add_slot-IsBalanced_example =
    add_slot-IsBalanced (λ id. 0) linux one_cached one_region high_slot one_cached-IsBalanced
      one_cached-Countable

del_slot-IsBalanced_example :
    IsBalanced
      (λ id. 0)
      (del_slot linux one_cached one_region 0x1000 0x7000 0x4000).0
      (slots_after one_region (del_slot linux one_cached one_region 0x1000 0x7000 0x4000).1)
del_slot-IsBalanced_example =
    del_slot-IsBalanced (λ id. 0) linux one_cached one_region 0x1000 0x7000 0x4000
      one_cached-IsBalanced one_cached-Countable

memmap_unref-IsBalanced_example :
    IsBalanced
      (λ id. 0)
      (memmap_unref linux one_cached one_region).0
      (slots_left (memmap_unref linux one_cached one_region).1)
memmap_unref-IsBalanced_example =
    memmap_unref-IsBalanced (λ id. 0) linux one_cached one_region one_cached-IsBalanced
      one_cached-Countable

translated : gpa_range_to_ptr one_region 0x1800 0x100 ≡ some 0x20_0800
unfolding gpa_range_to_ptr
translated = refl

gpa_range_to_ptr-Covers_example : Covers one_region.regions 0x1800 0x100 0x20_0800
gpa_range_to_ptr-Covers_example =
    gpa_range_to_ptr-Covers one_region 0x1800 0x100 0x20_0800 (omega arith) ram-IsMapped translated

ptr_to_gpa-gpa_range_to_ptr_example : ptr_to_gpa one_region 0x20_0808 ≡ some 0x1808
ptr_to_gpa-gpa_range_to_ptr_example =
    ptr_to_gpa-gpa_range_to_ptr one_region 0x1800 0x100 0x20_0800 8 (omega arith) ram-IsMapped
      (tt, tt) translated (omega arith)

uva_to_ptr-none_example :
    (uva_to_ptr one_region 0x100 ≡ none)
    ↔ All (λ (reg : Region). (0x100 < reg.uva) ⊎ (reg.uva + reg.size ≤ 0x100)) one_region.regions
uva_to_ptr-none_example = uva_to_ptr-none one_region 0x100 (omega arith) ram-IsMapped

map_memory-undo_example : is_mapped (undo 0x2000 (map_memory linux 0x2000 3 0)) 0x4020_0000 ≡ false
map_memory-undo_example =
    map_memory-undo linux 0x2000 3 0 0x4020_0000 linux-WellBehaved (omega arith)

mapped_there : (map_memory linux 0x2000 3 0).ptr ≡ some 0x4020_0000
unfolding map_memory map_in place
mapped_there = refl

map_memory-guard_example :
    is_mapped (munmap 0x4020_0000 0x2000 ∷ (map_memory linux 0x2000 3 0).calls) (0x4020_0000 - 1)
    ≡ true
map_memory-guard_example =
    map_memory-guard linux 0x2000 3 0 0x4020_0000 linux-WellBehaved (omega arith) mapped_there

region_open-IsAt_example : IsAt high_slot (region_open linux one_cached high_slot cbs).1
region_open-IsAt_example = region_open-IsAt linux one_cached high_slot cbs

-- The region that the shadowing slot opens.
abbrev shadow : Region
shadow = record {
  id = 1;
  gpa = 0x1000;
  uva = 0x2_0000;
  ptr = 0x4020_0000;
  size = 0x2000;
  offset = 0;
  device = 1;
  inode = 7;
  callbacks = cbs;
}

shadow_opens : (region_open linux one_cached shadowing_slot cbs).1 ≡ ok shadow
unfolding region_open region_get_cached find_cached matches map_region map_callback new_region
    map_memory map_in place
shadow_opens = refl

add_slot-shadows_example :
    (slots_after one_region (add_slot linux one_cached one_region shadowing_slot).1
      ≡ shadow ∷ ram ∷ [])
    × (gpa_range_to_ptr (record one_region { regions = shadow ∷ ram ∷ [] }) ram.gpa 0x100
        ≡ some 0x4020_0000)
add_slot-shadows_example =
    add_slot-shadows linux one_cached one_region shadowing_slot ram shadow 0x100 refl
      (omega arith, omega arith) (omega arith) (omega arith) refl (inl (omega arith)) (omega arith)
      shadow_opens (omega arith) (omega arith)
