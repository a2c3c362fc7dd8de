-- ===== src/Memmap/Slots.antt =====
-- The table of a memory map: vhd_memmap_new, dup, add_slot, del_slot, ref and unref of memmap.c.
pub mod Ordered
pub mod Balance
pub mod Removal
use mathlib.Core.Option
use yc_libvhost_server.Base.{
  ltb, leb, ◌==◌, if◌then◌else◌, Bool-cases, length, get_elem?, take, drop, add64, sub64, Errno,
  einval, enobufs, enxio, Result, ok, err, ℕ, zero, suc, ◌+◌, ◌^◌, ◌<◌, ◌≡◌, ◌≢◌, inl, inr, Bool,
  true, false, ◌&&◌, ◌||◌, Option, none, some, List, [], ◌∷◌, ◌++◌, arith,
}
use yc_libvhost_server.Memmap.Cache.{Slot, Store, region_ref, region_unref, region_open}
use yc_libvhost_server.Memmap.Cache.Open.{opened}
use yc_libvhost_server.Memmap.Host.{Os}
use yc_libvhost_server.Memmap.Region.{Region, Memmap, ram_slots_max}

-- The condition under which the loop of vhd_memmap_add_slot passes over a slot.
abbrev pub is_clear : Region → Slot → Bool
is_clear reg s =
    leb (add64 reg.gpa reg.size) s.gpa
    || leb (add64 s.gpa s.size) reg.gpa
    || leb (add64 reg.uva reg.size) s.uva
    || leb (add64 s.uva s.size) reg.uva

pub all_clear : List Region → Slot → Bool
all_clear [] s = true
all_clear (reg ∷ regs) s = if is_clear reg s then all_clear regs s else false

-- The loop from `i = num` down: past the last slot that starts below `gpa`.
pub position : List Region → ℕ → ℕ → ℕ
position regs gpa zero = zero
position regs gpa (suc i) =
    let rest = position regs gpa i in
    elim (get_elem? regs i) [ none ↦ rest | some reg ↦ if ltb reg.gpa gpa then suc i else rest ]

-- The memmove and the store into the gap.
abbrev pub insert_at : ℕ → Region → List Region → List Region
insert_at i reg regs = take i regs ++ reg ∷ drop i regs

put_slot : Memmap → ℕ → Store × Result Region → Store × Result Memmap
put_slot mm i (st, err e) = (st, err e)
put_slot mm i (st, ok reg) = (st, ok (record mm { regions = insert_at i reg mm.regions }))

pub add_slot : Os → Store → Memmap → Slot → Store × Result Memmap
unfolding put_slot
add_slot os st mm s =
    if ltb (add64 s.gpa s.size) s.gpa || ltb (add64 s.uva s.size) s.uva
    then (st, err einval)
    else if length mm.regions == ram_slots_max
    then (st, err enobufs)
    else if all_clear mm.regions s
    then put_slot mm (position mm.regions s.gpa (length mm.regions))
        (region_open os st s mm.callbacks)
    else (st, err einval)

-- The slots of the map after a call: unchanged if it failed.
pub slots_after : Memmap → Result Memmap → List Region
slots_after mm (ok mm') = mm'.regions
slots_after mm (err e) = mm.regions

-- A call of add_slot fails with the store as it was, or passes every guard and opens a region.
add_slot_cases {ℓ} :
    (P : Store × Result Memmap → Type ℓ) (os : Os) (st : Store) (mm : Memmap) (s : Slot)
    → ((e : Errno) → P (st, err e))
    → ((add64 s.gpa s.size < s.gpa → ⊥)
        → (add64 s.uva s.size < s.uva → ⊥)
        → length mm.regions ≢ ram_slots_max
        → all_clear mm.regions s ≡ true
        → P (
            put_slot mm
              (position mm.regions s.gpa (length mm.regions))
              (region_open os st s mm.callbacks)))
    → P (add_slot os st mm s)
unfolding add_slot
add_slot_cases P os st mm s refused opened =
    elim (Bool-cases (ltb (add64 s.gpa s.size) s.gpa || ltb (add64 s.uva s.size) s.uva)) [
      | inl wraps ↦ rw (wraps, add_slot) (refused einval)
      | inr fits ↦ elim (Bool-cases (length mm.regions == ram_slots_max)) [
        | inl full ↦ rw (fits, add_slot) (rw full (refused enobufs))
        | inr room ↦ elim (Bool-cases (all_clear mm.regions s)) [
          | inl clear ↦
              rw (fits, add_slot)
                (rw room (rw clear (opened (ground arith) (ground arith) (ground arith) clear)))
          | inr taken ↦ rw (fits, add_slot) (rw room (rw taken (refused einval)))
        ]
      ]
    ]

add_slot_passes :
    (os : Os) (st : Store) (mm : Memmap) (s : Slot)
    → s.gpa + s.size < 2 ^ 64
    → s.uva + s.size < 2 ^ 64
    → length mm.regions ≢ ram_slots_max
    → all_clear mm.regions s ≡ true
    → add_slot os st mm s
      ≡ put_slot mm
          (position mm.regions s.gpa (length mm.regions))
          (region_open os st s mm.callbacks)
unfolding add_slot
add_slot_passes os st mm s g u room clear = ground arith

-- The first slot that is at `gpa` and `uva` and has that size, and the table without it.
pub find_slot : ℕ → ℕ → ℕ → List Region → Option (Region × List Region)
find_slot gpa uva size [] = none
find_slot gpa uva size (reg ∷ regs) =
    if (reg.gpa == gpa) && (reg.uva == uva) && (reg.size == size)
    then some (reg, regs)
    else Option.map (λ (r, rest). (r, reg ∷ rest)) (find_slot gpa uva size regs)

pub del_slot : Os → Store → Memmap → ℕ → ℕ → ℕ → Store × Result Memmap
del_slot os st mm gpa uva size = elim (find_slot gpa uva size mm.regions) [
  | none ↦ (st, err enxio)
  | some (reg, rest) ↦ (region_unref os reg.id st, ok (record mm { regions = rest }))
]

pub memmap_new : ℕ → ℕ → Memmap
memmap_new map_cb unmap_cb = record {
  ref = 1;
  callbacks = record { map_cb = map_cb; unmap_cb = unmap_cb };
  regions = [];
}

ref_all : List Region → Store → Store
ref_all [] st = st
ref_all (reg ∷ regs) st = ref_all regs (region_ref reg.id st)

pub memmap_dup : Store → Memmap → Store × Memmap
unfolding ref_all
memmap_dup st mm = (ref_all mm.regions st, record mm { ref = 1 })

pub unref_all : Os → List Region → Store → Store
unref_all os [] st = st
unref_all os (reg ∷ regs) st = unref_all os regs (region_unref os reg.id st)

pub memmap_ref : Memmap → Memmap
memmap_ref mm = record mm { ref = add64 mm.ref 1 }

-- The last reference runs memmap_release; `none` is the freed map.
pub memmap_unref : Os → Store → Memmap → Store × Option Memmap
memmap_unref os st mm =
    if mm.ref == 1
    then (unref_all os mm.regions st, none)
    else (st, some (record mm { ref = sub64 mm.ref 1 }))
