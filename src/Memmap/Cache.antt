-- ===== src/Memmap/Cache.antt =====
-- The regions of memmap.c that are mapped, with their reference counts (`g_regions`, objref.h).
pub mod Counts
pub mod Open
use mathlib.Core.Option
use yc_libvhost_server.Base.{
  ◌==◌, if◌then◌else◌, add64, sub64, align_up, host, Result, ok, err, ℕ, suc, Bool, ◌&&◌, Option,
  none, some, List, [], ◌∷◌, ◌++◌,
}
use yc_libvhost_server.Memmap.Host.{huge_page_size, Os, Syscall, munmap, map_memory, unmap_memory}
use yc_libvhost_server.Memmap.Region.{Callbacks, Region}

-- What vhd_memmap_add_slot is asked to map.
pub record Slot : Type 0 where
  pub gpa : ℕ
  pub uva : ℕ
  pub size : ℕ
  pub fd : ℕ
  pub offset : ℕ

pub record Cached : Type 0 where
  pub region : Region
  pub refcount : ℕ

-- `next_id` is the address that the allocator gives next; `calls` has the latest call first.
pub record Store : Type 0 where
  pub g_regions : List Cached
  pub next_id : ℕ
  pub calls : List Syscall

same_callbacks : Callbacks → Callbacks → Bool
same_callbacks a b = (a.map_cb == b.map_cb) && (a.unmap_cb == b.unmap_cb)

same_slot : Region → Slot → Bool
same_slot reg s =
    (reg.gpa == s.gpa) && (reg.uva == s.uva) && (reg.size == s.size) && (reg.offset == s.offset)

-- The test of the loop of region_get_cached, for a descriptor of inode `ino` on device `dev`.
unfoldable pub matches : Region → Slot → Callbacks → ℕ × ℕ → Bool
unfolding same_callbacks same_slot
matches reg s cbs (dev, ino) =
    (reg.inode == ino) && (reg.device == dev) && same_slot reg s && same_callbacks reg.callbacks cbs

-- The loop: the first region that matches takes one more reference.
unfoldable pub find_cached : Slot → Callbacks → ℕ × ℕ → List Cached → Option (Region × List Cached)
find_cached s cbs stat [] = none
find_cached s cbs stat (c ∷ cs) =
    if matches c.region s cbs stat
    then some (c.region, record c { refcount = add64 c.refcount 1 } ∷ cs)
    else Option.map (λ (reg, cs'). (reg, c ∷ cs')) (find_cached s cbs stat cs)

unfoldable pub region_get_cached : Os → Store → Slot → Callbacks → Option (Region × Store)
region_get_cached os st s cbs = elim (os.fstat s.fd) [
  | none ↦ none
  | some stat ↦
      Option.map (λ (reg, cs). (reg, record st { g_regions = cs }))
        (find_cached s cbs stat st.g_regions)
]

region_id : Option (ℕ × ℕ) → ℕ × ℕ
region_id none = (0, 0)
region_id (some stat) = stat

-- The region that map_region fills in; region_init_id leaves the zeros if fstat fails.
unfoldable pub new_region : Os → ℕ → Callbacks → Slot → ℕ → Region
unfolding region_id
new_region os id cbs s ptr = record {
  id = id;
  gpa = s.gpa;
  uva = s.uva;
  ptr = ptr;
  size = s.size;
  offset = s.offset;
  device = (region_id (os.fstat s.fd)).0;
  inode = (region_id (os.fstat s.fd)).1;
  callbacks = cbs;
}

-- The outcome of `map_cb`, which is not called if it is NULL.
unfoldable pub map_callback : Os → Callbacks → ℕ → ℕ → Option ℕ
map_callback os cbs ptr size =
    if cbs.map_cb == 0 then none else os.run_map_cb cbs.map_cb ptr (align_up size huge_page_size)

unmap_callback : Os → Region → Option ℕ
unmap_callback os reg =
    if reg.callbacks.unmap_cb == 0
    then none
    else os.run_unmap_cb reg.callbacks.unmap_cb reg.ptr (align_up reg.size huge_page_size)

unfoldable pub map_region : Os → ℕ → Callbacks → Slot → Result Region × List Syscall
unfolding map_callback new_region
map_region os id cbs s =
    let m = map_memory os s.size s.fd s.offset in
    elim m.ptr [
      | none ↦ (err (host os.errno), m.calls)
      | some ptr ↦ elim (map_callback os cbs ptr s.size) [
        | some e ↦ (err (host e), munmap ptr s.size ∷ m.calls)
        | none ↦ (ok (new_region os id cbs s ptr), m.calls)
      ]
    ]

-- The region stays mapped if its callback fails.
pub unmap_region : Os → Region → List Syscall
unfolding unmap_callback
unmap_region os reg = elim (unmap_callback os reg) [
  | some e ↦ []
  | none ↦ unmap_memory reg.ptr reg.size ∷ []
]

pub ref_in : ℕ → List Cached → List Cached
ref_in id [] = []
ref_in id (c ∷ cs) =
    if c.region.id == id then record c { refcount = add64 c.refcount 1 } ∷ cs else c ∷ ref_in id cs

unfoldable pub region_ref : ℕ → Store → Store
region_ref id st = record st { g_regions = ref_in id st.g_regions }

-- refcount_dec_and_test, and LIST_REMOVE in region_release.
pub unref_in : ℕ → List Cached → List Cached
unref_in id [] = []
unref_in id (c ∷ cs) =
    if c.region.id == id
    then if c.refcount == 1 then cs else record c { refcount = sub64 c.refcount 1 } ∷ cs
    else c ∷ unref_in id cs

-- The region to unmap, if its last reference goes.
pub last_in : ℕ → List Cached → Option Region
last_in id [] = none
last_in id (c ∷ cs) =
    if c.region.id == id then if c.refcount == 1 then some c.region else none else last_in id cs

unfoldable pub region_unref : Os → ℕ → Store → Store
region_unref os id st = record st {
  g_regions = unref_in id st.g_regions;
  calls = elim (last_in id st.g_regions) [
    | none ↦ st.calls
    | some reg ↦ unmap_region os reg ++ st.calls
  ];
}

add_new : Store → Result Region × List Syscall → Store × Result Region
add_new st (err e, calls) = (record st { calls = calls ++ st.calls }, err e)
add_new st (ok reg, calls) = (
  record {
    g_regions = record { region = reg; refcount = 1 } ∷ st.g_regions;
    next_id = suc st.next_id;
    calls = calls ++ st.calls;
  },
  ok reg,
)

-- The middle of vhd_memmap_add_slot: a cached region, or a new one at the head of the list.
unfoldable pub region_open : Os → Store → Slot → Callbacks → Store × Result Region
unfolding add_new
region_open os st s cbs = elim (region_get_cached os st s cbs) [
  | some (reg, st') ↦ (st', ok reg)
  | none ↦ add_new st (map_region os st.next_id cbs s)
]
