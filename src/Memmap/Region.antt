-- ===== src/Memmap/Region.antt =====
-- `struct vhd_memory_region` and `struct vhd_memory_map` of memmap.c.
use yc_libvhost_server.Base.{ℕ, List}

-- Two function pointers, as numbers; 0 is NULL.
pub record Callbacks : Type 0 where
  pub map_cb : ℕ
  pub unmap_cb : ℕ

-- A region is never changed once mapped, except for its reference count, which `Cache` keeps.
-- `id` is the address of the structure.
pub record Region : Type 0 where
  pub id : ℕ
  pub gpa : ℕ
  pub uva : ℕ
  pub ptr : ℕ
  pub size : ℕ
  pub offset : ℕ
  pub device : ℕ
  pub inode : ℕ
  pub callbacks : Callbacks

-- The slots in use, in table order; `num` is their number.
pub record Memmap : Type 0 where
  pub ref : ℕ
  pub callbacks : Callbacks
  pub regions : List Region

-- VHD_RAM_SLOTS_MAX
abbrev pub ram_slots_max : ℕ
ram_slots_max = 32
