-- ===== src/Memmap/Host.antt =====
-- map_memory and unmap_memory of memmap.c, as the calls that they make of the host.
pub mod Footprint
use yc_libvhost_server.Base.{
  ℕ, ◌+◌, ◌^◌, Bool, List, [], ◌∷◌, ◌++◌, Option, none, some, if◌then◌else◌, ◌==◌, add64, sub64,
  align_up,
}

abbrev pub page_size : ℕ
page_size = 2 ^ 12

abbrev pub huge_page_size : ℕ
huge_page_size = 0x20_0000

-- What the host answers. `reserve` is an anonymous `mmap` of that length anywhere; the `fix_` are
-- `mmap` with MAP_FIXED, which succeeds at the address asked for or fails; a callback that fails
-- gives its error.
pub record Os : Type 0 where
  pub reserve : ℕ → Option ℕ
  pub fix_file : ℕ → ℕ → ℕ → ℕ → Bool
  pub fix_anonymous : ℕ → ℕ → Bool
  pub errno : ℕ
  pub fstat : ℕ → Option (ℕ × ℕ)
  pub run_map_cb : ℕ → ℕ → ℕ → Option ℕ
  pub run_unmap_cb : ℕ → ℕ → ℕ → Option ℕ

-- The successful calls that change the address space: start and length.
pub data Syscall : Type 0 where
  mmap : ℕ → ℕ → Syscall
  munmap : ℕ → ℕ → Syscall

-- The call log of an operation has the latest call first.
pub record Attempt : Type 0 where
  pub ptr : Option ℕ
  pub calls : List Syscall

-- The locals of map_memory, for a page-aligned `len` and a reservation at `map`.
pub record Placement : Type 0 where
  pub len : ℕ
  pub map : ℕ
  pub map_len : ℕ
  pub aligned_addr : ℕ
  pub tail : ℕ
  pub tail_len : ℕ
  pub start : ℕ
  pub end : ℕ

abbrev pub aligned_len : ℕ → ℕ
aligned_len len = align_up len huge_page_size

abbrev pub reserved_len : ℕ → ℕ
reserved_len len = add64 (aligned_len len) (huge_page_size + page_size)

unfoldable pub place : ℕ → ℕ → Placement
place len map = record {
  len = len;
  map = map;
  map_len = reserved_len len;
  aligned_addr = addr;
  tail = add64 addr len;
  tail_len = sub64 (aligned_len len) len;
  start = sub64 addr page_size;
  end = add64 (add64 addr (aligned_len len)) page_size;
}
  where
    addr : ℕ
    addr = align_up (add64 map page_size) huge_page_size

-- The pages before and after the mapping stay reserved.
map_done : Placement → List Syscall → Attempt
map_done p more = record {
  ptr = some p.aligned_addr;
  calls =
      munmap p.end (sub64 (add64 p.map p.map_len) p.end)
      ∷ munmap p.map (sub64 p.start p.map)
      ∷ (more ++ (mmap p.aligned_addr p.len ∷ mmap p.map p.map_len ∷ []));
}

map_failed : Placement → List Syscall → Attempt
map_failed p more = record {
  ptr = none;
  calls = munmap p.map p.map_len ∷ (more ++ (mmap p.map p.map_len ∷ []));
}

unfoldable pub map_in : Os → ℕ → ℕ → Placement → Attempt
unfolding map_done map_failed
map_in os fd offset p =
    if os.fix_file p.aligned_addr p.len fd offset
    then if p.tail_len == 0
      then map_done p []
      else if os.fix_anonymous p.tail p.tail_len
      then map_done p (mmap p.tail p.tail_len ∷ [])
      else map_failed p (mmap p.aligned_addr p.len ∷ [])
    else map_failed p []

unfoldable pub map_memory : Os → ℕ → ℕ → ℕ → Attempt
map_memory os size fd offset = elim (os.reserve (reserved_len len)) [
  | none ↦ record { ptr = none; calls = [] }
  | some map ↦ map_in os fd offset (place len map)
]
  where
    len : ℕ
    len = align_up size page_size

pub unmap_memory : ℕ → ℕ → Syscall
unmap_memory addr len = munmap (sub64 addr page_size) (add64 (align_up len huge_page_size) (2 ^ 13))
