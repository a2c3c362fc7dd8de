-- ===== src/Memlog/Pages.antt =====
-- Which guest pages vhd_mark_gpa_range_dirty and vhd_mark_range_dirty mark.
use native.Mathlib.Nat.{add-zero}
use yc_libvhost_server.Base.{
  ltb, if◌then◌else◌, length, All, ℕ, ◌+◌, ◌*◌, ◌/◌, ◌%◌, ◌^◌, ◌≤◌, ◌<◌, ◌≡◌, refl, ◌⊎◌, Bool, ◌&&◌,
  some, arith,
}
use yc_libvhost_server.Memlog.{
  bitmap_set_atomic, Memlog, log_page, dirty_end, mark_gpa_range_dirty, mark_range_dirty,
}
use yc_libvhost_server.Memlog.Words.{bit_of, bitmap_set_atomic_bits}
use yc_libvhost_server.Memmap.Region.{Memmap}
use yc_libvhost_server.Memmap.Translate.{ptr_to_gpa, gpa_range_to_ptr, IsMapped}
use yc_libvhost_server.Memmap.Translate.Inverse.{PtrDisjoint, ptr_to_gpa-gpa_range_to_ptr}

-- The mapping of a log, which is of whole pages, holds the words that `size` bytes reach into.
pub record IsLog (log : Memlog) : Type 0 where
  pub room : log.size ≤ 8 * length log.base
  pub mapped : log.size < 2 ^ 48

-- The page shares a byte with `gpa` to `gpa + len`.
abbrev pub touches : ℕ → ℕ → ℕ → Bool
touches page gpa len = ltb gpa ((page + 1) * log_page) && ltb (page * log_page) (gpa + len)

-- Whether a page is marked after marking a range of guest memory.
abbrev pub marked_after : Memlog → ℕ → ℕ → ℕ → ℕ
marked_after log gpa len page =
    if touches page gpa len && ltb page (log.size * 8) then 1 else bit_of log.base page

-- In a mapped log, a range of at least one byte that does not wrap marks the pages that it
-- touches, as far as the log has bits, and no other page, and the size of the log stays; the log is
-- of whole 64-bit words, or, as vhd_memlog_new takes any size, the range starts within the log.
pub mark_gpa_range_dirty_pages :
    (log : Memlog) (gpa len page : ℕ)
    → IsLog log
    → (log.size % 8 ≡ 0) ⊎ (gpa / log_page < log.size * 8)
    → 0 < len
    → gpa + len < 2 ^ 64
    → (log' : Memlog) × (mark_gpa_range_dirty log gpa len ≡ some log')
      × (log'.size ≡ log.size)
      × (bit_of log'.base page ≡ marked_after log gpa len page)
unfolding mark_gpa_range_dirty
mark_gpa_range_dirty_pages log gpa len page v inside pos fits = (
  record log { base = bitmap_set_atomic log.base (gpa / log_page) (dirty_end log gpa len) },
  ground arith,
  refl,
  ground (
    arith,
    bitmap_set_atomic_bits log.base (gpa / log_page) (dirty_end log gpa len) page (ground arith)
        (ground arith),
  ),
)

-- Over mapped regions that do not overlap in this process, marking a buffer of at least one byte
-- by the address that gpa_range_to_ptr gave for it marks the guest range that it was translated
-- from.
mark_range_dirty_translated :
    (log : Memlog) (mm : Memmap) (gpa len ptr : ℕ)
    → gpa < 2 ^ 64
    → All IsMapped mm.regions
    → PtrDisjoint mm.regions
    → gpa_range_to_ptr mm gpa len ≡ some ptr
    → 0 < len
    → mark_range_dirty log mm ptr len ≡ mark_gpa_range_dirty log gpa len
unfolding mark_range_dirty
mark_range_dirty_translated log mm gpa len ptr b v d e pos =
    let back : ptr_to_gpa mm ptr ≡ some gpa =
      rw (add-zero ptr, add-zero gpa) at
        (ptr_to_gpa-gpa_range_to_ptr mm gpa len ptr 0 b v d e pos) in
    rw (back, mark_range_dirty)
