-- ===== src/Memlog.antt =====
-- memlog.c: the bitmap of guest pages that the device has written, shared with the master while it
-- migrates the guest. A word is a 64-bit number in the host's order.
pub mod Words
pub mod Pages
mod Tests
use yc_libvhost_server.Base.{
  ltb, ◌==◌, if◌then◌else◌, get_or, set, add64, sub64, ℕ, zero, suc, ◌+◌, ◌-◌, ◌*◌, ◌/◌, ◌%◌, ◌^◌,
  bit_or, ◌&&◌, not, Option, none, some, List, map,
}
use yc_libvhost_server.Memmap.Region.{Memmap}
use yc_libvhost_server.Memmap.Translate.{ptr_to_gpa}

-- `~0UL`
abbrev pub ones : ℕ
ones = 2 ^ 64 - 1

-- atomic_or_le_ulong at index `i`; a write outside of the mapping is none.
or_word : List ℕ → ℕ → ℕ → List ℕ
or_word map i mask = set map i (bit_or (get_or map i 0) mask)

-- `for (i = i; count != 0; i++, count--) map[i] = ~0UL`
pub fill : ℕ → ℕ → List ℕ → List ℕ
fill zero i map = map
fill (suc count) i map = fill count (suc i) (set map i ones)

-- The full words and the last partial word; `start_in_word` counts for the latter alone. Where it is
-- past `end_in_word` in the same word, the C code shifts by 64 bits or more, which has no meaning;
-- the model, whose subtraction stops at 0, is not about that.
pub set_rest : List ℕ → ℕ → ℕ → ℕ → ℕ → List ℕ
unfolding or_word
set_rest map start_idx end_idx start_in_word end_in_word =
    let filled = fill (end_idx - start_idx) start_idx map in
    if end_in_word == 0
    then filled
    else or_word filled end_idx
        (ones / 2 ^ (64 - (end_in_word - start_in_word)) * 2 ^ start_in_word % 2 ^ 64)

pub bitmap_set_atomic : List ℕ → ℕ → ℕ → List ℕ
unfolding or_word
bitmap_set_atomic map start end =
    if not (start % 64 == 0) && ltb (start / 64) (end / 64)
    then set_rest (or_word map (start / 64) (ones * 2 ^ (start % 64) % 2 ^ 64)) (start / 64 + 1)
        (end / 64) 0 (end % 64)
    else set_rest map (start / 64) (end / 64) (start % 64) (end % 64)

-- `size` is in bytes.
pub record Memlog : Type 0 where
  pub base : List ℕ
  pub size : ℕ

-- VHOST_LOG_PAGE
abbrev pub log_page : ℕ
log_page = 0x1000

-- The page behind the range, cut off at the last bit of the log.
abbrev pub dirty_end : Memlog → ℕ → ℕ → ℕ
dirty_end log gpa len =
    let limit = log.size * 8 % 2 ^ 64 in
    let end = sub64 (add64 gpa len) 1 / log_page + 1 in if ltb limit end then limit else end

-- `none` is the failed assertion that the range does not wrap.
pub mark_gpa_range_dirty : Memlog → ℕ → ℕ → Option Memlog
mark_gpa_range_dirty log gpa len =
    if ltb gpa (add64 gpa len)
    then some
        (record log { base = bitmap_set_atomic log.base (gpa / log_page) (dirty_end log gpa len) })
    else none

-- A pointer that lies in no region is passed over.
pub mark_range_dirty : Memlog → Memmap → ℕ → ℕ → Option Memlog
mark_range_dirty log mm ptr len = elim (ptr_to_gpa mm ptr) [
  | none ↦ some log
  | some gpa ↦ mark_gpa_range_dirty log gpa len
]
