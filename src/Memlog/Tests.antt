-- ===== src/Memlog/Tests.antt =====
-- The theorems about memlog.c at concrete inputs.
use yc_libvhost_server.Base.{if◌then◌else◌, ◌≡◌, inl, inr, some, [], ◌∷◌, arith}
use yc_libvhost_server.Memlog.{bitmap_set_atomic, Memlog, mark_gpa_range_dirty}
use yc_libvhost_server.Memlog.Pages.{marked_after, mark_gpa_range_dirty_pages}
use yc_libvhost_server.Memlog.Words.{bit_of, within_bits, bitmap_set_atomic_bits}

bitmap_set_atomic_bits_example :
    bit_of (bitmap_set_atomic (0 ∷ 0 ∷ []) 60 70) 65
    ≡ (if within_bits 60 70 65 then 1 else bit_of (0 ∷ 0 ∷ []) 65)
bitmap_set_atomic_bits_example =
    bitmap_set_atomic_bits (0 ∷ 0 ∷ []) 60 70 65 (inl (omega arith)) (omega arith)

-- A log of 12 bytes, in a mapping of two words.
abbrev odd_log : Memlog
odd_log = record { base = 0 ∷ 0 ∷ []; size = 12 }

mark_gpa_range_dirty_pages_example :
    (log' : Memlog) × (mark_gpa_range_dirty odd_log 0x1800 0x1000 ≡ some log')
    × (log'.size ≡ 12)
    × (bit_of log'.base 2 ≡ marked_after odd_log 0x1800 0x1000 2)
mark_gpa_range_dirty_pages_example =
    mark_gpa_range_dirty_pages odd_log 0x1800 0x1000 2
      (record { room = omega arith; mapped = omega arith }) (inr (omega arith)) (omega arith)
      (omega arith)
