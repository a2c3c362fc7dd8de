-- ===== src/Memmap/Translate/Inverse.antt =====
-- Translating there and back, and where `uva_to_ptr` finds nothing.
use yc_libvhost_server.Base.{
  get_elem?, All, All-get_elem?, ℕ, zero, suc, ◌+◌, ◌-◌, ◌^◌, ◌≤◌, ◌<◌, ◌≡◌, refl, ap, ◌∙◌, ◌↔◌,
  ◌⊎◌, none, some, List, [], ◌∷◌, arith,
}
use yc_libvhost_server.Memmap.Region.{Region, Memmap}
use yc_libvhost_server.Memmap.Translate.{
  uva_to_ptr, ptr_to_gpa, gpa_range_to_ptr, IsMapped, gpa_of, uva_in,
}
use yc_libvhost_server.Memmap.Translate.Sound.{gpa_range_to_ptr-Covers}

-- The mappings of the table's regions do not overlap in this process: `mmap` gives each its own.
abbrev pub PtrDisjoint : List Region → Type 0
PtrDisjoint [] = Unit {0}
PtrDisjoint (reg ∷ regs) =
    All (λ (r : Region). (reg.ptr + reg.size ≤ r.ptr) ⊎ (r.ptr + r.size ≤ reg.ptr)) regs
    × PtrDisjoint regs

gpa_of-get_elem? :
    (regs : List Region) (i ptr : ℕ) (reg : Region)
    → All IsMapped regs
    → PtrDisjoint regs
    → get_elem? regs i ≡ some reg
    → reg.ptr ≤ ptr
    → ptr < reg.ptr + reg.size
    → gpa_of regs ptr ≡ some (ptr - reg.ptr + reg.gpa)
unfolding gpa_of
gpa_of-get_elem? [] i ptr reg v d e lo hi = cc
gpa_of-get_elem? (r ∷ regs) zero ptr reg v d e lo hi = ground arith
gpa_of-get_elem? (r ∷ regs) (suc i) ptr reg v d e lo hi = ground (
  arith,
  All-get_elem? (λ (s : Region). (r.ptr + r.size ≤ s.ptr) ⊎ (s.ptr + s.size ≤ r.ptr)) regs i reg d.0
      e,
  gpa_of-get_elem? regs i ptr reg v.1 d.1 e lo hi,
)

-- Where `gpa_range_to_ptr` translates a range, in a table of mapped regions that do not overlap
-- in this process, `ptr_to_gpa` takes every byte of it back.
pub ptr_to_gpa-gpa_range_to_ptr :
    (mm : Memmap) (gpa len ptr k : ℕ)
    → gpa < 2 ^ 64
    → All IsMapped mm.regions
    → PtrDisjoint mm.regions
    → gpa_range_to_ptr mm gpa len ≡ some ptr
    → k < len
    → ptr_to_gpa mm (ptr + k) ≡ some (gpa + k)
unfolding ptr_to_gpa
ptr_to_gpa-gpa_range_to_ptr mm gpa len ptr k b v d e h =
    let (i, reg, at, lo, hi, p) = gpa_range_to_ptr-Covers mm gpa len ptr b v e in
    gpa_of-get_elem? mm.regions i (ptr + k) reg v d at (omega arith) (omega arith)
    ∙ ap some (omega arith)

-- In a table of mapped regions, `uva_to_ptr` finds nothing exactly when the address lies in no
-- region.
pub uva_to_ptr-none :
    (mm : Memmap) (uva : ℕ)
    → uva < 2 ^ 64
    → All IsMapped mm.regions
    → (uva_to_ptr mm uva ≡ none)
      ↔ All (λ (reg : Region). (uva < reg.uva) ⊎ (reg.uva + reg.size ≤ uva)) mm.regions
unfolding uva_to_ptr
uva_to_ptr-none mm uva b v = (none_misses mm.regions v, misses_none mm.regions v)
  where
    none_misses :
        (regs : List Region)
        → All IsMapped regs
        → uva_in regs uva ≡ none
        → All (λ (reg : Region). (uva < reg.uva) ⊎ (reg.uva + reg.size ≤ uva)) regs
    none_misses [] v e = tt
    none_misses (reg ∷ regs) v e = ground (arith, none_misses regs v.1)

    misses_none :
        (regs : List Region)
        → All IsMapped regs
        → All (λ (reg : Region). (uva < reg.uva) ⊎ (reg.uva + reg.size ≤ uva)) regs
        → uva_in regs uva ≡ none
    misses_none [] v m = refl
    misses_none (reg ∷ regs) v m = ground (arith, misses_none regs v.1)
