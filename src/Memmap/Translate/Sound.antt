-- ===== src/Memmap/Translate/Sound.antt =====
-- What a successful translation of memmap.c means.
use yc_libvhost_server.Base.{
  Bool-cases, get_elem?, All, ℕ, suc, ◌+◌, ◌^◌, ◌≤◌, ◌<◌, ◌≡◌, refl, inl, inr, some, List, [], ◌∷◌,
  arith,
}
use yc_libvhost_server.Memmap.Region.{Region, Memmap}
use yc_libvhost_server.Memmap.Translate.{within, gpa_range_to_ptr, IsMapped, gpa_range_in}

-- The slot `i` of the table holds a region that covers guest addresses `gpa` to `gpa + len`, and
-- `ptr` is where `gpa` lies in its mapping.
abbrev pub Covers : List Region → ℕ → ℕ → ℕ → Type 0
Covers regs gpa len ptr =
    (i : ℕ) × (reg : Region) × (get_elem? regs i ≡ some reg)
    × (reg.gpa ≤ gpa)
    × (gpa + len ≤ reg.gpa + reg.size)
    × (ptr + reg.gpa ≡ reg.ptr + gpa)

gpa_range_in-Covers :
    (regs : List Region) (gpa len ptr : ℕ)
    → gpa < 2 ^ 64
    → All IsMapped regs
    → gpa_range_in regs gpa len ≡ some ptr
    → Covers regs gpa len ptr
unfolding gpa_range_in
gpa_range_in-Covers [] gpa len ptr b v e = cc
gpa_range_in-Covers (reg ∷ regs) gpa len ptr b v e =
    elim (Bool-cases (within gpa reg.gpa reg.size)) [
      | inl hit ↦ (0, reg, refl, ground arith, ground arith, ground arith)
      | inr miss ↦
          let (i, r, at, lo, hi, p) =
            gpa_range_in-Covers regs gpa len ptr b v.1 (rw (miss, gpa_range_in) at e) in
          (suc i, r, at, lo, hi, p)
    ]

-- A guest range that `gpa_range_to_ptr` translates, in a table of mapped regions, lies inside one
-- region of the table, whole.
pub gpa_range_to_ptr-Covers :
    (mm : Memmap) (gpa len ptr : ℕ)
    → gpa < 2 ^ 64
    → All IsMapped mm.regions
    → gpa_range_to_ptr mm gpa len ≡ some ptr
    → Covers mm.regions gpa len ptr
unfolding gpa_range_to_ptr
gpa_range_to_ptr-Covers mm gpa len ptr b v e = gpa_range_in-Covers mm.regions gpa len ptr b v e
