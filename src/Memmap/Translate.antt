-- ===== src/Memmap/Translate.antt =====
-- The address translations of memmap.c: uva_to_ptr, ptr_to_gpa and gpa_range_to_ptr.
-- A null pointer and TRANSLATION_FAILED are `none`.
pub mod Sound
pub mod Inverse
use yc_libvhost_server.Base.{
  ℕ, ◌+◌, ◌^◌, ◌<◌, Bool, ◌&&◌, ◌||◌, List, [], ◌∷◌, Option, none, some, ltb, leb, add64, sub64,
  if◌then◌else◌,
}
use yc_libvhost_server.Memmap.Region.{Region, Memmap}

-- `start <= addr && addr - start < size`
abbrev pub within : ℕ → ℕ → ℕ → Bool
within addr start size = leb start addr && ltb (sub64 addr start) size

uva_in : List Region → ℕ → Option ℕ
uva_in [] uva = none
uva_in (reg ∷ regs) uva =
    if within uva reg.uva reg.size
    then some (add64 reg.ptr (sub64 uva reg.uva))
    else uva_in regs uva

unfoldable pub uva_to_ptr : Memmap → ℕ → Option ℕ
unfolding uva_in
uva_to_ptr mm uva = uva_in mm.regions uva

gpa_of : List Region → ℕ → Option ℕ
gpa_of [] ptr = none
gpa_of (reg ∷ regs) ptr =
    if leb reg.ptr ptr && ltb ptr (add64 reg.ptr reg.size)
    then some (add64 (sub64 ptr reg.ptr) reg.gpa)
    else gpa_of regs ptr

unfoldable pub ptr_to_gpa : Memmap → ℕ → Option ℕ
unfolding gpa_of
ptr_to_gpa mm ptr = gpa_of mm.regions ptr

gpa_range_in : List Region → ℕ → ℕ → Option ℕ
gpa_range_in [] gpa len = none
gpa_range_in (reg ∷ regs) gpa len =
    if within gpa reg.gpa reg.size
    then if ltb reg.size len || ltb reg.size (add64 (sub64 gpa reg.gpa) len)
      then none
      else some (add64 reg.ptr (sub64 gpa reg.gpa))
    else gpa_range_in regs gpa len

unfoldable pub gpa_range_to_ptr : Memmap → ℕ → ℕ → Option ℕ
unfolding gpa_range_in
gpa_range_to_ptr mm gpa len = gpa_range_in mm.regions gpa len

-- A region whose three ranges end inside the 64-bit spaces, and which `mmap` could map: no object
-- of a process is larger than PTRDIFF_MAX.
pub record IsMapped (reg : Region) : Type 0 where
  pub gpa_fits : reg.gpa + reg.size < 2 ^ 64
  pub uva_fits : reg.uva + reg.size < 2 ^ 64
  pub ptr_fits : reg.ptr + reg.size < 2 ^ 64
  pub size_fits : reg.size < 2 ^ 63
