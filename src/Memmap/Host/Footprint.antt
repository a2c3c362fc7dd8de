-- ===== src/Memmap/Host/Footprint.antt =====
-- The addresses that the calls of map_memory and unmap_memory of memmap.c map.
use yc_libvhost_server.Base.{
  ltb, leb, Option-cases, add64, sub64, align_up, ℕ, ◌+◌, ◌-◌, ◌%◌, ◌^◌, ◌≤◌, ◌<◌, ◌≡◌, refl, inl,
  inr, Bool, true, false, ◌&&◌, ◌||◌, not, none, some, List, [], ◌∷◌, map, arith,
}
use yc_libvhost_server.Memmap.Host.{
  page_size, huge_page_size, Os, Syscall, mmap, munmap, Attempt, Placement, reserved_len, place,
  map_in, map_memory, unmap_memory,
}

abbrev pub covered : ℕ → ℕ → ℕ → Bool
covered a start len = leb start a && ltb a (start + len)

-- Whether an address is mapped by calls, the latest of which comes first.
abbrev pub is_mapped : List Syscall → ℕ → Bool
is_mapped [] a = false
is_mapped (mmap start len ∷ calls) a = covered a start len || is_mapped calls a
is_mapped (munmap start len ∷ calls) a = not (covered a start len) && is_mapped calls a

-- What `mmap` documents: a reservation starts at a page and lies in the user's half of the space.
abbrev pub WellBehaved : Os → Type 0
WellBehaved os =
    (len map : ℕ) → os.reserve len ≡ some map → (map % page_size ≡ 0) × (map + len < 2 ^ 63)

-- What is left of a reservation from `map` is what one call unmaps from `low`.
carve :
    (a map map_len low len end rest head low_len ptr file_len : ℕ)
    → low ≡ map + head
    → low + low_len ≡ end
    → end + rest ≡ map + map_len
    → low ≤ ptr
    → ptr + file_len ≤ end
    → is_mapped
        (munmap low low_len
          ∷ munmap end rest
          ∷ munmap map head
          ∷ mmap ptr file_len
          ∷ mmap map map_len
          ∷ [])
        a
      ≡ false
carve a map map_len low len end rest head low_len ptr file_len e1 e2 e3 h1 h2 = ground arith

carve_tail :
    (a map map_len low len end rest head low_len ptr file_len tail tail_len : ℕ)
    → low ≡ map + head
    → low + low_len ≡ end
    → end + rest ≡ map + map_len
    → low ≤ ptr
    → ptr + file_len ≤ tail
    → tail + tail_len ≤ end
    → is_mapped
        (munmap low low_len
          ∷ munmap end rest
          ∷ munmap map head
          ∷ mmap tail tail_len
          ∷ mmap ptr file_len
          ∷ mmap map map_len
          ∷ [])
        a
      ≡ false
carve_tail a map map_len low len end rest head low_len ptr file_len tail tail_len e1 e2 e3 h1 h2
      h3 =
    ground arith

-- The numbers of `place`: what is left of the reservation is what `unmap_memory` gives back.
record IsPlaced (size : ℕ) (p : Placement) : Type 0 where
  low : p.start ≡ p.map + sub64 p.start p.map
  high : p.start + add64 (align_up size huge_page_size) (2 ^ 13) ≡ p.end
  rest : p.end + sub64 (add64 p.map p.map_len) p.end ≡ p.map + p.map_len
  addr : sub64 p.aligned_addr page_size ≡ p.start
  before : p.start ≤ p.aligned_addr
  file : p.aligned_addr + p.len ≤ p.tail
  after : p.tail + p.tail_len ≤ p.end
  last : p.end ≤ p.map + p.map_len
  first : p.map ≤ p.start
  guard : p.start + page_size ≡ p.aligned_addr
  small : p.map + p.map_len < 2 ^ 63

place-IsPlaced :
    (size map : ℕ)
    → size < 2 ^ 47
    → map + reserved_len (align_up size page_size) < 2 ^ 63
    → map % page_size ≡ 0
    → IsPlaced size (place (align_up size page_size) map)
unfolding place
place-IsPlaced size map hl hm hp = record {
  low = omega arith;
  high = omega arith;
  rest = omega arith;
  addr = omega arith;
  before = omega arith;
  file = omega arith;
  after = omega arith;
  last = omega arith;
  first = omega arith;
  guard = omega arith;
  small = hm;
}

-- The calls of an attempt of `map_memory`, followed by `unmap_memory` if it succeeded.
pub undo : ℕ → Attempt → List Syscall
undo size m = elim m.ptr [ none ↦ m.calls | some ptr ↦ unmap_memory ptr size ∷ m.calls ]

module _ (os : Os) (size fd offset : ℕ) (p : Placement) (placed : IsPlaced size p) where
  map_in-unmap :
      (ptr a : ℕ)
      → (map_in os fd offset p).ptr ≡ some ptr
      → is_mapped (unmap_memory ptr size ∷ (map_in os fd offset p).calls) a ≡ false
  unfolding map_in unmap_memory
  map_in-unmap ptr a e = ground (
    arith,
    placed,
    carve a p.map p.map_len p.start (add64 (align_up size huge_page_size) (2 ^ 13)) p.end
        (sub64 (add64 p.map p.map_len) p.end) (sub64 p.start p.map) p.aligned_addr p.len,
    carve_tail a p.map p.map_len p.start (add64 (align_up size huge_page_size) (2 ^ 13)) p.end
        (sub64 (add64 p.map p.map_len) p.end) (sub64 p.start p.map) p.aligned_addr p.len p.tail
        p.tail_len,
  )

  map_in-failed :
      (a : ℕ)
      → (map_in os fd offset p).ptr ≡ none
      → is_mapped (map_in os fd offset p).calls a ≡ false
  unfolding map_in
  map_in-failed a e = ground (arith, placed)

  map_in-undo : (a : ℕ) → is_mapped (undo size (map_in os fd offset p)) a ≡ false
  unfolding undo
  map_in-undo a = elim (Option-cases (map_in os fd offset p).ptr) [
    | inl e ↦ rw (e, undo) (map_in-failed a e)
    | inr (ptr, e) ↦ rw (e, undo) (map_in-unmap ptr a e)
  ]

  map_in-guard :
      (ptr : ℕ)
      → (map_in os fd offset p).ptr ≡ some ptr
      → is_mapped (munmap ptr size ∷ (map_in os fd offset p).calls) (ptr - 1) ≡ true
  unfolding map_in
  map_in-guard ptr e = ground (arith, placed)

-- On a host that behaves as `mmap` documents, and for a region below 128 TB, the attempt of
-- `map_memory` leaves nothing mapped when it fails, and when it succeeds `unmap_memory` with the
-- same size gives everything back, the guard pages and the padding included.
pub map_memory-undo :
    (os : Os) (size fd offset a : ℕ)
    → WellBehaved os
    → size < 2 ^ 47
    → is_mapped (undo size (map_memory os size fd offset)) a ≡ false
unfolding map_memory undo
map_memory-undo os size fd offset a w h =
    elim (Option-cases (os.reserve (reserved_len (align_up size page_size)))) [
      | inl e ↦ rw (e, map_memory, undo, is_mapped) (rw (e, map_memory) refl)
      | inr (map, e) ↦
          let (paged, fits) = w _ map e in
          rw (e, map_memory)
            (map_in-undo os size fd offset (place (align_up size page_size) map)
              (place-IsPlaced size map h fits paged) a)
    ]

-- On a host that behaves as `mmap` documents, `munmap` of the region's own bytes is not enough to
-- undo a successful map_memory: the guard page before them stays mapped.
pub map_memory-guard :
    (os : Os) (size fd offset ptr : ℕ)
    → WellBehaved os
    → size < 2 ^ 47
    → (map_memory os size fd offset).ptr ≡ some ptr
    → is_mapped (munmap ptr size ∷ (map_memory os size fd offset).calls) (ptr - 1) ≡ true
unfolding map_memory
map_memory-guard os size fd offset ptr w h got =
    elim (Option-cases (os.reserve (reserved_len (align_up size page_size)))) [
      | inl e ↦ absurd (cc (rw (e, map_memory) at got))
      | inr (map, e) ↦
          let (paged, fits) = w _ map e in
          rw (e, map_memory)
            (map_in-guard os size fd offset (place (align_up size page_size) map)
              (place-IsPlaced size map h fits paged) ptr (rw (e, map_memory) at got))
    ]
