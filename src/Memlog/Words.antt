-- ===== src/Memlog/Words.antt =====
-- Which bits bitmap_set_atomic sets.
use yc_libvhost_server.Base.{
  ltb, leb, ◌==◌, if◌then◌else◌, Bool-cases, bit_at-bit_or, bits_at, bit_at-shl, bit_at-shr,
  bit_at-mod, bit_at-ones, bit_at-le, length, get_or, set, length-set, get_or-set_self,
  get_or-set_ne, bit_at, ℕ, zero, suc, ◌+◌, ◌-◌, ◌*◌, ◌/◌, ◌%◌, ◌^◌, ◌≤◌, ◌<◌, bit_or, ◌≡◌, refl,
  ◌∙◌, ◌⊎◌, inl, inr, Bool, ◌&&◌, not, List, map, arith,
}
use yc_libvhost_server.Memlog.{ones, fill, set_rest, bitmap_set_atomic, or_word}

-- The bit `p` of a bitmap.
abbrev pub bit_of : List ℕ → ℕ → ℕ
bit_of map p = bit_at (get_or map (p / 64) 0) (p % 64)

-- The mask of the last partial word.
last_mask :
    (s e i : ℕ)
    → s ≤ e
    → e < 64
    → s < e
    → i < 64
    → bit_at (ones / 2 ^ (64 - (e - s)) * 2 ^ s % 2 ^ 64) i ≡ (if leb s i && ltb i e then 1 else 0)
last_mask s e i se e64 ne i64 = ground (
  arith,
  bit_at-mod 64 (ones / 2 ^ (64 - (e - s)) * 2 ^ s) i,
  bit_at-shl s (ones / 2 ^ (64 - (e - s))) i,
  bit_at-shr (64 - (e - s)) ones (i - s),
  bit_at-ones 64 (i - s + (64 - (e - s))),
)

first_mask : (s i : ℕ) → i < 64 → bit_at (ones * 2 ^ s % 2 ^ 64) i ≡ (if leb s i then 1 else 0)
first_mask s i i64 =
    ground (arith, bit_at-mod 64 (ones * 2 ^ s) i, bit_at-shl s ones i, bit_at-ones 64 (i - s))

get_or-or_word :
    (map : List ℕ) (i j mask : ℕ)
    → i < length map
    → get_or (or_word map i mask) j 0
      ≡ (if i == j then bit_or (get_or map i 0) mask else get_or map j 0)
unfolding or_word
get_or-or_word map i j mask h = ground (
  arith,
  get_or-set_self map i (bit_or (get_or map i 0) mask) 0 h,
  get_or-set_ne map i j (bit_or (get_or map i 0) mask) 0,
)

length-or_word : (map : List ℕ) (i mask : ℕ) → length (or_word map i mask) ≡ length map
unfolding or_word
length-or_word map i mask = length-set map i (bit_or (get_or map i 0) mask)

length-fill : (n i : ℕ) (map : List ℕ) → length (fill n i map) ≡ length map
unfolding fill
length-fill zero i map = refl
length-fill (suc n) i map = length-fill n (suc i) (set map i ones) ∙ length-set map i ones

get_or-fill :
    (n i j : ℕ) (map : List ℕ)
    → i + n ≤ length map
    → get_or (fill n i map) j 0 ≡ (if leb i j && ltb j (i + n) then ones else get_or map j 0)
unfolding fill
get_or-fill zero i j map h = ground arith
get_or-fill (suc n) i j map h = ground (
  arith,
  get_or-fill n (suc i) j (set map i ones) (rw (length-set map i ones) (omega arith)),
  get_or-set_self map i ones 0 (omega arith),
  get_or-set_ne map i j ones 0,
)

abbrev pub within_bits : ℕ → ℕ → ℕ → Bool
within_bits start end p = leb start p && ltb p end

-- A word `w` at index `i` that is or-ed with a mask of the bits from `s` to `e`.
or_bits :
    (map : List ℕ) (i s e mask p : ℕ)
    → i < length map
    → s ≤ e
    → e ≤ 64
    → ((k : ℕ) → k < 64 → bit_at mask k ≡ (if leb s k && ltb k e then 1 else 0))
    → bit_of (or_word map i mask) p
      ≡ (if within_bits (64 * i + s) (64 * i + e) p then 1 else bit_of map p)
or_bits map i s e mask p h se e64 m = ground (
  arith,
  m (p % 64) (omega arith),
  bits_at (get_or (or_word map i mask) (p / 64) 0)
      (if i == p / 64 then bit_or (get_or map i 0) mask else get_or map (p / 64) 0) (p % 64)
      (get_or-or_word map i (p / 64) mask h),
  bit_at-bit_or (p % 64) (get_or map i 0) mask,
  bit_at-le (get_or map i 0) (p % 64),
)

fill_bits :
    (n i p : ℕ) (map : List ℕ)
    → i + n ≤ length map
    → bit_of (fill n i map) p ≡ (if within_bits (64 * i) (64 * (i + n)) p then 1 else bit_of map p)
fill_bits n i p map h = ground (
  arith,
  bits_at (get_or (fill n i map) (p / 64) 0)
      (if leb i (p / 64) && ltb (p / 64) (i + n) then ones else get_or map (p / 64) 0) (p % 64)
      (get_or-fill n i (p / 64) map h),
  bit_at-ones 64 (p % 64),
)

set_rest_bits :
    (map : List ℕ) (i j s e p : ℕ)
    → i ≤ j
    → s < 64
    → e < 64
    → ((i ≡ j) × (s < e)) ⊎ (s ≡ 0) ⊎ ((i ≡ j) × (s ≡ e) × (e ≡ 0))
    → 64 * j + e ≤ 64 * length map
    → bit_of (set_rest map i j s e) p
      ≡ (if within_bits (64 * i + s) (64 * j + e) p then 1 else bit_of map p)
unfolding set_rest
set_rest_bits map i j s e p ij s64 e64 shape room = elim (Bool-cases (e == 0)) [
  | inl whole ↦ rw whole (ground (arith, fill_bits (j - i) i p map (omega arith)))
  | inr partial ↦ rw partial (
      ground (
        arith,
        fill_bits (j - i) i p map (omega arith),
        or_bits (fill (j - i) i map) j s e (ones / 2 ^ (64 - (e - s)) * 2 ^ s % 2 ^ 64) p
            (rw (length-fill (j - i) i map) (ground arith)) (ground arith) (omega arith)
            (λ k k64. last_mask s e k (ground arith) e64 (ground arith) k64),
      ))
]

set_rest_empty : (map : List ℕ) (i j s e : ℕ) → e ≡ 0 → j ≤ i → set_rest map i j s e ≡ map
unfolding set_rest fill
set_rest_empty map i j s e z ji = let none_left : j - i ≡ 0 = omega arith in rw (z, none_left) refl

first_bits :
    (map : List ℕ) (start end p : ℕ)
    → start / 64 < end / 64
    → end ≤ 64 * length map
    → bit_of
        (set_rest
          (or_word map (start / 64) (ones * 2 ^ (start % 64) % 2 ^ 64))
          (start / 64 + 1)
          (end / 64)
          0
          (end % 64))
        p
      ≡ (if within_bits start end p then 1 else bit_of map p)
first_bits map start end p lt room = ground (
  arith,
  set_rest_bits (or_word map (start / 64) mask) (start / 64 + 1) (end / 64) 0 (end % 64) p
      (omega arith) (omega arith) (omega arith) (inr (inl refl))
      (rw (length-or_word map (start / 64) mask) (omega arith)),
  or_bits map (start / 64) (start % 64) 64 mask p (omega arith) (omega arith) (omega arith)
      (λ k k64. ground (arith, first_mask (start % 64) k k64)),
)
  where
    mask : ℕ
    mask = ones * 2 ^ (start % 64) % 2 ^ 64

-- In a log that is long enough, bitmap_set_atomic sets exactly the bits from `start` to `end`, if
-- the range is not empty or ends at a word.
pub bitmap_set_atomic_bits :
    (map : List ℕ) (start end p : ℕ)
    → (start < end) ⊎ ((end % 64 ≡ 0) × (end ≤ start))
    → end ≤ 64 * length map
    → bit_of (bitmap_set_atomic map start end) p
      ≡ (if within_bits start end p then 1 else bit_of map p)
unfolding bitmap_set_atomic
bitmap_set_atomic_bits map start end p shape room =
    elim (Bool-cases (not (start % 64 == 0) && ltb (start / 64) (end / 64))) [
      | inl split ↦ rw split (first_bits map start end p (ground arith) room)
      | inr joined ↦ rw joined (elim shape [
        | inl some_left ↦ ground (
          arith,
          set_rest_bits map (start / 64) (end / 64) (start % 64) (end % 64) p (omega arith)
              (omega arith) (omega arith) (ground arith) (omega arith),
        )
        | inr (word, none_left) ↦
            rw
              (set_rest_empty map (start / 64) (end / 64) (start % 64) (end % 64) word
                (omega arith))
              (ground arith)
      ])
    ]
