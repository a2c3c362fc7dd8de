-- ===== src/Memmap/Slots/Ordered.antt =====
-- The order and the bounds of the table of a memory map of memmap.c.
use yc_libvhost_server.Base.{
  ltb, if◌then◌else◌, ltb→lt, ltb→le, Bool-cases, Option-cases, length, get_elem?, take, drop, All,
  All-get_elem?, All-take, All-drop, length-insert, All-insert, Pairs, Pairs-insert, drop-get_elem?,
  drop-none, drop-length, add64, Result, ok, err, ℕ, zero, suc, ◌+◌, ◌^◌, ◌≤◌, ◌<◌, ◌≡◌, ◌≢◌, ◌⊎◌,
  inl, inr, true, none, some, List, [], ◌∷◌, arith,
}
use yc_libvhost_server.Memmap.Cache.{Slot, Store, region_open}
use yc_libvhost_server.Memmap.Cache.Open.{IsAt, region_open-IsAt}
use yc_libvhost_server.Memmap.Host.{Os}
use yc_libvhost_server.Memmap.Region.{Region, Memmap, ram_slots_max}
use yc_libvhost_server.Memmap.Slots.{
  is_clear, all_clear, position, insert_at, add_slot, slots_after, put_slot, add_slot_cases,
}

-- The ranges of a region end inside the guest and the master address spaces.
abbrev pub Fits : Region → Type 0
Fits reg = (reg.gpa + reg.size < 2 ^ 64) × (reg.uva + reg.size < 2 ^ 64)

-- Two regions do not meet in guest addresses, or do not meet in the master's.
abbrev pub Apart : Region → Region → Type 0
Apart r s =
    (r.gpa + r.size ≤ s.gpa)
    ⊎ (s.gpa + s.size ≤ r.gpa)
    ⊎ (r.uva + r.size ≤ s.uva)
    ⊎ (s.uva + s.size ≤ r.uva)

abbrev pub Before : Region → Region → Type 0
Before r s = r.gpa ≤ s.gpa

pub record IsTable (regs : List Region) : Type 0 where
  pub within_slots : length regs ≤ ram_slots_max
  pub fits : All Fits regs
  pub apart : Pairs Apart regs
  pub ascending : Pairs Before regs

-- The arguments of vhd_memmap_add_slot are 64-bit words.
abbrev pub IsWord : Slot → Type 0
IsWord s = (s.gpa < 2 ^ 64) × (s.uva < 2 ^ 64) × (s.size < 2 ^ 64)

position-suc :
    (regs : List Region) (gpa i : ℕ) (reg : Region)
    → get_elem? regs i ≡ some reg
    → position regs gpa (suc i) ≡ (if ltb reg.gpa gpa then suc i else position regs gpa i)
unfolding position
position-suc regs gpa i reg at = rw (at, position)

position-suc_out :
    (regs : List Region) (gpa i : ℕ)
    → get_elem? regs i ≡ none
    → position regs gpa (suc i) ≡ position regs gpa i
unfolding position
position-suc_out regs gpa i out = rw (out, position)

-- Behind the position there is nothing that starts lower.
position-drop :
    (regs : List Region) (gpa i : ℕ)
    → All (λ (r : Region). gpa ≤ r.gpa) (drop i regs)
    → All (λ (r : Region). gpa ≤ r.gpa) (drop (position regs gpa i) regs)
unfolding position
position-drop regs gpa zero h = h
position-drop regs gpa (suc i) h = elim (Option-cases (get_elem? regs i)) [
  | inl out ↦
      rw (position-suc_out regs gpa i out) (position-drop regs gpa i (rw (drop-none regs i out) tt))
  | inr (reg, at) ↦ elim (Bool-cases (ltb reg.gpa gpa)) [
    | inl lower ↦ rw (position-suc regs gpa i reg at, lower) h
    | inr higher ↦
        rw (position-suc regs gpa i reg at, higher)
          (position-drop regs gpa i
            (rw (drop-get_elem? regs i reg at) (ltb→le reg.gpa gpa higher, h)))
  ]
]

take-Before :
    (regs : List Region) (gpa i : ℕ) (reg : Region)
    → Pairs Before regs
    → get_elem? regs i ≡ some reg
    → reg.gpa ≤ gpa
    → All (λ (r : Region). r.gpa ≤ gpa) (take (suc i) regs)
take-Before [] gpa i reg h at lo = cc
take-Before (r ∷ regs) gpa zero reg h at lo = ground arith
take-Before (r ∷ regs) gpa (suc i) reg h at lo =
    let lower = All-get_elem? (λ (s : Region). r.gpa ≤ s.gpa) regs i reg h.0 at in
    (omega arith, take-Before regs gpa i reg h.1 at lo)

-- Before the position there is nothing that starts higher.
position-take :
    (regs : List Region) (gpa i : ℕ)
    → Pairs Before regs
    → All (λ (r : Region). r.gpa ≤ gpa) (take (position regs gpa i) regs)
unfolding position
position-take regs gpa zero h = tt
position-take regs gpa (suc i) h = elim (Option-cases (get_elem? regs i)) [
  | inl out ↦ rw (position-suc_out regs gpa i out) (position-take regs gpa i h)
  | inr (reg, at) ↦ elim (Bool-cases (ltb reg.gpa gpa)) [
    | inl lower ↦
        rw (position-suc regs gpa i reg at, lower)
          (take-Before regs gpa i reg h at (omega (arith, ltb→lt reg.gpa gpa lower)))
    | inr higher ↦ rw (position-suc regs gpa i reg at, higher) (position-take regs gpa i h)
  ]
]

is_clear-Apart :
    (r : Region) (s : Slot) (reg : Region)
    → Fits r
    → Fits reg
    → (reg.gpa ≡ s.gpa) × (reg.uva ≡ s.uva) × (reg.size ≡ s.size)
    → is_clear r s ≡ true
    → Apart r reg
is_clear-Apart r s reg f g e c = ground arith

-- The guard of the loop: the new slot is apart from all.
all_clear-Apart :
    (regs : List Region) (s : Slot) (reg : Region)
    → All Fits regs
    → Fits reg
    → (reg.gpa ≡ s.gpa) × (reg.uva ≡ s.uva) × (reg.size ≡ s.size)
    → all_clear regs s ≡ true
    → All (λ (r : Region). Apart r reg) regs
unfolding all_clear
all_clear-Apart [] s reg f g e c = tt
all_clear-Apart (r ∷ regs) s reg f g e c = elim (Bool-cases (is_clear r s)) [
  | inl clear ↦ (
    is_clear-Apart r s reg f.0 g e clear,
    all_clear-Apart regs s reg f.1 g e (rw (clear, all_clear) at c),
  )
  | inr taken ↦ absurd (cc (rw (taken, all_clear) at c))
]

Apart-sym :
    (regs : List Region) (reg : Region)
    → All (λ (r : Region). Apart r reg) regs
    → All (Apart reg) regs
Apart-sym [] reg h = tt
Apart-sym (r ∷ regs) reg h = (ground arith, Apart-sym regs reg h.1)

insert-IsTable :
    (mm : Memmap) (s : Slot) (reg : Region)
    → IsTable mm.regions
    → length mm.regions ≢ ram_slots_max
    → Fits reg
    → (reg.gpa ≡ s.gpa) × (reg.uva ≡ s.uva) × (reg.size ≡ s.size)
    → all_clear mm.regions s ≡ true
    → IsTable (insert_at (position mm.regions s.gpa (length mm.regions)) reg mm.regions)
insert-IsTable mm s reg v room fits e clear =
    let at = position mm.regions s.gpa (length mm.regions) in
    let apart = all_clear-Apart mm.regions s reg v.fits fits e clear in
    let same : reg.gpa ≡ s.gpa = e.0 in
    record {
      within_slots = omega (arith, length-insert at reg mm.regions, v.within_slots, room);
      fits = All-insert Fits at reg mm.regions fits v.fits;
      apart =
          Pairs-insert Apart at reg mm.regions v.apart
            (All-take (λ (r : Region). Apart r reg) at mm.regions apart)
            (All-drop (Apart reg) at mm.regions (Apart-sym mm.regions reg apart));
      ascending =
          Pairs-insert Before at reg mm.regions v.ascending
            (rw same (position-take mm.regions s.gpa (length mm.regions) v.ascending))
            (rw same (
              position-drop mm.regions s.gpa (length mm.regions) (rw (drop-length mm.regions) tt)));
    }

put_slot-IsTable :
    (mm : Memmap) (s : Slot) (out : Store × Result Region)
    → IsTable mm.regions
    → IsWord s
    → (add64 s.gpa s.size < s.gpa → ⊥)
    → (add64 s.uva s.size < s.uva → ⊥)
    → length mm.regions ≢ ram_slots_max
    → all_clear mm.regions s ≡ true
    → IsAt s out.1
    → IsTable (slots_after mm (put_slot mm (position mm.regions s.gpa (length mm.regions)) out).1)
unfolding put_slot slots_after
put_slot-IsTable mm s (st, err e) v w g u room clear at = v
put_slot-IsTable mm s (st, ok reg) v w g u room clear at =
    insert-IsTable mm s reg v room (omega arith) at clear

-- Given a well-formed table and 64-bit arguments, vhd_memmap_add_slot, whether it adds the slot
-- or refuses it, leaves a table of at most VHD_RAM_SLOTS_MAX regions that do not wrap, in
-- ascending order of guest addresses, any two of which are apart in guest addresses or in the
-- master's.
pub add_slot-IsTable :
    (os : Os) (st : Store) (mm : Memmap) (s : Slot)
    → IsTable mm.regions
    → IsWord s
    → IsTable (slots_after mm (add_slot os st mm s).1)
unfolding slots_after
add_slot-IsTable os st mm s v w =
    add_slot_cases (λ out. IsTable (slots_after mm out.1)) os st mm s (λ e. v)
      (λ g u room clear.
        put_slot-IsTable mm s (region_open os st s mm.callbacks) v w g u room clear
          (region_open-IsAt os st s mm.callbacks))
