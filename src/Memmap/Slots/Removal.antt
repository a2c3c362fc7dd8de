-- ===== src/Memmap/Slots/Removal.antt =====
-- Taking a slot out of the table of memmap.c, and slots with the same guest addresses.
use mathlib.Core.Path.{subst}
use yc_libvhost_server.Base.{
  ◌==◌, Bool-cases, Option-cases, length, All, Pairs, enxio, Result, ok, err, ℕ, suc, ◌+◌, ◌^◌, ◌≤◌,
  ◌<◌, ◌≡◌, refl, sym, ap, ◌∙◌, ◌≢◌, ◌⊎◌, inl, inr, true, false, ◌&&◌, Option, none, some, List, [],
  ◌∷◌, ◌++◌, arith,
}
use yc_libvhost_server.Memmap.Cache.{Slot, Store, region_unref, region_open}
use yc_libvhost_server.Memmap.Cache.Open.{IsAt, region_open-IsAt}
use yc_libvhost_server.Memmap.Host.{Os}
use yc_libvhost_server.Memmap.Region.{Region, Memmap, ram_slots_max}
use yc_libvhost_server.Memmap.Slots.{
  all_clear, position, add_slot, slots_after, find_slot, del_slot, put_slot, add_slot_passes,
}
use yc_libvhost_server.Memmap.Slots.Ordered.{Fits, Apart, Before, IsTable}
use yc_libvhost_server.Memmap.Translate.{gpa_range_to_ptr}

module _ (gpa uva size : ℕ) where
  find_slot-All :
      (P : Region → Type 0) (xs rest : List Region) (reg : Region)
      → All P xs
      → find_slot gpa uva size xs ≡ some (reg, rest)
      → All P rest
  unfolding find_slot
  find_slot-All P [] rest reg h e = cc
  find_slot-All P (x ∷ xs) rest reg h e = elim (Option-cases (find_slot gpa uva size xs)) [
    | inl n ↦ ground arith
    | inr ((r, more), f) ↦ ground (arith, find_slot-All P xs more r h.1 f)
  ]

  find_slot-Pairs :
      (R : Region → Region → Type 0) (xs rest : List Region) (reg : Region)
      → Pairs R xs
      → find_slot gpa uva size xs ≡ some (reg, rest)
      → Pairs R rest
  unfolding find_slot
  find_slot-Pairs R [] rest reg h e = cc
  find_slot-Pairs R (x ∷ xs) rest reg h e = elim (Option-cases (find_slot gpa uva size xs)) [
    | inl n ↦ ground arith
    | inr ((r, more), f) ↦
        ground (arith, find_slot-Pairs R xs more r h.1 f, find_slot-All (R x) xs more r h.0 f)
  ]

  find_slot-length :
      (xs rest : List Region) (reg : Region)
      → find_slot gpa uva size xs ≡ some (reg, rest)
      → length xs ≡ suc (length rest)
  unfolding find_slot
  find_slot-length [] rest reg e = cc
  find_slot-length (x ∷ xs) rest reg e = elim (Option-cases (find_slot gpa uva size xs)) [
    | inl n ↦ ground arith
    | inr ((r, more), f) ↦ ground (arith, find_slot-length xs more r f)
  ]

  find_slot-is_at :
      (xs rest : List Region) (reg : Region)
      → find_slot gpa uva size xs ≡ some (reg, rest)
      → (reg.gpa ≡ gpa) × (reg.uva ≡ uva) × (reg.size ≡ size)
  unfolding find_slot
  find_slot-is_at [] rest reg e = cc
  find_slot-is_at (x ∷ xs) rest reg e = elim (Option-cases (find_slot gpa uva size xs)) [
    | inl n ↦ ground arith
    | inr ((r, more), f) ↦ ground (arith, find_slot-is_at xs more r f)
  ]

-- The slot that a call names is at `gpa` and `uva` and has that size.
abbrev pub IsNamed : ℕ → ℕ → ℕ → Region → Type 0
IsNamed gpa uva size reg = (reg.gpa ≡ gpa) × (reg.uva ≡ uva) × (reg.size ≡ size)

-- The first of the named slots is taken out of the list, the others stay in their order.
abbrev pub IsTakenOut : ℕ → ℕ → ℕ → Region → List Region → List Region → Type 0
IsTakenOut gpa uva size reg rest xs =
    (before : List Region) × (after : List Region) × (xs ≡ before ++ reg ∷ after)
    × (rest ≡ before ++ after)
    × IsNamed gpa uva size reg
    × All (λ r. ¬ IsNamed gpa uva size r) before

module _ (gpa uva size : ℕ) where
  not-IsNamed :
      (x : Region)
      → ((x.gpa == gpa) && (x.uva == uva) && (x.size == size)) ≡ false
      → ¬ IsNamed gpa uva size x
  not-IsNamed x n named = ground arith

  find_slot-missing :
      (xs : List Region) → find_slot gpa uva size xs ≡ none → All (λ r. ¬ IsNamed gpa uva size r) xs
  unfolding find_slot
  find_slot-missing [] e = tt
  find_slot-missing (x ∷ xs) e = elim (Option-cases (find_slot gpa uva size xs)) [
    | inl n ↦ (not-IsNamed x (ground arith), find_slot-missing xs n)
    | inr (out, f) ↦ absurd (ground arith)
  ]

  same_pair :
      {r s : Region} {xs ys : List Region}
      → ◌≡◌ {A = Option (Region × List Region)} (some (r, xs)) (some (s, ys))
      → (r ≡ s) × (xs ≡ ys)
  same_pair e = (cc, cc)

  taken_here :
      (x reg : Region) (xs rest : List Region)
      → IsNamed gpa uva size x
      → (x ≡ reg) × (xs ≡ rest)
      → IsTakenOut gpa uva size reg rest (x ∷ xs)
  taken_here x reg xs rest named (same_reg, same_rest) = (
    [],
    xs,
    ap (λ r. r ∷ xs) same_reg,
    sym same_rest,
    subst (IsNamed gpa uva size) same_reg named,
    tt,
  )

  taken_later :
      (x r reg : Region) (xs more rest : List Region)
      → ¬ IsNamed gpa uva size x
      → IsTakenOut gpa uva size r more xs
      → (r ≡ reg) × (x ∷ more ≡ rest)
      → IsTakenOut gpa uva size reg rest (x ∷ xs)
  taken_later x r reg xs more rest other (before, after, cut, left, named, others)
        (same_reg, same_rest) =
      (
        x ∷ before,
        after,
        ap (λ l. x ∷ l) (cut ∙ ap (λ q. before ++ q ∷ after) same_reg),
        sym same_rest ∙ ap (λ l. x ∷ l) left,
        subst (IsNamed gpa uva size) same_reg named,
        (other, others),
      )

  find_slot-found :
      (xs rest : List Region) (reg : Region)
      → find_slot gpa uva size xs ≡ some (reg, rest)
      → IsTakenOut gpa uva size reg rest xs
  unfolding find_slot
  find_slot-found [] rest reg e = cc
  find_slot-found (x ∷ xs) rest reg e =
      elim (Bool-cases ((x.gpa == gpa) && (x.uva == uva) && (x.size == size))) [
        | inl y ↦ taken_here x reg xs rest (ground arith) (same_pair (rw y at e))
        | inr n ↦ elim (Option-cases (find_slot gpa uva size xs)) [
          | inl missing ↦ absurd (ground arith)
          | inr ((r, more), f) ↦
              taken_later x r reg xs more rest (not-IsNamed x n) (find_slot-found xs more r f)
                (same_pair (rw (n, f) at e))
        ]
      ]

-- vhd_memmap_del_slot on a well-formed table either takes out the first slot that is at these
-- addresses and has that size, leaves all others in their order and succeeds, and the table is well
-- formed; or no slot is the named one, and it fails with ENXIO and changes nothing.
pub del_slot_lem :
    (os : Os) (st : Store) (mm : Memmap) (gpa uva size : ℕ)
    → IsTable mm.regions
    → ((reg : Region) × (rest : List Region) × IsTakenOut gpa uva size reg rest mm.regions
        × (del_slot os st mm gpa uva size
            ≡ (region_unref os reg.id st, ok (record mm { regions = rest })))
        × IsTable rest)
      ⊎ (All (λ r. ¬ IsNamed gpa uva size r) mm.regions
          × (del_slot os st mm gpa uva size ≡ (st, err enxio)))
unfolding del_slot
del_slot_lem os st mm gpa uva size v = elim (Option-cases (find_slot gpa uva size mm.regions)) [
  | inl missing ↦
      inr (find_slot-missing gpa uva size mm.regions missing, rw (missing, del_slot) refl)
  | inr ((reg, rest), found) ↦ inl (
    reg,
    rest,
    find_slot-found gpa uva size mm.regions rest reg found,
    rw (found, del_slot) refl,
    record {
      within_slots =
          omega (arith, v.within_slots, find_slot-length gpa uva size mm.regions rest reg found);
      fits = find_slot-All gpa uva size Fits mm.regions rest reg v.fits found;
      apart = find_slot-Pairs gpa uva size Apart mm.regions rest reg v.apart found;
      ascending = find_slot-Pairs gpa uva size Before mm.regions rest reg v.ascending found;
    },
  )
]

put_slot_head :
    (mm : Memmap) (new : Region) (out : Store × Result Region)
    → out.1 ≡ ok new
    → slots_after mm (put_slot mm 0 out).1 ≡ new ∷ mm.regions
unfolding put_slot slots_after
put_slot_head mm new (st, ok reg) e = ground arith
put_slot_head mm new (st, err c) e = cc

IsAt-ok : (s : Slot) (reg : Region) {r : Result Region} → IsAt s r → r ≡ ok reg → IsAt s (ok reg)
IsAt-ok s reg h e = subst (IsAt s) e h

clear_one :
    (s : Slot) (reg : Region)
    → Fits reg
    → s.uva + s.size < 2 ^ 64
    → (reg.uva + reg.size ≤ s.uva) ⊎ (s.uva + s.size ≤ reg.uva)
    → all_clear (reg ∷ []) s ≡ true
unfolding all_clear
clear_one s reg f u apart = ground arith

position_one : (gpa : ℕ) (reg : Region) → gpa ≡ reg.gpa → position (reg ∷ []) gpa 1 ≡ 0
unfolding position
position_one gpa reg e = ground arith

translate_head :
    (mm : Memmap) (new reg : Region) (gpa len : ℕ)
    → mm.regions ≡ new ∷ reg ∷ []
    → gpa ≡ new.gpa
    → new.gpa + new.size < 2 ^ 64
    → new.ptr < 2 ^ 64
    → 0 < len
    → len ≤ new.size
    → gpa_range_to_ptr mm gpa len ≡ some new.ptr
unfolding gpa_range_to_ptr
translate_head mm new reg gpa len e at f low pos le = ground arith

-- A slot whose guest range starts where that of the map's only region starts is accepted if the
-- two are apart in the master's addresses, whichever is the lower, neither wraps in either address
-- space, and its region opens below 2^64 in this process. It goes before the other: a range of at
-- least one byte that starts there and is not longer than the slot then leads to the new mapping.
pub add_slot-shadows :
    (os : Os) (st : Store) (mm : Memmap) (s : Slot) (reg new : Region) (len : ℕ)
    → mm.regions ≡ reg ∷ []
    → Fits reg
    → s.gpa + s.size < 2 ^ 64
    → s.uva + s.size < 2 ^ 64
    → s.gpa ≡ reg.gpa
    → (reg.uva + reg.size ≤ s.uva) ⊎ (s.uva + s.size ≤ reg.uva)
    → new.ptr < 2 ^ 64
    → (region_open os st s mm.callbacks).1 ≡ ok new
    → 0 < len
    → len ≤ s.size
    → (slots_after mm (add_slot os st mm s).1 ≡ new ∷ reg ∷ [])
      × (gpa_range_to_ptr (record mm { regions = new ∷ reg ∷ [] }) reg.gpa len ≡ some new.ptr)
add_slot-shadows os st mm s reg new len one f g u same apart low hit pos le =
    let at = IsAt-ok s new (region_open-IsAt os st s mm.callbacks) hit in
    let clear : all_clear mm.regions s ≡ true = rw one (clear_one s reg f u apart) in
    let head : position mm.regions s.gpa (length mm.regions) ≡ 0 =
      rw one (position_one s.gpa reg same) in
    let room : length mm.regions ≢ ram_slots_max = rw one (omega arith) in
    (
      rw (add_slot_passes os st mm s g u room clear, head)
          (rw (put_slot_head mm new (region_open os st s mm.callbacks) hit, one)),
      translate_head (record mm { regions = new ∷ reg ∷ [] }) new reg reg.gpa len refl (omega arith)
          (omega arith) low pos (omega arith),
    )
