-- ===== src/Memmap/Slots/Balance.antt =====
-- The reference counts of memmap.c against the slots that refer to the regions.
use yc_libvhost_server.Base.{
  ◌==◌, Bool-cases, Option-cases, length, take, drop, Result, ok, err, ℕ, zero, suc, ◌+◌, ◌^◌, ◌<◌,
  ◌≡◌, inl, inr, Option, none, some, List, [], ◌∷◌, ◌++◌, arith,
}
use yc_libvhost_server.Memmap.Cache.{Slot, Store, region_ref, region_unref, region_open}
use yc_libvhost_server.Memmap.Cache.Counts.{
  refcount_of, Below, one_at, refcount_of-ref_in, Below-ref_in, Below-unref_in,
  refcount_of-unref_in,
}
use yc_libvhost_server.Memmap.Cache.Open.{Countable, opened, Opened, region_open-Opened}
use yc_libvhost_server.Memmap.Host.{Os}
use yc_libvhost_server.Memmap.Region.{Region, Memmap}
use yc_libvhost_server.Memmap.Slots.{
  position, insert_at, add_slot, slots_after, find_slot, del_slot, memmap_dup, unref_all,
  memmap_unref, ref_all, put_slot, add_slot_cases,
}

unfoldable pub occurs : ℕ → List Region → ℕ
occurs id [] = 0
occurs id (reg ∷ regs) = one_at reg.id id + occurs id regs

-- `others` counts the references of the other maps.
pub record IsBalanced (others : ℕ → ℕ) (st : Store) (regs : List Region) : Type 0 where
  pub below : Below st.next_id st.g_regions
  pub counts : (id : ℕ) → refcount_of id st.g_regions ≡ occurs id regs + others id

occurs-append : (id : ℕ) (xs ys : List Region) → occurs id (xs ++ ys) ≡ occurs id xs + occurs id ys
unfolding occurs
occurs-append id [] ys = omega arith
occurs-append id (x ∷ xs) ys = omega (arith, occurs-append id xs ys)

occurs-take-drop :
    (id i : ℕ) (xs : List Region) → occurs id (take i xs) + occurs id (drop i xs) ≡ occurs id xs
unfolding occurs
occurs-take-drop id zero xs = omega arith
occurs-take-drop id (suc i) [] = omega arith
occurs-take-drop id (suc i) (x ∷ xs) = omega (arith, occurs-take-drop id i xs)

occurs-insert_at :
    (id i : ℕ) (reg : Region) (xs : List Region)
    → occurs id (insert_at i reg xs) ≡ occurs id xs + one_at reg.id id
unfolding occurs
occurs-insert_at id i reg xs =
    omega (arith, occurs-append id (take i xs) (reg ∷ drop i xs), occurs-take-drop id i xs)

find_slot-occurs :
    (gpa uva size : ℕ) (xs rest : List Region) (reg : Region)
    → find_slot gpa uva size xs ≡ some (reg, rest)
    → (id : ℕ) → occurs id xs ≡ occurs id rest + one_at reg.id id
unfolding find_slot occurs
find_slot-occurs gpa uva size [] rest reg e id = cc
find_slot-occurs gpa uva size (x ∷ xs) rest reg e id =
    elim (Option-cases (find_slot gpa uva size xs)) [
      | inl n ↦ ground arith
      | inr ((r, more), f) ↦ ground (arith, find_slot-occurs gpa uva size xs more r f id)
    ]

put_slot-IsBalanced :
    (others : ℕ → ℕ) (st : Store) (mm : Memmap) (i : ℕ) (out : Store × Result Region)
    → ((id : ℕ) → refcount_of id st.g_regions ≡ occurs id mm.regions + others id)
    → Opened st out
    → IsBalanced others (put_slot mm i out).0 (slots_after mm (put_slot mm i out).1)
unfolding put_slot slots_after opened
put_slot-IsBalanced others st mm i (st', ok reg) c o = record {
  below = o.below;
  counts = λ id. omega (arith, c id, o.counts id, occurs-insert_at id i reg mm.regions);
}
put_slot-IsBalanced others st mm i (st', err e) c o = record {
  below = o.below;
  counts = λ id. omega (arith, c id, o.counts id);
}

-- Whether vhd_memmap_add_slot adds a slot or fails, every region stays counted once for each slot
-- that refers to it, given that it was and that no count is at the top of its type.
pub add_slot-IsBalanced :
    (others : ℕ → ℕ) (os : Os) (st : Store) (mm : Memmap) (s : Slot)
    → IsBalanced others st mm.regions
    → Countable st
    → IsBalanced others (add_slot os st mm s).0 (slots_after mm (add_slot os st mm s).1)
unfolding slots_after
add_slot-IsBalanced others os st mm s v f =
    add_slot_cases (λ out. IsBalanced others out.0 (slots_after mm out.1)) os st mm s (λ e. v)
      (λ no_wrap no_wrap_uva room clear.
        put_slot-IsBalanced others st mm (position mm.regions s.gpa (length mm.regions))
          (region_open os st s mm.callbacks) v.counts
          (region_open-Opened os st s mm.callbacks v.below f))

-- Dropping a reference that a slot holds.
unref-IsBalanced :
    (others : ℕ → ℕ) (os : Os) (st : Store) (reg : Region) (rest regs : List Region)
    → IsBalanced others st regs
    → Countable st
    → ((id : ℕ) → occurs id regs ≡ occurs id rest + one_at reg.id id)
    → IsBalanced others (region_unref os reg.id st) rest
unfolding region_unref occurs
unref-IsBalanced others os st reg rest regs v f o = record {
  below = Below-unref_in st.next_id reg.id st.g_regions v.below;
  counts = λ id. ground (
    arith,
    o id,
    o reg.id,
    v.counts id,
    v.counts reg.id,
    f reg.id,
    refcount_of-unref_in st.next_id reg.id id st.g_regions v.below,
  );
}

-- vhd_memmap_del_slot, found or not, leaves every region counted once for each slot that refers
-- to it, given that it was and that no count is at the top of its type.
pub del_slot-IsBalanced :
    (others : ℕ → ℕ) (os : Os) (st : Store) (mm : Memmap) (gpa uva size : ℕ)
    → IsBalanced others st mm.regions
    → Countable st
    → IsBalanced others
        (del_slot os st mm gpa uva size).0
        (slots_after mm (del_slot os st mm gpa uva size).1)
unfolding del_slot slots_after
del_slot-IsBalanced others os st mm gpa uva size v f =
    elim (Option-cases (find_slot gpa uva size mm.regions)) [
      | inl missing ↦ rw (missing, del_slot, slots_after) v
      | inr ((reg, rest), found) ↦
          rw (found, del_slot)
            (unref-IsBalanced others os st reg rest mm.regions v f
              (find_slot-occurs gpa uva size mm.regions rest reg found))
    ]

unref-Countable :
    (others : ℕ → ℕ) (os : Os) (st : Store) (reg : Region) (rest : List Region)
    → IsBalanced others st (reg ∷ rest)
    → Countable st
    → Countable (region_unref os reg.id st)
unfolding region_unref occurs
unref-Countable others os st reg rest v f id = ground (
  arith,
  v.counts reg.id,
  f reg.id,
  f id,
  refcount_of-unref_in st.next_id reg.id id st.g_regions v.below,
)

unref_all-IsBalanced :
    (others : ℕ → ℕ) (os : Os) (regs : List Region) (st : Store)
    → IsBalanced others st regs
    → Countable st
    → IsBalanced others (unref_all os regs st) []
unfolding unref_all occurs
unref_all-IsBalanced others os [] st v f = v
unref_all-IsBalanced others os (reg ∷ regs) st v f =
    unref_all-IsBalanced others os regs (region_unref os reg.id st)
      (unref-IsBalanced others os st reg regs (reg ∷ regs) v f (λ id. omega arith))
      (unref-Countable others os st reg regs v f)

-- The slots of a map that may have been freed.
pub slots_left : Option Memmap → List Region
slots_left none = []
slots_left (some mm) = mm.regions

-- vhd_memmap_unref drops the references of all the map's slots exactly when it frees the map, so
-- that what is counted is what the maps that are left refer to, given that it was before and that
-- no count is at the top of its type.
pub memmap_unref-IsBalanced :
    (others : ℕ → ℕ) (os : Os) (st : Store) (mm : Memmap)
    → IsBalanced others st mm.regions
    → Countable st
    → IsBalanced others (memmap_unref os st mm).0 (slots_left (memmap_unref os st mm).1)
unfolding memmap_unref slots_left
memmap_unref-IsBalanced others os st mm v f = elim (Bool-cases (mm.ref == 1)) [
  | inl last ↦ rw (last, memmap_unref) (unref_all-IsBalanced others os mm.regions st v f)
  | inr more ↦ rw (more, memmap_unref) v
]

-- Room for one more reference to each slot of a list.
abbrev pub Room : List Region → Store → Type 0
Room regs st = (id : ℕ) → refcount_of id st.g_regions + occurs id regs < 2 ^ 64

record Reffed (regs : List Region) (st out : Store) : Type 0 where
  below : Below out.next_id out.g_regions
  counts : (id : ℕ) → refcount_of id out.g_regions ≡ refcount_of id st.g_regions + occurs id regs

region_ref-counts :
    (reg : Region) (regs : List Region) (st : Store) (id : ℕ)
    → ((j : ℕ) → 0 < occurs j (reg ∷ regs) → 0 < refcount_of j st.g_regions)
    → Room (reg ∷ regs) st
    → refcount_of id (region_ref reg.id st).g_regions
      ≡ refcount_of id st.g_regions + one_at reg.id id
unfolding region_ref occurs
region_ref-counts reg regs st id p r =
    ground (arith, p reg.id, r reg.id, refcount_of-ref_in reg.id id st.g_regions)

region_ref-Below :
    (st : Store) (id : ℕ)
    → Below st.next_id st.g_regions
    → Below (region_ref id st).next_id (region_ref id st).g_regions
unfolding region_ref
region_ref-Below st id b = Below-ref_in st.next_id id st.g_regions b

ref_all-Reffed :
    (regs : List Region) (st : Store)
    → Below st.next_id st.g_regions
    → ((id : ℕ) → 0 < occurs id regs → 0 < refcount_of id st.g_regions)
    → Room regs st
    → Reffed regs st (ref_all regs st)
unfolding ref_all occurs
ref_all-Reffed [] st b p r = record { below = b; counts = λ id. omega arith }
ref_all-Reffed (reg ∷ regs) st b p r =
    let one = λ (id : ℕ). region_ref-counts reg regs st id p r in
    let ih =
      ref_all-Reffed regs (region_ref reg.id st) (region_ref-Below st reg.id b)
        (λ id h. omega (arith, one id, p id)) (λ id. omega (arith, one id, r id)) in
    record { below = ih.below; counts = λ id. omega (arith, ih.counts id, one id) }

-- vhd_memmap_dup counts every region once more for each slot of the new map, if the counts have
-- room: of the two maps the old one has become one of the others.
memmap_dup-IsBalanced :
    (others : ℕ → ℕ) (st : Store) (mm : Memmap)
    → IsBalanced others st mm.regions
    → Room mm.regions st
    → IsBalanced
        (λ id. occurs id mm.regions + others id)
        (memmap_dup st mm).0
        (memmap_dup st mm).1.regions
unfolding memmap_dup
memmap_dup-IsBalanced others st mm v r =
    let reffed = ref_all-Reffed mm.regions st v.below (λ id h. omega (arith, v.counts id)) r in
    record { below = reffed.below; counts = λ id. omega (arith, reffed.counts id, v.counts id) }
