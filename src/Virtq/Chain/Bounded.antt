-- ===== src/Virtq/Chain/Bounded.antt =====
-- Which memory a walk of virtio/virt_queue.c depends on.
use yc_libvhost_server.Base.{
  ◌==◌, Bool-cases, Option-cases, get_elem?, All, All-get_elem?, add16, add64, Result, ok, err, ℕ,
  zero, suc, ◌+◌, ◌*◌, ◌/◌, ◌%◌, ◌^◌, ◌≤◌, ◌<◌, ◌≡◌, refl, ap, ◌∙◌, inl, inr, ◌||◌, not, some, List,
  arith,
}
use yc_libvhost_server.Memmap.Region.{Region, Memmap}
use yc_libvhost_server.Memmap.Translate.{gpa_range_to_ptr, IsMapped}
use yc_libvhost_server.Memmap.Translate.Sound.{gpa_range_to_ptr-Covers}
use yc_libvhost_server.Virtq.Chain.{
  Walk, map_buffer, visit_table, visit_ring, walk_table, walk_indirect_table, walk_ring, walk_chain,
}
use yc_libvhost_server.Virtq.Chain.Shape.{IsWordDesc}
use yc_libvhost_server.Virtq.Types.{Desc, is_write, desc_size, Buffer, Scratch}

-- The descriptor at `addr` lies inside one region of the map.
abbrev pub IsMappedDesc : Memmap → ℕ → Type 0
IsMappedDesc mm addr =
    (i : ℕ) × (reg : Region) × (get_elem? mm.regions i ≡ some reg)
    × (reg.ptr ≤ addr)
    × (addr + desc_size ≤ reg.ptr + reg.size)

-- Two memories that hold the same descriptors in the ring and in the regions of the map.
pub record Agree (mm : Memmap) (ring qsz : ℕ) (read read' : ℕ → Desc) : Type 0 where
  pub in_ring :
      (i : ℕ) → i < qsz → read (add64 ring (desc_size * i)) ≡ read' (add64 ring (desc_size * i))
  pub in_regions : (addr : ℕ) → IsMappedDesc mm addr → read addr ≡ read' addr

visit_table_rest :
    (table_len : ℕ) (d : Desc) (mapped : Result Scratch) (rest rest' : Scratch → Walk Scratch)
    → ((sc : Scratch) → d.next < table_len → rest sc ≡ rest' sc)
    → visit_table table_len d mapped rest ≡ visit_table table_len d mapped rest'
unfolding visit_table
visit_table_rest table_len d (err e) rest rest' h = refl
visit_table_rest table_len d (ok sc) rest rest' h = ground (arith, h sc)

visit_ring_rest :
    (qsz chain_len : ℕ) (d : Desc) (table : Walk Scratch) (mapped : Result Scratch)
    (rest rest' : Scratch → Walk (ℕ × Scratch))
    → ((sc : Scratch) → d.next < qsz → rest sc ≡ rest' sc)
    → visit_ring qsz d chain_len table mapped rest ≡ visit_ring qsz d chain_len table mapped rest'
unfolding visit_ring
visit_ring_rest qsz chain_len d table (err e) rest rest' h = refl
visit_ring_rest qsz chain_len d table (ok sc) rest rest' h = ground (arith, h sc)

module _ (mm : Memmap) (max_chain_len ring qsz : ℕ) (read read' : ℕ → Desc)
    (agree : Agree mm ring qsz read read') (words : (a : ℕ) → IsWordDesc (read a))
    (sound : All IsMapped mm.regions) where
  -- The table of `n` descriptors lies inside one region.
  abbrev InTable : ℕ → ℕ → Type 0
  InTable table n =
      (i : ℕ) × (reg : Region) × (get_elem? mm.regions i ≡ some reg)
      × (reg.ptr ≤ table)
      × (table + desc_size * n ≤ reg.ptr + reg.size)
      × (reg.ptr + reg.size < 2 ^ 64)

  walk_table_same :
      (fuel table n table_len idx : ℕ) (sc : Scratch)
      → InTable table n
      → table_len ≤ n
      → idx < n
      → walk_table read mm max_chain_len fuel table table_len idx sc
        ≡ walk_table read' mm max_chain_len fuel table table_len idx sc
  unfolding walk_table
  walk_table_same zero table n table_len idx sc t le lt = refl
  walk_table_same (suc fuel) table n table_len idx sc t le lt =
      visit_table_rest table_len (read addr) (map_it (read addr))
        (λ sc'. walk_table read mm max_chain_len fuel table table_len (read addr).next sc')
        (λ sc'. walk_table read' mm max_chain_len fuel table table_len (read addr).next sc')
        (λ sc' inside.
          walk_table_same fuel table n table_len (read addr).next sc' t le (omega arith))
      ∙ ap
          (λ d.
            visit_table table_len d (map_it d)
              (λ sc'. walk_table read' mm max_chain_len fuel table table_len d.next sc'))
          same
    where
      map_it : Desc → Result Scratch
      map_it d = map_buffer mm max_chain_len sc d.addr d.len (is_write d)

      addr : ℕ
      addr = add64 table (desc_size * idx)

      same : read addr ≡ read' addr
      same =
          let (i, reg, at, lo, hi, top) = t in
          agree.in_regions _ (i, reg, at, omega arith, omega arith)

  walk_indirect_table_same :
      (fuel : ℕ) (d : Desc) (sc : Scratch)
      → IsWordDesc d
      → walk_indirect_table read mm max_chain_len fuel d sc
        ≡ walk_indirect_table read' mm max_chain_len fuel d sc
  unfolding walk_indirect_table
  walk_indirect_table_same fuel d sc w =
      elim (Bool-cases ((d.len == 0) || not (d.len % desc_size == 0))) [
        | inl bad ↦ rw bad refl
        | inr good ↦ elim (Option-cases (gpa_range_to_ptr mm d.addr d.len)) [
          | inl out ↦ rw (good, out, walk_indirect_table) refl
          | inr (table, found) ↦
              let (i, reg, at, lo, hi, p) =
                gpa_range_to_ptr-Covers mm d.addr d.len table w sound found in
              let fits = All-get_elem? IsMapped mm.regions i reg sound at in
              rw (good, found, walk_indirect_table)
                (walk_table_same fuel table (d.len / desc_size) (d.len / desc_size % 2 ^ 16) 0 sc
                  (i, reg, at, omega arith, ground arith, omega (arith, fits.ptr_fits))
                  (omega arith) (ground arith))
        ]
      ]

  walk_ring_same :
      (fuel idx chain_len : ℕ) (sc : Scratch)
      → idx < qsz
      → walk_ring read mm max_chain_len fuel ring qsz idx chain_len sc
        ≡ walk_ring read' mm max_chain_len fuel ring qsz idx chain_len sc
  unfolding walk_ring
  walk_ring_same zero idx chain_len sc lt = refl
  walk_ring_same (suc fuel) idx chain_len sc lt =
      visit_ring_rest qsz chain_len (read addr)
        (walk_indirect_table read mm max_chain_len (suc fuel) (read addr) sc) (map_it (read addr))
        (λ sc'.
          walk_ring read mm max_chain_len fuel ring qsz (read addr).next (add16 chain_len 1) sc')
        (λ sc'.
          walk_ring read' mm max_chain_len fuel ring qsz (read addr).next (add16 chain_len 1) sc')
        (λ sc' inside. walk_ring_same fuel (read addr).next (add16 chain_len 1) sc' inside)
      ∙ ap
          (λ table. visit_ring qsz (read addr) chain_len table (map_it (read addr)) (λ sc'.
            walk_ring read' mm max_chain_len fuel ring qsz (read addr).next (add16 chain_len 1)
              sc'))
          (walk_indirect_table_same (suc fuel) (read addr) sc (words addr))
      ∙ ap
          (λ d.
            visit_ring qsz d chain_len (walk_indirect_table read' mm max_chain_len (suc fuel) d sc)
              (map_it d)
              (λ sc'.
                walk_ring read' mm max_chain_len fuel ring qsz d.next (add16 chain_len 1) sc'))
          (agree.in_ring idx lt)
    where
      map_it : Desc → Result Scratch
      map_it d = map_buffer mm max_chain_len sc d.addr d.len (is_write d)

      addr : ℕ
      addr = add64 ring (desc_size * idx)

  -- Over mapped regions, from a head inside the ring, walk_chain gives the same for two memories
  -- that agree on the `qsz` descriptors of the ring and inside the regions of the map: it depends
  -- on no descriptor elsewhere.
  pub walk_chain_same :
      (head : ℕ) (buffers : List Buffer)
      → head < qsz
      → walk_chain read mm max_chain_len ring qsz head buffers
        ≡ walk_chain read' mm max_chain_len ring qsz head buffers
  unfolding walk_chain
  walk_chain_same head buffers lt =
      walk_ring_same (suc max_chain_len) head 1
        (record { niov_out = 0; niov_in = 0; buffers = buffers }) lt
