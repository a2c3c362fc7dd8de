-- ===== src/Virtq/Chain/Walks.antt =====
-- The walks of virtio/virt_queue.c over the ring and over an indirect table.
use yc_libvhost_server.Base.{
  leb, ◌==◌, Bool-cases, Option-cases, length, All, add16, add64, Result, ok, err, Result-cases, ℕ,
  zero, suc, ◌+◌, ◌*◌, ◌/◌, ◌%◌, ◌^◌, ◌<◌, ◌≡◌, inl, inr, ◌||◌, not, none, some, List, arith,
}
use yc_libvhost_server.Memmap.Region.{Memmap}
use yc_libvhost_server.Memmap.Translate.{gpa_range_to_ptr, IsMapped}
use yc_libvhost_server.Virtq.Chain.{
  Walk, map_buffer, visit_table, visit_ring, walk_table, walk_indirect_table, walk_ring, walk_chain,
  with_length,
}
use yc_libvhost_server.Virtq.Chain.Shape.{
  IsScratch, Returns, Returns-mono, IsWordDesc, OneMore, map_buffer_ok,
}
use yc_libvhost_server.Virtq.Types.{
  Desc, has_next, is_write, is_indirect, desc_size, Buffer, Scratch,
}

module _ (mm : Memmap) (max_chain_len : ℕ) (small : max_chain_len < 2 ^ 16) (read : ℕ → Desc)
    (words : (a : ℕ) → IsWordDesc (read a)) (sound : All IsMapped mm.regions) where
  -- The area after a walk of at least one descriptor.
  abbrev Grown : Scratch → Scratch → Type 0
  Grown sc sc' =
      IsScratch mm max_chain_len sc' × (sc.niov_out + sc.niov_in < sc'.niov_out + sc'.niov_in)

  -- The loop body of both walks, behind the test for an indirect descriptor.
  -- A round leaves what `rest` does after one more buffer.
  visit_table-Returns :
      (table_len : ℕ) (d : Desc) (sc : Scratch) (rest : Scratch → Walk Scratch)
      → IsScratch mm max_chain_len sc
      → IsWordDesc d
      → ((sc' : Scratch) → OneMore mm max_chain_len sc sc' → Returns (Grown sc') (rest sc'))
      → Returns
          (Grown sc)
          (visit_table table_len d (map_buffer mm max_chain_len sc d.addr d.len (is_write d)) rest)
  unfolding visit_table
  visit_table-Returns table_len d sc rest v w next = elim (Bool-cases (is_indirect d)) [
    | inl nested ↦ rw nested tt
    | inr direct ↦ elim (Result-cases mapped) [
      | inr (e, bad) ↦ rw (direct, bad, visit_table) tt
      | inl (sc', good) ↦
          let one =
            map_buffer_ok mm max_chain_len small read words sound sc sc' d.addr d.len (is_write d) v
              w good in
          rw (direct, good, visit_table)
            (elim (Bool-cases (has_next d)) [
              | inr last ↦ rw last (one.0, omega (arith, one.1))
              | inl more ↦ elim (Bool-cases (leb table_len d.next)) [
                | inl past ↦ rw (more, past) tt
                | inr inside ↦
                    rw (more, inside)
                      (Returns-mono (λ sc2 g. (g.0, omega (arith, g.1, one.1))) (rest sc')
                        (next sc' one))
              ]
            ])
    ]
  ]
    where
      mapped : Result Scratch
      mapped = map_buffer mm max_chain_len sc d.addr d.len (is_write d)

  walk_table-Returns :
      (fuel table table_len idx : ℕ) (sc : Scratch)
      → IsScratch mm max_chain_len sc
      → max_chain_len < fuel + (sc.niov_out + sc.niov_in)
      → Returns (Grown sc) (walk_table read mm max_chain_len fuel table table_len idx sc)
  unfolding walk_table
  walk_table-Returns zero table table_len idx sc v f = absurd (omega (arith, v.fits))
  walk_table-Returns (suc fuel) table table_len idx sc v f =
      let d = read (add64 table (desc_size * idx)) in
      visit_table-Returns table_len d sc
        (λ sc'. walk_table read mm max_chain_len fuel table table_len d.next sc') v (words _)
        (λ sc' one. walk_table-Returns fuel table table_len d.next sc' one.0 (omega (arith, one.1)))

  walk_indirect_table-Returns :
      (fuel : ℕ) (d : Desc) (sc : Scratch)
      → IsScratch mm max_chain_len sc
      → max_chain_len < fuel + (sc.niov_out + sc.niov_in)
      → Returns (Grown sc) (walk_indirect_table read mm max_chain_len fuel d sc)
  unfolding walk_indirect_table
  walk_indirect_table-Returns fuel d sc v f =
      elim (Bool-cases ((d.len == 0) || not (d.len % desc_size == 0))) [
        | inl bad ↦ rw bad tt
        | inr good ↦ elim (Option-cases (gpa_range_to_ptr mm d.addr d.len)) [
          | inl out ↦ rw (good, out, walk_indirect_table) tt
          | inr (table, found) ↦
              rw (good, found, walk_indirect_table)
                (walk_table-Returns fuel table (d.len / desc_size % 2 ^ 16) 0 sc v f)
        ]
      ]

  with_length-Returns :
      (n : ℕ) (sc : Scratch) (w : Walk Scratch)
      → Returns (Grown sc) w
      → Returns (λ out. Grown sc out.1) (with_length n w)
  unfolding with_length
  with_length-Returns n sc none r = r
  with_length-Returns n sc (some (err e)) r = tt
  with_length-Returns n sc (some (ok sc')) r = r

  visit_ring-Returns :
      (qsz chain_len : ℕ) (d : Desc) (sc : Scratch) (table : Walk Scratch)
      (rest : Scratch → Walk (ℕ × Scratch))
      → IsScratch mm max_chain_len sc
      → IsWordDesc d
      → Returns (Grown sc) table
      → ((sc' : Scratch)
          → OneMore mm max_chain_len sc sc'
          → Returns (λ out. Grown sc' out.1) (rest sc'))
      → Returns
          (λ out. Grown sc out.1)
          (visit_ring qsz d chain_len table
            (map_buffer mm max_chain_len sc d.addr d.len (is_write d))
            rest)
  unfolding visit_ring
  visit_ring-Returns qsz chain_len d sc table rest v w t next = elim (Bool-cases (is_indirect d)) [
    | inl indirect ↦ elim (Bool-cases (has_next d)) [
      | inl both ↦ rw (indirect, both) tt
      | inr alone ↦ rw (indirect, alone) (with_length-Returns chain_len sc table t)
    ]
    | inr direct ↦ elim (Result-cases mapped) [
      | inr (e, bad) ↦ rw (direct, bad, visit_ring) tt
      | inl (sc', good) ↦
          let one =
            map_buffer_ok mm max_chain_len small read words sound sc sc' d.addr d.len (is_write d) v
              w good in
          rw (direct, good, visit_ring)
            (elim (Bool-cases (has_next d)) [
              | inr last ↦ rw last (one.0, omega (arith, one.1))
              | inl more ↦ elim (Bool-cases (leb qsz d.next)) [
                | inl past ↦ rw (more, past) tt
                | inr inside ↦
                    rw (more, inside)
                      (Returns-mono (λ out g. (g.0, omega (arith, g.1, one.1))) (rest sc')
                        (next sc' one))
              ]
            ])
    ]
  ]
    where
      mapped : Result Scratch
      mapped = map_buffer mm max_chain_len sc d.addr d.len (is_write d)

  walk_ring-Returns :
      (fuel ring qsz idx chain_len : ℕ) (sc : Scratch)
      → IsScratch mm max_chain_len sc
      → max_chain_len < fuel + (sc.niov_out + sc.niov_in)
      → Returns
          (λ out. Grown sc out.1)
          (walk_ring read mm max_chain_len fuel ring qsz idx chain_len sc)
  unfolding walk_ring
  walk_ring-Returns zero ring qsz idx chain_len sc v f = absurd (omega (arith, v.fits))
  walk_ring-Returns (suc fuel) ring qsz idx chain_len sc v f =
      let d = read (add64 ring (desc_size * idx)) in
      visit_ring-Returns qsz chain_len d sc
        (walk_indirect_table read mm max_chain_len (suc fuel) d sc)
        (λ sc'. walk_ring read mm max_chain_len fuel ring qsz d.next (add16 chain_len 1) sc') v
        (words _) (walk_indirect_table-Returns (suc fuel) d sc v f)
        (λ sc' one.
          walk_ring-Returns fuel ring qsz d.next (add16 chain_len 1) sc' one.0
            (omega (arith, one.1)))

  -- Over mapped regions and 64-bit descriptor addresses, with a scratch area as long as the
  -- longest chain, walk_chain always returns, whatever the descriptors are, loops among them
  -- included; and if it succeeds there is at least one buffer, no more buffers than fit, those to
  -- read come before those to write, and each lies inside one region of the map.
  pub walk_chain-Returns :
      (ring qsz head : ℕ) (buffers : List Buffer)
      → length buffers ≡ max_chain_len
      → Returns
          (λ out. IsScratch mm max_chain_len out.1 × (0 < out.1.niov_out + out.1.niov_in))
          (walk_chain read mm max_chain_len ring qsz head buffers)
  unfolding walk_chain
  walk_chain-Returns ring qsz head buffers room =
      Returns-mono (λ out g. (g.0, omega (arith, g.1)))
        (walk_ring read mm max_chain_len (suc max_chain_len) ring qsz head 1 start)
        (walk_ring-Returns (suc max_chain_len) ring qsz head 1 start empty (omega arith))
    where
      start : Scratch
      start = record { niov_out = 0; niov_in = 0; buffers = buffers }

      empty : IsScratch mm max_chain_len start
      empty = record {
        fits = omega arith;
        room = room;
        readable = λ i h. absurd (omega arith);
        writable = λ i lo hi. absurd (omega arith);
        mapped = λ i h. absurd (omega arith);
      }
