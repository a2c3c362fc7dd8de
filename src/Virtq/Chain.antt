-- ===== src/Virtq/Chain.antt =====
-- Descriptor chains: add_buffer, map_buffer, walk_indirect_table, walk_chain and clone_iov of
-- virtio/virt_queue.c.
pub mod Shape
pub mod Walks
pub mod Bounded
use yc_libvhost_server.Base.{
  leb, ◌==◌, if◌then◌else◌, set, take, drop, add16, add64, einval, enobufs, efault, emlink, erange,
  Result, ok, err, ℕ, zero, suc, ◌*◌, ◌/◌, ◌%◌, ◌^◌, Bool, true, false, ◌||◌, not, Option, none,
  some, List,
}
use yc_libvhost_server.Memmap.Region.{Memmap}
use yc_libvhost_server.Memmap.Translate.{gpa_range_to_ptr}
use yc_libvhost_server.Virtq.Types.{
  Desc, has_next, is_write, is_indirect, desc_size, Buffer, Scratch, Iov,
}

add_readable : Scratch → ℕ → ℕ → ℕ → Result Scratch
add_readable sc niov addr len =
    if sc.niov_in == 0
    then ok (record sc {
      niov_out = add16 sc.niov_out 1;
      buffers = set sc.buffers niov (record { base = addr; len = len; write_only = false });
    })
    else err einval

add_writable : Scratch → ℕ → ℕ → ℕ → Result Scratch
add_writable sc niov addr len = ok (record sc {
  niov_in = add16 sc.niov_in 1;
  buffers = set sc.buffers niov (record { base = addr; len = len; write_only = true });
})

-- The scratch area of a failed walk is not kept: walk_chain clears the counters that say how much
-- of it is in use.
pub add_buffer : ℕ → Scratch → ℕ → ℕ → Bool → Result Scratch
unfolding add_readable add_writable
add_buffer max_chain_len sc addr len write =
    let niov = add16 sc.niov_out sc.niov_in in
    if leb max_chain_len niov
    then err enobufs
    else if write
    then add_writable sc niov addr len
    else add_readable sc niov addr len

-- A walk that runs out of fuel is `none`; `Shape` shows that none does.
abbrev pub Walk : Type 0 → Type 0
Walk A = Option (Result A)

pub map_buffer : Memmap → ℕ → Scratch → ℕ → ℕ → Bool → Result Scratch
map_buffer mm max_chain_len sc gpa len write = elim (gpa_range_to_ptr mm gpa len) [
  | none ↦ err efault
  | some addr ↦ add_buffer max_chain_len sc addr len write
]

-- The number of descriptors of the ring that the chain takes, with the buffers.
with_length : ℕ → Walk Scratch → Walk (ℕ × Scratch)
with_length n none = none
with_length n (some (err e)) = some (err e)
with_length n (some (ok sc)) = some (ok (n, sc))

-- A round of the loop of walk_indirect_table on the descriptor `desc`, with what mapping it gave;
-- `rest` goes on with the next one.
pub visit_table : ℕ → Desc → Result Scratch → (Scratch → Walk Scratch) → Walk Scratch
visit_table table_len desc mapped rest =
    if is_indirect desc then some (err emlink) else elim mapped [
      | err e ↦ some (err e)
      | ok sc' ↦
          if not (has_next desc)
          then some (ok sc')
          else if leb table_len desc.next
          then some (err erange)
          else rest sc'
    ]

-- A round of the loop of walk_chain; `table` walks the table of an indirect descriptor.
pub visit_ring :
    ℕ
    → Desc
    → ℕ
    → Walk Scratch
    → Result Scratch
    → (Scratch → Walk (ℕ × Scratch))
    → Walk (ℕ × Scratch)
unfolding with_length
visit_ring qsz desc chain_len table mapped rest =
    if is_indirect desc
    then if has_next desc then some (err einval) else with_length chain_len table
    else elim mapped [
      | err e ↦ some (err e)
      | ok sc' ↦
          if not (has_next desc)
          then some (ok (chain_len, sc'))
          else if leb qsz desc.next
          then some (err erange)
          else rest sc'
    ]

-- What the walks read: descriptors by address, the memory map, and the limit of a chain.
module _ (read : ℕ → Desc) (mm : Memmap) (max_chain_len : ℕ) where
  pub walk_table : ℕ → ℕ → ℕ → ℕ → Scratch → Walk Scratch
  walk_table zero table table_len idx sc = none
  walk_table (suc fuel) table table_len idx sc =
      let desc = read (add64 table (desc_size * idx)) in
      visit_table table_len desc (map_buffer mm max_chain_len sc desc.addr desc.len (is_write desc))
        (λ sc'. walk_table fuel table table_len desc.next sc')

  -- `table_len` is a `uint16_t`.
  pub walk_indirect_table : ℕ → Desc → Scratch → Walk Scratch
  walk_indirect_table fuel table_desc sc =
      if (table_desc.len == 0) || not (table_desc.len % desc_size == 0)
      then some (err einval)
      else elim (gpa_range_to_ptr mm table_desc.addr table_desc.len) [
        | none ↦ some (err efault)
        | some table ↦ walk_table fuel table (table_desc.len / desc_size % 2 ^ 16) 0 sc
      ]

  -- The loop of walk_chain over the ring of `qsz` descriptors at `ring`.
  pub walk_ring : ℕ → ℕ → ℕ → ℕ → ℕ → Scratch → Walk (ℕ × Scratch)
  walk_ring zero ring qsz idx chain_len sc = none
  walk_ring (suc fuel) ring qsz idx chain_len sc =
      let desc = read (add64 ring (desc_size * idx)) in
      visit_ring qsz desc chain_len (walk_indirect_table (suc fuel) desc sc)
        (map_buffer mm max_chain_len sc desc.addr desc.len (is_write desc))
        (λ sc'. walk_ring fuel ring qsz desc.next (add16 chain_len 1) sc')

  -- One round for each buffer that fits, and one to find the chain too long.
  pub walk_chain : ℕ → ℕ → ℕ → List Buffer → Walk (ℕ × Scratch)
  walk_chain ring qsz head buffers =
      walk_ring (suc max_chain_len) ring qsz head 1
        (record { niov_out = 0; niov_in = 0; buffers = buffers })

-- The request of a chain: a copy of its buffers, those to read first.
unfoldable pub clone_iov : Scratch → ℕ → Memmap → Iov
clone_iov sc head mm = record {
  used_head = head;
  mm = mm;
  iov_out = take sc.niov_out sc.buffers;
  iov_in = take sc.niov_in (drop sc.niov_out sc.buffers);
}
