-- ===== src/Vdev/Messages/Memory.antt =====
-- The memory table: vhost_set_mem_table, vhost_add_mem_reg and vhost_rem_mem_reg of vdev.c.
use yc_libvhost_server.Base.{
  ltb, ◌==◌, if◌then◌else◌, length, take, Errno, einval, emsgsize, Result, ok, err, ◌>>=◌, ℕ, zero,
  suc, ◌+◌, ◌*◌, Bool, true, false, not, Option, none, some, List, [], ◌∷◌,
}
use yc_libvhost_server.Memmap.Cache.{Slot, Store}
use yc_libvhost_server.Memmap.Host.{Os}
use yc_libvhost_server.Memmap.Region.{Memmap}
use yc_libvhost_server.Memmap.Slots.{add_slot, del_slot, memmap_new, memmap_dup}
use yc_libvhost_server.Memmap.Translate.{uva_to_ptr}
use yc_libvhost_server.Vdev.Lifecycle.{vhost_ack, drop_memmap}
use yc_libvhost_server.Vdev.Messages.{
  MemRegion, Msg, Host, single_mem_size, Outcome, fail, finish_in_all,
}
use yc_libvhost_server.Vdev.Types.{Vring, mem_table_complete, Vdev, set_vring}

-- vring_update_shadow_vq_addrs
abbrev pub resolved : Memmap → Vring → Option Vring
resolved mm v = do
  desc ← uva_to_ptr mm v.shadow.desc_addr
  used ← uva_to_ptr mm v.shadow.used_addr
  avail ← uva_to_ptr mm v.shadow.avail_addr
  some (record v {
    shadow = record (v.shadow) {
      desc = some desc;
      used = some used;
      avail = some avail;
      mm = some mm;
    };
  })

abbrev pub set_resolved : ℕ → Option Vring → Vdev → Vdev × Bool
set_resolved i none d = (d, false)
set_resolved i (some v) d = (set_vring i v d, true)

unfoldable pub update_shadow : Memmap → ℕ → Vdev × Bool → Vdev × Bool
update_shadow mm i (d, false) = (d, false)
update_shadow mm i (d, true) =
    if (d.vring i).started_in_ctl then set_resolved i (resolved mm (d.vring i)) d else (d, true)

-- The loop over the vrings below `n`, which ends at the first started one that it cannot resolve.
unfoldable pub update_shadows : Memmap → ℕ → Vdev → Vdev × Bool
update_shadows mm zero d = (d, true)
update_shadows mm (suc n) d = update_shadow mm n (update_shadows mm n d)

abbrev pub to_slot : MemRegion → ℕ → Slot
to_slot region fd = record {
  gpa = region.guest_addr;
  uva = region.user_addr;
  size = region.size;
  fd = fd;
  offset = region.mmap_offset;
}

-- The loop that fills a new table. On an error the slots that were added stay in it.
abbrev pub Filled : Type 0
Filled = Store × Memmap × Option Errno

abbrev pub add_next : Os → MemRegion → ℕ → Filled → Filled
add_next os region fd (st, mm, some e) = (st, mm, some e)
add_next os region fd (st, mm, none) = added mm (add_slot os st mm (to_slot region fd))
  where
    added : Memmap → Store × Result Memmap → Filled
    added old (st', err e) = (st', old, some e)
    added old (st', ok mm') = (st', mm', none)

unfoldable pub add_slots : Os → List MemRegion → List ℕ → Filled → Filled
add_slots os [] fds t = t
add_slots os (region ∷ regions) [] t = t
add_slots os (region ∷ regions) (fd ∷ fds) t = add_slots os regions fds (add_next os region fd t)

-- The new table takes the place of the old one, which is kept until all vrings have left it.
abbrev pub replace_memmap : Host → Memmap → Vdev → Outcome
replace_memmap env mm d =
    finish_in_all env mem_table_complete (record d { old_memmap = d.memmap; memmap = some mm })

-- The new table is given up.
abbrev pub drop_new : Host → Errno → Memmap → Vdev → Outcome
drop_new env e mm d = fail e (drop_memmap env.os (some mm) d)

abbrev pub use_table : Host → Memmap → Vdev × Bool → Outcome
use_table env mm (d, false) = drop_new env einval mm d
use_table env mm (d, true) = replace_memmap env mm d

abbrev pub use_filled : Host → Filled → Vdev → Outcome
use_filled env (st, mm, some e) d = drop_new env e mm (record d { store = st })
use_filled env (st, mm, none) d =
    use_table env mm (update_shadows mm d.num_queues (record d { store = st }))

unfoldable pub set_mem_table : Host → Msg → Vdev → Outcome
set_mem_table env msg d =
    let mm = memmap_new d.map_cb d.unmap_cb in
    let regions = take msg.body.nregions msg.body.regions in
    if ltb msg.size (8 + 32 * length msg.fds)
    then fail emsgsize d
    else if ltb 8 msg.body.nregions
    then fail einval d
    else if not (msg.body.nregions == length msg.fds)
    then fail einval d
    else use_filled env (add_slots env.os regions msg.fds (d.store, mm, none)) d

-- vhost_add_mem_reg, on a table that was created or copied for it.
abbrev pub add_to_copy : Host → Vdev → Memmap → Store × Result Memmap → Outcome
add_to_copy env d mm (st, err e) = drop_new env e mm (record d { store = st })
add_to_copy env d mm (st, ok mm') =
    use_table env mm' (update_shadows mm' d.num_queues (record d { store = st }))

-- The fast path, on the table that the device has. A slot that was added stays.
abbrev pub use_in_place : Host → Vdev × Bool → Outcome
use_in_place env (d, false) = fail einval d
use_in_place env (d, true) = some (vhost_ack env.sent 0 d)

abbrev pub add_in_place : Host → Vdev → Store × Result Memmap → Outcome
add_in_place env d (st, err e) = fail e (record d { store = st })
add_in_place env d (st, ok mm') =
    use_in_place env (update_shadows mm' d.num_queues (record d { store = st; memmap = some mm' }))

abbrev pub add_by_table : Host → Slot → Option Memmap → Vdev → Outcome
add_by_table env slot none d =
    let mm = memmap_new d.map_cb d.unmap_cb in
    add_to_copy env d mm (add_slot env.os d.store mm slot)
add_by_table env slot (some mm) d =
    let copy = memmap_dup d.store mm in
    if d.num_vrings_in_flight == 0
    then add_in_place env d (add_slot env.os d.store mm slot)
    else add_to_copy env d copy.1 (add_slot env.os copy.0 copy.1 slot)

abbrev pub add_region : Host → Msg → List ℕ → Vdev → Outcome
add_region env msg [] d = fail einval d
add_region env msg (fd ∷ []) d = add_by_table env (to_slot msg.body.region fd) d.memmap d
add_region env msg (fd ∷ other ∷ fds) d = fail einval d

unfoldable pub add_mem_reg : Host → Msg → Vdev → Outcome
add_mem_reg env msg d =
    if ltb msg.size single_mem_size then fail emsgsize d else add_region env msg msg.fds d

abbrev pub remove_region : Host → MemRegion → Option Memmap → Vdev → Outcome
remove_region env region none d = fail einval d
remove_region env region (some mm) d =
    let copy = memmap_dup d.store mm in
    add_to_copy env d copy.1
      (del_slot env.os copy.0 copy.1 region.guest_addr region.user_addr region.size)

unfoldable pub rem_mem_reg : Host → Msg → Vdev → Outcome
rem_mem_reg env msg d =
    if ltb msg.size single_mem_size
    then fail emsgsize d
    else if ltb 1 (length msg.fds)
    then fail einval d
    else remove_region env msg.body.region d.memmap d
