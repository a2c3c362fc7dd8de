-- ===== src/Vdev/Messages/Tables.antt =====
-- The messages about the memory table of vdev.c keep the counters.
use yc_libvhost_server.Base.{
  ltb, ◌==◌, if-elim, length, Errno, einval, Result, ok, err, ◌>>=◌, ℕ, zero, suc, ◌+◌, ◌*◌, ◌≡◌,
  refl, Bool, true, false, not, Option, none, some, List, [], ◌∷◌,
}
use yc_libvhost_server.Memmap.Cache.{Slot, Store}
use yc_libvhost_server.Memmap.Region.{Memmap}
use yc_libvhost_server.Memmap.Slots.{add_slot, del_slot, memmap_new, memmap_dup}
use yc_libvhost_server.Memmap.Translate.{uva_to_ptr}
use yc_libvhost_server.Vdev.Controls.{Shares-fields, on_vring-Shares}
use yc_libvhost_server.Vdev.Counters.{key, IsCounted, Shares, Shares-refl, Shares-trans}
use yc_libvhost_server.Vdev.Messages.{MemRegion, Host, single_mem_size}
use yc_libvhost_server.Vdev.Messages.Counted.{IsReady, Holds, finish_in_all-IsCounted}
use yc_libvhost_server.Vdev.Messages.Memory.{
  resolved, set_resolved, update_shadow, update_shadows, to_slot, Filled, drop_new, use_table,
  use_filled, set_mem_table, add_to_copy, use_in_place, add_in_place, add_by_table, add_region,
  add_mem_reg, remove_region, rem_mem_reg,
}
use yc_libvhost_server.Vdev.Messages.Sessions.{Keeps, acked, shared}
use yc_libvhost_server.Vdev.Types.{Vring, mem_table_complete, Vdev, set_vring}

set_vring-Shares :
    (i : ℕ) (v : Vring) (d : Vdev) → key v ≡ key (d.vring i) → Shares d (set_vring i v d)
set_vring-Shares i v d same = on_vring-Shares (λ w. v) i d same

-- The addresses of a vring are resolved.
pub set_resolved-Shares :
    (mm : Memmap) (i : ℕ) (d : Vdev) → Shares d (set_resolved i (resolved mm (d.vring i)) d).0
set_resolved-Shares mm i d =
    cases (uva_to_ptr mm v.shadow.desc_addr) (uva_to_ptr mm v.shadow.used_addr)
      (uva_to_ptr mm v.shadow.avail_addr)
  where
    v : Vring
    v = d.vring i

    cases :
        (desc used avail : Option ℕ)
        → Shares d
            (set_resolved i
              (do
                a ← desc
                b ← used
                c ← avail
                some (record v {
                  shadow = record (v.shadow) {
                    desc = some a;
                    used = some b;
                    avail = some c;
                    mm = some mm;
                  };
                }))
              d).0
    cases none used avail = Shares-refl d
    cases (some a) none avail = Shares-refl d
    cases (some a) (some b) none = Shares-refl d
    cases (some a) (some b) (some c) = set_vring-Shares i _ d refl

update_shadow-Shares :
    (mm : Memmap) (i : ℕ) (state : Vdev × Bool) → Shares state.0 (update_shadow mm i state).0
unfolding update_shadow
update_shadow-Shares mm i (d, false) = Shares-refl d
update_shadow-Shares mm i (d, true) =
    if-elim {A = Vdev × Bool} (λ out. Shares d out.0) (d.vring i).started_in_ctl
      (λ _. set_resolved-Shares mm i d) (λ _. Shares-refl d)

update_shadows-Shares : (mm : Memmap) (n : ℕ) (d : Vdev) → Shares d (update_shadows mm n d).0
unfolding update_shadows
update_shadows-Shares mm zero d = Shares-refl d
update_shadows-Shares mm (suc n) d =
    Shares-trans d (update_shadows mm n d).0 _ (update_shadows-Shares mm n d)
      (update_shadow-Shares mm n (update_shadows mm n d))

module _ (env : Host) (d : Vdev) (r : IsReady d) where
  dropped :
      (e : Errno) (mm : Memmap) (d' : Vdev) → Shares d d' → Holds IsCounted (drop_new env e mm d')
  dropped e mm d' s =
      shared env d r _ (Shares-trans d d' _ s (Shares-fields d' _ refl refl refl refl refl))

  used :
      (mm : Memmap) (state : Vdev × Bool)
      → Shares d state.0
      → Holds IsCounted (use_table env mm state)
  used mm (d', false) s = dropped einval mm d' s
  used mm (d', true) s =
      finish_in_all-IsCounted env mem_table_complete d
        (record d' { old_memmap = d'.memmap; memmap = some mm }) r
        (Shares-trans d d' _ s (Shares-fields d' _ refl refl refl refl refl))

  -- On a store that the table was filled from.
  stored :
      (st : Store) (mm : Memmap)
      → Shares d (update_shadows mm d.num_queues (record d { store = st })).0
  stored st mm =
      let e = record d { store = st } in
      Shares-trans d e _ (Shares-fields d e refl refl refl refl refl)
        (update_shadows-Shares mm d.num_queues e)

  filled : (t : Filled) → Holds IsCounted (use_filled env t d)
  filled (st, mm, some e) =
      dropped e mm (record d { store = st }) (Shares-fields d _ refl refl refl refl refl)
  filled (st, mm, none) =
      used mm (update_shadows mm d.num_queues (record d { store = st })) (stored st mm)

  copied : (mm : Memmap) (out : Store × Result Memmap) → Holds IsCounted (add_to_copy env d mm out)
  copied mm (st, err e) =
      dropped e mm (record d { store = st }) (Shares-fields d _ refl refl refl refl refl)
  copied mm (st, ok mm') =
      used mm' (update_shadows mm' d.num_queues (record d { store = st })) (stored st mm')

  in_place : (out : Store × Result Memmap) → Holds IsCounted (add_in_place env d out)
  in_place (st, err e) = shared env d r _ (Shares-fields d _ refl refl refl refl refl)
  in_place (st, ok mm') = shadowed (update_shadows mm' d.num_queues e) (
      Shares-trans d e _ (Shares-fields d e refl refl refl refl refl)
        (update_shadows-Shares mm' d.num_queues e))
    where
      e : Vdev
      e = record d { store = st; memmap = some mm' }

      shadowed : (state : Vdev × Bool) → Shares d state.0 → Holds IsCounted (use_in_place env state)
      shadowed (d', false) s = shared env d r d' s
      shadowed (d', true) s = acked env d r 0 d' s

  added : (slot : Slot) (o : Option Memmap) → Holds IsCounted (add_by_table env slot o d)
  added slot none = copied _ (add_slot env.os d.store (memmap_new d.map_cb d.unmap_cb) slot)
  added slot (some mm) =
      if-elim (Holds IsCounted) (d.num_vrings_in_flight == 0)
        (λ _. in_place (add_slot env.os d.store mm slot))
        (λ _.
          let copy = memmap_dup d.store mm in copied copy.1 (add_slot env.os copy.0 copy.1 slot))

  removed :
      (region : MemRegion) (o : Option Memmap) → Holds IsCounted (remove_region env region o d)
  removed region none = r.counted
  removed region (some mm) =
      let copy = memmap_dup d.store mm in
      copied copy.1 (del_slot env.os copy.0 copy.1 region.guest_addr region.user_addr region.size)

pub set_mem_table-Keeps : Keeps set_mem_table
unfolding set_mem_table
set_mem_table-Keeps env msg d r =
    if-elim (Holds IsCounted) (ltb msg.size (8 + 32 * length msg.fds)) (λ _. r.counted)
      (λ _.
        if-elim (Holds IsCounted) (ltb 8 msg.body.nregions) (λ _. r.counted)
          (λ _.
            if-elim (Holds IsCounted) (not (msg.body.nregions == length msg.fds)) (λ _. r.counted)
              (λ _. filled env d r _)))

pub add_mem_reg-Keeps : Keeps add_mem_reg
unfolding add_mem_reg
add_mem_reg-Keeps env msg d r =
    if-elim (Holds IsCounted) (ltb msg.size single_mem_size) (λ _. r.counted) (λ _. from msg.fds)
  where
    from : (fds : List ℕ) → Holds IsCounted (add_region env msg fds d)
    from [] = r.counted
    from (fd ∷ []) = added env d r (to_slot msg.body.region fd) d.memmap
    from (fd ∷ other ∷ fds) = r.counted

pub rem_mem_reg-Keeps : Keeps rem_mem_reg
unfolding rem_mem_reg
rem_mem_reg-Keeps env msg d r =
    if-elim (Holds IsCounted) (ltb msg.size single_mem_size) (λ _. r.counted)
      (λ _.
        if-elim (Holds IsCounted) (ltb 1 (length msg.fds)) (λ _. r.counted)
          (λ _. removed env d r msg.body.region d.memmap))
