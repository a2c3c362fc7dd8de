-- ===== src/Blk/Requests/Completion.antt =====
-- The end of a request that the backend had: complete_io of virtio/virtio_blk.c.
use mathlib.Core.Option
-- The request goes back to the driver with its status in the last byte of its buffers.
use yc_libvhost_server.Base.{
  ◌==◌, if◌then◌else◌, set, add16, ℕ, ◌%◌, ◌^◌, ◌≡◌, refl, ap, ◌⊎◌, inl, inr, none, some, ◌∷◌,
}
use yc_libvhost_server.Blk.Requests.{
  IoResult, success, ioerr, canceled, BlkIo, BlkQueue, s_ok, s_ioerr, iov_size, translate_status,
  last_buffer, set_status, free_iov, complete_req, complete_io,
}
use yc_libvhost_server.Virtq.Push.Effects.{virtq_push_lem}
use yc_libvhost_server.Virtq.Types.{Iov}

abbrev pub IsAnswered : ℕ → BlkQueue → Iov → BlkQueue → Type 0
IsAnswered status q iov q' =
    (q'.vq.used.idx ≡ add16 q.vq.used.idx 1)
    × (q'.vq.used.ring
        ≡ set q.vq.used.ring (q.vq.used.idx % q.vq.qsz)
            (record { id = iov.used_head; len = iov_size iov.iov_in % 2 ^ 32 }))
    × ((addr : ℕ)
        → q'.memory addr
          ≡ (if addr == (last_buffer iov.iov_in).base then status else q.memory addr))

-- The request is dropped: the driver does not hear of it.
abbrev pub IsDropped : BlkQueue → BlkQueue → Type 0
IsDropped q q' = (q'.vq ≡ q.vq) × (q'.memory ≡ q.memory)

complete_req-IsAnswered :
    (q : BlkQueue) (iov : Iov) (status : ℕ)
    → q.vq.log ≡ none
    → (q' : BlkQueue) × (complete_req q iov status ≡ some q')
      × (q'.freed ≡ iov ∷ q.freed)
      × IsAnswered status q iov q'
unfolding complete_req set_status
complete_req-IsAnswered q iov status no_log =
    let (vq', pushes, effect) = virtq_push_lem q.vq iov (iov_size iov.iov_in % 2 ^ 32) no_log in
    (
      free_iov (record q { vq = vq'; memory = set_status iov status q.memory }) iov,
      ap
          (Option.map
            (λ vq. free_iov (record q { vq = vq; memory = set_status iov status q.memory }) iov))
          pushes,
      refl,
      (effect.idx_of, effect.ring_of, λ addr. refl),
    )

-- On a queue without a log, a request that leaves the backend gives its buffers back in each
-- case. Unless it was canceled the driver sees it in the used ring, with the length of its
-- writable buffers, and with the status 0 or 1 for success or failure as the one byte of memory
-- that changes; if it was canceled neither queue nor memory changes.
pub complete_io_lem :
    (q : BlkQueue) (bio : BlkIo) (result : IoResult)
    → q.vq.log ≡ none
    → (q' : BlkQueue) × (complete_io q bio result ≡ some q')
      × (q'.freed ≡ bio.iov ∷ q.freed)
      × (((result ≡ canceled) × IsDropped q q')
          ⊎ ((result ≡ success) × IsAnswered s_ok q bio.iov q')
          ⊎ ((result ≡ ioerr) × IsAnswered s_ioerr q bio.iov q'))
unfolding complete_io translate_status
complete_io_lem q bio canceled no_log = (free_iov q bio.iov, refl, refl, inl (refl, (refl, refl)))
complete_io_lem q bio success no_log =
    let (q', e, freed, answer) = complete_req-IsAnswered q bio.iov s_ok no_log in
    (q', e, freed, inr (inl (refl, answer)))
complete_io_lem q bio ioerr no_log =
    let (q', e, freed, answer) = complete_req-IsAnswered q bio.iov s_ioerr no_log in
    (q', e, freed, inr (inr (refl, answer)))
