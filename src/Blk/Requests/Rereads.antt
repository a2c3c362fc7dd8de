-- ===== src/Blk/Requests/Rereads.antt =====
-- The sector of a read or write request, which handle_inout of virtio/virtio_blk.c reads from
-- shared memory twice.
use yc_libvhost_server.Base.{length, take, ℕ, ◌+◌, ◌-◌, ◌<◌, ◌≡◌, refl, true, some, ◌∷◌, arith}
use yc_libvhost_server.Blk.Device.{Dev}
use yc_libvhost_server.Blk.Requests.{
  Memory, read_le, read_io, BlkIo, BlkQueue, t_in, iov_size, is_valid_req, Moment, sector_checked,
  inout_io, submit_or_fail, handle_inout, inout_checked,
}
use yc_libvhost_server.Blk.Requests.Ranges.{IsOnDisk}
use yc_libvhost_server.Virtq.Types.{Iov, Virtq}

module _ (driver : Moment → Memory → Memory) (handle_request : Virtq → BlkIo → ℕ) where
  -- A driver that changes the sector of a valid read after the check, to one past the end of the
  -- disk, makes a backend that accepts everything get a request that is not on the disk.
  pub handle_inout-rereads :
      (dev : Dev) (req : ℕ) (q : BlkQueue) (iov : Iov)
      → read_le 4 req q.memory ≡ t_in
      → is_valid_req
          (read_le 8 (req + 8) q.memory)
          (iov_size (take (length iov.iov_in - 1) iov.iov_in))
          dev.config.capacity
        ≡ true
      → ((vq : Virtq) (bio : BlkIo) → handle_request vq bio ≡ 0)
      → dev.config.capacity < read_le 8 (req + 8) (driver sector_checked q.memory)
      → (q' : BlkQueue) × (bio : BlkIo) × (handle_inout driver handle_request dev req q iov
          ≡ some q')
        × (q'.submitted ≡ bio ∷ q.submitted)
        × ¬ (IsOnDisk dev.config.capacity bio)
  unfolding handle_inout inout_checked submit_or_fail
  handle_inout-rereads dev req q iov reads valid accepts moved = (
    record q { memory = driver sector_checked q.memory; submitted = bio ∷ q.submitted },
    bio,
    rw (reads, valid, accepts q.vq bio) refl,
    refl,
    λ on_disk. omega arith,
  )
    where
      bio : BlkIo
      bio =
          inout_io iov read_io (take (length iov.iov_in - 1) iov.iov_in)
            (read_le 8 (req + 8) (driver sector_checked q.memory))
