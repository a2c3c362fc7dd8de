-- ===== src/Blk/Requests/Outcomes.antt =====
-- What becomes of a request of virtio/virtio_blk.c.
use mathlib.Core.Option
use yc_libvhost_server.Base.{add16, ℕ, ◌≡◌, ◌⊎◌, true, Option, some, ◌∷◌}
use yc_libvhost_server.Blk.Device.{Dev, is_readonly}
use yc_libvhost_server.Blk.Requests.{
  Memory, read_le, read_io, BlkIo, BlkQueue, Moment, sector_checked,
}
use yc_libvhost_server.Blk.Requests.Ranges.{IsOnDisk}
use yc_libvhost_server.Virtq.Types.{Iov, Virtq}

-- A driver that leaves the sector of a request alone while the request is looked at.

abbrev pub KeepsSector : (Moment → Memory → Memory) → Type 0
KeepsSector driver =
    (memory : Memory) (addr : ℕ)
    → read_le 8 addr (driver sector_checked memory) ≡ read_le 8 addr memory

-- What the backend may be given: no change of a read-only disk, and sectors of the disk, the
-- latter if the driver keeps the sector.
abbrev pub IsProper : (Moment → Memory → Memory) → Dev → BlkIo → Type 0
IsProper driver dev bio =
    (is_readonly dev ≡ true → bio.type ≡ read_io)
    × (KeepsSector driver → IsOnDisk dev.config.capacity bio)

-- The request went back to the driver: its buffers are given back, and the used ring is one
-- element longer.
abbrev pub IsCompleted : BlkQueue → Iov → BlkQueue → Type 0
IsCompleted q iov q' =
    (q'.submitted ≡ q.submitted)
    × (q'.freed ≡ iov ∷ q.freed)
    × (q'.vq.used.idx ≡ add16 q.vq.used.idx 1)

-- The backend has the request, which nobody else has.
abbrev pub IsAccepted : (BlkIo → Type 0) → BlkQueue → Iov → BlkQueue → Type 0
IsAccepted P q iov q' =
    (bio : BlkIo) × (bio.iov ≡ iov)
    × P bio
    × (q'.submitted ≡ bio ∷ q.submitted)
    × (q'.freed ≡ q.freed)
    × (q'.vq ≡ q.vq)

-- The handler returns, and the request is completed or accepted.
abbrev pub Handled : (BlkIo → Type 0) → BlkQueue → Iov → Option BlkQueue → Type 0
Handled P q iov m = (q' : BlkQueue) × (m ≡ some q') × (IsCompleted q iov q' ⊎ IsAccepted P q iov q')
