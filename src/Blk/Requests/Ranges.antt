-- ===== src/Blk/Requests/Ranges.antt =====
-- The checks on the sectors of a request of virtio/virtio_blk.c.
use yc_libvhost_server.Base.{
  ◌==◌, &&-true, All, ℕ, ◌+◌, ◌*◌, ◌/◌, ◌%◌, ◌≤◌, ◌<◌, ◌≡◌, ◌↔◌, Bool, true, ◌&&◌, not, arith,
}
use yc_libvhost_server.Blk.Requests.{BlkIo, BlkQueue, is_valid_block_range_req, is_valid_req}

-- The sectors of a request are on a disk of `capacity` sectors.
abbrev pub IsOnDisk : ℕ → BlkIo → Type 0
IsOnDisk capacity bio = bio.first_sector + bio.total_sectors ≤ capacity

-- All requests that the backend has are on the disk.
abbrev pub AllOnDisk : ℕ → BlkQueue → Type 0
AllOnDisk capacity q = All (IsOnDisk capacity) q.submitted

pub is_valid_block_range_req_lem :
    (sector nsectors capacity : ℕ)
    → (is_valid_block_range_req sector nsectors capacity ≡ true) ↔ (sector + nsectors ≤ capacity)
unfolding is_valid_block_range_req
is_valid_block_range_req_lem sector nsectors capacity = (λ h. ground arith, λ h. ground arith)

-- A request that passes is_valid_req has at least one sector, a length of whole sectors, and ends
-- within the disk, as numbers that do not wrap; and each such request passes.
pub is_valid_req_lem :
    (sector len capacity : ℕ)
    → (is_valid_req sector len capacity ≡ true)
      ↔ ((nsectors : ℕ) × (len ≡ nsectors * 512) × (0 < nsectors) × (sector + nsectors ≤ capacity))
unfolding is_valid_req
is_valid_req_lem sector len capacity = (
  λ h.
      let (nonzero, rest) =
        (&&-true (not (len == 0)) (not (not (len % 512 == 0)) && in_range)).0 h in
      let (whole, fits) = (&&-true (not (not (len % 512 == 0))) in_range).0 rest in
      (
        len / 512,
        ground arith,
        ground arith,
        (is_valid_block_range_req_lem sector (len / 512) capacity).0 fits,
      ),
  λ (nsectors, whole, some_sector, fits).
      (&&-true (not (len == 0)) (not (not (len % 512 == 0)) && in_range)).1 (
        ground arith,
        (&&-true (not (not (len % 512 == 0))) in_range).1 (
          ground arith,
          (is_valid_block_range_req_lem sector (len / 512) capacity).1 (omega arith),
        ),
      ),
)
  where
    in_range : Bool
    in_range = is_valid_block_range_req sector (len / 512) capacity
