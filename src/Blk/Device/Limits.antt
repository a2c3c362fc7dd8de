-- ===== src/Blk/Device/Limits.antt =====
-- The geometry that refresh_config_geometry of virtio/virtio_blk.c makes up.
use yc_libvhost_server.Base.{
  add64, sub64, ℕ, ◌*◌, ◌/◌, ◌^◌, ◌≤◌, ◌<◌, min, ◌≡◌, ◌⊎◌, inl, inr, arith,
}
use yc_libvhost_server.Blk.Device.{Config, refresh_config_geometry}

le_or_gt : (m n : ℕ) → (m ≤ n) ⊎ (n < m)
le_or_gt m n = ground arith

-- The three ranges of the size: one head, one cylinder, and more.
product-ge :
    (n s h c : ℕ)
    → ((n ≤ s) × (h ≡ 1) × (c ≡ 1))
      ⊎ ((s ≡ 255) × (n ≤ 255 * h) × (c ≡ 1))
      ⊎ ((s ≡ 255) × (h ≡ 255) × (n ≤ 65025 * c))
    → n ≤ s * h * c
product-ge n s h c (inl (fits, one_head, one_cylinder)) = rw (one_head, one_cylinder) (omega arith)
product-ge n s h c (inr (inl (full, fits, one_cylinder))) = rw (full, one_cylinder) (omega arith)
product-ge n s h c (inr (inr (full, all_heads, fits))) = rw (full, all_heads) (omega arith)

-- A device with a sector has a geometry whose fields fit their types and are not 0, and whose
-- sectors are at least those of the disk, unless the disk is larger than any geometry.

-- A device with at least one sector, and with a capacity of 64 bits, has a geometry whose fields
-- fit their types and are not 0, and whose sectors are at least those of the disk, unless the
-- disk is larger than any geometry.
pub refresh_config_geometry-covers :
    (config : Config)
    → 0 < config.capacity
    → config.capacity < 2 ^ 64
    → let g = (refresh_config_geometry config).geometry in
      (0 < g.sectors)
      × (g.sectors < 2 ^ 8)
      × (0 < g.heads)
      × (g.heads < 2 ^ 8)
      × (0 < g.cylinders)
      × (g.cylinders < 2 ^ 16)
      × (min config.capacity (255 * 255 * 65535) ≤ g.sectors * g.heads * g.cylinders)
unfolding refresh_config_geometry
refresh_config_geometry-covers config some_sector word = (
  omega arith,
  omega arith,
  omega arith,
  omega arith,
  omega arith,
  omega arith,
  elim (le_or_gt config.capacity 255) [
    | inl small ↦
        product-ge (min config.capacity 4261413375) (min config.capacity 255)
          (min (add64 1 (sub64 config.capacity 1 / 255)) 255)
          (min (add64 1 (sub64 config.capacity 1 / 65025)) 65535)
          (inl (omega arith, omega arith, omega arith))
    | inr large ↦ elim (le_or_gt config.capacity 65025) [
      | inl middle ↦
          product-ge (min config.capacity 4261413375) (min config.capacity 255)
            (min (add64 1 (sub64 config.capacity 1 / 255)) 255)
            (min (add64 1 (sub64 config.capacity 1 / 65025)) 65535)
            (inr (inl (omega arith, omega arith, omega arith)))
      | inr huge ↦
          product-ge (min config.capacity 4261413375) (min config.capacity 255)
            (min (add64 1 (sub64 config.capacity 1 / 255)) 255)
            (min (add64 1 (sub64 config.capacity 1 / 65025)) 65535)
            (inr (inr (omega arith, omega arith, omega arith)))
    ]
  ],
)
