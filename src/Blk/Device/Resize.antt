-- ===== src/Blk/Device/Resize.antt =====
-- The size of a virtio-blk device in blocks, of virtio/virtio_blk.c.
use native.Mathlib.Nat.{mod-eq_of_lt, mul-div_cancel, one-le-pow}
-- Sectors that do not wrap are shifted back to the blocks they came from.
use yc_libvhost_server.Base.{ℕ, ◌*◌, ◌/◌, ◌%◌, ◌^◌, ◌<◌, ◌≡◌, ap, ◌∙◌, arith}
use yc_libvhost_server.Blk.Device.{
  Dev, BdevInfo, refresh_config_geometry, get_total_blocks, set_total_blocks, find_first_bit,
  init_dev,
}

blocks_back : (n e : ℕ) → n * 2 ^ e < 2 ^ 64 → n * 2 ^ e % 2 ^ 64 / 2 ^ e ≡ n
blocks_back n e fits =
    ap (λ sectors. sectors / 2 ^ e) (mod-eq_of_lt fits)
    ∙ mul-div_cancel n (one-le-pow e 2 (omega arith))

-- The number of blocks that a device is given is the number that it reports, if the sectors of
-- that many blocks fit into 64 bits.

-- The number of blocks that a device is given is the number that it reports, if the sectors of
-- that many blocks fit into 64 bits.
get_total_blocks-set_total_blocks :
    (dev : Dev) (total_blocks : ℕ)
    → total_blocks * 2 ^ dev.config.topology.physical_block_exp < 2 ^ 64
    → get_total_blocks (set_total_blocks dev total_blocks) ≡ total_blocks
unfolding get_total_blocks set_total_blocks refresh_config_geometry
get_total_blocks-set_total_blocks dev total_blocks fits =
    blocks_back total_blocks dev.config.topology.physical_block_exp fits

-- A new device reports the blocks of the backend, if the sectors of that many blocks fit into 64
-- bits.
get_total_blocks-init_dev :
    (bdev : BdevInfo)
    → bdev.total_blocks * 2 ^ find_first_bit 32 (bdev.block_size / 2 ^ 9) < 2 ^ 64
    → get_total_blocks (init_dev bdev) ≡ bdev.total_blocks
unfolding get_total_blocks init_dev refresh_config_geometry
get_total_blocks-init_dev bdev fits =
    blocks_back bdev.total_blocks (find_first_bit 32 (bdev.block_size / 2 ^ 9)) fits
