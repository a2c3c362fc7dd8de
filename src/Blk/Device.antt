-- ===== src/Blk/Device.antt =====
-- The context of a virtio-blk device, its configuration space and features: virtio/virtio_blk.c,
-- virtio/virtio_blk_spec.h and the parts of include/vhost/blockdev.h that it reads.
pub mod Limits
pub mod Resize
pub mod ConfigSpace
use yc_libvhost_server.Base.{
  leb, ◌==◌, if◌then◌else◌, take, drop, add64, sub64, test_bit, ℕ, zero, suc, ◌+◌, ◌-◌, ◌*◌, ◌/◌,
  ◌%◌, ◌^◌, min, bit_or, Bool, Option, none, some, List, [], ◌∷◌, ◌++◌,
}

-- `struct virtio_blk_geometry`
pub record Geometry : Type 0 where
  pub cylinders : ℕ
  pub heads : ℕ
  pub sectors : ℕ

-- `struct virtio_blk_topology`
pub record Topology : Type 0 where
  pub physical_block_exp : ℕ
  pub alignment_offset : ℕ
  pub min_io_size : ℕ
  pub opt_io_size : ℕ

-- `struct virtio_blk_config`
pub record Config : Type 0 where
  pub capacity : ℕ
  pub size_max : ℕ
  pub seg_max : ℕ
  pub geometry : Geometry
  pub blk_size : ℕ
  pub topology : Topology
  pub writeback : ℕ
  pub numqueues : ℕ
  pub max_discard_sectors : ℕ
  pub max_discard_seg : ℕ
  pub discard_sector_alignment : ℕ
  pub max_write_zeroes_sectors : ℕ
  pub max_write_zeroes_seg : ℕ
  pub write_zeroes_may_unmap : ℕ

-- `struct virtio_blk_dev`; the serial is a string without its final NUL.
pub record Dev : Type 0 where
  pub serial : Option (List ℕ)
  pub features : ℕ
  pub config : Config

-- `struct vhd_bdev_info`, less the path of the socket and the callbacks on guest memory.
pub record BdevInfo : Type 0 where
  pub serial : List ℕ
  pub block_size : ℕ
  pub num_queues : ℕ
  pub total_blocks : ℕ
  pub features : ℕ

-- The features by their bits.
abbrev pub f_seg_max : ℕ
f_seg_max = 2

abbrev pub f_geometry : ℕ
f_geometry = 4

abbrev pub f_ro : ℕ
f_ro = 5

abbrev pub f_blk_size : ℕ
f_blk_size = 6

abbrev pub f_topology : ℕ
f_topology = 10

abbrev pub f_mq : ℕ
f_mq = 12

abbrev pub f_discard : ℕ
f_discard = 13

abbrev pub f_write_zeroes : ℕ
f_write_zeroes = 14

-- VIRTIO_BLK_DEFAULT_FEATURES, with the ring features 28, 29 and 32.
abbrev pub default_features : ℕ
default_features =
    2 ^ 28
    + 2 ^ 29
    + 2 ^ 32
    + 2 ^ f_seg_max
    + 2 ^ f_geometry
    + 2 ^ f_blk_size
    + 2 ^ f_topology
    + 2 ^ f_mq

-- virtio_blk_has_feature
pub has_feature : Dev → ℕ → Bool
has_feature dev feature = test_bit dev.features feature

-- virtio_blk_is_readonly
pub is_readonly : Dev → Bool
is_readonly dev = has_feature dev f_ro

-- refresh_config_geometry; `capacity - 1` is of 64 bits.
pub refresh_config_geometry : Config → Config
refresh_config_geometry config = record config {
  geometry = record {
    sectors = min config.capacity 255;
    heads = min (add64 1 (sub64 config.capacity 1 / 255)) 255;
    cylinders = min (add64 1 (sub64 config.capacity 1 / (255 * 255))) 65535;
  };
}

-- virtio_blk_get_total_blocks
pub get_total_blocks : Dev → ℕ
get_total_blocks dev = dev.config.capacity / 2 ^ dev.config.topology.physical_block_exp

-- virtio_blk_set_total_blocks
pub set_total_blocks : Dev → ℕ → Dev
set_total_blocks dev total_blocks = record dev {
  config = refresh_config_geometry (record (dev.config) {
    capacity = total_blocks * 2 ^ dev.config.topology.physical_block_exp % 2 ^ 64;
  });
}

-- vhd_find_first_bit32, of a number that is not 0.
unfoldable pub find_first_bit : ℕ → ℕ → ℕ
find_first_bit zero value = 0
find_first_bit (suc bits) value =
    let rest = find_first_bit bits (value / 2) in if value % 2 == 1 then 0 else suc rest

-- `features |= 1 << feature`, on a condition.
set_feature_if : Bool → ℕ → ℕ → ℕ
set_feature_if present feature features =
    if present then bit_or features (2 ^ feature) else features

init_features : ℕ → ℕ
unfolding set_feature_if
init_features bdev_features = set_feature_if (test_bit bdev_features 2) f_write_zeroes (
    set_feature_if (test_bit bdev_features 1) f_discard
      (set_feature_if (test_bit bdev_features 0) f_ro default_features))

-- virtio_blk_init_dev, of a device that was allocated with zeroes.
pub init_dev : BdevInfo → Dev
unfolding init_features
init_dev bdev =
    let phys_block_exp = find_first_bit 32 (bdev.block_size / 2 ^ 9) in
    record {
      serial = some bdev.serial;
      features = init_features bdev.features;
      config = refresh_config_geometry (record {
        capacity = bdev.total_blocks * 2 ^ phys_block_exp % 2 ^ 64;
        size_max = 0;
        seg_max = 128 - 2;
        geometry = record { cylinders = 0; heads = 0; sectors = 0 };
        blk_size = 512;
        topology = record {
          physical_block_exp = phys_block_exp;
          alignment_offset = 0;
          min_io_size = 1;
          opt_io_size = 0;
        };
        writeback = 0;
        numqueues = bdev.num_queues % 2 ^ 16;
        max_discard_sectors = 2 ^ 32 - 1;
        max_discard_seg = 1;
        discard_sector_alignment = 1;
        max_write_zeroes_sectors = 2 ^ 32 - 1;
        max_write_zeroes_seg = 1;
        write_zeroes_may_unmap = 1;
      });
    }

-- virtio_blk_destroy_dev
pub destroy_dev : Dev → Dev
destroy_dev dev = record dev { serial = none }

-- The bytes of a number in memory, the low one first.
pub le_bytes : ℕ → ℕ → List ℕ
le_bytes zero value = []
le_bytes (suc n) value = value % 256 ∷ le_bytes n (value / 256)

-- The configuration as the driver sees it: the fields in order, packed.
config_bytes : Config → List ℕ
config_bytes c =
    le_bytes 8 c.capacity
    ++ le_bytes 4 c.size_max
    ++ le_bytes 4 c.seg_max
    ++ le_bytes 2 c.geometry.cylinders
    ++ le_bytes 1 c.geometry.heads
    ++ le_bytes 1 c.geometry.sectors
    ++ le_bytes 4 c.blk_size
    ++ le_bytes 1 c.topology.physical_block_exp
    ++ le_bytes 1 c.topology.alignment_offset
    ++ le_bytes 2 c.topology.min_io_size
    ++ le_bytes 4 c.topology.opt_io_size
    ++ le_bytes 1 c.writeback
    ++ le_bytes 1 0
    ++ le_bytes 2 c.numqueues
    ++ le_bytes 4 c.max_discard_sectors
    ++ le_bytes 4 c.max_discard_seg
    ++ le_bytes 4 c.discard_sector_alignment
    ++ le_bytes 4 c.max_write_zeroes_sectors
    ++ le_bytes 4 c.max_write_zeroes_seg
    ++ le_bytes 1 c.write_zeroes_may_unmap
    ++ le_bytes 3 0

-- `sizeof(struct virtio_blk_config)`
abbrev pub config_size : ℕ
config_size = 60

-- virtio_blk_get_config: the bytes copied to the caller's buffer; their number is what the
-- function returns.
pub get_config : Dev → ℕ → ℕ → List ℕ
unfolding config_bytes
get_config dev bufsize offset =
    if leb config_size offset
    then []
    else take (min bufsize (config_size - offset)) (drop offset (config_bytes dev.config))
