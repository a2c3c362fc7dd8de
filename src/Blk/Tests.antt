-- ===== src/Blk/Tests.antt =====
-- The theorems about virtio/virtio_blk.c at concrete inputs.
use yc_libvhost_server.Base.{
  length, take, ℕ, ◌+◌, ◌-◌, ◌*◌, ◌^◌, ◌≤◌, ◌<◌, min, ◌≡◌, refl, ◌↔◌, ◌⊎◌, true, false, none, some,
  [], ◌∷◌, arith,
}
use yc_libvhost_server.Blk.Device.{
  Config, Dev, default_features, refresh_config_geometry, config_size, get_config,
}
use yc_libvhost_server.Blk.Device.ConfigSpace.{get_config-length}
use yc_libvhost_server.Blk.Device.Limits.{refresh_config_geometry-covers}
use yc_libvhost_server.Blk.Requests.{
  Memory, write_byte, read_le, read_io, success, ioerr, canceled, BlkIo, BlkQueue, t_in, s_ok,
  s_ioerr, iov_size, complete_io, is_valid_block_range_req, is_valid_req, Moment, type_read,
  sector_checked, handle_inout,
}
use yc_libvhost_server.Blk.Requests.Completion.{IsAnswered, IsDropped, complete_io_lem}
use yc_libvhost_server.Blk.Requests.Ranges.{IsOnDisk, is_valid_req_lem}
use yc_libvhost_server.Blk.Requests.Rereads.{handle_inout-rereads}
use yc_libvhost_server.Memmap.Region.{Memmap}
use yc_libvhost_server.Virtq.Inflight.{no_metrics}
use yc_libvhost_server.Virtq.Types.{Iov, Virtq}

-- A disk of 800 sectors.
abbrev disk_config : Config
disk_config = record {
  capacity = 800;
  size_max = 0;
  seg_max = 126;
  geometry = record { cylinders = 1; heads = 4; sectors = 255 };
  blk_size = 512;
  topology = record {
    physical_block_exp = 3;
    alignment_offset = 0;
    min_io_size = 1;
    opt_io_size = 0;
  };
  writeback = 0;
  numqueues = 1;
  max_discard_sectors = 2 ^ 32 - 1;
  max_discard_seg = 1;
  discard_sector_alignment = 1;
  max_write_zeroes_sectors = 2 ^ 32 - 1;
  max_write_zeroes_seg = 1;
  write_zeroes_may_unmap = 1;
}

abbrev disk : Dev
disk = record { serial = some (65 ∷ 66 ∷ []); features = default_features; config = disk_config }

abbrev empty_map : Memmap
empty_map = record { ref = 1; callbacks = record { map_cb = 0; unmap_cb = 0 }; regions = [] }

abbrev virtqueue : Virtq
virtqueue = record {
  flags = 0;
  desc = 0x5000;
  avail = record { flags = 0; idx = 1; ring = 0 ∷ 0 ∷ []; used_event = 7 };
  used = record {
    idx = 7;
    ring = record { id = 0; len = 0 } ∷ record { id = 0; len = 0 } ∷ [];
    avail_event = 0;
  };
  used_gpa_base = 0x2000;
  qsz = 2;
  max_chain_len = 2;
  last_avail = 1;
  scratch = record { niov_out = 0; niov_in = 0; buffers = [] };
  broken = false;
  has_event_idx = true;
  notify_fd = some 9;
  enabled = true;
  req_cnt = 0;
  inflight_region = none;
  inflight_check = false;
  mm = empty_map;
  log = none;
  metrics = no_metrics;
  period_start_ts = 0;
  signals = 3;
}

-- The header at 0 is all zeroes: a read of the sector 0.
abbrev reader : BlkQueue
reader = record { vq = virtqueue; memory = λ addr. 0; submitted = []; freed = [] }

abbrev read_iov : Iov
read_iov = record {
  used_head = 0;
  mm = empty_map;
  iov_out = record { base = 0; len = 16; write_only = false } ∷ [];
  iov_in =
      record { base = 100; len = 512; write_only = true }
      ∷ record { base = 700; len = 1; write_only = true }
      ∷ [];
}

-- A driver that leaves the memory alone, and one that makes the sector 1024 when it was checked.
abbrev idle : Moment → Memory → Memory
idle moment memory = memory

abbrev hostile : Moment → Memory → Memory
hostile type_read memory = memory
hostile sector_checked memory = write_byte 9 4 memory

abbrev accept : Virtq → BlkIo → ℕ
accept vq bio = 0

type_is_in : read_le 4 0 reader.memory ≡ t_in
unfolding read_le
type_is_in = refl

is_valid : is_valid_req (read_le 8 8 reader.memory) (iov_size (take 1 read_iov.iov_in)) 800 ≡ true
unfolding is_valid_req is_valid_block_range_req read_le iov_size
is_valid = refl

moved : 800 < read_le 8 8 (hostile sector_checked reader.memory)
unfolding read_le
moved = ground arith

handle_inout-rereads_example :
    (q' : BlkQueue) × (bio : BlkIo) × (handle_inout hostile accept disk 0 reader read_iov ≡ some q')
    × (q'.submitted ≡ bio ∷ [])
    × ¬ (IsOnDisk 800 bio)
handle_inout-rereads_example =
    handle_inout-rereads hostile accept disk 0 reader read_iov type_is_in is_valid (λ vq bio. refl)
      moved

is_valid_req_lem_example :
    (is_valid_req 792 4096 800 ≡ true)
    ↔ ((nsectors : ℕ) × (4096 ≡ nsectors * 512) × (0 < nsectors) × (792 + nsectors ≤ 800))
is_valid_req_lem_example = is_valid_req_lem 792 4096 800

refresh_config_geometry-covers_example :
    let g = (refresh_config_geometry disk_config).geometry in
    (0 < g.sectors)
    × (g.sectors < 2 ^ 8)
    × (0 < g.heads)
    × (g.heads < 2 ^ 8)
    × (0 < g.cylinders)
    × (g.cylinders < 2 ^ 16)
    × (min disk_config.capacity (255 * 255 * 65535) ≤ g.sectors * g.heads * g.cylinders)
refresh_config_geometry-covers_example =
    refresh_config_geometry-covers disk_config (omega arith) (omega arith)

get_config-length_example : length (get_config disk 8 56) ≡ min 8 (config_size - 56)
get_config-length_example = get_config-length disk 8 56

abbrev read_io_done : BlkIo
read_io_done = record {
  iov = read_iov;
  type = read_io;
  first_sector = 0;
  total_sectors = 1;
  sglist = [];
}

complete_io_lem_example :
    (q' : BlkQueue) × (complete_io reader read_io_done ioerr ≡ some q')
    × (q'.freed ≡ read_iov ∷ [])
    × (((ioerr ≡ canceled) × IsDropped reader q')
        ⊎ ((ioerr ≡ success) × IsAnswered s_ok reader read_iov q')
        ⊎ ((ioerr ≡ ioerr) × IsAnswered s_ioerr reader read_iov q'))
complete_io_lem_example = complete_io_lem reader read_io_done ioerr refl
