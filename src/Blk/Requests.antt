-- ===== src/Blk/Requests.antt =====
-- The requests of a virtio-blk device: their checks, their submission to the backend and their
-- completion, of virtio/virtio_blk.c. What the driver may do to the shared memory between two
-- reads of it, and what the backend answers to a submission, are parameters.
pub mod Ranges
pub mod Outcomes
pub mod Rereads
pub mod Serial
pub mod Completion
use mathlib.Core.Option
use yc_libvhost_server.Base.{
  ltb, ◌==◌, if◌then◌else◌, length, get_or, take, drop, add64, is_aligned, ℕ, zero, suc, ◌+◌, ◌-◌,
  ◌*◌, ◌/◌, ◌%◌, ◌^◌, Bool, true, false, ◌&&◌, ◌||◌, not, Option, none, some, List, [], ◌∷◌,
}
use yc_libvhost_server.Blk.Device.{Dev, f_discard, f_write_zeroes, has_feature, is_readonly}
use yc_libvhost_server.Virtq.Push.{virtq_push}
use yc_libvhost_server.Virtq.Types.{Buffer, Iov, Virtq}

-- The bytes of the memory that the guest shares, by their addresses.
abbrev pub Memory : Type 0
Memory = ℕ → ℕ

abbrev pub write_byte : ℕ → ℕ → Memory → Memory
write_byte addr byte memory = λ x. if x == addr then byte else memory x

-- A number of `n` bytes in memory, the low one first.
unfoldable pub read_le : ℕ → ℕ → Memory → ℕ
read_le zero addr memory = 0
read_le (suc n) addr memory = memory addr + 256 * read_le n (suc addr) memory

-- `enum vhd_bdev_io_type`
pub data IoType : Type 0 where
  read_io write_io discard_io write_zeroes_io : IoType

-- `enum vhd_bdev_io_result`
pub data IoResult : Type 0 where
  success ioerr canceled : IoResult

-- `struct virtio_blk_io` with the `struct vhd_bdev_io` in it.
pub record BlkIo : Type 0 where
  pub iov : Iov
  pub type : IoType
  pub first_sector : ℕ
  pub total_sectors : ℕ
  pub sglist : List Buffer

-- A queue at work: the memory, the requests that the backend has, and those whose buffers were
-- given back to virtio_free_iov.
pub record BlkQueue : Type 0 where
  pub vq : Virtq
  pub memory : Memory
  pub submitted : List BlkIo
  pub freed : List Iov

abbrev pub sector_size : ℕ
sector_size = 512

abbrev pub t_in : ℕ
t_in = 0

abbrev pub t_out : ℕ
t_out = 1

abbrev pub t_get_id : ℕ
t_get_id = 8

abbrev pub t_discard : ℕ
t_discard = 11

abbrev pub t_write_zeroes : ℕ
t_write_zeroes = 13

abbrev pub s_ok : ℕ
s_ok = 0

abbrev pub s_ioerr : ℕ
s_ioerr = 1

abbrev pub s_unsupp : ℕ
s_unsupp = 2

unfoldable pub iov_size : List Buffer → ℕ
iov_size [] = 0
iov_size (b ∷ bs) = add64 b.len (iov_size bs)

pub translate_status : IoResult → ℕ
translate_status success = s_ok
translate_status ioerr = s_ioerr
translate_status canceled = s_ioerr

abbrev pub null_buffer : Buffer
null_buffer = record { base = 0; len = 0; write_only = false }

abbrev pub last_buffer : List Buffer → Buffer
last_buffer bs = get_or bs (length bs - 1) null_buffer

pub set_status : Iov → ℕ → Memory → Memory
set_status iov status memory = write_byte (last_buffer iov.iov_in).base status memory

-- virtio_free_iov: the reference to the memory map that it drops is memmap_unref's.
abbrev pub free_iov : BlkQueue → Iov → BlkQueue
free_iov q iov = record q { freed = iov ∷ q.freed }

-- `len` of virtq_push is of 32 bits. `none` is a failed assertion of the log.
pub complete_req : BlkQueue → Iov → ℕ → Option BlkQueue
complete_req q iov status =
    Option.map (λ vq. free_iov (record q { vq = vq; memory = set_status iov status q.memory }) iov)
      (virtq_push q.vq iov (iov_size iov.iov_in % 2 ^ 32))

-- abort_request of virtio/virt_queue.c
pub abort_request : BlkQueue → Iov → Option BlkQueue
abort_request q iov = Option.map (λ vq. free_iov (record q { vq = vq }) iov) (virtq_push q.vq iov 0)

-- complete_io, for a request that leaves the backend with a result.
pub complete_io : BlkQueue → BlkIo → IoResult → Option BlkQueue
complete_io q bio canceled = some (free_iov q bio.iov)
complete_io q bio success = complete_req q bio.iov (translate_status success)
complete_io q bio ioerr = complete_req q bio.iov (translate_status ioerr)

unfoldable pub is_valid_block_range_req : ℕ → ℕ → ℕ → Bool
is_valid_block_range_req sector nsectors capacity =
    not (ltb capacity nsectors || ltb (capacity - nsectors) sector)

unfoldable pub is_valid_req : ℕ → ℕ → ℕ → Bool
is_valid_req sector len capacity =
    not (len == 0)
    && (not (not (len % sector_size == 0))
        && is_valid_block_range_req sector (len / sector_size) capacity)

-- `strncpy(dst, src, n)`: the rest of the `n` bytes is cleared.
pub strncpy : ℕ → List ℕ → ℕ → Memory → Memory
strncpy dst src zero memory = memory
strncpy dst [] (suc n) memory = strncpy (suc dst) [] n (write_byte dst 0 memory)
strncpy dst (c ∷ src) (suc n) memory = strncpy (suc dst) src n (write_byte dst c memory)

abbrev pub serial_of : Dev → List ℕ
serial_of dev = elim dev.serial [ none ↦ [] | some s ↦ s ]

-- The status and the memory.
pub handle_getid : Dev → Iov → Memory → ℕ × Memory
handle_getid dev iov memory =
    let id_buf = get_or iov.iov_in 0 null_buffer in
    if not (length iov.iov_in == 2)
    then (s_ioerr, memory)
    else if not (id_buf.len == 20)
    then (s_ioerr, memory)
    else (s_ok, strncpy id_buf.base (serial_of dev) id_buf.len memory)

pub complete_getid : BlkQueue → Iov → ℕ × Memory → Option BlkQueue
complete_getid q iov (status, memory) = complete_req (record q { memory = memory }) iov status

pub dev_supports_req : Dev → ℕ → Bool
dev_supports_req dev type =
    if (type == t_in) || (type == t_out) || (type == t_get_id)
    then true
    else if type == t_discard
    then has_feature dev f_discard
    else if type == t_write_zeroes
    then has_feature dev f_write_zeroes
    else false

-- The moments at which the driver may have changed the shared memory: after handle_buffers has
-- read the type of a request, and after handle_inout has checked its sector.
pub data Moment : Type 0 where
  type_read sector_checked : Moment

-- The `struct vhd_bdev_io` of a read or write, and of a discard or write-zeroes request.
abbrev pub inout_io : Iov → IoType → List Buffer → ℕ → BlkIo
inout_io iov io_type pdata sector = record {
  iov = iov;
  type = io_type;
  first_sector = sector;
  total_sectors = iov_size pdata / sector_size;
  sglist = pdata;
}

abbrev pub segment_io : Iov → Bool → ℕ → ℕ → BlkIo
segment_io iov is_discard sector num_sectors = record {
  iov = iov;
  type = if is_discard then discard_io else write_zeroes_io;
  first_sector = sector;
  total_sectors = num_sectors;
  sglist = [];
}

module _ (driver : Moment → Memory → Memory) (handle_request : Virtq → BlkIo → ℕ) where
  abbrev pub driver_runs : Moment → BlkQueue → BlkQueue
  driver_runs moment q = record q { memory = driver moment q.memory }

  -- bio_submit, and the `fail_request` of its callers.
  pub submit_or_fail : BlkQueue → BlkIo → Option BlkQueue
  submit_or_fail q bio =
      if handle_request q.vq bio == 0
      then some (record q { submitted = bio ∷ q.submitted })
      else complete_req q bio.iov s_ioerr

  -- The part of handle_inout that both directions share; `req` is the address of the header,
  -- whose sector is read once for the check and once more for the backend.
  inout_checked : Dev → ℕ → IoType → List Buffer → BlkQueue → Iov → Option BlkQueue
  inout_checked dev req io_type pdata q iov =
      let q' = driver_runs sector_checked q in
      if not (is_valid_req (read_le 8 (req + 8) q.memory) (iov_size pdata) dev.config.capacity)
      then complete_req q iov s_ioerr
      else submit_or_fail q' (inout_io iov io_type pdata (read_le 8 (req + 8) q'.memory))

  pub handle_inout : Dev → ℕ → BlkQueue → Iov → Option BlkQueue
  unfolding inout_checked
  handle_inout dev req q iov =
      if read_le 4 req q.memory == t_in
      then inout_checked dev req read_io (take (length iov.iov_in - 1) iov.iov_in) q iov
      else if is_readonly dev
      then complete_req q iov s_ioerr
      else inout_checked dev req write_io (drop 1 iov.iov_out) q iov

  -- The checks on the one segment of a discard or write-zeroes request.
  pub is_valid_segment : Dev → Bool → ℕ → ℕ → Bool
  is_valid_segment dev is_discard sector num_sectors =
      is_valid_block_range_req sector num_sectors dev.config.capacity
      && (if is_discard
          then is_aligned num_sectors dev.config.discard_sector_alignment
            && is_aligned sector dev.config.discard_sector_alignment
            && not (ltb dev.config.max_discard_sectors num_sectors)
          else not (ltb dev.config.max_write_zeroes_sectors num_sectors))

  pub handle_discard_or_write_zeroes : Dev → Bool → BlkQueue → Iov → Option BlkQueue
  handle_discard_or_write_zeroes dev is_discard q iov =
      let seg = get_or iov.iov_out 1 null_buffer in
      let sector = read_le 8 seg.base q.memory in
      let num_sectors = read_le 4 (seg.base + 8) q.memory in
      if is_readonly dev || not (length iov.iov_out == 2) || not (seg.len == 16)
      then complete_req q iov s_ioerr
      else if not (is_valid_segment dev is_discard sector num_sectors)
      then complete_req q iov s_ioerr
      else submit_or_fail q (segment_io iov is_discard sector num_sectors)

  -- The request by its type, which was read before the driver had its chance.
  pub dispatch : Dev → ℕ → ℕ → BlkQueue → Iov → Option BlkQueue
  dispatch dev type req q iov =
      if not (dev_supports_req dev type)
      then complete_req q iov s_unsupp
      else if (type == t_in) || (type == t_out)
      then handle_inout dev req q iov
      else if type == t_get_id
      then complete_getid q iov (handle_getid dev iov q.memory)
      else handle_discard_or_write_zeroes dev (type == t_discard) q iov

  pub handle_buffers : Dev → BlkQueue → Iov → Option BlkQueue
  handle_buffers dev q iov =
      let header = get_or iov.iov_out 0 null_buffer in
      let type = read_le 4 header.base q.memory in
      if (length iov.iov_in == 0) || not ((last_buffer iov.iov_in).len == 1)
      then abort_request q iov
      else if (length iov.iov_out == 0) || not (header.len == 16)
      then abort_request q iov
      else dispatch dev type header.base (driver_runs type_read q) iov
