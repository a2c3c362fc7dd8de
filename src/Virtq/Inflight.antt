-- ===== src/Virtq/Inflight.antt =====
-- The inflight region of virtio/virt_queue.c: shared memory that says, after a restart of the
-- server, which requests were fetched and not completed.
pub mod Recovery
pub mod Resubmission
use mathlib.Core.Option
use yc_libvhost_server.Base.{
  ltb, ◌==◌, if◌then◌else◌, get_or, set, sub16, add64, ℕ, zero, suc, ◌+◌, max, true, false, ◌||◌,
  Option, none, some, List, [], ◌∷◌,
}
use yc_libvhost_server.Virtq.Types.{InflightDesc, InflightRegion, Buffer, Metrics, Virtq}

abbrev pub no_desc : InflightDesc
no_desc = record { inflight = 0; next = 0; counter = 0 }

abbrev pub desc_at : InflightRegion → ℕ → InflightDesc
desc_at r head = get_or r.desc head no_desc

-- A store to one descriptor of the region.
abbrev pub update_desc : InflightRegion → ℕ → (InflightDesc → InflightDesc) → InflightRegion
update_desc r head f = record r { desc = set r.desc head (f (desc_at r head)) }

-- The stores, one at a time: between two of them the server may die.
unfoldable pub set_counter : ℕ → ℕ → InflightRegion → InflightRegion
set_counter head counter r = update_desc r head (λ d. record d { counter = counter })

unfoldable pub set_inflight : ℕ → ℕ → InflightRegion → InflightRegion
set_inflight head flag r = update_desc r head (λ d. record d { inflight = flag })

unfoldable pub set_next : ℕ → InflightRegion → InflightRegion
set_next head r = update_desc r head (λ d. record d { next = r.last_batch_head })

unfoldable pub set_last_batch_head : ℕ → InflightRegion → InflightRegion
set_last_batch_head head r = record r { last_batch_head = head }

unfoldable pub set_used_idx : ℕ → InflightRegion → InflightRegion
set_used_idx idx r = record r { used_idx = idx }

-- virtq_inflight_avail_update; `req_cnt` is a `uint64_t`.
unfoldable pub inflight_avail_update : Virtq → ℕ → Virtq
inflight_avail_update vq head = elim vq.inflight_region [
  | none ↦ vq
  | some r ↦ record vq {
    inflight_region = some (set_inflight head 1 (set_counter head vq.req_cnt r));
    req_cnt = add64 vq.req_cnt 1;
  }
]

-- virtq_inflight_used_update
unfoldable pub inflight_used_update : Virtq → ℕ → Virtq
inflight_used_update vq head = elim vq.inflight_region [
  | none ↦ vq
  | some r ↦ record vq { inflight_region = some (set_last_batch_head head (set_next head r)) }
]

-- virtq_inflight_used_commit
unfoldable pub inflight_used_commit : Virtq → ℕ → Virtq
inflight_used_commit vq head = elim vq.inflight_region [
  | none ↦ vq
  | some r ↦ record vq { inflight_region = some (set_used_idx vq.used.idx (set_inflight head 0 r)) }
]

-- The largest counter of the first `n` descriptors from `idx` on, or `cnt` if that is larger.
pub max_counter : ℕ → ℕ → InflightRegion → ℕ → ℕ
max_counter zero idx r cnt = cnt
max_counter (suc n) idx r cnt =
    max_counter n (suc idx) r
      (if ltb cnt (desc_at r idx).counter then (desc_at r idx).counter else cnt)

-- `while (batch_size)`: clear the descriptors of the batch along their `next` links.
pub clear_batch : ℕ → ℕ → InflightRegion → InflightRegion
clear_batch zero idx r = r
clear_batch (suc batch_size) idx r =
    let r' = set_inflight idx 0 r in clear_batch batch_size (desc_at r' idx).next r'

-- The batch that was completed in the used ring but not in the region: at most one request, since
-- there is no batching. `none` is the failed assertion.
fix_batch : ℕ → ℕ → InflightRegion → Option InflightRegion
fix_batch cnt used_idx r =
    let batch_size = sub16 used_idx r.used_idx in
    if (cnt == 0) || (batch_size == 0)
    then some r
    else if batch_size == 1
    then some (clear_batch batch_size r.last_batch_head r)
    else none

-- virtq_inflight_reconnect_update
pub inflight_reconnect_update : Virtq → Option Virtq
unfolding fix_batch
inflight_reconnect_update vq = elim vq.inflight_region [
  | none ↦ some (record vq { req_cnt = 0 })
  | some r ↦
      let cnt = max_counter r.desc_num 0 r 0 in
      Option.map
        (λ r'. record vq {
          req_cnt = add64 cnt 1;
          inflight_region = some (set_used_idx vq.used.idx r');
        })
        (fix_batch cnt vq.used.idx r)
]

-- WINDOWS_CHAIN_LEN_MAX
abbrev pub windows_chain_len_max : ℕ
windows_chain_len_max = 512 + 3

abbrev pub no_metrics : Metrics
no_metrics = record {
  dispatch_total = 0;
  dispatch_empty = 0;
  request_total = 0;
  request_completed = 0;
  queue_len_last = 0;
  queue_len_max_60s = 0;
}

abbrev pub zero_buffers : ℕ → List Buffer
zero_buffers zero = []
zero_buffers (suc n) = record { base = 0; len = 0; write_only = false } ∷ zero_buffers n

-- virtio_virtq_reset_stat
reset_stat : Virtq → Virtq
reset_stat vq = record vq { metrics = no_metrics; period_start_ts = 0 }

-- virtio_virtq_init, for a queue with no buffers yet.
pub virtq_init : Virtq → Option Virtq
unfolding reset_stat
virtq_init vq =
    let len = max vq.qsz windows_chain_len_max in
    Option.map reset_stat (
      inflight_reconnect_update (record vq {
        max_chain_len = len;
        scratch = record (vq.scratch) { buffers = zero_buffers len };
        inflight_check = true;
      }))

-- `struct inflight_resubmit`
pub record Resubmit : Type 0 where
  pub counter : ℕ
  pub head : ℕ

-- The loop that collects the descriptors in flight.
pub collect : ℕ → ℕ → InflightRegion → List Resubmit
collect zero i r = []
collect (suc n) i r =
    let rest = collect n (suc i) r in
    if (desc_at r i).inflight == 0
    then rest
    else record { counter = (desc_at r i).counter; head = i } ∷ rest

-- `qsort` with inflight_resubmit_compare: by counter.
pub insert_by_counter : Resubmit → List Resubmit → List Resubmit
insert_by_counter x [] = x ∷ []
insert_by_counter x (y ∷ ys) =
    if ltb x.counter y.counter then x ∷ y ∷ ys else y ∷ insert_by_counter x ys

pub sort_by_counter : List Resubmit → List Resubmit
sort_by_counter [] = []
sort_by_counter (x ∷ xs) = insert_by_counter x (sort_by_counter xs)

-- The requests to submit again, in order.
pub resubmit_array : InflightRegion → List Resubmit
resubmit_array r = sort_by_counter (collect r.desc_num 0 r)
