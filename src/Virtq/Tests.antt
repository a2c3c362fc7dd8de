-- ===== src/Virtq/Tests.antt =====
-- The theorems about virtio/virt_queue.c at concrete inputs.
use yc_libvhost_server.Base.{
  ltb, ◌==◌, if◌then◌else◌, Bool-cases, get_elem?, All, All-get_elem?, sub16, add64, ℕ, zero, suc,
  ◌+◌, ◌-◌, ◌*◌, ◌^◌, ◌≤◌, ◌<◌, ◌≡◌, refl, inl, inr, true, false, not, none, some, List, [], ◌∷◌,
  arith,
}
use yc_libvhost_server.Memmap.Region.{Region, Memmap}
use yc_libvhost_server.Memmap.Translate.{IsMapped}
use yc_libvhost_server.Virtq.Chain.{walk_chain}
use yc_libvhost_server.Virtq.Chain.Bounded.{Agree, walk_chain_same}
use yc_libvhost_server.Virtq.Chain.Shape.{IsScratch, Returns}
use yc_libvhost_server.Virtq.Chain.Walks.{walk_chain-Returns}
use yc_libvhost_server.Virtq.Dequeue.{prepare, dequeue_many}
use yc_libvhost_server.Virtq.Dequeue.Batch.{dequeue_many_lem}
use yc_libvhost_server.Virtq.Dequeue.Errors.{IsReported, dequeue_many-IsReported}
use yc_libvhost_server.Virtq.Dequeue.Order.{IsTraced, IsPrefixTaken}
use yc_libvhost_server.Virtq.Inflight.{desc_at, inflight_reconnect_update, no_metrics}
use yc_libvhost_server.Virtq.Inflight.Recovery.{IsUsedRegion, is_late, reconnect_recovers}
use yc_libvhost_server.Virtq.Push.{push_memory, virtq_push}
use yc_libvhost_server.Virtq.Push.Crash.{crashed, crashed-all, IsRecovered}
use yc_libvhost_server.Virtq.Push.Crash.Stages.{crashed-IsRecovered}
use yc_libvhost_server.Virtq.Push.Effects.{
  IsPushed, signals_for, virtq_push_lem, is_awaited, virtq_push-signals,
}
use yc_libvhost_server.Virtq.Types.{Desc, InflightRegion, Buffer, Iov, Virtq}

abbrev guest : Memmap
guest = record {
  ref = 1;
  callbacks = record { map_cb = 0; unmap_cb = 0 };
  regions =
      record {
        id = 0;
        gpa = 0x1000;
        uva = 0x7000;
        ptr = 0x20_0000;
        size = 0x4000;
        offset = 0;
        device = 1;
        inode = 2;
        callbacks = record { map_cb = 0; unmap_cb = 0 };
      }
      ∷ [];
}

guest-IsMapped : All IsMapped guest.regions
guest-IsMapped = (
  record {
    gpa_fits = omega arith;
    uva_fits = omega arith;
    ptr_fits = omega arith;
    size_fits = omega arith;
  },
  tt,
)

abbrev region : InflightRegion
region = record {
  version = 1;
  desc_num = 2;
  last_batch_head = 0;
  used_idx = 7;
  desc =
      record { inflight = 1; next = 0; counter = 5 }
      ∷ record { inflight = 1; next = 0; counter = 4 }
      ∷ [];
}

abbrev buffer : ℕ → Buffer
buffer base = record { base = base; len = 16; write_only = false }

abbrev queue : Virtq
queue = record {
  flags = 0;
  desc = 0x5000;
  avail = record { flags = 0; idx = 2; ring = 1 ∷ 0 ∷ []; used_event = 7 };
  used = record {
    idx = 7;
    ring = record { id = 0; len = 0 } ∷ record { id = 0; len = 0 } ∷ [];
    avail_event = 0;
  };
  used_gpa_base = 0x2000;
  qsz = 2;
  max_chain_len = 2;
  last_avail = 0;
  scratch = record { niov_out = 0; niov_in = 0; buffers = buffer 0 ∷ buffer 0 ∷ [] };
  broken = false;
  has_event_idx = true;
  notify_fd = some 9;
  enabled = true;
  req_cnt = 6;
  inflight_region = some region;
  inflight_check = false;
  mm = guest;
  log = none;
  metrics = no_metrics;
  period_start_ts = 0;
  signals = 3;
}

abbrev request : Iov
request = record { used_head = 1; mm = guest; iov_out = []; iov_in = buffer 0x20_0000 ∷ [] }

-- A driver whose descriptors all are one readable buffer.
abbrev plain_desc : ℕ → Desc
plain_desc addr = record { addr = 0x1800; len = 16; flags = 0; next = 0 }

-- A handler that notes the heads.
abbrev note : Virtq → List ℕ → Iov → Virtq × List ℕ
note vq heads iov = (vq, iov.used_head ∷ heads)

region-IsUsedRegion : IsUsedRegion region
region-IsUsedRegion = (0, omega arith, omega arith)

walk_chain-Returns_example :
    Returns
      (λ out. IsScratch guest 2 out.1 × (0 < out.1.niov_out + out.1.niov_in))
      (walk_chain plain_desc guest 2 0x5000 2 1 (buffer 0 ∷ buffer 0 ∷ []))
walk_chain-Returns_example =
    walk_chain-Returns guest 2 (omega arith) plain_desc (λ addr. omega arith) guest-IsMapped 0x5000
      2 1 (buffer 0 ∷ buffer 0 ∷ []) refl

-- Other descriptors outside of the ring and of the regions.
abbrev other_desc : ℕ → Desc
other_desc addr =
    if ltb addr 0x1000 then record { addr = 0; len = 0; flags = 7; next = 9 } else plain_desc addr

other_desc-high : (addr : ℕ) → 0x1000 ≤ addr → plain_desc addr ≡ other_desc addr
other_desc-high addr high = elim (Bool-cases (ltb addr 0x1000)) [
  | inl low ↦ absurd (ground arith)
  | inr e ↦ rw (e) refl
]

guest-high : (i : ℕ) (reg : Region) → get_elem? guest.regions i ≡ some reg → 0x1000 ≤ reg.ptr
guest-high i reg at =
    All-get_elem? (λ (r : Region). 0x1000 ≤ r.ptr) guest.regions i reg (omega arith, tt) at

plain-other-Agree : Agree guest 0x5000 2 plain_desc other_desc
plain-other-Agree = record {
  in_ring = λ i lt. other_desc-high (add64 0x5000 (16 * i)) (omega arith);
  in_regions =
      λ addr (i, reg, at, lo, hi). other_desc-high addr (omega (arith, guest-high i reg at));
}

walk_chain_same_example :
    walk_chain plain_desc guest 2 0x5000 2 1 (buffer 0 ∷ buffer 0 ∷ [])
    ≡ walk_chain other_desc guest 2 0x5000 2 1 (buffer 0 ∷ buffer 0 ∷ [])
walk_chain_same_example =
    walk_chain_same guest 2 0x5000 2 plain_desc other_desc plain-other-Agree (λ addr. omega arith)
      guest-IsMapped 1 (buffer 0 ∷ buffer 0 ∷ []) (omega arith)

-- The driver has seen the request of head 0, and the region still has its mark.
abbrev behind : Virtq
behind = record queue { used = record (queue.used) { idx = 8 } }

region-low : (j : ℕ) → j < 2 → (desc_at region j).counter < 2 ^ 64 - 1
region-low zero b = omega arith
region-low (suc zero) b = omega arith
region-low (suc (suc j)) b = absurd (omega arith)

reconnect_recovers_example :
    (vq' : Virtq) × (r' : InflightRegion) × (inflight_reconnect_update behind ≡ some vq')
    × (vq'.inflight_region ≡ some r')
    × (r'.used_idx ≡ 8)
    × ((j : ℕ) → j < 2 → (desc_at region j).counter < vq'.req_cnt)
    × ((j : ℕ)
        → j < 2
        → (desc_at r' j).inflight
          ≡ (if is_late behind region j then 0 else (desc_at region j).inflight))
reconnect_recovers_example =
    reconnect_recovers behind region refl region-IsUsedRegion refl (omega arith) region-low

crashed-all_example : crashed 6 1 16 queue ≡ push_memory queue 1 16
crashed-all_example = crashed-all queue 1 16

crashed-IsRecovered_example :
    IsRecovered 1 (not ((crashed 4 1 16 queue).used.idx == 7)) region (crashed 4 1 16 queue)
crashed-IsRecovered_example =
    crashed-IsRecovered queue region 1 16 4 refl region-IsUsedRegion refl (omega arith)
      (omega arith) (omega arith)

virtq_push_lem_example :
    (vq' : Virtq) × (virtq_push queue request 16 ≡ some vq') × IsPushed queue request 16 vq'
virtq_push_lem_example = virtq_push_lem queue request 16 refl

virtq_push-signals_example :
    (vq' : Virtq) × (virtq_push queue request 16 ≡ some vq')
    × (vq'.signals ≡ 3 + signals_for (some 9) (is_awaited queue 7))
virtq_push-signals_example = virtq_push-signals queue request 16 refl (omega arith)

note-IsTraced : IsTraced (λ heads. plain_desc) note (λ heads. heads)
note-IsTraced = record {
  keeps = λ vq heads iov. record {
    avail_of = refl;
    qsz_of = refl;
    mm_of = refl;
    last_of = refl;
    chain_of = refl;
    room_of = refl;
  };
  traces = λ vq heads iov. refl;
  words = λ heads addr. omega arith;
}

dequeue_many_lem_example :
    IsPrefixTaken
      (λ heads. plain_desc)
      note
      (λ heads. heads)
      (sub16 (prepare 100 [] queue).avail.idx 0)
      queue
      []
      (dequeue_many (λ heads. plain_desc) note 100 [] queue [])
dequeue_many_lem_example =
    dequeue_many_lem (λ heads. plain_desc) note (λ heads. heads) 100 [] queue [] note-IsTraced
      (refl, omega arith, omega arith, guest-IsMapped) refl refl

-- A queue whose first head is past the ring.
abbrev bad_queue : Virtq
bad_queue = record queue { avail = record (queue.avail) { ring = 5 ∷ 0 ∷ [] } }

dequeue_many-IsReported_example :
    IsReported false (dequeue_many (λ heads. plain_desc) note 100 [] bad_queue [])
dequeue_many-IsReported_example =
    dequeue_many-IsReported (λ heads. plain_desc) note (λ heads. heads) note-IsTraced
      (λ vq heads iov. refl) 100 [] bad_queue [] (refl, omega arith, omega arith, guest-IsMapped)
      refl
