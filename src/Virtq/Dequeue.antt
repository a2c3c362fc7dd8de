-- ===== src/Virtq/Dequeue.antt =====
-- Taking requests from the available ring: virtq_dequeue_one, virtq_inflight_resubmit and
-- virtq_dequeue_many of virtio/virt_queue.c. The state `S` is the rest of the world, which the
-- driver and the handler of the requests change: `read` is what a descriptor's memory holds in
-- it, and `handle` is the callback of the device.
pub mod Order
pub mod Batch
pub mod Resubmitted
pub mod Unmarked
pub mod Errors
use yc_libvhost_server.Base.{
  ltb, leb, ◌==◌, if◌then◌else◌, get_or, add16, sub16, add64, Errno, erange, eoverflow, enodev, ok,
  err, ℕ, zero, suc, ◌+◌, ◌%◌, max, Bool, true, false, Option, none, some, List, [], ◌∷◌,
}
use yc_libvhost_server.Virtq.Chain.{Walk, walk_chain, clone_iov}
use yc_libvhost_server.Virtq.Inflight.{inflight_avail_update, Resubmit, resubmit_array}
use yc_libvhost_server.Virtq.Types.{Desc, InflightRegion, Scratch, Iov, Virtq}

-- What a dequeue leaves: its error, if any, the queue and the rest of the world.
pub record Dequeued (S : Type 0) : Type 0 where
  pub res : Option Errno
  pub vq : Virtq
  pub state : S

-- mark_broken
pub mark_broken : Virtq → Virtq
mark_broken vq = record vq { broken = true }

-- The first step of the period of the metrics, if the old one is over; `now` is in seconds.
start_period : ℕ → Virtq → Virtq
start_period now vq =
    if ltb (vq.period_start_ts + 60) now
    then record vq {
      period_start_ts = now;
      metrics = record (vq.metrics) { queue_len_max_60s = 0 };
    }
    else vq

count_dispatch : Virtq → Virtq
count_dispatch vq = record vq {
  metrics = record (vq.metrics) { dispatch_total = add64 vq.metrics.dispatch_total 1 };
}

count_empty : Virtq → Virtq
count_empty vq = record vq {
  metrics = record (vq.metrics) { dispatch_empty = add64 vq.metrics.dispatch_empty 1 };
}

pub count_request : Virtq → Virtq
count_request vq = record vq {
  metrics = record (vq.metrics) { request_total = add64 vq.metrics.request_total 1 };
}

note_length : ℕ → Virtq → Virtq
note_length num_avail vq = record vq {
  metrics = record (vq.metrics) {
    queue_len_last = num_avail;
    queue_len_max_60s = max num_avail vq.metrics.queue_len_max_60s;
  };
}

-- The loop that writes `avail_event` and reads `idx` until it has not moved; `later` is what the
-- reads give, after which the driver rests.
settle : List ℕ → ℕ → ℕ
settle [] avail = avail
settle (avail2 ∷ later) avail = if avail2 == avail then avail else settle later avail2

pub poll_avail : List ℕ → Virtq → Virtq
unfolding settle
poll_avail later vq =
    if vq.has_event_idx
    then record vq {
      avail = record (vq.avail) { idx = settle later vq.avail.idx };
      used = record (vq.used) { avail_event = settle later vq.avail.idx };
    }
    else vq

-- From the check of the requests in flight to the loop: the metrics, and the read of the index.
pub prepare : ℕ → List ℕ → Virtq → Virtq
unfolding start_period count_dispatch
prepare now later vq =
    poll_avail later (count_dispatch (start_period now (record vq { inflight_check = false })))

module _ {S : Type 0} (read : S → ℕ → Desc) (handle : Virtq → S → Iov → Virtq × S) where
  done : Virtq → S → Option (Dequeued S)
  done vq s = some (record { res = none; vq = vq; state = s })

  -- After the handler: `last_avail++`.
  advance : Virtq × S → Dequeued S
  advance (vq, s) = record {
    res = none;
    vq = record vq { last_avail = add16 vq.last_avail 1 };
    state = s;
  }

  -- The request of a walked chain goes to the handler. The reference that it takes to the memory
  -- map is memmap_ref's.
  deliver : Bool → ℕ → Virtq → S → Walk (ℕ × Scratch) → Option (Dequeued S)
  unfolding advance
  deliver resubmit head vq s none = none
  deliver resubmit head vq s (some (err e)) = some (record { res = some e; vq = vq; state = s })
  deliver resubmit head vq s (some (ok (chain_len, sc))) =
      let vq1 = record vq { scratch = sc } in
      let vq2 = if resubmit then vq1 else inflight_avail_update vq1 head in
      some (advance (handle vq2 s (clone_iov sc head vq.mm)))

  pub dequeue_one : Bool → ℕ → Virtq → S → Option (Dequeued S)
  unfolding deliver
  dequeue_one resubmit head vq s =
      deliver resubmit head vq s
        (walk_chain (read s) vq.mm vq.max_chain_len vq.desc vq.qsz head vq.scratch.buffers)

  -- `if (res) break;`
  unless_failed : Option (Dequeued S) → (Virtq → S → Option (Dequeued S)) → Option (Dequeued S)
  unless_failed none next = none
  unless_failed (some d) next = elim d.res [ none ↦ next d.vq d.state | some e ↦ some d ]

  -- The loop of virtq_inflight_resubmit.
  resubmit_all : List Resubmit → Virtq → S → Option (Dequeued S)
  unfolding unless_failed done
  resubmit_all [] vq s = done vq s
  resubmit_all (x ∷ xs) vq s =
      if leb vq.qsz x.head
      then some (record { res = some erange; vq = vq; state = s })
      else unless_failed (dequeue_one true x.head vq s) (resubmit_all xs)

  resubmit_in : Option InflightRegion → Virtq → S → Option (Dequeued S)
  unfolding resubmit_all done
  resubmit_in none vq s = done vq s
  resubmit_in (some r) vq s = resubmit_all (resubmit_array r) vq s

  pub inflight_resubmit : Virtq → S → Option (Dequeued S)
  unfolding resubmit_in
  inflight_resubmit vq s = resubmit_in vq.inflight_region vq s

  -- `if (res) goto queue_broken;`
  pub unless_broken : Option (Dequeued S) → (Virtq → S → Option (Dequeued S)) → Option (Dequeued S)
  unless_broken none next = none
  unless_broken (some d) next = elim d.res [
    | none ↦ next d.vq d.state
    | some e ↦ some (record d { vq = mark_broken d.vq })
  ]

  -- The loop over the `num_avail` entries. A head out of range does not break the queue.
  pub serve : ℕ → Virtq → S → Option (Dequeued S)
  unfolding done
  serve zero vq s = done vq s
  serve (suc n) vq s =
      let head = get_or vq.avail.ring (vq.last_avail % vq.qsz) 0 in
      if leb vq.qsz head
      then some (record { res = some erange; vq = vq; state = s })
      else unless_broken (dequeue_one false head vq s) (λ vq' s'. serve n (count_request vq') s')

  -- The part of virtq_dequeue_many behind the read of the available index.
  serve_avail : Virtq → S → Option (Dequeued S)
  unfolding count_empty note_length done
  serve_avail vq s =
      let num_avail = sub16 vq.avail.idx vq.last_avail in
      if ltb vq.qsz num_avail
      then some (record { res = some eoverflow; vq = vq; state = s })
      else if num_avail == 0
      then done (count_empty vq) s
      else serve num_avail (note_length num_avail vq) s

  pub dequeue_many : ℕ → List ℕ → Virtq → S → Option (Dequeued S)
  unfolding serve_avail done
  dequeue_many now later vq s =
      if vq.broken
      then some (record { res = some enodev; vq = vq; state = s })
      else unless_broken (if vq.inflight_check then inflight_resubmit vq s else done vq s)
          (λ vq' s'. serve_avail (prepare now later vq') s')
