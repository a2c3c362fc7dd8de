-- ===== src/Server.antt =====
-- Request queues: server.c and bio.h. A request is known by a number, and the three lists that
-- link it hold the number, since a request in flight is also on the list of completions.
mod Tests
pub mod Sums
pub mod Tracked
pub mod Rounds
pub mod Order
pub mod Refinement
use mathlib.Core.Option
use yc_libvhost_server.Base.{
  ◌==◌, if◌then◌else◌, reverse_onto, add64, ℕ, Bool, true, false, ◌&&◌, ◌||◌, Option, none, some,
  List, [], ◌∷◌, ◌++◌,
}
use yc_libvhost_server.Blk.Requests.{IoResult, canceled}
use yc_libvhost_server.Vdev.Flight.{Flight, inc_in_flight, dec_in_flight}

-- `struct vhd_io`
pub record Io : Type 0 where
  pub status : IoResult
  pub vring : ℕ
  pub ts : ℕ

-- `struct vhd_rq_metrics`
pub record RqMetrics : Type 0 where
  pub enqueued : ℕ
  pub dequeued : ℕ
  pub completions_received : ℕ
  pub completed : ℕ
  pub cancelled : ℕ
  pub oldest_inflight_ts : ℕ

-- `struct vhd_request_queue`, with the requests and the vrings that it works on. `bh_scheduled`
-- is the state of `completion_bh`, and `reported` lists the calls of completion handlers, each
-- with the status that its request had.
pub record Rq : Type 0 where
  pub submission : List ℕ
  pub inflight : List ℕ
  pub completion : List ℕ
  pub bh_scheduled : Bool
  pub metrics : RqMetrics
  pub io : ℕ → Io
  pub vring : ℕ → Flight
  pub reported : List (ℕ × IoResult)

abbrev pub put {ℓ} : {A : Type ℓ} → ℕ → A → (ℕ → A) → ℕ → A
put i a f = λ j. if j == i then a else f j

-- Whether a list links an element, and the list without it.
unfoldable pub linked : ℕ → List ℕ → Bool
linked id [] = false
linked id (x ∷ xs) = (x == id) || linked id xs

pub remove : ℕ → List ℕ → List ℕ
remove id [] = []
remove id (x ∷ xs) = if x == id then xs else x ∷ remove id xs

pub create_request_queue : (ℕ → Io) → (ℕ → Flight) → Rq
create_request_queue io vring = record {
  submission = [];
  inflight = [];
  completion = [];
  bh_scheduled = false;
  metrics = record {
    enqueued = 0;
    dequeued = 0;
    completions_received = 0;
    completed = 0;
    cancelled = 0;
    oldest_inflight_ts = 0;
  };
  io = io;
  vring = vring;
  reported = [];
}

abbrev pub is_empty : List ℕ → Bool
is_empty [] = true
is_empty (x ∷ xs) = false

-- The three assertions of vhd_release_request_queue.
abbrev pub can_release : Rq → Bool
can_release rq = is_empty rq.submission && is_empty rq.inflight && is_empty rq.completion

abbrev pub enqueue_request : ℕ → Rq → Rq
enqueue_request id rq = record rq {
  vring = put (rq.io id).vring (inc_in_flight (rq.vring (rq.io id).vring)) rq.vring;
  submission = rq.submission ++ id ∷ [];
  metrics = record (rq.metrics) { enqueued = add64 rq.metrics.enqueued 1 };
}

-- The first request moves to the end of those in flight, at the time `now`.
abbrev pub dispatch_first : ℕ → ℕ → List ℕ → Rq → Rq
dispatch_first now id rest rq = record rq {
  submission = rest;
  io = put id (record (rq.io id) { ts = now }) rq.io;
  inflight = rq.inflight ++ id ∷ [];
  metrics = record (rq.metrics) {
    oldest_inflight_ts =
        if rq.metrics.oldest_inflight_ts == 0 then now else rq.metrics.oldest_inflight_ts;
    dequeued = add64 rq.metrics.dequeued 1;
  };
}

-- What vhd_dequeue_request returns is `none` for false, or the request that it puts in `out_req`.
dequeue_from : ℕ → List ℕ → Rq → Rq × Option ℕ
dequeue_from now [] rq = (rq, none)
dequeue_from now (id ∷ rest) rq = (dispatch_first now id rest rq, some id)

pub dequeue_request : ℕ → Rq → Rq × Option ℕ
dequeue_request now rq = dequeue_from now rq.submission rq

-- The completion handler frees the request, so its vring is read before.
abbrev pub req_complete : ℕ → Rq → Rq
req_complete id rq = record rq {
  reported = rq.reported ++ (id, (rq.io id).status) ∷ [];
  vring = put (rq.io id).vring (dec_in_flight (rq.vring (rq.io id).vring)) rq.vring;
}

abbrev pub set_status : ℕ → IoResult → Rq → Rq
set_status id result rq = record rq { io = put id (record (rq.io id) { status = result }) rq.io }

abbrev pub cancel_one : ℕ → Rq → Rq
cancel_one id rq =
    let rq' =
      req_complete id
        (set_status id canceled (record rq { submission = remove id rq.submission })) in
    record rq' { metrics = record (rq'.metrics) { cancelled = add64 rq'.metrics.cancelled 1 } }

-- The loop over the elements that the submission list had.
pub cancel_loop : ℕ → List ℕ → Rq → Rq
cancel_loop vring [] rq = rq
cancel_loop vring (id ∷ ids) rq =
    cancel_loop vring ids (if (rq.io id).vring == vring then cancel_one id rq else rq)

abbrev pub cancel_queued_requests : ℕ → Rq → Rq
cancel_queued_requests vring rq = cancel_loop vring rq.submission rq

-- The bottom half is scheduled by the first completion on an empty list only.
abbrev pub complete_bio : ℕ → IoResult → Rq → Rq
complete_bio id result rq = record rq' {
  completion = id ∷ rq.completion;
  bh_scheduled = if is_empty rq.completion then true else rq.bh_scheduled;
  metrics = record (rq.metrics) { completions_received = add64 rq.metrics.completions_received 1 };
}
  where
    rq' : Rq
    rq' = set_status id result rq

abbrev pub complete_one : ℕ → Rq → Rq
complete_one id rq =
    let rq' = req_complete id (record rq { inflight = remove id rq.inflight }) in
    record rq' { metrics = record (rq'.metrics) { completed = add64 rq'.metrics.completed 1 } }

-- `none` where TAILQ_REMOVE would unlink a request that is not in flight.
pub complete_all : List ℕ → Rq → Option Rq
complete_all [] rq = some rq
complete_all (id ∷ ids) rq =
    let rest = complete_all ids (complete_one id rq) in if linked id rq.inflight then rest else none

pub oldest_ts : (ℕ → Io) → List ℕ → ℕ
oldest_ts io [] = 0
oldest_ts io (id ∷ ids) = (io id).ts

abbrev pub set_oldest : Rq → Rq
set_oldest rq = record rq {
  metrics = record (rq.metrics) { oldest_inflight_ts = oldest_ts rq.io rq.inflight };
}

-- The callback of `completion_bh`: the loop has cleared the flag, and the list, which was filled
-- from its front, is turned around.
pub rq_complete_bh : Rq → Option Rq
rq_complete_bh rq = Option.map set_oldest (
    complete_all (reverse_onto rq.completion [])
      (record rq { completion = []; bh_scheduled = false }))

abbrev pub get_rq_stat : Rq → RqMetrics
get_rq_stat rq = rq.metrics
