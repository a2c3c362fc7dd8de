-- ===== src/Server/Tests.antt =====
-- The theorems about server.c at concrete inputs.
use yc_libvhost_server.Base.{◌≡◌, refl, true, some, arith}
use yc_libvhost_server.Blk.Requests.{success}
use yc_libvhost_server.Server.{Rq, create_request_queue, enqueue_request, rq_complete_bh}
use yc_libvhost_server.Server.Order.{enqueues, Reach, here, next, Reach-IsTracked}
use yc_libvhost_server.Server.Rounds.{Reported, rq_complete_bh-Reported}
use yc_libvhost_server.Server.Sums.{sum}
use yc_libvhost_server.Server.Tracked.{IsTracked}

-- A queue of one vring, and requests that succeed.
abbrev new_queue : Rq
new_queue =
    create_request_queue (λ id. record { status = success; vring = 0; ts = 0 })
      (λ v. record {
        num_in_flight = 0;
        num_in_flight_at_stop = 0;
        started_in_rq = true;
        drained = 0;
      })

new_queue-IsTracked : IsTracked new_queue
unfolding sum create_request_queue
new_queue-IsTracked = record {
  once = λ a. omega arith;
  handed_out = λ a. omega arith;
  awaited = λ h. absurd (omega arith);
  flying = λ v. refl;
  entered = refl;
  dispatched = refl;
  received = refl;
}

-- Request 7 came.
abbrev with_request : Rq
with_request = enqueue_request 7 new_queue

with_request-Reach : Reach new_queue with_request
unfolding sum create_request_queue
with_request-Reach = next here (enqueues new_queue 7 refl)

Reach-IsTracked_example : IsTracked with_request
Reach-IsTracked_example = Reach-IsTracked with_request-Reach new_queue-IsTracked

rq_complete_bh-Reported_example :
    (rq' : Rq) × (rq_complete_bh with_request ≡ some rq') × Reported with_request rq'
rq_complete_bh-Reported_example =
    rq_complete_bh-Reported with_request (Reach-IsTracked with_request-Reach new_queue-IsTracked)
