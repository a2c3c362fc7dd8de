-- ===== src/Server/Refinement.antt =====
-- The operations of server.c do to a request queue what its users expect of them.
use yc_libvhost_server.Base.{ℕ, ◌≤◌, ◌≡◌, List, ◌++◌}
use yc_libvhost_server.Server.{Rq}
use yc_libvhost_server.Server.Order.{Requests, of_vring, of_others, all_canceled}
use yc_libvhost_server.Server.Rounds.{outcomes}
use yc_libvhost_server.Server.Sums.{occurrences}

-- What the loop over the submission list leaves, when it has passed `passed`.
record Dropped (v : ℕ) (passed ids : List ℕ) (rq rq' : Rq) : Type 0 where
  waiting_left : rq'.submission ≡ passed ++ of_others rq.io v ids
  same_inflight : rq'.inflight ≡ rq.inflight
  same_completion : rq'.completion ≡ rq.completion
  same_done :
      (xs : List ℕ)
      → ((a : ℕ) → occurrences a xs ≤ occurrences a rq.completion)
      → outcomes rq'.io xs ≡ outcomes rq.io xs
  tells : rq'.reported ≡ rq.reported ++ all_canceled (of_vring rq.io v ids)
