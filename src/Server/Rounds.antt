-- ===== src/Server/Rounds.antt =====
-- The two loops of server.c: over the requests that were completed, and over those that a
-- stopping vring cancels.
use mathlib.Core.Option
use yc_libvhost_server.Base.{
  ◌==◌, Bool-cases, length, reverse_onto, append-[], append-snoc, ℕ, suc, ◌≤◌, ◌<◌, ◌≡◌, refl, sym,
  ap, ◌∙◌, inl, inr, false, some, List, [], ◌∷◌, ◌++◌, arith,
}
use yc_libvhost_server.Blk.Requests.{IoResult, canceled}
use yc_libvhost_server.Server.{
  Io, Rq, put, remove, set_status, cancel_one, cancel_loop, cancel_queued_requests, complete_one,
  complete_all, oldest_ts, set_oldest, rq_complete_bh,
}
use yc_libvhost_server.Server.Sums.{
  sum, one_if, occurrences, sum-reverse_onto, sum-one, sum-remove, occurrences-remove,
  linked-occurrences, remove_all,
}
use yc_libvhost_server.Server.Tracked.{
  owner, IsTracked, put_vring, load_put, dec_num, put_num, between, complete_one-IsTracked,
}
use yc_libvhost_server.Vdev.Flight.{dec_in_flight}

-- What the completion handlers of these requests see.
abbrev pub outcomes : (ℕ → Io) → List ℕ → List (ℕ × IoResult)
outcomes io [] = []
outcomes io (id ∷ ids) = (id, (io id).status) ∷ outcomes io ids

-- What the loop over completed requests leaves.
pub record Completed (ids : List ℕ) (rq rq' : Rq) : Type 0 where
  pub tracked : IsTracked (between [] rq')
  pub same_completion : rq'.completion ≡ rq.completion
  pub same_bh : rq'.bh_scheduled ≡ rq.bh_scheduled
  pub same_submission : rq'.submission ≡ rq.submission
  pub unlinks : rq'.inflight ≡ remove_all ids rq.inflight
  pub same_io : rq'.io ≡ rq.io
  pub reports : rq'.reported ≡ rq.reported ++ outcomes rq.io ids

pub complete_all_lem :
    (ids : List ℕ) (rq : Rq)
    → IsTracked (between ids rq)
    → (rq' : Rq) × (complete_all ids rq ≡ some rq') × Completed ids rq rq'
unfolding complete_all remove_all
complete_all_lem [] rq t = (
  rq,
  refl,
  record {
    tracked = t;
    same_completion = refl;
    same_bh = refl;
    same_submission = refl;
    unlinks = refl;
    same_io = refl;
    reports = sym (append-[] rq.reported);
  },
)
complete_all_lem (id ∷ ids) rq t =
    let (held, t') = complete_one-IsTracked id ids rq t in
    let (rq', e, c) = complete_all_lem ids (complete_one id rq) t' in
    (
      rq',
      rw (linked-occurrences id rq.inflight held) e,
      record {
        tracked = c.tracked;
        same_completion = c.same_completion;
        same_bh = c.same_bh;
        same_submission = c.same_submission;
        unlinks = c.unlinks;
        same_io = c.same_io;
        reports = c.reports ∙ append-snoc rq.reported (id, (rq.io id).status) (outcomes rq.io ids);
      },
    )

turned-IsTracked : (rq : Rq) → IsTracked rq → IsTracked (between (reverse_onto rq.completion []) rq)
unfolding sum
turned-IsTracked rq t = record {
  once = t.once;
  handed_out =
      λ a. omega (arith, t.handed_out a, sum-reverse_onto (λ x. one_if x a) rq.completion []);
  awaited = λ _. refl;
  flying = t.flying;
  entered = t.entered;
  dispatched = t.dispatched;
  received = omega (
    arith,
    t.received,
    sum-reverse_onto (λ x. 1) rq.completion [],
    sum-one rq.completion,
    sum-one (reverse_onto rq.completion []),
  );
}

-- The bottom half, run on a queue that is tracked.
pub record Reported (rq rq' : Rq) : Type 0 where
  pub tracked : IsTracked rq'
  pub none_left : rq'.completion ≡ []
  pub idle_bh : rq'.bh_scheduled ≡ false
  pub same_submission : rq'.submission ≡ rq.submission
  pub unlinks : rq'.inflight ≡ remove_all (reverse_onto rq.completion []) rq.inflight
  pub same_io : rq'.io ≡ rq.io
  pub in_order : rq'.reported ≡ rq.reported ++ outcomes rq.io (reverse_onto rq.completion [])
  pub oldest : rq'.metrics.oldest_inflight_ts ≡ oldest_ts rq'.io rq'.inflight

-- On a tracked queue the bottom half unlinks in-flight requests only, so it finishes. It leaves
-- no completion behind, tells each handler in the order in which the backend completed, and
-- takes the time of the request that is now the oldest.
pub rq_complete_bh-Reported :
    (rq : Rq) → IsTracked rq → (rq' : Rq) × (rq_complete_bh rq ≡ some rq') × Reported rq rq'
unfolding rq_complete_bh
rq_complete_bh-Reported rq t =
    let start = record rq { completion = []; bh_scheduled = false } in
    let ids = reverse_onto rq.completion [] in
    let (rq', e, c) = complete_all_lem ids start (turned-IsTracked rq t) in
    (
      set_oldest rq',
      ap (Option.map set_oldest) e,
      record {
        tracked = record {
          once = c.tracked.once;
          handed_out =
              λ a. omega (arith, c.tracked.handed_out a, ap (occurrences a) c.same_completion);
          awaited = λ some_left. absurd (omega (arith, ap length c.same_completion));
          flying = c.tracked.flying;
          entered = c.tracked.entered;
          dispatched = c.tracked.dispatched;
          received = omega (arith, c.tracked.received, ap length c.same_completion);
        };
        none_left = c.same_completion;
        idle_bh = c.same_bh;
        same_submission = c.same_submission;
        unlinks = c.unlinks;
        same_io = c.same_io;
        in_order = c.reports;
        oldest = refl;
      },
    )

cancel_one-IsTracked :
    (id : ℕ) (rq : Rq)
    → 0 < occurrences id rq.submission
    → IsTracked rq
    → IsTracked (cancel_one id rq)
unfolding sum
cancel_one-IsTracked id rq queued t = record {
  once = λ a. omega (arith, occurrences-remove id a rq.submission, t.once a);
  handed_out = t.handed_out;
  awaited = t.awaited;
  flying = λ v. ground (
    arith,
    put_num rq.vring (owner (set_status id canceled rq) id) v
        (dec_in_flight (rq.vring (owner (set_status id canceled rq) id))),
    dec_num (rq.vring (owner (set_status id canceled rq) id)),
    t.flying v,
    t.flying (owner rq id),
    same id,
    load_put rq io' v (remove id rq.submission) same,
    load_put rq io' v rq.inflight same,
    sum-remove (λ x. one_if (owner rq x) v) id rq.submission queued,
  );
  entered = omega (arith, t.entered, unlinked);
  dispatched = t.dispatched;
  received = t.received;
}
  where
    io' : ℕ → Io
    io' = put id (record (rq.io id) { status = canceled }) rq.io

    same : (j : ℕ) → (io' j).vring ≡ owner rq j
    same j = put_vring rq.io id (record (rq.io id) { status = canceled }) j refl

    unlinked : length rq.submission ≡ suc (length (remove id rq.submission))
    unlinked = omega (
      arith,
      sum-one rq.submission,
      sum-one (remove id rq.submission),
      sum-remove (λ x. 1) id rq.submission queued,
    )

cancel_loop-IsTracked :
    (v : ℕ) (ids : List ℕ) (rq : Rq)
    → ((a : ℕ) → occurrences a ids ≤ occurrences a rq.submission)
    → IsTracked rq
    → IsTracked (cancel_loop v ids rq)
unfolding cancel_loop sum
cancel_loop-IsTracked v [] rq enough t = t
cancel_loop-IsTracked v (id ∷ ids) rq enough t = elim (Bool-cases (owner rq id == v)) [
  | inl y ↦ rw y (
      cancel_loop-IsTracked v ids (cancel_one id rq)
        (λ a. omega (arith, enough a, occurrences-remove id a rq.submission))
        (cancel_one-IsTracked id rq (ground (arith, enough id)) t))
  | inr n ↦ rw n (cancel_loop-IsTracked v ids rq (λ a. omega (arith, enough a)) t)
]

pub cancel_queued_requests-IsTracked :
    (v : ℕ) (rq : Rq) → IsTracked rq → IsTracked (cancel_queued_requests v rq)
cancel_queued_requests-IsTracked v rq t =
    cancel_loop-IsTracked v rq.submission rq (λ a. omega arith) t
