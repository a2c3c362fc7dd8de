-- ===== src/Server/Tracked.antt =====
-- What holds of a request queue between two of its operations: server.c.
use yc_libvhost_server.Base.{
  ◌==◌, if◌then◌else◌, ==_iff, Bool-cases, if-elim, length, length-append, sub16, ℕ, suc, ◌+◌, ◌%◌,
  ◌^◌, ◌≤◌, ◌<◌, ◌≡◌, refl, sym, ap, ◌∙◌, inl, inr, true, ◌&&◌, not, List, [], ◌∷◌, ◌++◌, arith,
}
use yc_libvhost_server.Blk.Requests.{IoResult}
use yc_libvhost_server.Server.{
  Io, Rq, put, remove, is_empty, enqueue_request, dispatch_first, dequeue_request, complete_bio,
  complete_one, dequeue_from,
}
use yc_libvhost_server.Server.Sums.{
  sum, one_if, occurrences, sum-append, sum_same, sum-one, sum-remove, occurrences-remove,
}
use yc_libvhost_server.Vdev.Flight.{Flight, inc_in_flight, dec_in_flight}

abbrev pub owner : Rq → ℕ → ℕ
owner rq id = (rq.io id).vring

-- How many requests of a vring are in a list.
abbrev pub load : Rq → ℕ → List ℕ → ℕ
load rq v xs = sum (λ id. one_if (owner rq id) v) xs

-- A request is linked once, only those in flight are completed, the bottom half is scheduled for
-- as long as there is one to report, and the counters agree with the lists.
pub record IsTracked (rq : Rq) : Type 0 where
  pub once : (a : ℕ) → occurrences a rq.submission + occurrences a rq.inflight ≤ 1
  pub handed_out : (a : ℕ) → occurrences a rq.completion ≤ occurrences a rq.inflight
  pub awaited : 0 < length rq.completion → rq.bh_scheduled ≡ true
  pub flying :
      (v : ℕ)
      → (rq.vring v).num_in_flight ≡ (load rq v rq.submission + load rq v rq.inflight) % 2 ^ 16
  pub entered :
      rq.metrics.enqueued
      ≡ (rq.metrics.dequeued + rq.metrics.cancelled + length rq.submission) % 2 ^ 64
  pub dispatched : rq.metrics.dequeued ≡ (rq.metrics.completed + length rq.inflight) % 2 ^ 64
  pub received :
      rq.metrics.completions_received ≡ (rq.metrics.completed + length rq.completion) % 2 ^ 64

pub put_vring :
    (io : ℕ → Io) (i : ℕ) (new : Io) (j : ℕ)
    → new.vring ≡ (io i).vring
    → (put i new io j).vring ≡ (io j).vring
put_vring io i new j e = elim (Bool-cases (j == i)) [
  | inl y ↦ rw y (e ∙ ap (λ k. (io k).vring) (sym ((==_iff j i).0 y)))
  | inr n ↦ rw n refl
]

pub load_put :
    (rq : Rq) (io : ℕ → Io) (v : ℕ) (xs : List ℕ)
    → ((j : ℕ) → (io j).vring ≡ owner rq j)
    → sum (λ id. one_if (io id).vring v) xs ≡ load rq v xs
load_put rq io v xs same = sum_same _ _ xs (λ id. ap (λ o. one_if o v) (same id))

pub dec_num : (f : Flight) → (dec_in_flight f).num_in_flight ≡ sub16 f.num_in_flight 1
dec_num f =
    if-elim {A = Flight} (λ x. x.num_in_flight ≡ sub16 f.num_in_flight 1)
      ((sub16 f.num_in_flight 1 == 0) && not f.started_in_rq) (λ _. refl) (λ _. refl)

-- A change of the counter of one vring.
pub put_num :
    (vring : ℕ → Flight) (u v : ℕ) (new : Flight)
    → (put u new vring v).num_in_flight
      ≡ (if u == v then new.num_in_flight else (vring v).num_in_flight)
put_num vring u v new = elim (Bool-cases (v == u)) [
  | inl y ↦ rw y (ground arith)
  | inr n ↦ rw n (ground arith)
]

-- A request that is linked nowhere is enqueued.
pub enqueue_request-IsTracked :
    (rq : Rq) (id : ℕ)
    → occurrences id rq.submission + occurrences id rq.inflight ≡ 0
    → IsTracked rq
    → IsTracked (enqueue_request id rq)
unfolding sum
enqueue_request-IsTracked rq id fresh t = record {
  once = λ a. ground (arith, sum-append (λ x. one_if x a) rq.submission (id ∷ []), t.once a);
  handed_out = t.handed_out;
  awaited = t.awaited;
  flying = λ v. ground (
    arith,
    put_num rq.vring (owner rq id) v (inc_in_flight (rq.vring (owner rq id))),
    t.flying v,
    t.flying (owner rq id),
    sum-append (λ x. one_if (owner rq x) v) rq.submission (id ∷ []),
  );
  entered = omega (arith, t.entered, length-append rq.submission (id ∷ []));
  dispatched = t.dispatched;
  received = t.received;
}

dispatch_first-IsTracked :
    (now id : ℕ) (rest : List ℕ) (rq : Rq)
    → rq.submission ≡ id ∷ rest
    → IsTracked rq
    → IsTracked (dispatch_first now id rest rq)
unfolding sum
dispatch_first-IsTracked now id rest rq e t = record {
  once = λ a.
      ground
        (arith, sum-append (λ x. one_if x a) rq.inflight (id ∷ []), t.once a, ap (occurrences a) e);
  handed_out =
      λ a. ground (arith, sum-append (λ x. one_if x a) rq.inflight (id ∷ []), t.handed_out a);
  awaited = t.awaited;
  flying = λ v. omega (
    arith,
    t.flying v,
    load_put rq io' v rest same,
    load_put rq io' v (rq.inflight ++ id ∷ []) same,
    sum-append (λ x. one_if (owner rq x) v) rq.inflight (id ∷ []),
    ap (load rq v) e,
  );
  entered = omega (arith, t.entered, ap length e);
  dispatched = omega (arith, t.dispatched, length-append rq.inflight (id ∷ []));
  received = t.received;
}
  where
    io' : ℕ → Io
    io' = put id (record (rq.io id) { ts = now }) rq.io

    same : (j : ℕ) → (io' j).vring ≡ owner rq j
    same j = put_vring rq.io id (record (rq.io id) { ts = now }) j refl

dequeue_from-IsTracked :
    (now : ℕ) (l : List ℕ) (rq : Rq)
    → rq.submission ≡ l
    → IsTracked rq
    → IsTracked (dequeue_from now l rq).0
unfolding dequeue_from
dequeue_from-IsTracked now [] rq e t = t
dequeue_from-IsTracked now (id ∷ rest) rq e t = dispatch_first-IsTracked now id rest rq e t

pub dequeue_request-IsTracked :
    (now : ℕ) (rq : Rq) → IsTracked rq → IsTracked (dequeue_request now rq).0
unfolding dequeue_request
dequeue_request-IsTracked now rq t = dequeue_from-IsTracked now rq.submission rq refl t

-- The backend completes a request that it was handed and has not completed.
pub complete_bio-IsTracked :
    (id : ℕ) (result : IoResult) (rq : Rq)
    → 0 < occurrences id rq.inflight
    → occurrences id rq.completion ≡ 0
    → IsTracked rq
    → IsTracked (complete_bio id result rq)
unfolding sum
complete_bio-IsTracked id result rq held open_yet t = record {
  once = t.once;
  handed_out = λ a. ground (arith, t.handed_out a);
  awaited = λ _. scheduled rq.completion t.awaited;
  flying = λ v.
      omega (
        arith,
        t.flying v,
        load_put rq io' v rq.submission same,
        load_put rq io' v rq.inflight same,
      );
  entered = t.entered;
  dispatched = t.dispatched;
  received = omega (arith, t.received);
}
  where
    io' : ℕ → Io
    io' = put id (record (rq.io id) { status = result }) rq.io

    same : (j : ℕ) → (io' j).vring ≡ owner rq j
    same j = put_vring rq.io id (record (rq.io id) { status = result }) j refl

    scheduled :
        (l : List ℕ)
        → (0 < length l → rq.bh_scheduled ≡ true)
        → (if is_empty l then true else rq.bh_scheduled) ≡ true
    scheduled [] h = refl
    scheduled (x ∷ xs) h = h (omega arith)

-- Between two rounds of the loop over completed requests, `ids` is what it has left.
abbrev pub between : List ℕ → Rq → Rq
between ids rq = record rq { completion = ids; bh_scheduled = true }

pub complete_one-IsTracked :
    (id : ℕ) (ids : List ℕ) (rq : Rq)
    → IsTracked (between (id ∷ ids) rq)
    → (0 < occurrences id rq.inflight) × IsTracked (between ids (complete_one id rq))
unfolding sum
complete_one-IsTracked id ids rq t = (
  held,
  record {
    once = λ a. omega (arith, occurrences-remove id a rq.inflight, t.once a);
    handed_out = λ a. omega (arith, occurrences-remove id a rq.inflight, t.handed_out a);
    awaited = λ _. refl;
    flying = λ v. ground (
      arith,
      put_num rq.vring (owner rq id) v (dec_in_flight (rq.vring (owner rq id))),
      dec_num (rq.vring (owner rq id)),
      t.flying v,
      t.flying (owner rq id),
      sum-remove (λ x. one_if (owner rq x) v) id rq.inflight held,
    );
    entered = t.entered;
    dispatched = omega (arith, t.dispatched, unlinked);
    received = omega (arith, t.received);
  },
)
  where
    held : 0 < occurrences id rq.inflight
    held = ground (arith, t.handed_out id)

    unlinked : length rq.inflight ≡ suc (length (remove id rq.inflight))
    unlinked = omega (
      arith,
      sum-one rq.inflight,
      sum-one (remove id rq.inflight),
      sum-remove (λ x. 1) id rq.inflight held,
    )
