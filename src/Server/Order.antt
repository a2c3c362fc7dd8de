-- ===== src/Server/Order.antt =====
-- A request queue against what its users see of it: requests wait in the order in which they
-- came, and are reported in the order in which the backend completed them.
use mathlib.Core.Path.{subst}
use yc_libvhost_server.Base.{
  ◌==◌, if◌then◌else◌, Bool-cases, reverse_onto, reverse_onto-append, ℕ, ◌+◌, ◌<◌, ◌≡◌, refl, sym,
  ap, ◌∙◌, inl, inr, true, some, List, [], ◌∷◌, ◌++◌, arith,
}
use yc_libvhost_server.Blk.Requests.{IoResult, canceled}
use yc_libvhost_server.Server.{
  Io, Rq, put, enqueue_request, dequeue_request, cancel_queued_requests, complete_bio,
  rq_complete_bh,
}
use yc_libvhost_server.Server.Rounds.{
  outcomes, rq_complete_bh-Reported, cancel_queued_requests-IsTracked,
}
use yc_libvhost_server.Server.Sums.{sum, one_if, occurrences, sum-reverse_onto, remove_all}
use yc_libvhost_server.Server.Tracked.{
  IsTracked, enqueue_request-IsTracked, dequeue_request-IsTracked, complete_bio-IsTracked,
}

-- `working` lists the requests that were handed out and not reported, `done` the results that the
-- backend gave.
pub record Requests : Type 0 where
  pub waiting : List ℕ
  pub working : List ℕ
  pub done : List (ℕ × IoResult)
  pub reports : List (ℕ × IoResult)

pub idents : List (ℕ × IoResult) → List ℕ
idents [] = []
idents (p ∷ ps) = p.0 ∷ idents ps

-- The requests of a vring, and those of the other vrings.
unfoldable pub of_vring : (ℕ → Io) → ℕ → List ℕ → List ℕ
of_vring io v [] = []
of_vring io v (id ∷ ids) = if (io id).vring == v then id ∷ of_vring io v ids else of_vring io v ids

unfoldable pub of_others : (ℕ → Io) → ℕ → List ℕ → List ℕ
of_others io v [] = []
of_others io v (id ∷ ids) =
    if (io id).vring == v then of_others io v ids else id ∷ of_others io v ids

unfoldable pub all_canceled : List ℕ → List (ℕ × IoResult)
all_canceled [] = []
all_canceled (id ∷ ids) = (id, canceled) ∷ all_canceled ids

-- What a user of the queue asks for, or does to it.
pub data Op : Type 0 where
  enqueue : ℕ → Op
  dequeue : Op
  complete_with : ℕ → IoResult → Op
  report : Op
  cancel : ℕ → Op

abbrev pub hand_out : List ℕ → Requests → Requests
hand_out [] s = s
hand_out (id ∷ rest) s = record s { waiting = rest; working = s.working ++ id ∷ [] }

-- What is expected of it: a request joins those that wait, the first of them is handed out, a
-- result joins the results, all results are reported in the order in which they came, or the
-- waiting requests of a vring are reported as canceled. The vrings of the requests are those of
-- `io`.
abbrev pub act : (ℕ → Io) → Op → Requests → Requests
act io (enqueue id) s = record s { waiting = s.waiting ++ id ∷ [] }
act io dequeue s = hand_out s.waiting s
act io (complete_with id result) s = record s { done = s.done ++ (id, result) ∷ [] }
act io report s = record s {
  working = remove_all (idents s.done) s.working;
  done = [];
  reports = s.reports ++ s.done;
}
act io (cancel v) s = record s {
  waiting = of_others io v s.waiting;
  reports = s.reports ++ all_canceled (of_vring io v s.waiting);
}

-- The queue as its users see it.
abbrev pub seen : Rq → Requests
seen rq = record {
  waiting = rq.submission;
  working = rq.inflight;
  done = outcomes rq.io (reverse_onto rq.completion []);
  reports = rq.reported;
}

-- The operations of the threads that share a queue, one after the other: the dataplane thread
-- enqueues, dequeues, runs the bottom half and cancels, and the backend completes.
pub data Step : Rq → Rq → Type 0 where
  enqueues :
      (rq : Rq) (id : ℕ)
      → occurrences id rq.submission + occurrences id rq.inflight ≡ 0
      → Step rq (enqueue_request id rq)
  dequeues : (rq : Rq) (now : ℕ) → Step rq (dequeue_request now rq).0
  completes :
      (rq : Rq) (id : ℕ) (result : IoResult)
      → 0 < occurrences id rq.inflight
      → occurrences id rq.completion ≡ 0
      → Step rq (complete_bio id result rq)
  runs_bh : (rq rq' : Rq) → rq.bh_scheduled ≡ true → rq_complete_bh rq ≡ some rq' → Step rq rq'
  cancels : (rq : Rq) (v : ℕ) → Step rq (cancel_queued_requests v rq)

-- The operation of a step.
abbrev pub op_of : {rq rq' : Rq} → Step rq rq' → Op
op_of (enqueues rq id fresh) = enqueue id
op_of (dequeues rq now) = dequeue
op_of (completes rq id result held first) = complete_with id result
op_of (runs_bh rq rq' scheduled e) = report
op_of (cancels rq v) = cancel v

pub data Reach (rq : Rq) : Rq → Type 0 where
  here : Reach rq rq
  next : {mid last : Rq} → Reach rq mid → Step mid last → Reach rq last

pub some_same : {a b : Rq} → some a ≡ some b → a ≡ b
some_same e = cc

pub Step-IsTracked : {rq rq' : Rq} → Step rq rq' → IsTracked rq → IsTracked rq'
Step-IsTracked (enqueues rq id fresh) t = enqueue_request-IsTracked rq id fresh t
Step-IsTracked (dequeues rq now) t = dequeue_request-IsTracked now rq t
Step-IsTracked (completes rq id result held first) t =
    complete_bio-IsTracked id result rq held first t
Step-IsTracked (runs_bh rq rq' scheduled e) t =
    let (out, e', r) = rq_complete_bh-Reported rq t in
    subst IsTracked (some_same (sym e' ∙ e)) r.tracked
Step-IsTracked (cancels rq v) t = cancel_queued_requests-IsTracked v rq t

-- A request queue stays tracked, whatever its threads do and in whatever order.
pub Reach-IsTracked : {rq rq' : Rq} → Reach rq rq' → IsTracked rq → IsTracked rq'
Reach-IsTracked here t = t
Reach-IsTracked (next r s) t = Step-IsTracked s (Reach-IsTracked r t)

outcomes-append :
    (io : ℕ → Io) (xs ys : List ℕ) → outcomes io (xs ++ ys) ≡ outcomes io xs ++ outcomes io ys
outcomes-append io [] ys = refl
outcomes-append io (x ∷ xs) ys = ap (λ l. (x, (io x).status) ∷ l) (outcomes-append io xs ys)

pub idents-outcomes : (io : ℕ → Io) (xs : List ℕ) → idents (outcomes io xs) ≡ xs
unfolding idents
idents-outcomes io [] = refl
idents-outcomes io (x ∷ xs) = ap (λ l. x ∷ l) (idents-outcomes io xs)

-- A request that is not listed may change.
pub outcomes_other :
    (io : ℕ → Io) (id : ℕ) (new : Io) (xs : List ℕ)
    → occurrences id xs ≡ 0
    → outcomes (put id new io) xs ≡ outcomes io xs
unfolding sum
outcomes_other io id new [] h = refl
outcomes_other io id new (x ∷ xs) h = elim (Bool-cases (x == id)) [
  | inl y ↦ absurd (ground arith)
  | inr n ↦ rw n (ap (λ l. (x, (io x).status) ∷ l) (outcomes_other io id new xs (ground arith)))
]

pub status_put : (io : ℕ → Io) (id : ℕ) (new : Io) → (put id new io id).status ≡ new.status
status_put io id new = elim (Bool-cases (id == id)) [
  | inl y ↦ rw y refl
  | inr n ↦ absurd (ground arith)
]

pub completes-act :
    (rq : Rq) (id : ℕ) (result : IoResult)
    → occurrences id rq.completion ≡ 0
    → seen (complete_bio id result rq) ≡ act rq.io (complete_with id result) (seen rq)
unfolding sum
completes-act rq id result first = ap (λ d. record (seen rq) { done = d }) (turned ∙ added)
  where
    io' : ℕ → Io
    io' = put id (record (rq.io id) { status = result }) rq.io

    old : List ℕ
    old = reverse_onto rq.completion []

    turned :
        outcomes io' (reverse_onto rq.completion (id ∷ []))
        ≡ outcomes io' old ++ outcomes io' (id ∷ [])
    turned =
        ap (outcomes io') (reverse_onto-append rq.completion [] (id ∷ []))
        ∙ outcomes-append io' old (id ∷ [])

    added : outcomes io' old ++ outcomes io' (id ∷ []) ≡ outcomes rq.io old ++ (id, result) ∷ []
    added =
        ap (λ l. l ++ outcomes io' (id ∷ []))
          (outcomes_other rq.io id (record (rq.io id) { status = result }) old
            (omega (arith, sum-reverse_onto (λ x. one_if x id) rq.completion [])))
        ∙ ap (λ s. outcomes rq.io old ++ (id, s) ∷ [])
            (status_put rq.io id (record (rq.io id) { status = result }))
