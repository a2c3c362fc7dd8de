-- ===== src/Virtq/Dequeue/Errors.antt =====
-- The errors of virtq_dequeue_many of virtio/virt_queue.c.
use mathlib.Core.Path.{subst}
use yc_libvhost_server.Base.{
  ltb, leb, ◌==◌, if◌then◌else◌, Bool-cases, Option-cases, get_or, sub16, Errno, erange, eoverflow,
  enodev, ℕ, zero, suc, ◌%◌, ◌≤◌, ◌<◌, ◌≡◌, refl, sym, ap, ◌∙◌, ◌⊎◌, inl, inr, Bool, true, false,
  Option, none, some, List, arith,
}
use yc_libvhost_server.Virtq.Dequeue.{
  Dequeued, mark_broken, count_request, prepare, dequeue_one, inflight_resubmit, unless_broken,
  serve, dequeue_many, done, note_length, serve_avail, count_empty,
}
use yc_libvhost_server.Virtq.Dequeue.Batch.{prepare-IsPrepared, prepared-IsReady}
use yc_libvhost_server.Virtq.Dequeue.Order.{
  IsReady, IsTraced, IsOneTaken, dequeue_one_lem, kept-IsReady,
}
use yc_libvhost_server.Virtq.Dequeue.Unmarked.{
  dequeue_one_unmarked, AreKept, inflight_resubmit-AreKept, prepare_unmarked,
}
use yc_libvhost_server.Virtq.Types.{Desc, Iov, Virtq}

-- The head that the next entry of the available ring has.
abbrev pub next_head : Virtq → ℕ
next_head vq = get_or vq.avail.ring (vq.last_avail % vq.qsz) 0

-- What an error says of the queue that is left. If the queue is marked broken, the next head is one
-- of the ring, unless requests were `resubmitted`; otherwise the ring itself is wrong.
abbrev pub IsBlamed : Bool → Errno → Virtq → Type 0
IsBlamed resubmitted e vq =
    ((vq.broken ≡ true) × ((resubmitted ≡ true) ⊎ (next_head vq < vq.qsz)))
    ⊎ ((vq.broken ≡ false)
        × (((e ≡ erange) × (vq.qsz ≤ next_head vq))
            ⊎ ((e ≡ eoverflow) × (vq.qsz < sub16 vq.avail.idx vq.last_avail))))

abbrev pub IsReported : {S : Type 0} → Bool → Option (Dequeued S) → Type 0
IsReported {S} resubmitted m =
    (d : Dequeued S) × (m ≡ some d) × ((e : Errno) → d.res ≡ some e → IsBlamed resubmitted e d.vq)

module _ {S : Type 0} (read : S → ℕ → Desc) (handle : Virtq → S → Iov → Virtq × S)
    (trace : S → List ℕ) (polite : IsTraced read handle trace)
    (unmarked : (vq : Virtq) (s : S) (iov : Iov) → (handle vq s iov).0.broken ≡ vq.broken) where
  serve_next-IsReported :
      (n : ℕ) (vq : Virtq) (s : S)
      → IsReady vq
      → vq.broken ≡ false
      → next_head vq < vq.qsz
      → ((vq' : Virtq) (s' : S)
          → IsReady vq'
          → vq'.broken ≡ false
          → IsReported false (serve read handle n vq' s'))
      → (m : Option (Dequeued S)) → ((d : Dequeued S) → m ≡ some d → d.vq.broken ≡ vq.broken)
      → IsOneTaken read handle trace vq s (next_head vq) m
      → IsReported false
          (unless_broken read handle m (λ vq' s'. serve read handle n (count_request vq') s'))
  unfolding unless_broken mark_broken count_request
  serve_next-IsReported n vq s ready whole inside rest m same
        (d, e, inl (code, failed, same_vq, same_s)) =
      rw (e, failed)
        (_, refl, λ e' h. inl (refl, inr (subst (λ q. next_head q < q.qsz) (sym same_vq) inside)))
  serve_next-IsReported n vq s ready whole inside rest m same
        (d, e, inr (fine, moved, kept, traced)) =
      rw (e, fine)
        (rest (count_request d.vq) d.state (kept-IsReady read handle trace vq d.vq kept moved ready)
          (same d e ∙ whole))

  serve-IsReported :
      (n : ℕ) (vq : Virtq) (s : S)
      → IsReady vq
      → vq.broken ≡ false
      → IsReported false (serve read handle n vq s)
  unfolding serve done
  serve-IsReported zero vq s ready whole = (_, refl, λ e h. cc)
  serve-IsReported (suc n) vq s ready whole = elim (Bool-cases (leb vq.qsz (next_head vq))) [
    | inl past ↦ rw (past) (_, refl, λ e h. inr (whole, inl (cc, ground arith)))
    | inr inside ↦ rw (inside) (
        serve_next-IsReported n vq s ready whole (ground arith)
          (λ vq' s' ready' whole'. serve-IsReported n vq' s' ready' whole')
          (dequeue_one read handle false (next_head vq) vq s)
          (dequeue_one_unmarked read handle trace polite unmarked false (next_head vq) vq s)
          (dequeue_one_lem read handle trace false (next_head vq) vq s polite ready))
  ]

  serve_avail-IsReported :
      (vq : Virtq) (s : S)
      → IsReady vq
      → vq.broken ≡ false
      → IsReported false (serve_avail read handle vq s)
  unfolding serve_avail done count_empty note_length
  serve_avail-IsReported vq s ready whole =
      elim (Bool-cases (ltb vq.qsz (sub16 vq.avail.idx vq.last_avail))) [
        | inl flood ↦ rw (flood) (_, refl, λ e h. inr (whole, inr (cc, ground arith)))
        | inr fits ↦ elim (Bool-cases (sub16 vq.avail.idx vq.last_avail == 0)) [
          | inl empty ↦ rw (fits, empty) (_, refl, λ e h. cc)
          | inr available ↦
              rw (fits, available)
                (serve-IsReported (sub16 vq.avail.idx vq.last_avail)
                  (note_length (sub16 vq.avail.idx vq.last_avail) vq) s ready whole)
        ]
      ]

  more_blame :
      (resubmitted : Bool) (e : Errno) (vq : Virtq)
      → IsBlamed false e vq
      → IsBlamed resubmitted e vq
  more_blame resubmitted e vq (inl (b, inl never)) = absurd cc
  more_blame resubmitted e vq (inl (b, inr inside)) = inl (b, inr inside)
  more_blame resubmitted e vq (inr ring) = inr ring

  nothing_done :
      (vq : Virtq) (s : S)
      → IsReady vq
      → AreKept read handle trace polite unmarked vq (done read handle vq s)
  unfolding done AreKept
  nothing_done vq s ready = (_, refl, refl, ready)

  done_fine : (vq : Virtq) (s : S) (d : Dequeued S) → done read handle vq s ≡ some d → d.res ≡ none
  unfolding done
  done_fine vq s d e = cc

  go : (now : ℕ) (later : List ℕ) → Virtq → S → Option (Dequeued S)
  go now later vq s = serve_avail read handle (prepare now later vq) s

  -- The rest of virtq_dequeue_many after the requests in flight.
  went_on :
      (now : ℕ) (later : List ℕ) (vq : Virtq)
      → vq.broken ≡ false
      → (m : Option (Dequeued S)) → AreKept read handle trace polite unmarked vq m
      → (resubmitted : Bool)
      → ((d : Dequeued S) → m ≡ some d → (resubmitted ≡ true) ⊎ (d.res ≡ none))
      → IsReported resubmitted (unless_broken read handle m (go now later))
  unfolding unless_broken mark_broken AreKept go
  went_on now later vq whole m (d, e, same, ready) resubmitted why = elim (Option-cases d.res) [
    | inl fine ↦
        let (d', e', blamed) =
          serve_avail-IsReported (prepare now later d.vq) d.state
            (prepared-IsReady d.vq _ (prepare-IsPrepared now later d.vq) ready)
            (prepare_unmarked read handle trace polite unmarked now later d.vq ∙ same ∙ whole) in
        rw (e, fine) (d', e', λ c h. more_blame resubmitted c d'.vq (blamed c h))
    | inr (c, failed) ↦ rw (e, failed) (_, refl, λ c' h. inl (refl, excused d (why d e) c failed))
  ]
    where
      excused :
          (d : Dequeued S)
          → (resubmitted ≡ true) ⊎ (d.res ≡ none)
          → (c : Errno) → d.res ≡ some c
          → (resubmitted ≡ true) ⊎ (next_head d.vq < d.vq.qsz)
      excused d (inl looked_at) c failed = inl looked_at
      excused d (inr fine) c failed = absurd cc

  -- virtq_dequeue_many returns on a ready queue that is not broken, with a handler that leaves the
  -- queue's own state and its mark alone. If it returns an error, the queue that it leaves is marked
  -- broken, and the error is of a descriptor chain whose head is one of the ring, or of the requests
  -- in flight if it had to look at them; or it is not marked, and the error is ERANGE with a next
  -- head past the ring, or EOVERFLOW with more entries than the ring has.
  pub dequeue_many-IsReported :
      (now : ℕ) (later : List ℕ) (vq : Virtq) (s : S)
      → IsReady vq
      → vq.broken ≡ false
      → IsReported vq.inflight_check (dequeue_many read handle now later vq s)
  unfolding dequeue_many go
  dequeue_many-IsReported now later vq s ready whole =
      subst (IsReported vq.inflight_check)
        (sym (
          ap (λ b. if b then some (record { res = some enodev; vq = vq; state = s }) else rest)
            whole))
        (looked vq.inflight_check)
    where
      rest : Option (Dequeued S)
      rest =
          unless_broken read handle
            (if vq.inflight_check
              then inflight_resubmit read handle vq s
              else done read handle vq s)
            (go now later)

      looked :
          (check : Bool)
          → IsReported check (
              unless_broken read handle
                (if check then inflight_resubmit read handle vq s else done read handle vq s)
                (go now later))
      looked true =
          went_on now later vq whole (inflight_resubmit read handle vq s)
            (inflight_resubmit-AreKept read handle trace polite unmarked vq s ready) true
            (λ d e. inl refl)
      looked false =
          went_on now later vq whole (done read handle vq s) (nothing_done vq s ready) false
            (λ d e. inr (done_fine vq s d e))
