-- ===== src/Virtq/Dequeue/Batch.antt =====
-- What a call of virtq_dequeue_many of virtio/virt_queue.c does as a whole.
use mathlib.Core.Path.{subst}
-- What the bookkeeping before the loop leaves alone.
use yc_libvhost_server.Base.{
  ltb, ◌==◌, if◌then◌else◌, Bool-cases, if-elim, length, All, sub16, enodev, ℕ, ◌+◌, ◌≡◌, refl, sym,
  ap, ◌∙◌, inl, inr, false, Option, some, List, arith,
}
use yc_libvhost_server.Memmap.Translate.{IsMapped}
use yc_libvhost_server.Server.Order.{seen}
use yc_libvhost_server.Virtq.Dequeue.{
  Dequeued, poll_avail, prepare, inflight_resubmit, unless_broken, dequeue_many, count_empty,
  count_dispatch, start_period, note_length, done, serve_avail,
}
use yc_libvhost_server.Virtq.Dequeue.Order.{entries, IsReady, IsTraced, IsPrefixTaken, serve_lem}
use yc_libvhost_server.Virtq.Types.{Desc, Iov, Virtq}

pub record IsPrepared (vq vq' : Virtq) : Type 0 where
  ring_of : vq'.avail.ring ≡ vq.avail.ring
  qsz_of : vq'.qsz ≡ vq.qsz
  last_of : vq'.last_avail ≡ vq.last_avail
  mm_of : vq'.mm ≡ vq.mm
  chain_of : vq'.max_chain_len ≡ vq.max_chain_len
  scratch_of : vq'.scratch ≡ vq.scratch

IsPrepared-refl : (vq : Virtq) → IsPrepared vq vq
IsPrepared-refl vq = record {
  ring_of = refl;
  qsz_of = refl;
  last_of = refl;
  mm_of = refl;
  chain_of = refl;
  scratch_of = refl;
}

IsPrepared-trans : (a b c : Virtq) → IsPrepared a b → IsPrepared b c → IsPrepared a c
IsPrepared-trans a b c p q = record {
  ring_of = q.ring_of ∙ p.ring_of;
  qsz_of = q.qsz_of ∙ p.qsz_of;
  last_of = q.last_of ∙ p.last_of;
  mm_of = q.mm_of ∙ p.mm_of;
  chain_of = q.chain_of ∙ p.chain_of;
  scratch_of = q.scratch_of ∙ p.scratch_of;
}

start_period-IsPrepared : (now : ℕ) (vq : Virtq) → IsPrepared vq (start_period now vq)
unfolding start_period
start_period-IsPrepared now vq =
    if-elim (IsPrepared vq) (ltb (vq.period_start_ts + 60) now)
      (λ over. record {
        ring_of = refl;
        qsz_of = refl;
        last_of = refl;
        mm_of = refl;
        chain_of = refl;
        scratch_of = refl;
      })
      (λ running. IsPrepared-refl vq)

poll_avail-IsPrepared : (later : List ℕ) (vq : Virtq) → IsPrepared vq (poll_avail later vq)
unfolding poll_avail
poll_avail-IsPrepared later vq =
    if-elim (IsPrepared vq) vq.has_event_idx
      (λ events. record {
        ring_of = refl;
        qsz_of = refl;
        last_of = refl;
        mm_of = refl;
        chain_of = refl;
        scratch_of = refl;
      })
      (λ plain. IsPrepared-refl vq)

pub prepare-IsPrepared :
    (now : ℕ) (later : List ℕ) (vq : Virtq) → IsPrepared vq (prepare now later vq)
unfolding prepare count_dispatch
prepare-IsPrepared now later vq =
    IsPrepared-trans vq started (prepare now later vq)
      (IsPrepared-trans vq (start_period now checked) started
        (IsPrepared-trans vq checked (start_period now checked)
          (record {
            ring_of = refl;
            qsz_of = refl;
            last_of = refl;
            mm_of = refl;
            chain_of = refl;
            scratch_of = refl;
          })
          (start_period-IsPrepared now checked))
        (record {
          ring_of = refl;
          qsz_of = refl;
          last_of = refl;
          mm_of = refl;
          chain_of = refl;
          scratch_of = refl;
        }))
      (poll_avail-IsPrepared later started)
  where
    checked : Virtq
    checked = record vq { inflight_check = false }

    started : Virtq
    started = count_dispatch (start_period now checked)

pub prepared-IsReady : (vq vq' : Virtq) → IsPrepared vq vq' → IsReady vq → IsReady vq'
prepared-IsReady vq vq' p (room, small, word, sound) = (
  ap (λ sc. length sc.buffers) p.scratch_of ∙ room ∙ sym p.chain_of,
  omega (arith, p.chain_of),
  omega (arith, p.last_of),
  subst (λ mm. All IsMapped mm.regions) (sym p.mm_of) sound,
)

module _ {S : Type 0} (read : S → ℕ → Desc) (handle : Virtq → S → Iov → Virtq × S)
    (trace : S → List ℕ) where
  prepared-IsPrefixTaken :
      (n : ℕ) (vq vq' : Virtq) (s : S) (m : Option (Dequeued S))
      → IsPrepared vq vq'
      → IsPrefixTaken read handle trace n vq' s m
      → IsPrefixTaken read handle trace n vq s m
  prepared-IsPrefixTaken n vq vq' s m p (d, e, (k, le, last, seen, whole)) = (
    d,
    e,
    (
      k,
      le,
      omega (arith, p.last_of),
      seen
          ∙ ap (λ ring. entries k ring vq'.qsz vq'.last_avail (trace s)) p.ring_of
          ∙ ap (λ qsz. entries k vq.avail.ring qsz vq'.last_avail (trace s)) p.qsz_of
          ∙ ap (λ last. entries k vq.avail.ring vq.qsz last (trace s)) p.last_of,
      whole,
    ),
  )

  serve_avail_lem :
      (vq : Virtq) (s : S)
      → IsTraced read handle trace
      → IsReady vq
      → IsPrefixTaken read handle trace
          (sub16 vq.avail.idx vq.last_avail)
          vq
          s
          (serve_avail read handle vq s)
  unfolding serve_avail done count_empty note_length
  serve_avail_lem vq s polite ready = elim (Bool-cases (ltb vq.qsz num_avail)) [
    | inl flood ↦ rw (flood) (_, refl, (0, omega arith, ground (arith, ready.2), refl, λ e. cc))
    | inr fits ↦ elim (Bool-cases (num_avail == 0)) [
      | inl empty ↦
          rw (fits, empty)
            (_, refl, (0, omega arith, ground (arith, ready.2), refl, λ e. ground arith))
      | inr some_avail ↦
          rw (fits, some_avail)
            (prepared-IsPrefixTaken num_avail vq (note_length num_avail vq) s _
              (record {
                ring_of = refl;
                qsz_of = refl;
                last_of = refl;
                mm_of = refl;
                chain_of = refl;
                scratch_of = refl;
              })
              (serve_lem read handle trace num_avail (note_length num_avail vq) s polite ready))
    ]
  ]
    where
      num_avail : ℕ
      num_avail = sub16 vq.avail.idx vq.last_avail

  dequeue_many-serve_avail :
      (now : ℕ) (later : List ℕ) (vq : Virtq) (s : S)
      → vq.broken ≡ false
      → vq.inflight_check ≡ false
      → dequeue_many read handle now later vq s ≡ serve_avail read handle (prepare now later vq) s
  unfolding dequeue_many unless_broken done
  dequeue_many-serve_avail now later vq s whole checked =
      ap
        (λ broken.
          if broken
          then some (record { res = some enodev; vq = vq; state = s })
          else unless_broken read handle
              (if vq.inflight_check
                then inflight_resubmit read handle vq s
                else done read handle vq s)
              go)
        whole
      ∙ ap
          (λ check.
            unless_broken read handle
              (if check then inflight_resubmit read handle vq s else done read handle vq s) go)
          checked
    where
      go : Virtq → S → Option (Dequeued S)
      go vq' s' = serve_avail read handle (prepare now later vq') s'

  -- virtq_dequeue_many returns on a ready queue that is not broken and has looked at its requests
  -- in flight, with a handler that leaves the queue's own state alone: the handler has seen a
  -- prefix of the entries that the driver made available, each once, in the order of the ring,
  -- `last_avail` is behind them, and without an error they are all of them.
  pub dequeue_many_lem :
      (now : ℕ) (later : List ℕ) (vq : Virtq) (s : S)
      → IsTraced read handle trace
      → IsReady vq
      → vq.broken ≡ false
      → vq.inflight_check ≡ false
      → IsPrefixTaken read handle trace
          (sub16 (prepare now later vq).avail.idx vq.last_avail)
          vq
          s
          (dequeue_many read handle now later vq s)
  dequeue_many_lem now later vq s polite ready whole checked =
      subst (IsPrefixTaken read handle trace (sub16 vq'.avail.idx vq.last_avail) vq s)
        (sym (dequeue_many-serve_avail now later vq s whole checked))
        (prepared-IsPrefixTaken (sub16 vq'.avail.idx vq.last_avail) vq vq' s
          (serve_avail read handle vq' s) p
          (subst
            (λ last.
              IsPrefixTaken read handle trace (sub16 vq'.avail.idx last) vq' s
                (serve_avail read handle vq' s))
            p.last_of (serve_avail_lem vq' s polite (prepared-IsReady vq vq' p ready))))
    where
      vq' : Virtq
      vq' = prepare now later vq

      p : IsPrepared vq vq'
      p = prepare-IsPrepared now later vq
