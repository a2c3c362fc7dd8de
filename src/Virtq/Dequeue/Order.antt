-- ===== src/Virtq/Dequeue/Order.antt =====
-- In which order virtq_dequeue_many of virtio/virt_queue.c hands requests to the device.
use mathlib.Core.Path.{subst}
-- What a handler must leave alone in the queue: it may push requests, but takes none.
use yc_libvhost_server.Base.{
  leb, if◌then◌else◌, Bool-cases, Option-cases, if-elim, length, get_or, All, add16, Errno, ok, err,
  ℕ, zero, suc, ◌+◌, ◌%◌, ◌^◌, ◌≤◌, ◌<◌, ◌≡◌, refl, sym, ap, ◌∙◌, ◌⊎◌, inl, inr, Bool, false,
  Option, none, some, List, ◌∷◌, arith,
}
use yc_libvhost_server.Memmap.Translate.{IsMapped}
use yc_libvhost_server.Server.Order.{seen}
use yc_libvhost_server.Virtq.Chain.{Walk, walk_chain, clone_iov}
use yc_libvhost_server.Virtq.Chain.Shape.{IsScratch, Returns, IsWordDesc}
use yc_libvhost_server.Virtq.Chain.Walks.{walk_chain-Returns}
use yc_libvhost_server.Virtq.Dequeue.{
  Dequeued, mark_broken, count_request, dequeue_one, unless_broken, serve, deliver, done, advance,
}
use yc_libvhost_server.Virtq.Inflight.{inflight_avail_update}
use yc_libvhost_server.Virtq.Types.{Desc, Scratch, Iov, Virtq}

pub record IsKept (vq vq' : Virtq) : Type 0 where
  pub avail_of : vq'.avail ≡ vq.avail
  pub qsz_of : vq'.qsz ≡ vq.qsz
  pub mm_of : vq'.mm ≡ vq.mm
  pub last_of : vq'.last_avail ≡ vq.last_avail
  pub chain_of : vq'.max_chain_len ≡ vq.max_chain_len
  pub room_of : length vq'.scratch.buffers ≡ length vq.scratch.buffers

-- The heads of the next `n` entries of the available ring, the last one first, before those of
-- `done`.
abbrev pub entries : ℕ → List ℕ → ℕ → ℕ → List ℕ → List ℕ
entries zero ring qsz last_avail earlier = earlier
entries (suc n) ring qsz last_avail earlier =
    entries n ring qsz (add16 last_avail 1) (get_or ring (last_avail % qsz) 0 ∷ earlier)

-- A queue whose scratch area is as long as virtio_virtq_init makes it, on mapped memory.
abbrev pub IsReady : Virtq → Type 0
IsReady vq =
    (length vq.scratch.buffers ≡ vq.max_chain_len)
    × (vq.max_chain_len < 2 ^ 16)
    × (vq.last_avail < 2 ^ 16)
    × All IsMapped vq.mm.regions

module _ {S : Type 0} (read : S → ℕ → Desc) (handle : Virtq → S → Iov → Virtq × S)
    (trace : S → List ℕ) where
  -- The handler leaves the queue's own state alone, and `trace` says which requests it has seen.
  pub record IsTraced : Type 0 where
    pub keeps : (vq : Virtq) (s : S) (iov : Iov) → IsKept vq (handle vq s iov).0
    pub traces :
        (vq : Virtq) (s : S) (iov : Iov) → trace (handle vq s iov).1 ≡ iov.used_head ∷ trace s
    pub words : (s : S) (addr : ℕ) → IsWordDesc (read s addr)

  -- One request: it fails and the handler is not called, or the handler gets it.
  abbrev pub IsOneTaken : Virtq → S → ℕ → Option (Dequeued S) → Type 0
  IsOneTaken vq s head m =
      (d : Dequeued S) × (m ≡ some d)
      × (((e : Errno) × (d.res ≡ some e) × (d.vq ≡ vq) × (d.state ≡ s))
          ⊎ ((d.res ≡ none)
              × (d.vq.last_avail ≡ add16 vq.last_avail 1)
              × IsKept vq (record (d.vq) { last_avail = vq.last_avail })
              × (trace d.state ≡ head ∷ trace s)))

  -- The queue takes the first `k` of `n` entries, in the order of the ring, and all if there is
  -- no error.
  abbrev pub IsPrefixTaken : ℕ → Virtq → S → Option (Dequeued S) → Type 0
  IsPrefixTaken n vq s m =
      (d : Dequeued S) × (m ≡ some d)
      × ((k : ℕ) × (k ≤ n)
          × (d.vq.last_avail ≡ (vq.last_avail + k) % 2 ^ 16)
          × (trace d.state ≡ entries k vq.avail.ring vq.qsz vq.last_avail (trace s))
          × (d.res ≡ none → k ≡ n))

  IsKept-refl : (vq : Virtq) → IsKept vq vq
  IsKept-refl vq = record {
    avail_of = refl;
    qsz_of = refl;
    mm_of = refl;
    last_of = refl;
    chain_of = refl;
    room_of = refl;
  }

  avail_update_keeps : (vq : Virtq) (head : ℕ) → IsKept vq (inflight_avail_update vq head)
  unfolding inflight_avail_update
  avail_update_keeps vq head = elim (Option-cases vq.inflight_region) [
    | inl e ↦ rw (e) (record {
      avail_of = refl;
      qsz_of = refl;
      mm_of = refl;
      last_of = refl;
      chain_of = refl;
      room_of = refl;
    })
    | inr (r, e) ↦ rw (e) (record {
      avail_of = refl;
      qsz_of = refl;
      mm_of = refl;
      last_of = refl;
      chain_of = refl;
      room_of = refl;
    })
  ]

  deliver_lem :
      (resubmit : Bool) (head : ℕ) (vq : Virtq) (s : S) (w : Walk (ℕ × Scratch))
      → IsTraced
      → length vq.scratch.buffers ≡ vq.max_chain_len
      → Returns
          (λ out. IsScratch vq.mm vq.max_chain_len out.1 × (0 < out.1.niov_out + out.1.niov_in))
          w
      → IsOneTaken vq s head (deliver read handle resubmit head vq s w)
  unfolding deliver advance clone_iov
  deliver_lem resubmit head vq s none polite room r = absurd r
  deliver_lem resubmit head vq s (some (err e)) polite room r = (_, refl, inl (e, refl, refl, refl))
  deliver_lem resubmit head vq s (some (ok (n, sc))) polite room r = (
    _,
    refl,
    inr (refl, ap (λ i. add16 i 1) (p.last_of ∙ u.last_of), kept, polite.traces before s iov),
  )
    where
      walked : Virtq
      walked = record vq { scratch = sc }

      before : Virtq
      before = if resubmit then walked else inflight_avail_update walked head

      iov : Iov
      iov = clone_iov sc head vq.mm

      u : IsKept walked before
      u =
          if-elim (IsKept walked) resubmit (λ _. IsKept-refl walked)
            (λ _. avail_update_keeps walked head)

      p : IsKept before (handle before s iov).0
      p = polite.keeps before s iov

      kept : IsKept vq (record ((handle before s iov).0) { last_avail = vq.last_avail })
      kept = record {
        avail_of = p.avail_of ∙ u.avail_of;
        qsz_of = p.qsz_of ∙ u.qsz_of;
        mm_of = p.mm_of ∙ u.mm_of;
        last_of = refl;
        chain_of = p.chain_of ∙ u.chain_of;
        room_of = p.room_of ∙ u.room_of ∙ r.0.room ∙ sym room;
      }

  pub dequeue_one_lem :
      (resubmit : Bool) (head : ℕ) (vq : Virtq) (s : S)
      → IsTraced
      → IsReady vq
      → IsOneTaken vq s head (dequeue_one read handle resubmit head vq s)
  unfolding dequeue_one
  dequeue_one_lem resubmit head vq s polite (room, small, word, sound) =
      deliver_lem resubmit head vq s
        (walk_chain (read s) vq.mm vq.max_chain_len vq.desc vq.qsz head vq.scratch.buffers) polite
        room
        (walk_chain-Returns vq.mm vq.max_chain_len small (read s) (polite.words s) sound vq.desc
          vq.qsz head vq.scratch.buffers room)

  entries_same :
      (k : ℕ) (vq vq' : Virtq) (s s' : S) (head : ℕ)
      → IsKept vq (record vq' { last_avail = vq.last_avail })
      → vq'.last_avail ≡ add16 vq.last_avail 1
      → trace s' ≡ head ∷ trace s
      → entries k vq'.avail.ring vq'.qsz vq'.last_avail (trace s')
        ≡ entries k vq.avail.ring vq.qsz (add16 vq.last_avail 1) (head ∷ trace s)
  entries_same k vq vq' s s' head kept moved traced =
      ap (λ avail. entries k avail.ring vq'.qsz vq'.last_avail (trace s')) kept.avail_of
      ∙ ap (λ qsz. entries k vq.avail.ring qsz vq'.last_avail (trace s')) kept.qsz_of
      ∙ ap (λ last. entries k vq.avail.ring vq.qsz last (trace s')) moved
      ∙ ap (entries k vq.avail.ring vq.qsz (add16 vq.last_avail 1)) traced

  pub kept-IsReady :
      (vq vq' : Virtq)
      → IsKept vq (record vq' { last_avail = vq.last_avail })
      → vq'.last_avail ≡ add16 vq.last_avail 1
      → IsReady vq
      → IsReady vq'
  kept-IsReady vq vq' kept moved (room, small, word, sound) = (
    kept.room_of ∙ room ∙ sym kept.chain_of,
    omega (arith, kept.chain_of),
    omega (arith, moved),
    subst (λ mm. All IsMapped mm.regions) (sym kept.mm_of) sound,
  )

  -- A round of the loop and the rest of it.
  serve_next :
      (n : ℕ) (vq : Virtq) (s : S)
      → IsReady vq
      → ((vq' : Virtq) (s' : S) → IsReady vq' → IsPrefixTaken n vq' s' (serve read handle n vq' s'))
      → (m : Option (Dequeued S))
      → IsOneTaken vq s (get_or vq.avail.ring (vq.last_avail % vq.qsz) 0) m
      → IsPrefixTaken
          (suc n)
          vq
          s
          (unless_broken read handle m (λ vq' s'. serve read handle n (count_request vq') s'))
  unfolding unless_broken mark_broken count_request
  serve_next n vq s ready rest m (d, e, inl (code, failed, same_vq, same_s)) =
      rw (e, failed)
        (
          _,
          refl,
          (
            0,
            omega arith,
            omega (arith, ap (λ q. q.last_avail) same_vq, ready.2),
            ap trace same_s,
            λ ok. cc,
          ),
        )
  serve_next n vq s ready rest m (d, e, inr (fine, moved, kept, traced)) =
      let (d', e', (k, le, last, seen, whole)) =
        rest (count_request d.vq) d.state (kept-IsReady vq d.vq kept moved ready) in
      rw (e, fine)
        (
          d',
          e',
          (
            suc k,
            omega arith,
            omega arith,
            seen ∙ entries_same k vq d.vq s d.state _ kept moved traced,
            λ ok. ap suc (whole ok),
          ),
        )

  -- The loop of virtq_dequeue_many takes a prefix of the entries.
  pub serve_lem :
      (n : ℕ) (vq : Virtq) (s : S)
      → IsTraced
      → IsReady vq
      → IsPrefixTaken n vq s (serve read handle n vq s)
  unfolding serve done
  serve_lem zero vq s polite ready =
      (_, refl, (0, omega arith, ground (arith, ready.2), refl, λ e. refl))
  serve_lem (suc n) vq s polite ready = elim (Bool-cases (leb vq.qsz head)) [
    | inl past ↦ rw (past) (_, refl, (0, omega arith, ground (arith, ready.2), refl, λ e. cc))
    | inr inside ↦ rw (inside) (
        serve_next n vq s ready (λ vq' s' ready'. serve_lem n vq' s' polite ready')
          (dequeue_one read handle false head vq s) (dequeue_one_lem false head vq s polite ready))
  ]
    where
      head : ℕ
      head = get_or vq.avail.ring (vq.last_avail % vq.qsz) 0
