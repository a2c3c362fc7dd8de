-- ===== src/Virtq/Dequeue/Resubmitted.antt =====
-- virtq_inflight_resubmit of virtio/virt_queue.c: which requests the device gets again.
use yc_libvhost_server.Base.{ℕ, ◌≡◌, Option, none, some, List, [], ◌∷◌, ◌++◌}
use yc_libvhost_server.Virtq.Dequeue.{Dequeued}
use yc_libvhost_server.Virtq.Inflight.{Resubmit}
use yc_libvhost_server.Virtq.Types.{Desc, Iov, Virtq}

-- The heads of these requests, the last one first, before those of `earlier`.
abbrev pub heads_onto : List Resubmit → List ℕ → List ℕ
heads_onto [] earlier = earlier
heads_onto (x ∷ xs) earlier = heads_onto xs (x.head ∷ earlier)

module _ {S : Type 0} (read : S → ℕ → Desc) (handle : Virtq → S → Iov → Virtq × S)
    (trace : S → List ℕ) where
  -- The handler has got the first requests of the array, in its order, and all if there is no
  -- error.
  abbrev pub AreTaken : List Resubmit → Virtq → S → Option (Dequeued S) → Type 0
  AreTaken xs vq s m =
      (d : Dequeued S) × (m ≡ some d)
      × ((taken : List Resubmit) × (left : List Resubmit) × (xs ≡ taken ++ left)
          × (trace d.state ≡ heads_onto taken (trace s))
          × (d.res ≡ none → left ≡ []))
