-- ===== src/Virtq/Push/Effects.antt =====
-- What virtq_push leaves in the used ring.
use mathlib.Core.Option
-- What a push of `iov` with `len` bytes does to a queue: one element more in the used ring, at the
-- slot of the old index, and one request more in the count of the completed ones.
use yc_libvhost_server.Base.{
  ◌==◌, if◌then◌else◌, Bool-cases, Option-cases, set, add16, sub16, add64, test_bit, ℕ, ◌+◌, ◌%◌,
  ◌^◌, ◌<◌, ◌≡◌, refl, ap, ◌∙◌, inl, inr, Bool, true, not, Option, none, some, arith,
}
use yc_libvhost_server.Virtq.Inflight.{inflight_used_update, inflight_used_commit}
use yc_libvhost_server.Virtq.Push.{
  do_notify, need_notify, notify, push_memory, virtq_push, store_used_elem, log_modified,
  bump_used_idx, count_completed, log_if_any,
}
use yc_libvhost_server.Virtq.Types.{InflightRegion, Iov, Virtq}

pub record IsPushed (vq : Virtq) (iov : Iov) (len : ℕ) (vq' : Virtq) : Type 0 where
  pub idx_of : vq'.used.idx ≡ add16 vq.used.idx 1
  pub ring_of :
      vq'.used.ring
      ≡ set vq.used.ring (vq.used.idx % vq.qsz) (record { id = iov.used_head; len = len })
  pub count_of : vq'.metrics.request_completed ≡ add64 vq.metrics.request_completed 1
  pub log_of : vq'.log ≡ vq.log

-- The queue with one element more in its used ring, and `region` for its inflight region.
abbrev with_elem : Virtq → ℕ → ℕ → Option InflightRegion → Virtq
with_elem vq head len region = record vq {
  used = record (vq.used) {
    ring = set vq.used.ring (vq.used.idx % vq.qsz) (record { id = head; len = len });
    idx = add16 vq.used.idx 1;
  };
  inflight_region = region;
}

push_memory_cases :
    (vq : Virtq) (head len : ℕ)
    → push_memory vq head len ≡ with_elem vq head len (push_memory vq head len).inflight_region
unfolding push_memory inflight_used_update inflight_used_commit bump_used_idx store_used_elem
push_memory_cases vq head len = elim (Option-cases vq.inflight_region) [
  | inl no_region ↦ rw (no_region) refl
  | inr (r, e) ↦ rw (e) refl
]

notify_cases : (vq : Virtq) → notify vq ≡ record vq { signals = (notify vq).signals }
unfolding notify do_notify
notify_cases vq = elim (Bool-cases (need_notify vq)) [
  | inl needed ↦ elim (Option-cases vq.notify_fd) [
    | inl no_fd ↦ rw (needed, no_fd) refl
    | inr (fd, e) ↦ rw (needed, e) refl
  ]
  | inr quiet ↦ rw (quiet) refl
]

-- The signals that a notification makes: one, if there is an eventfd and the driver wants it.
abbrev pub signals_for : Option ℕ → Bool → ℕ
signals_for none wanted = 0
signals_for (some fd) wanted = if wanted then 1 else 0

do_notify-signals :
    (vq : Virtq) → (do_notify vq).signals ≡ vq.signals + signals_for vq.notify_fd true
unfolding do_notify
do_notify-signals vq = elim (Option-cases vq.notify_fd) [
  | inl e ↦ rw (e) (omega arith)
  | inr (fd, e) ↦ rw (e) refl
]

notify-signals :
    (vq : Virtq) → (notify vq).signals ≡ vq.signals + signals_for vq.notify_fd (need_notify vq)
unfolding notify
notify-signals vq = elim (Bool-cases (need_notify vq)) [
  | inl needed ↦ rw (needed) (do_notify-signals vq)
  | inr quiet ↦ elim (Option-cases vq.notify_fd) [
    | inl e ↦ rw (quiet, e) (omega arith)
    | inr (fd, e) ↦ rw (quiet, e) (omega arith)
  ]
]

log_modified-none :
    (vq : Virtq) (iov : Iov) (used_idx : ℕ) → vq.log ≡ none → log_modified vq iov used_idx ≡ some vq
unfolding log_modified log_if_any
log_modified-none vq iov used_idx no_log = ap (log_if_any vq iov used_idx) no_log

-- What a push without a log leaves.
pushed : Virtq → Iov → ℕ → Virtq
pushed vq iov len = count_completed (notify (push_memory vq iov.used_head len))

virtq_push-pushed :
    (vq : Virtq) (iov : Iov) (len : ℕ)
    → vq.log ≡ none
    → virtq_push vq iov len ≡ some (pushed vq iov len)
unfolding virtq_push pushed
virtq_push-pushed vq iov len no_log = ap (Option.map (λ vq'. count_completed (notify vq'))) (
    log_modified-none (push_memory vq iov.used_head len) iov (vq.used.idx % vq.qsz)
      (log_kept ∙ no_log))
  where
    log_kept : (push_memory vq iov.used_head len).log ≡ vq.log
    log_kept = ap (λ q. q.log) (push_memory_cases vq iov.used_head len)

pushed-IsPushed : (vq : Virtq) (iov : Iov) (len : ℕ) → IsPushed vq iov len (pushed vq iov len)
unfolding pushed count_completed
pushed-IsPushed vq iov len = record {
  idx_of =
      ap (λ q. q.used.idx) (notify_cases (push_memory vq iov.used_head len))
      ∙ ap (λ q. q.used.idx) (push_memory_cases vq iov.used_head len);
  ring_of =
      ap (λ q. q.used.ring) (notify_cases (push_memory vq iov.used_head len))
      ∙ ap (λ q. q.used.ring) (push_memory_cases vq iov.used_head len);
  count_of =
      ap (λ q. add64 q.metrics.request_completed 1)
        (notify_cases (push_memory vq iov.used_head len))
      ∙ ap (λ q. add64 q.metrics.request_completed 1) (push_memory_cases vq iov.used_head len);
  log_of =
      ap (λ q. q.log) (notify_cases (push_memory vq iov.used_head len))
      ∙ ap (λ q. q.log) (push_memory_cases vq iov.used_head len);
}

-- Without a log, virtq_push returns, with one element more in the used ring, at the slot of the
-- old index, and one request more in the count of the completed ones.
pub virtq_push_lem :
    (vq : Virtq) (iov : Iov) (len : ℕ)
    → vq.log ≡ none
    → (vq' : Virtq) × (virtq_push vq iov len ≡ some vq') × IsPushed vq iov len vq'
virtq_push_lem vq iov len no_log =
    (pushed vq iov len, virtq_push-pushed vq iov len no_log, pushed-IsPushed vq iov len)

-- Whether the driver wants to hear of the element that is put at the index `idx`.
abbrev pub is_awaited : Virtq → ℕ → Bool
is_awaited vq idx =
    if vq.has_event_idx then vq.avail.used_event == idx else not (test_bit vq.avail.flags 0)

need_notify-push_memory :
    (vq : Virtq) (head len : ℕ)
    → vq.used.idx < 2 ^ 16
    → need_notify (push_memory vq head len) ≡ is_awaited vq vq.used.idx
unfolding need_notify
need_notify-push_memory vq head len word =
    ap need_notify (push_memory_cases vq head len) ∙ elim (Bool-cases vq.has_event_idx) [
      | inl events ↦ rw (events, back) refl
      | inr plain ↦ rw (plain) refl
    ]
  where
    back : sub16 (add16 vq.used.idx 1) 1 ≡ vq.used.idx
    back = omega arith

-- A push without a log, with a used index of 16 bits, signals the driver once if there is an
-- eventfd and the driver awaits the element, and not otherwise: with event indices it awaits the
-- one at its `used_event`, without them all, unless it asked for no interrupts.
pub virtq_push-signals :
    (vq : Virtq) (iov : Iov) (len : ℕ)
    → vq.log ≡ none
    → vq.used.idx < 2 ^ 16
    → (vq' : Virtq) × (virtq_push vq iov len ≡ some vq')
      × (vq'.signals ≡ vq.signals + signals_for vq.notify_fd (is_awaited vq vq.used.idx))
unfolding pushed count_completed
virtq_push-signals vq iov len no_log word = (
  pushed vq iov len,
  virtq_push-pushed vq iov len no_log,
  notify-signals (push_memory vq iov.used_head len)
      ∙ ap
          (λ wanted.
            (push_memory vq iov.used_head len).signals
            + signals_for (push_memory vq iov.used_head len).notify_fd wanted)
          (need_notify-push_memory vq iov.used_head len word)
      ∙ ap (λ q. q.signals + signals_for q.notify_fd (is_awaited vq vq.used.idx))
          (push_memory_cases vq iov.used_head len),
)
