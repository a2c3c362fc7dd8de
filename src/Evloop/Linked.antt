-- ===== src/Evloop/Linked.antt =====
-- Which bottom halves of event.c are linked, and which are gone.
use yc_libvhost_server.Base.{
  ◌==◌, if◌then◌else◌, ==_iff, if-elim, length, ℕ, ◌+◌, ◌≤◌, ◌<◌, ◌≡◌, refl, ◌≢◌, Bool, true, false,
  List, ◌∷◌, arith,
}
use yc_libvhost_server.Evloop.{BhFlags, Bh, Loop, fetch_or, evloop_notify, bh_enqueue}
use yc_libvhost_server.Server.{put}
use yc_libvhost_server.Server.Sums.{sum, occurrences}

abbrev pub is_pending : Loop → ℕ → Bool
is_pending loop a = (loop.bh a).flags.pending

-- `local` is what bh_poll has taken and not visited. A bottom half is linked once if BH_PENDING
-- is set and not at all otherwise, one that was freed is not linked, and the loop is notified for
-- as long as its list holds one.
pub record IsLinked (local : List ℕ) (loop : Loop) : Type 0 where
  pub once :
      (a : ℕ)
      → occurrences a loop.bh_list + occurrences a local ≡ (if is_pending loop a then 1 else 0)
  pub alive : (a : ℕ) → is_pending loop a ≡ true → (loop.bh a).freed ≡ false
  pub allocated : (a : ℕ) → loop.next_bh ≤ a → is_pending loop a ≡ false
  pub announced : 0 < length loop.bh_list → loop.notified ≡ true
  pub signalled : loop.notified ≡ true → 0 < loop.eventfd

-- What `put` leaves, by cases.
pub put-elim {ℓ κ} :
    {A : Type ℓ} (P : A → Type κ) (i j : ℕ) (new : A) (f : ℕ → A)
    → (j ≡ i → P new)
    → (j ≢ i → P (f j))
    → P (put i new f j)
put-elim P i j new f hit miss =
    if-elim P (j == i) (λ y. hit ((==_iff j i).0 y)) (λ n. miss (λ e. ground arith))

pub pending_put :
    (loop : Loop) (i j : ℕ) (new : Bh)
    → (put i new loop.bh j).flags.pending
      ≡ (if i == j then new.flags.pending else is_pending loop j)
pending_put loop i j new =
    put-elim (λ b. b.flags.pending ≡ (if i == j then new.flags.pending else is_pending loop j)) i j
      new loop.bh (λ e. ground arith) (λ n. ground arith)

pub freed_put :
    (loop : Loop) (i j : ℕ) (new : Bh)
    → (put i new loop.bh j).freed ≡ (if i == j then new.freed else (loop.bh j).freed)
freed_put loop i j new =
    put-elim (λ b. b.freed ≡ (if i == j then new.freed else (loop.bh j).freed)) i j new loop.bh
      (λ e. ground arith) (λ n. ground arith)

notify-IsLinked :
    (local : List ℕ) (loop : Loop)
    → ((a : ℕ)
        → occurrences a loop.bh_list + occurrences a local ≡ (if is_pending loop a then 1 else 0))
    → ((a : ℕ) → is_pending loop a ≡ true → (loop.bh a).freed ≡ false)
    → ((a : ℕ) → loop.next_bh ≤ a → is_pending loop a ≡ false)
    → (loop.notified ≡ true → 0 < loop.eventfd)
    → IsLinked local (evloop_notify loop)
notify-IsLinked local loop once alive allocated signalled =
    if-elim (IsLinked local) loop.notified
      (λ y. record {
        once = once;
        alive = alive;
        allocated = allocated;
        announced = λ h. y;
        signalled = signalled;
      })
      (λ n. record {
        once = once;
        alive = alive;
        allocated = allocated;
        announced = λ h. refl;
        signalled = λ h. omega arith;
      })

-- A bottom half that was allocated and not freed may be enqueued, with any flags.
pub bh_enqueue-IsLinked :
    (id : ℕ) (new_flags : BhFlags) (local : List ℕ) (loop : Loop)
    → (loop.bh id).freed ≡ false
    → id < loop.next_bh
    → IsLinked local loop
    → IsLinked local (bh_enqueue id new_flags loop)
unfolding sum
bh_enqueue-IsLinked id new_flags local loop live known l =
    if-elim (λ s. IsLinked local (evloop_notify s)) (is_pending loop id)
      (λ y.
        notify-IsLinked local (marked loop)
          (λ a. ground (arith, l.once a, pending_put loop id a (new loop))) (λ a. still_alive a)
          (λ a h. ground (arith, l.allocated a h, pending_put loop id a (new loop))) l.signalled)
      (λ n.
        notify-IsLinked local (record (marked loop) { bh_list = id ∷ loop.bh_list })
          (λ a. ground (arith, l.once a, pending_put loop id a (new loop))) (λ a. still_alive a)
          (λ a h. ground (arith, l.allocated a h, pending_put loop id a (new loop))) l.signalled)
  where
    new : Loop → Bh
    new s = record (s.bh id) {
      flags = fetch_or (s.bh id).flags (record new_flags { pending = true });
    }

    marked : Loop → Loop
    marked s = record s { bh = put id (new s) s.bh }

    still_alive : (a : ℕ) → is_pending (marked loop) a ≡ true → ((marked loop).bh a).freed ≡ false
    still_alive a h =
        ground (arith, l.alive a, pending_put loop id a (new loop), freed_put loop id a (new loop))
