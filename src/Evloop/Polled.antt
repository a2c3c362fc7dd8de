-- ===== src/Evloop/Polled.antt =====
-- A round of bottom halves: bh_poll of event.c.
use yc_libvhost_server.Base.{
  if◌then◌else◌, if-elim, if-elim_both, ℕ, ◌<◌, ◌≡◌, refl, ap, ◌∙◌, ◌≢◌, Bool, true, false, ◌&&◌,
  ◌||◌, not, List, [], ◌∷◌, ◌++◌, arith,
}
use yc_libvhost_server.Evloop.{
  Callback, stop, user, BhFlags, Bh, Loop, bh_dequeue, free_bh, run_callback, bh_call, poll_one,
}
use yc_libvhost_server.Evloop.Linked.{is_pending, IsLinked, put-elim, pending_put, freed_put}
use yc_libvhost_server.Server.{put}
use yc_libvhost_server.Server.Sums.{sum, occurrences}

-- What bh_poll asks of the functions that bottom halves run: they leave those alone that wait for
-- their turn in this round, and do not enqueue one that is about to be freed.
pub record IsWellBehaved (user_cb : ℕ → Loop → Loop) : Type 0 where
  pub keeps :
      (k : ℕ) (local : List ℕ) (loop : Loop) → IsLinked local loop → IsLinked local (user_cb k loop)
  pub same_bh :
      (k : ℕ) (local : List ℕ) (loop : Loop) (a : ℕ)
      → IsLinked local loop
      → 0 < occurrences a local
      → (user_cb k loop).bh a ≡ loop.bh a
  pub leaves_dead :
      (k : ℕ) (local : List ℕ) (loop : Loop) (a : ℕ)
      → IsLinked local loop
      → a < loop.next_bh
      → is_pending loop a ≡ false
      → (loop.bh a).flags.deleted || (loop.bh a).flags.oneshot ≡ true
      → is_pending (user_cb k loop) a ≡ false
  pub same_calls : (k : ℕ) (loop : Loop) → (user_cb k loop).calls ≡ loop.calls
  pub same_end : (k : ℕ) (loop : Loop) → (user_cb k loop).is_terminated ≡ loop.is_terminated

bh_dequeue-IsLinked :
    (id : ℕ) (ids : List ℕ) (loop : Loop)
    → IsLinked (id ∷ ids) loop
    → IsLinked ids (bh_dequeue id loop).0
unfolding sum
bh_dequeue-IsLinked id ids loop l = record {
  once = λ a. ground (arith, l.once a, pending_put loop id a new);
  alive = λ a h. ground (arith, l.alive a, pending_put loop id a new, freed_put loop id a new);
  allocated = λ a h. ground (arith, l.allocated a h, pending_put loop id a new);
  announced = l.announced;
  signalled = l.signalled;
}
  where
    new : Bh
    new = record (loop.bh id) {
      flags = record ((loop.bh id).flags) { pending = false; scheduled = false };
    }

free_bh-IsLinked :
    (id : ℕ) (local : List ℕ) (loop : Loop)
    → is_pending loop id ≡ false
    → IsLinked local loop
    → IsLinked local (free_bh id loop)
free_bh-IsLinked id local loop dead l = record {
  once = λ a. ground (arith, l.once a, pending_put loop id a new);
  alive = λ a h. ground (arith, l.alive a, pending_put loop id a new, freed_put loop id a new);
  allocated = λ a h. ground (arith, l.allocated a h, pending_put loop id a new);
  announced = l.announced;
  signalled = l.signalled;
}
  where
    new : Bh
    new = record (loop.bh id) { freed = true }

bh_put : (loop : Loop) (i j : ℕ) (new : Bh) → j ≢ i → put i new loop.bh j ≡ loop.bh j
bh_put loop i j new n =
    put-elim (λ b. b ≡ loop.bh j) i j new loop.bh (λ e. absurd (n e)) (λ _. refl)

flags_hit : (loop : Loop) (i : ℕ) (new : Bh) → (put i new loop.bh i).flags ≡ new.flags
flags_hit loop i new =
    put-elim (λ b. b.flags ≡ new.flags) i i new loop.bh (λ e. refl) (λ n. absurd (n refl))

-- What a round does about one bottom half.
pub record Visited (id : ℕ) (ids : List ℕ) (loop out : Loop) (calls : List ℕ) : Type 0 where
  pub linked : IsLinked ids out
  pub bh_left : (a : ℕ) → 0 < occurrences a ids → out.bh a ≡ loop.bh a
  pub made : out.calls ≡ calls

module _ (user_cb : ℕ → Loop → Loop) (wb : IsWellBehaved user_cb) where
  -- A callback, on a loop that `id` was unlinked from.
  called :
      (cb : Callback) (id : ℕ) (ids : List ℕ) (loop : Loop) (calls : List ℕ)
      → IsLinked ids loop
      → id < loop.next_bh
      → is_pending loop id ≡ false
      → let out = run_callback user_cb cb (record loop { calls = calls }) in
        Visited id ids loop out calls
        × ((loop.bh id).flags.deleted || (loop.bh id).flags.oneshot ≡ true
            → is_pending out id ≡ false)
  unfolding run_callback
  called stop id ids loop calls l known dead = (
    record {
      linked = record {
        once = l.once;
        alive = l.alive;
        allocated = l.allocated;
        announced = l.announced;
        signalled = l.signalled;
      };
      bh_left = λ a h. refl;
      made = refl;
    },
    λ _. dead,
  )
  called (user k) id ids loop calls l known dead =
      let l' : IsLinked ids (record loop { calls = calls }) = record {
        once = l.once;
        alive = l.alive;
        allocated = l.allocated;
        announced = l.announced;
        signalled = l.signalled;
      } in
      (
        record {
          linked = wb.keeps k ids (record loop { calls = calls }) l';
          bh_left = λ a h. wb.same_bh k ids (record loop { calls = calls }) a l' h;
          made = wb.same_calls k (record loop { calls = calls });
        },
        λ gone. wb.leaves_dead k ids (record loop { calls = calls }) id l' known dead gone,
      )

abbrev pub is_runnable : BhFlags → Bool
is_runnable flags = flags.scheduled && not flags.deleted

module _ (user_cb : ℕ → Loop → Loop) (wb : IsWellBehaved user_cb) where
  pub poll_one-Visited :
      (id : ℕ) (ids : List ℕ) (loop : Loop)
      → IsLinked (id ∷ ids) loop
      → Visited id ids loop
          (poll_one user_cb id loop)
          (if is_runnable (loop.bh id).flags then loop.calls ++ id ∷ [] else loop.calls)
  unfolding sum
  poll_one-Visited id ids loop l =
      if-elim_both (λ s calls. Visited id ids loop (if gone then free_bh id s else s) calls)
        (is_runnable (loop.bh id).flags) (λ y. let (v, dead) = at_call in freed _ _ v dead)
        (λ n.
          freed _ _ (record { linked = taken-IsLinked; bh_left = left; made = refl })
            (λ _. unlinked))
    where
      gone : Bool
      gone = (loop.bh id).flags.deleted || (loop.bh id).flags.oneshot

      taken : Loop
      taken = (bh_dequeue id loop).0

      taken-IsLinked : IsLinked ids taken
      taken-IsLinked = bh_dequeue-IsLinked id ids loop l

      cleared :
          (taken.bh id).flags ≡ record ((loop.bh id).flags) { pending = false; scheduled = false }
      cleared = flags_hit loop id _

      unlinked : is_pending taken id ≡ false
      unlinked = ap (λ f. f.pending) cleared

      left : (a : ℕ) → 0 < occurrences a ids → taken.bh a ≡ loop.bh a
      left a h = bh_put loop id a _ (λ e. absurd (ground (arith, l.once a)))

      was_pending : is_pending loop id ≡ true
      was_pending = ground (arith, l.once id)

      at_call :
          Visited id ids loop (bh_call user_cb id taken) (loop.calls ++ id ∷ [])
          × (gone ≡ true → is_pending (bh_call user_cb id taken) id ≡ false)
      at_call =
          let (v, dead) =
            called user_cb wb (taken.bh id).cb id ids taken (loop.calls ++ id ∷ []) taken-IsLinked
              (ground (arith, l.allocated id, was_pending)) unlinked in
          (
            record { linked = v.linked; bh_left = λ a h. v.bh_left a h ∙ left a h; made = v.made },
            λ g. dead (ap (λ f. f.deleted || f.oneshot) cleared ∙ g),
          )

      freed :
          (s : Loop) (calls : List ℕ)
          → Visited id ids loop s calls
          → (gone ≡ true → is_pending s id ≡ false)
          → Visited id ids loop (if gone then free_bh id s else s) calls
      freed s calls v dead =
          if-elim (λ out. Visited id ids loop out calls) gone
            (λ g. record {
              linked = free_bh-IsLinked id ids s (dead g) v.linked;
              bh_left = λ a h.
                  put-elim (λ b. b ≡ loop.bh a) id a (record (s.bh id) { freed = true }) s.bh
                    (λ e. absurd (ground (arith, l.once a))) (λ n. v.bh_left a h);
              made = v.made;
            })
            (λ _. v)
