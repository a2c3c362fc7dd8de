-- ===== src/Evloop/Rounds.antt =====
-- The whole of bh_poll in event.c: which bottom halves an iteration of the loop calls.
use mathlib.Core.Path.{subst}
use yc_libvhost_server.Base.{
  if◌then◌else◌, if-elim, append-[], append-snoc, ℕ, ◌≤◌, ◌<◌, ◌≡◌, refl, sym, ap, ◌∙◌, ◌≢◌, Bool,
  true, false, List, [], ◌∷◌, ◌++◌, arith,
}
use yc_libvhost_server.Evloop.{Bh, Loop, notify_accept, poll_one, poll_rounds, bh_poll}
use yc_libvhost_server.Evloop.Linked.{is_pending, IsLinked}
use yc_libvhost_server.Evloop.Polled.{IsWellBehaved, is_runnable, poll_one-Visited}
use yc_libvhost_server.Server.Sums.{sum, occurrences}

-- The bottom halves of a list that were scheduled and not deleted.
unfoldable pub runnable : (ℕ → Bh) → List ℕ → List ℕ
runnable bh [] = []
runnable bh (id ∷ ids) = if is_runnable (bh id).flags then id ∷ runnable bh ids else runnable bh ids

runnable_same :
    (bh bh' : ℕ → Bh) (ids : List ℕ)
    → ((a : ℕ) → 0 < occurrences a ids → bh' a ≡ bh a)
    → runnable bh' ids ≡ runnable bh ids
unfolding runnable sum
runnable_same bh bh' [] same = refl
runnable_same bh bh' (id ∷ ids) same =
    ap (λ b. if is_runnable b.flags then id ∷ runnable bh' ids else runnable bh' ids)
      (same id (ground arith))
    ∙ ap (λ l. if is_runnable (bh id).flags then id ∷ l else l)
        (runnable_same bh bh' ids (λ a h. same a (ground arith)))

runnable_le :
    (bh : ℕ → Bh) (a : ℕ) (ids : List ℕ) → occurrences a (runnable bh ids) ≤ occurrences a ids
unfolding runnable sum
runnable_le bh a [] = omega arith
runnable_le bh a (id ∷ ids) =
    if-elim (λ l. occurrences a l ≤ occurrences a (id ∷ ids)) (is_runnable (bh id).flags)
      (λ y. omega (arith, runnable_le bh a ids)) (λ n. omega (arith, runnable_le bh a ids))

runnable_all :
    (bh : ℕ → Bh) (a : ℕ) (ids : List ℕ)
    → is_runnable (bh a).flags ≡ true
    → occurrences a (runnable bh ids) ≡ occurrences a ids
unfolding runnable sum
runnable_all bh a [] r = refl
runnable_all bh a (id ∷ ids) r =
    if-elim (λ l. occurrences a l ≡ occurrences a (id ∷ ids)) (is_runnable (bh id).flags)
      (λ y. omega (arith, runnable_all bh a ids r))
      (λ n. let o = other n in ground (arith, runnable_all bh a ids r))
  where
    other : is_runnable (bh id).flags ≡ false → id ≢ a
    other n e =
        let t : is_runnable (bh id).flags ≡ true =
          subst (λ k. is_runnable (bh k).flags ≡ true) (sym e) r in
        cc

module _ (user_cb : ℕ → Loop → Loop) (wb : IsWellBehaved user_cb) where
  poll_rounds-calls :
      (ids : List ℕ) (loop : Loop)
      → IsLinked ids loop
      → let out = poll_rounds user_cb ids loop in
        IsLinked [] out × (out.calls ≡ loop.calls ++ runnable loop.bh ids)
  unfolding poll_rounds runnable
  poll_rounds-calls [] loop l = (l, sym (append-[] loop.calls))
  poll_rounds-calls (id ∷ ids) loop l =
      let v = poll_one-Visited user_cb wb id ids loop l in
      let (l', made) = poll_rounds-calls ids (poll_one user_cb id loop) v.linked in
      (
        l',
        made
            ∙ ap (λ r. (poll_one user_cb id loop).calls ++ r)
                (runnable_same loop.bh (poll_one user_cb id loop).bh ids v.bh_left)
            ∙ ap (λ c. c ++ runnable loop.bh ids) v.made
            ∙ joined loop.calls id (runnable loop.bh ids) (is_runnable (loop.bh id).flags),
      )
    where
      joined :
          (calls : List ℕ) (id : ℕ) (rest : List ℕ) (b : Bool)
          → (if b then calls ++ id ∷ [] else calls) ++ rest
            ≡ calls ++ (if b then id ∷ rest else rest)
      joined calls id rest true = append-snoc calls id rest
      joined calls id rest false = refl

-- When an event loop, on its notification or another event, polls its bottom halves, it calls
-- each that was scheduled and not deleted exactly once, those that the callbacks schedule wait for
-- the next round, and afterwards the list, the flags and the notification still agree, given that
-- the callbacks leave alone what waits in this round and what is about to be freed.
pub bh_poll-calls :
    (user_cb : ℕ → Loop → Loop) (loop : Loop)
    → IsWellBehaved user_cb
    → IsLinked [] loop
    → let out = bh_poll user_cb (notify_accept loop) in
      IsLinked [] out
      × (out.calls ≡ loop.calls ++ runnable loop.bh loop.bh_list)
      × ((a : ℕ) → occurrences a (runnable loop.bh loop.bh_list) ≤ 1)
      × ((a : ℕ)
          → is_pending loop a ≡ true
          → is_runnable (loop.bh a).flags ≡ true
          → occurrences a (runnable loop.bh loop.bh_list) ≡ 1)
unfolding sum
bh_poll-calls user_cb loop wb l =
    let (l', made) =
      if-elim
        (λ s.
          IsLinked [] (bh_poll user_cb s)
          × ((bh_poll user_cb s).calls ≡ loop.calls ++ runnable loop.bh loop.bh_list))
        loop.notified
        (λ y.
          poll_rounds-calls user_cb wb loop.bh_list
            (record loop { eventfd = 0; notified = false; bh_list = [] })
            (record {
              once = λ a. omega (arith, l.once a);
              alive = l.alive;
              allocated = l.allocated;
              announced = λ h. absurd (omega arith);
              signalled = λ h. cc;
            }))
        (λ n.
          poll_rounds-calls user_cb wb loop.bh_list (record loop { bh_list = [] })
            (record {
              once = λ a. omega (arith, l.once a);
              alive = l.alive;
              allocated = l.allocated;
              announced = λ h. absurd (omega arith);
              signalled = l.signalled;
            })) in
    (
      l',
      made,
      λ a. ground (arith, runnable_le loop.bh a loop.bh_list, l.once a),
      λ a p r. ground (arith, runnable_all loop.bh a loop.bh_list r, l.once a),
    )
