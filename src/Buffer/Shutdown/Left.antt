-- ===== src/Buffer/Shutdown/Left.antt =====
-- What `main` of Project-5-2 leaves, and that it never waits for ever.
use learning_ei.Base.{
  ℕ, ◌+◌, ◌≤◌, ◌<◌, ◌≢◌, ◌≡◌, refl, arith, ap, true, false, none, List, ◌++◌, inl, inr,
  Option-cases,
}
use learning_ei.Base.Int.{ℤ}
use learning_ei.Base.Family.{total-zero}
use learning_ei.Ring.{len}
use learning_ei.Ring.Laws.{contents}
use learning_ei.Closing.{Closing, Event, destroying, start, step}
use learning_ei.Closing.Laws.{IsCrew, IsClosing, reached-IsClosing, destroying-gone}
use learning_ei.Closing.Keeps.{destroying-sys, run-Keeps}
use learning_ei.Closing.Progress.{CanMove, IsBusy, not_ready, not_ending, closing-CanMove}
use learning_ei.Buffer.{Pc, System, init, pick}
use learning_ei.Buffer as Buffer
use learning_ei.Buffer.Counts.{hides_item, hides_slot, is_inside, IsCounted}
use learning_ei.Buffer.Invariant.{pick-IsCounted, init-IsCounted}
use learning_ei.Buffer.Pick.{pick-other}
use learning_ei.Buffer.Progress.{is_waiting, step-inside, step-free}
use learning_ei.Buffer.Shutdown.{is_cancellable, workers, main}

pick-beyond : (threads i : ℕ) (x : ℤ) (s : System) → threads ≤ i → pick threads i x s ≡ s
unfolding pick
pick-beyond threads i x s beyond = ground arith

pub workers-IsCrew : (threads : ℕ) → IsCrew (workers threads)
workers-IsCrew threads = record {
  local = λ (i, x) s j other. ap is_cancellable (pick-other threads i x s j other);
  stays = λ x s yet. refl;
  idle = λ (i, x) s yet outside. elim outside [
    | inl before ↦ absurd (omega arith)
    | inr beyond ↦ pick-beyond threads i x s beyond
  ];
}

pub main-IsClosing :
    (threads producers : ℕ) (events : List (Event (ℕ × ℤ)))
    → IsClosing (workers threads) (main threads producers events)
unfolding main
main-IsClosing threads producers events =
    reached-IsClosing (workers threads) (workers-IsCrew threads) (init producers) events

pub main-IsCounted :
    (threads producers : ℕ) (events : List (Event (ℕ × ℤ)))
    → let c = main threads producers events in IsCounted threads c.sys.mem c.sys.pc
unfolding main start
main-IsCounted threads producers events =
    run-Keeps (workers threads) (λ s. IsCounted threads s.mem s.pc)
      (λ (i, x) s v. pick-IsCounted i x s v) events (start (workers threads) (init producers))
      (init-IsCounted threads producers)

-- Whether thread `i` need not wait, whatever `rand` gives.
abbrev pub Moves : ℕ → ℕ → System → Type 0
Moves threads i s = (i < threads) × ((x : ℤ) → Buffer.step i x s.mem (s.pc i) ≢ none)

inside-busy : (p : Pc) → is_inside p ≡ true → is_cancellable p ≡ false
inside-busy p inside = ground arith

busy-working : (p : Pc) → is_cancellable p ≡ false → is_waiting p ≡ false
busy-working p busy = ground arith

pub busy-Moves :
    (threads : ℕ) (s : System)
    → IsCounted threads s.mem s.pc
    → IsBusy (workers threads) s
    → (k : ℕ) × Moves threads k s × (is_cancellable (s.pc k) ≡ false)
busy-Moves threads s v busy = elim (Option-cases s.mem.ring.lock) [
  | inr (k, e) ↦
      let (lower, inside) = v.owned.held k e in
      (k, (lower, λ x. step-inside k x s.mem (s.pc k) inside), inside-busy (s.pc k) inside)
  | inl free ↦ elim busy [
    | not_ready early ↦ absurd cc
    | not_ending i from below not_there ↦ (
      i,
      (below, λ x. step-free i x s.mem (s.pc i) (busy-working (s.pc i) not_there) free),
      not_there,
    )
  ]
]

-- In every interleaving of `main` with its threads, `main` has destroyed the semaphores and the mutex, or
-- some thread can go on: `main`, a cancelled thread that can end, or a thread that has not ended and need
-- not wait.
pub main-CanMove :
    (threads producers : ℕ) (events : List (Event (ℕ × ℤ)))
    → CanMove (workers threads) (Moves threads) (main threads producers events)
main-CanMove threads producers events =
    let c = main threads producers events in
    closing-CanMove (workers threads) (Moves threads) c (main-IsClosing threads producers events)
      (busy-Moves threads c.sys (main-IsCounted threads producers events))

-- What is left once the threads are joined.
pub record IsShut (threads : ℕ) (c : Closing System) : Type 0 where
  pub nobody : (i : ℕ) → i < threads → c.gone i ≡ true
  pub unlocked : c.sys.mem.ring.lock ≡ none
  pub full : c.sys.mem.full ≡ len c.sys.mem.ring
  pub empty : c.sys.mem.empty + len c.sys.mem.ring ≡ 10
  pub kept : c.sys.mem.ring.taken ++ contents c.sys.mem.ring ≡ c.sys.mem.ring.added
  pub untouched : (e : Event (ℕ × ℤ)) → (step (workers threads) e c).sys ≡ c.sys

cancellable-quiet :
    (p : Pc)
    → is_cancellable p ≡ true
    → (hides_item p ≡ 0) × (hides_slot p ≡ 0) × (is_inside p ≡ false)
cancellable-quiet p can = (ground arith, ground arith, ground arith)

quiet-unlocked :
    (threads : ℕ) (s : System)
    → IsCounted threads s.mem s.pc
    → ((i : ℕ) → i < threads → is_inside (s.pc i) ≡ false)
    → s.mem.ring.lock ≡ none
quiet-unlocked threads s v quiet = elim (Option-cases s.mem.ring.lock) [
  | inl free ↦ free
  | inr (i, e) ↦
      let (lower, inside) = v.owned.held i e in absurd (ground (arith, inside, quiet i lower))
]

-- Whatever the interleaving, once `main` has joined all threads, these have ended, the mutex is free,
-- the semaphores count the items and the free slots, every item that was inserted has been removed or
-- is still in the buffer, in order, and no thread touches any of this while `main` destroys it.
pub main-IsShut :
    (threads producers : ℕ) (events : List (Event (ℕ × ℤ))) (k : ℕ)
    → let c = main threads producers events in c.phase ≡ destroying k → IsShut threads c
main-IsShut threads producers events k at =
    let c = main threads producers events in
    let v = main-IsClosing threads producers events in
    let counted = main-IsCounted threads producers events in
    let gone : (i : ℕ) → i < threads → c.gone i ≡ true =
      λ i below. destroying-gone (workers threads) c k v at i (omega arith) below in
    let quiet = λ (i : ℕ) (below : i < threads).
      cancellable-quiet (c.sys.pc i) (v.at_point i (gone i below)) in
    let no_item = total-zero hides_item threads c.sys.pc (λ i below. (quiet i below).0) in
    let no_slot = total-zero hides_slot threads c.sys.pc (λ i below. (quiet i below).1) in
    record {
      nobody = gone;
      unlocked = quiet-unlocked threads c.sys counted (λ i below. (quiet i below).2);
      full = omega (arith, counted.items);
      empty = omega (arith, counted.free);
      kept = counted.fifo.in_order;
      untouched = destroying-sys (workers threads) c k (workers-IsCrew threads) v refl at;
    }
