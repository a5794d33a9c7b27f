-- ===== src/Pool/Steps.antt =====
-- What a statement of Project-5-1 has to keep of its own share of the counts.
use learning_ei.Base.{
  ℕ, ◌+◌, ◌<◌, ◌≤◌, ◌≢◌, ◌≡◌, refl, arith, ap, sym, Bool, true, false, Option, List, ◌++◌,
  ℕ_discrete,
}
use learning_ei.Base.Arrays.{update}
use learning_ei.Base.Family.{total-update}
use learning_ei.Ring.{Ring, len}
use learning_ei.Ring.Laws.{IsFifo, lock-IsFifo}
use learning_ei.Ring.Owner.{IsOwned, stay-IsOwned, other-outside}
use learning_ei.Pool.{pool_threads, Shared, Pc, store_task, move_tail, move_head}
use learning_ei.Pool.Counts.{
  hides_task, is_inside, IsFresh, unsubmitted, is_worker, count_if, in_hand, IsCounted,
}

module _ {Task : Type 0} where
  lock-IsFresh :
      (r : Ring Task) (owner : Option ℕ) (p : Pc Task)
      → IsFresh r p
      → IsFresh (record r { lock = owner }) p
  lock-IsFresh r owner (store_task t todo) h = h
  lock-IsFresh r owner (move_tail t todo) h = h
  lock-IsFresh r owner (move_head t) h = h
  lock-IsFresh r owner p h = ground arith

  outside-IsFresh : (r : Ring Task) (p : Pc Task) → is_inside p ≡ false → IsFresh r p
  outside-IsFresh r p outside = ground arith

module _ {Task : Type 0} {tasks : List Task} {m : Shared Task} {pc : ℕ → Pc Task}
    (v : IsCounted tasks m pc) (i : ℕ) (lt : i < pool_threads) where
  -- The client is still to submit what it has not added, and a worker adds nothing.
  pub record KeepsRole (added : List Task) (p : Pc Task) : Type 0 where
    pub role : is_worker p ≡ is_worker (pc i)
    pub submits : added ++ unsubmitted p ≡ m.ring.added ++ unsubmitted (pc i)
    pub adds_none : is_worker (pc i) ≡ true → added ≡ m.ring.added

  submitted_lem :
      (added : List Task) (p : Pc Task)
      → KeepsRole added p
      → added ++ unsubmitted (update pc i p 0) ≡ tasks
  submitted_lem added p keeps = elim (ℕ_discrete 0 i) [
    | yes same ↦ ground (arith, keeps.submits, v.submitted)
    | no other ↦ ground (arith, keeps.adds_none (v.workers i (λ e. other (sym e))), v.submitted)
  ]

  moved :
      (m' : Shared Task) (p : Pc Task)
      → IsFifo m'.ring
      → len m'.ring ≤ 10
      → m'.task_cnt + hides_task p + len m.ring ≡ m.task_cnt + hides_task (pc i) + len m'.ring
      → IsOwned is_inside pool_threads m'.ring.lock (update pc i p)
      → ((j : ℕ) → j ≢ i → IsFresh m'.ring (pc j))
      → IsFresh m'.ring p
      → KeepsRole m'.ring.added p
      → ((test : Task → Bool)
          → count_if test m'.executed + in_hand test p + count_if test m.ring.taken
            ≡ count_if test m.executed + in_hand test (pc i) + count_if test m'.ring.taken)
      → IsCounted tasks m' (update pc i p)
  moved m' p fifo room items owned others mine keeps ended = record {
    fifo = fifo;
    items = omega (arith, items, v.items, total-update hides_task pool_threads pc i p lt);
    room = room;
    owned = owned;
    fresh = λ j. elim (ℕ_discrete j i) [
      | yes same ↦ ground (arith, mine)
      | no other ↦ ground (arith, others j other)
    ];
    submitted = submitted_lem m'.ring.added p keeps;
    workers = λ j q. ground (arith, v.workers j q, keeps.role);
    ended = λ test.
        omega (arith, ended test, v.ended test, total-update (in_hand test) pool_threads pc i p lt);
  }

  same-KeepsRole :
      (p : Pc Task)
      → is_worker p ≡ is_worker (pc i)
      → unsubmitted p ≡ unsubmitted (pc i)
      → KeepsRole m.ring.added p
  same-KeepsRole p role same = record {
    role = role;
    submits = ap (λ l. m.ring.added ++ l) same;
    adds_none = λ w. refl;
  }

  -- A statement that leaves the ring.
  pub stays :
      (task_cnt : ℕ) (executed : List Task) (p : Pc Task)
      → task_cnt + hides_task p ≡ m.task_cnt + hides_task (pc i)
      → is_inside p ≡ is_inside (pc i)
      → IsFresh m.ring p
      → is_worker p ≡ is_worker (pc i)
      → unsubmitted p ≡ unsubmitted (pc i)
      → ((test : Task → Bool)
          → count_if test executed + in_hand test p
            ≡ count_if test m.executed + in_hand test (pc i))
      → IsCounted tasks (record m { task_cnt = task_cnt; executed = executed }) (update pc i p)
  stays task_cnt executed p items inside mine role same ended =
      moved (record m { task_cnt = task_cnt; executed = executed }) p v.fifo v.room
        (omega (arith, items)) (stay-IsOwned v.owned i p inside) (λ j other. v.fresh j) mine
        (same-KeepsRole p role same) (λ test. omega (arith, ended test))

  -- To lock or unlock.
  pub relocks :
      (owner : Option ℕ) (p : Pc Task)
      → hides_task p ≡ hides_task (pc i)
      → IsOwned is_inside pool_threads owner (update pc i p)
      → IsFresh m.ring p
      → is_worker p ≡ is_worker (pc i)
      → unsubmitted p ≡ unsubmitted (pc i)
      → ((test : Task → Bool) → in_hand test p ≡ in_hand test (pc i))
      → IsCounted tasks (record m { ring = record m.ring { lock = owner } }) (update pc i p)
  relocks owner p items owned mine role same ended =
      moved (record m { ring = record m.ring { lock = owner } }) p (lock-IsFifo owner v.fifo) v.room
        (omega (arith, items)) owned (λ j other. lock-IsFresh m.ring owner (pc j) (v.fresh j))
        (lock-IsFresh m.ring owner p mine) (same-KeepsRole p role same)
        (λ test. omega (arith, ended test))

  -- A statement between lock and unlock.
  pub turns :
      (ring : Ring Task) (p : Pc Task)
      → ring.lock ≡ m.ring.lock
      → is_inside (pc i) ≡ true
      → is_inside p ≡ true
      → IsFifo ring
      → len ring ≤ 10
      → hides_task p + len m.ring ≡ hides_task (pc i) + len ring
      → IsFresh ring p
      → KeepsRole ring.added p
      → ((test : Task → Bool)
          → in_hand test p + count_if test m.ring.taken
            ≡ in_hand test (pc i) + count_if test ring.taken)
      → IsCounted tasks (record m { ring = ring }) (update pc i p)
  turns ring p same within inside fifo room items mine keeps ended =
      moved (record m { ring = ring }) p fifo room (omega (arith, items))
        (rw same (stay-IsOwned v.owned i p (ground (arith, within, inside))))
        (λ j other. outside-IsFresh ring (pc j) (other-outside v.owned i p within j other)) mine
        keeps (λ test. omega (arith, ended test))
