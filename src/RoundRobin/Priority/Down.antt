-- ===== src/RoundRobin/Priority/Down.antt =====
-- What Project-4/schedule_priority_rr.c runs of a task file.
use learning_ei.Base.{
  ℕ, zero, suc, ◌≤◌, ◌<◌, ◌≡◌, ◌≢◌, refl, arith, sym, subst, true, Option, none, some, List, [],
  ◌∷◌, ◌++◌, map, inl, inr, Bool-cases,
}
use learning_ei.Base.Int.{ℤ, pos, negsuc}
use learning_ei.Base.Arrays.{update, update_other}
use learning_ei.Scheduler.{Task, Slice}
use learning_ei.Scheduler.Picked.{All, DistinctNames}
use learning_ei.Scheduler.Order.{DistinctNames-add_lines, All-nothing}
use learning_ei.RoundRobin.{Heap, rounds, no_nodes}
use learning_ei.RoundRobin.Priority.{max_priority, schedule_from, schedule, main}
use learning_ei.RoundRobin.Chain.{Absent}
use learning_ei.RoundRobin.Serve.{Job, Serves, turns}
use learning_ei.RoundRobin.Turns.{job}
use learning_ei.RoundRobin.Holds.{
  queue_of, Holds, turns-queue_of, tasks-queue_of, schedule_loop-Holds, no_nodes-Holds,
}
use learning_ei.RoundRobin.Priority.Lists.{
  is_priority, of_priority, AllInRange, Apart, Holds-Spares, add_lines-HoldsAll,
}

-- A queue of tasks with the priority.
abbrev AllJobs : ℕ → List Job → Type 0
AllJobs p [] = Unit {0}
AllJobs p (j ∷ queue) = (is_priority p j.task.priority ≡ true) × AllJobs p queue

is_priority-eq : (p q : ℕ) (r : ℤ) → is_priority p r ≡ true → is_priority q r ≡ true → p ≡ q
is_priority-eq p q (pos k) h h' = ground arith
is_priority-eq p q (negsuc k) h h' = cc

Absent-AllJobs :
    (m : Heap) (p q k : ℕ) (l : List ℕ)
    → p ≢ q
    → is_priority q (m.task k).priority ≡ true
    → AllJobs p (map (job m) l)
    → Absent k l
Absent-AllJobs m p q k [] other at all = tt
Absent-AllJobs m p q k (u ∷ l) other at all = (
  (λ e. other (
      is_priority-eq p q (m.task k).priority
        (subst (λ x. is_priority p (m.task x).priority ≡ true) e all.0) at)),
  Absent-AllJobs m p q k l other at all.1,
)

Apart-AllJobs :
    (m : Heap) (p q : ℕ) (l nodes : List ℕ)
    → p ≢ q
    → AllJobs q (map (job m) l)
    → AllJobs p (map (job m) nodes)
    → Apart l nodes
Apart-AllJobs m p q [] nodes other all all' = tt
Apart-AllJobs m p q (k ∷ l) nodes other all all' =
    (Absent-AllJobs m p q k nodes other all.0 all', Apart-AllJobs m p q l nodes other all.1 all')

-- The queues are served from the one at `p` down to the one at 1, each to its end.
abbrev pub ServesDown : (ℕ → List Job) → ℕ → List Slice → Type 0
ServesDown queues zero trace = trace ≡ []
ServesDown queues (suc p) trace =
    (first : List Slice) × (rest : List Slice) × (trace ≡ first ++ rest)
    × Serves (queues (suc p)) first
    × ServesDown queues p rest

module _ (fuel : ℕ) (queues : ℕ → List Job)
    (d : (q : ℕ) → DistinctNames (map (λ j. j.task) (queues q)))
    (all : (q : ℕ) → AllJobs q (queues q)) (enough : (q : ℕ) → turns (queues q) < fuel) where
  schedule_from-ServesDown :
      (p : ℕ) (heads : ℕ → Option ℕ) (m : Heap)
      → ((q : ℕ) → q ≤ p → Holds m (heads q) (queues q))
      → (trace : List Slice) × (schedule_from fuel p heads m ≡ some trace)
        × ServesDown queues p trace
  unfolding schedule_from
  schedule_from-ServesDown zero heads m held = ([], refl, refl)
  schedule_from-ServesDown (suc p) heads m held =
      let v = held (suc p) (omega arith) in
      let (first, m', ran, serves, spares) =
        schedule_loop-Holds fuel m (heads (suc p)) (queues (suc p)) v (d (suc p))
          (enough (suc p)) in
      let (rest, below, down) = schedule_from-ServesDown p (update heads (suc p) none) m' (λ q le.
        let w = held q (omega arith) in
        subst (λ h. Holds m' h (queues q))
          (sym (update_other heads (suc p) none q (λ e. omega arith)))
          (Holds-Spares w spares (
            Apart-AllJobs m (suc p) q w.nodes v.nodes (λ e. omega arith)
              (subst (AllJobs q) (sym w.jobs) (all q))
              (subst (AllJobs (suc p)) (sym v.jobs) (all (suc p)))))) in
      (first ++ rest, rw (ran, schedule_from, below) refl, (first, rest, refl, serves, down))

queue_of-AllJobs :
    (q : ℕ) (lines : List Task) (queue : List Job)
    → AllJobs q queue
    → AllJobs q (queue_of (of_priority q lines) queue)
queue_of-AllJobs q [] queue all = all
queue_of-AllJobs q (line ∷ lines) queue all = elim (Bool-cases (is_priority q line.priority)) [
  | inl yours ↦ rw yours (
      queue_of-AllJobs q lines (record { task = line; remaining_burst = line.burst } ∷ queue)
        (yours, all))
  | inr other ↦ rw other (queue_of-AllJobs q lines queue all)
]

of_priority-All :
    (P : Task → Type 0) (q : ℕ) (lines : List Task) → All P lines → All P (of_priority q lines)
of_priority-All P q [] all = tt
of_priority-All P q (line ∷ lines) all = elim (Bool-cases (is_priority q line.priority)) [
  | inl yours ↦ rw yours (all.0, of_priority-All P q lines all.1)
  | inr other ↦ rw other (of_priority-All P q lines all.1)
]

of_priority-DistinctNames :
    (q : ℕ) (lines : List Task) → DistinctNames lines → DistinctNames (of_priority q lines)
of_priority-DistinctNames q [] d = tt
of_priority-DistinctNames q (line ∷ lines) d = elim (Bool-cases (is_priority q line.priority)) [
  | inl yours ↦
      rw yours (
        of_priority-All (λ u. u.name ≢ line.name) q lines d.0,
        of_priority-DistinctNames q lines d.1,
      )
  | inr other ↦ rw other (of_priority-DistinctNames q lines d.1)
]

rounds-of_priority : (q : ℕ) (lines : List Task) → rounds (of_priority q lines) ≤ rounds lines
rounds-of_priority q [] = omega arith
rounds-of_priority q (line ∷ lines) = elim (Bool-cases (is_priority q line.priority)) [
  | inl yours ↦ rw yours (omega (arith, rounds-of_priority q lines))
  | inr other ↦ rw other (omega (arith, rounds-of_priority q lines))
]

-- With distinct names and with priorities from 0 to 10, the scheduler comes to an end. It serves the
-- tasks of priority 10 as a queue, the last line first, until all have run to their end, then those of
-- priority 9, and so on down to 1.
pub main-ServesDown :
    (task : ℕ → Task) (lines : List Task)
    → DistinctNames lines
    → AllInRange lines
    → (trace : List Slice) × (main task lines ≡ some trace)
      × ServesDown (λ p. queue_of (of_priority p lines) []) max_priority trace
unfolding main schedule
main-ServesDown task lines d range =
    let queues : ℕ → List Job = λ p. queue_of (of_priority p lines) [] in
    let (heads, m, added, held) =
      add_lines-HoldsAll lines (λ p. none) (no_nodes task) (λ p. []) range
        (λ p le. no_nodes-Holds task) in
    let (trace, ran, down) =
      schedule_from-ServesDown (suc (rounds lines)) queues
        (λ q. subst DistinctNames (sym (tasks-queue_of (of_priority q lines) [])) (
          DistinctNames-add_lines (of_priority q lines) [] (of_priority-DistinctNames q lines d) tt
            (All-nothing (of_priority q lines))))
        (λ q. queue_of-AllJobs q lines [] tt)
        (λ q. omega (arith, turns-queue_of (of_priority q lines) [], rounds-of_priority q lines))
        max_priority heads m held in
    (trace, rw (added, main) ran, down)
