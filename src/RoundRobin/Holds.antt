-- ===== src/RoundRobin/Holds.antt =====
-- The linked list of Project-4 as a queue of jobs, and its building from a task file.
use learning_ei.Base.{
  ℕ, ◌+◌, ◌<◌, ◌≤◌, ◌≡◌, refl, arith, ◌∙◌, ap, sym, subst, Option, none, some, List, [], ◌∷◌, ◌++◌,
  map, length,
}
use learning_ei.Base.Arrays.{update_self, update_other}
use learning_ei.Scheduler.{Task, Slice, add_lines as lines_on}
use learning_ei.Scheduler.Picked.{DistinctNames}
use learning_ei.RoundRobin.{Heap, schedule_loop, rounds, insert, add, add_lines, no_nodes}
use learning_ei.RoundRobin.Chain.{IsChain, IsChain-at, IsChain-update, Absent}
use learning_ei.RoundRobin.Serve.{Job, Serves, turns}
use learning_ei.RoundRobin.Turns.{job, IsCursor, Spares}
use learning_ei.RoundRobin.Loop.{schedule_loop-LoopServes}
use mathlib.Core.List.{append-nil}

-- The queue at the start: `insert` puts each task before those of earlier lines.
abbrev pub queue_of : List Task → List Job → List Job
queue_of [] queue = queue
queue_of (line ∷ lines) queue =
    queue_of lines (record { task = line; remaining_burst = line.burst } ∷ queue)

-- All nodes of the list are in use.
abbrev pub Below : ℕ → List ℕ → Type 0
Below size [] = Unit {0}
Below size (n ∷ l) = (n < size) × Below size l

pub Below-Absent : (size : ℕ) (l : List ℕ) → Below size l → Absent size l
Below-Absent size [] b = tt
Below-Absent size (n ∷ l) b = let lower = b.0 in ((λ e. omega arith), Below-Absent size l b.1)

pub Below-suc : (size : ℕ) (l : List ℕ) → Below size l → Below (size + 1) l
Below-suc size [] b = tt
Below-suc size (n ∷ l) b = (omega (arith, b.0), Below-suc size l b.1)

-- Where the list has the jobs of a queue.
pub record Holds (m : Heap) (head : Option ℕ) (queue : List Job) : Type 0 where
  pub nodes : List ℕ
  pub chain : IsChain m.next head nodes
  pub used : Below m.size nodes
  pub small : length nodes ≤ m.size
  pub jobs : map (job m) nodes ≡ queue

pub map-job-same :
    (m m' : Heap) (l : List ℕ)
    → Below m.size l
    → ((k : ℕ) → k < m.size → job m' k ≡ job m k)
    → map (job m') l ≡ map (job m) l
map-job-same m m' [] b same = refl
map-job-same m m' (n ∷ l) b same =
    ap (λ j. j ∷ map (job m') l) (same n b.0) ∙ ap (λ q. job m n ∷ q) (map-job-same m m' l b.1 same)

-- A new node changes no job of the others.
pub job-add :
    (m : Heap) (head : Option ℕ) (t : Task) (k : ℕ)
    → k < m.size
    → job (add t.name t.priority t.burst head m).1 k ≡ job m k
unfolding add insert
job-add m head t k lower =
    rw
      (
        update_other m.task m.size t k (λ e. omega arith),
        update_other m.remaining_burst m.size t.burst k (λ e. omega arith),
      )
      refl

pub add-Holds :
    (m : Heap) (head : Option ℕ) (t : Task) (queue : List Job)
    → Holds m head queue
    → Holds
        (add t.name t.priority t.burst head m).1
        (add t.name t.priority t.burst head m).0
        (record { task = t; remaining_burst = t.burst } ∷ queue)
unfolding add insert
add-Holds m head t queue v =
    let m' : Heap = (add t.name t.priority t.burst head m).1 in
    record {
      nodes = m.size ∷ v.nodes;
      chain = (
        refl,
        IsChain-at m'.next head (m'.next m.size) v.nodes (sym (update_self m.next m.size head)) (
            IsChain-update m.next head v.nodes m.size head (Below-Absent m.size v.nodes v.used)
              v.chain),
      );
      used = (omega arith, Below-suc m.size v.nodes v.used);
      small = omega (arith, v.small);
      jobs =
          rw (update_self m.task m.size t, update_self m.remaining_burst m.size t.burst)
            (ap (λ q. record { task = t; remaining_burst = t.burst } ∷ q)
              (map-job-same m m' v.nodes v.used (job-add m head t) ∙ v.jobs));
    }

pub add_lines-Holds :
    (lines : List Task) (head : Option ℕ) (m : Heap) (queue : List Job)
    → Holds m head queue
    → Holds (add_lines lines head m).1 (add_lines lines head m).0 (queue_of lines queue)
unfolding add_lines
add_lines-Holds [] head m queue v = v
add_lines-Holds (line ∷ lines) head m queue v =
    add_lines-Holds lines (add line.name line.priority line.burst head m).0
      (add line.name line.priority line.burst head m).1
      (record { task = line; remaining_burst = line.burst } ∷ queue) (add-Holds m head line queue v)

pub turns-queue_of :
    (lines : List Task) (queue : List Job)
    → turns (queue_of lines queue) ≡ rounds lines + turns queue
turns-queue_of [] queue = omega arith
turns-queue_of (line ∷ lines) queue =
    omega
      (arith, turns-queue_of lines (record { task = line; remaining_burst = line.burst } ∷ queue))

pub tasks-queue_of :
    (lines : List Task) (queue : List Job)
    → map (λ j. j.task) (queue_of lines queue) ≡ lines_on lines (map (λ j. j.task) queue)
unfolding lines_on
tasks-queue_of [] queue = refl
tasks-queue_of (line ∷ lines) queue =
    tasks-queue_of lines (record { task = line; remaining_burst = line.burst } ∷ queue)

pub tasks-job : (m : Heap) (l : List ℕ) → map m.task l ≡ map (λ j. j.task) (map (job m) l)
tasks-job m [] = refl
tasks-job m (n ∷ l) = ap (λ q. m.task n ∷ q) (tasks-job m l)

pub IsChain-IsCursor :
    (next : ℕ → Option ℕ) (p : Option ℕ) (l : List ℕ) → IsChain next p l → IsCursor p l
IsChain-IsCursor next p [] h = tt
IsChain-IsCursor next p (n ∷ l) h = h.0

-- The loop serves a list from its head.
pub schedule_loop-Holds :
    (fuel : ℕ) (m : Heap) (head : Option ℕ) (queue : List Job) (v : Holds m head queue)
    → DistinctNames (map (λ j. j.task) queue)
    → turns queue < fuel
    → (trace : List Slice) × (m' : Heap) × (schedule_loop fuel head head m ≡ some (trace, m'))
      × Serves queue trace
      × Spares v.nodes m m'
schedule_loop-Holds fuel m head queue v d enough =
    let straight : v.nodes ++ [] ≡ v.nodes = append-nil v.nodes in
    let apart : DistinctNames (map m.task v.nodes) =
      subst DistinctNames (sym (tasks-job m v.nodes ∙ ap (map (λ j. j.task)) v.jobs)) d in
    let (trace, m', ran, serves, spares) =
      schedule_loop-LoopServes fuel m head head [] v.nodes v.small v.chain
        (subst (IsCursor head) (sym straight) (IsChain-IsCursor m.next head v.nodes v.chain)) apart
        (omega (arith, ap (λ l. turns (map (job m) l)) straight, ap turns v.jobs)) in
    (
      trace,
      m',
      ran,
      subst (λ q. Serves q trace) (ap (map (job m)) straight ∙ v.jobs) serves,
      spares,
    )

-- Before the first line.
pub no_nodes-Holds : (task : ℕ → Task) → Holds (no_nodes task) none []
unfolding no_nodes
no_nodes-Holds task = record {
  nodes = [];
  chain = refl;
  used = tt;
  small = omega arith;
  jobs = refl;
}
