-- ===== src/RoundRobin/Priority/Lists.antt =====
-- The lists by priority of Project-4/schedule_priority_rr.c.
use learning_ei.Base.{
  ℕ, ◌≤◌, ◌≡◌, refl, arith, ◌∙◌, ap, sym, subst, Bool, true, false, Option, some, List, [], ◌∷◌,
  map, length, leb, ◌==◌, if◌then◌else◌, inl, inr, Bool-cases,
}
use learning_ei.Base.Int.{ℤ, pos, negsuc}
use learning_ei.Base.Arrays.{update, update_self, update_other}
use learning_ei.Scheduler.{Task}
use learning_ei.RoundRobin.{Heap, rounds}
use learning_ei.RoundRobin as Single
use learning_ei.RoundRobin.Priority.{max_priority, add, add_lines}
use learning_ei.RoundRobin.Chain.{IsChain, IsChain-at, IsChain-update, Absent}
use learning_ei.RoundRobin.Serve.{Job}
use learning_ei.RoundRobin.Turns.{job, Spares}
use learning_ei.RoundRobin.Holds.{
  queue_of, Below, Below-Absent, Below-suc, Holds, add-Holds, job-add, map-job-same,
}
use Prim.Native.String.{String}

-- Whether a task has the priority.
abbrev pub is_priority : ℕ → ℤ → Bool
is_priority p (pos k) = k == p
is_priority p (negsuc k) = false

-- The lines with the priority.
abbrev pub of_priority : ℕ → List Task → List Task
of_priority p [] = []
of_priority p (line ∷ lines) =
    if is_priority p line.priority then line ∷ of_priority p lines else of_priority p lines

-- Every line has a priority that is an index of the array.
abbrev pub AllInRange : List Task → Type 0
AllInRange [] = Unit {0}
AllInRange (line ∷ lines) =
    ((p : ℕ) × (line.priority ≡ pos p) × (p ≤ max_priority)) × AllInRange lines

-- No node of the first list is one of the second.
abbrev pub Apart : List ℕ → List ℕ → Type 0
Apart [] nodes = Unit {0}
Apart (k ∷ l) nodes = Absent k nodes × Apart l nodes

IsChain-same :
    (next next' : ℕ → Option ℕ) (nodes : List ℕ)
    → ((k : ℕ) → Absent k nodes → next' k ≡ next k)
    → (p : Option ℕ) (l : List ℕ) → Apart l nodes
    → IsChain next p l
    → IsChain next' p l
IsChain-same next next' nodes same p [] apart h = h
IsChain-same next next' nodes same p (k ∷ l) apart h = (
  h.0,
  IsChain-at next' (next k) (next' k) l (sym (same k apart.0))
      (IsChain-same next next' nodes same (next k) l apart.1 h.1),
)

map-job_spared :
    (m m' : Heap) (nodes l : List ℕ)
    → Spares nodes m m'
    → Apart l nodes
    → map (job m') l ≡ map (job m) l
map-job_spared m m' nodes [] s apart = refl
map-job_spared m m' nodes (k ∷ l) s apart =
    let same : job m' k ≡ job m k =
      rw (s.remaining_burst k apart.0)
        (ap (λ t. record { task = t k; remaining_burst = m.remaining_burst k }) s.task) in
    ap (λ j. j ∷ map (job m') l) same
    ∙ ap (λ q. job m k ∷ q) (map-job_spared m m' nodes l s apart.1)

-- A list that shares no node with another one stays when that one changes.
pub Holds-Spares :
    {m m' : Heap} {head : Option ℕ} {queue : List Job} {nodes : List ℕ} (v : Holds m head queue)
    → Spares nodes m m'
    → Apart v.nodes nodes
    → Holds m' head queue
Holds-Spares {m} {m'} {head} {queue} {nodes} v s apart = record {
  nodes = v.nodes;
  chain = IsChain-same m.next m'.next nodes s.next head v.nodes apart v.chain;
  used = subst (λ n. Below n v.nodes) (sym s.size) v.used;
  small = subst (λ n. length v.nodes ≤ n) (sym s.size) v.small;
  jobs = map-job_spared m m' nodes v.nodes s apart ∙ v.jobs;
}

-- So does every list when a node is inserted into another one.
Holds-add :
    (m : Heap) (head other : Option ℕ) (t : Task) (queue : List Job)
    → Holds m head queue
    → Holds (Single.add t.name t.priority t.burst other m).1 head queue
unfolding Single.add Single.insert
Holds-add m head other t queue v =
    let m' : Heap = (Single.add t.name t.priority t.burst other m).1 in
    record {
      nodes = v.nodes;
      chain =
          IsChain-update m.next head v.nodes m.size other (Below-Absent m.size v.nodes v.used)
            v.chain;
      used = Below-suc m.size v.nodes v.used;
      small = omega (arith, v.small);
      jobs = map-job-same m m' v.nodes v.used (job-add m other t) ∙ v.jobs;
    }

-- Each list of the array has its queue.
abbrev pub HoldsAll : Heap → (ℕ → Option ℕ) → (ℕ → List Job) → Type 0
HoldsAll m heads queues = (p : ℕ) → p ≤ max_priority → Holds m (heads p) (queues p)

-- The queues with one more task.
abbrev put : Task → (ℕ → List Job) → ℕ → List Job
put t queues q =
    if is_priority q t.priority
    then record { task = t; remaining_burst = t.burst } ∷ queues q
    else queues q

abbrev Added : Task → (ℕ → Option ℕ) → Heap → (ℕ → List Job) → Type 0
Added t heads m queues =
    (heads' : ℕ → Option ℕ) × (m' : Heap) × (add t.name t.priority t.burst heads m
      ≡ some (heads', m'))
    × HoldsAll m' heads' (put t queues)

add-HoldsAll :
    (name : String) (p : ℕ) (burst : ℤ) (heads : ℕ → Option ℕ) (m : Heap) (queues : ℕ → List Job)
    → p ≤ max_priority
    → HoldsAll m heads queues
    → Added (record { name = name; priority = pos p; burst = burst }) heads m queues
unfolding add
add-HoldsAll name p burst heads m queues le all =
    let t : Task = record { name = name; priority = pos p; burst = burst } in
    let (head, m') = Single.add name (pos p) burst (heads p) m in
    let fits : leb p max_priority ≡ true = ground arith in
    let self : (p == p) ≡ true = ground arith in
    (
      update heads p head,
      m',
      rw fits refl,
      λ q le'. elim (Bool-cases (p == q)) [
        | inl same ↦
            let e : p ≡ q = ground arith in
            subst (λ x. Holds m' (update heads p head x) (put t queues x)) e
              (rw (update_self heads p head, self) (add-Holds m (heads p) t (queues p) (all p le)))
        | inr other ↦
            rw (update_other heads p head q (λ e. ground arith), other)
              (Holds-add m (heads q) (heads p) t (queues q) (all q le'))
      ],
    )

queue_of-put :
    (q : ℕ) (line : Task) (lines : List Task) (queues : ℕ → List Job)
    → queue_of (of_priority q lines) (put line queues q)
      ≡ queue_of (of_priority q (line ∷ lines)) (queues q)
queue_of-put q line lines queues = elim (Bool-cases (is_priority q line.priority)) [
  | inl yours ↦ rw yours refl
  | inr other ↦ rw other refl
]

-- When all lines have been read, each list has the tasks of its priority, the last line first.
pub add_lines-HoldsAll :
    (lines : List Task) (heads : ℕ → Option ℕ) (m : Heap) (queues : ℕ → List Job)
    → AllInRange lines
    → HoldsAll m heads queues
    → (heads' : ℕ → Option ℕ) × (m' : Heap) × (add_lines lines heads m ≡ some (heads', m'))
      × HoldsAll m' heads' (λ q. queue_of (of_priority q lines) (queues q))
unfolding add_lines
add_lines-HoldsAll [] heads m queues range all = (heads, m, refl, all)
add_lines-HoldsAll (line ∷ lines) heads m queues range all =
    let (p, e, le) = range.0 in
    let (heads', m', added, all') =
      subst
        (λ r. Added (record { name = line.name; priority = r; burst = line.burst }) heads m queues)
        (sym e) (add-HoldsAll line.name p line.burst heads m queues le all) in
    let (heads'', m'', rest, all'') =
      add_lines-HoldsAll lines heads' m' (put line queues) range.1 all' in
    (
      heads'',
      m'',
      rw (added, add_lines) rest,
      λ q le'. subst (Holds m'' (heads'' q)) (queue_of-put q line lines queues) (all'' q le'),
    )
