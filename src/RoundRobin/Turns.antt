-- ===== src/RoundRobin/Turns.antt =====
-- The loop of `schedule` of Project-4/schedule_rr.c serves the queue that starts at the cursor.
use learning_ei.Base.{
  ℕ, ◌<◌, ◌≤◌, ◌≡◌, refl, arith, ap, Option, none, some, List, [], ◌∷◌, ◌++◌, map, length,
}
use learning_ei.Base.Int.{ℤ}
use learning_ei.Base.Arrays.{update}
use learning_ei.Scheduler.{Slice}
use learning_ei.Scheduler.Picked.{DistinctNames}
use learning_ei.RoundRobin.{Heap, pick_next_task, schedule_loop}
use learning_ei.RoundRobin.Chain.{IsChain, Absent}
use learning_ei.RoundRobin.Serve.{Job, Serves, turns}

abbrev pub job : Heap → ℕ → Job
job m n = record { task = m.task n; remaining_burst = m.remaining_burst n }

-- The cursor points to the first of the queue, where there is one.
abbrev pub IsCursor : Option ℕ → List ℕ → Type 0
IsCursor p [] = Unit {0}
IsCursor p (n ∷ l) = p ≡ some n

IsChain-behind :
    (next : ℕ → Option ℕ) (p : Option ℕ) (pre : List ℕ) (n : ℕ) (post : List ℕ)
    → IsChain next p (pre ++ (n ∷ post))
    → IsChain next (next n) post
IsChain-behind next p [] n post h = h.1
IsChain-behind next p (u ∷ pre) n post h = IsChain-behind next (next u) pre n post h.1

pub IsChain-head :
    (next : ℕ → Option ℕ) (p : Option ℕ) (pre : List ℕ) (n : ℕ) (post : List ℕ)
    → IsChain next p (pre ++ (n ∷ post))
    → (h : ℕ) × (p ≡ some h) × IsCursor p (pre ++ (n ∷ [])) × IsCursor p pre
IsChain-head next p [] n post h = (n, h.0, h.0, tt)
IsChain-head next p (u ∷ pre) n post h = (u, h.0, h.0, h.0)

pub pick_next_task-IsCursor :
    (m : Heap) (head next_node : Option ℕ) (pre : List ℕ) (n : ℕ) (post : List ℕ)
    → IsChain m.next head (pre ++ (n ∷ post))
    → next_node ≡ some n
    → (c : Option ℕ) × (pick_next_task next_node head m ≡ some (n, c))
      × IsCursor c (post ++ (pre ++ (n ∷ [])))
      × IsCursor c (post ++ pre)
unfolding pick_next_task
pick_next_task-IsCursor m head next_node pre n [] h at =
    let last : m.next n ≡ none = IsChain-behind m.next head pre n [] h in
    let (_, _, first, first') = IsChain-head m.next head pre n [] h in
    (head, rw (at, pick_next_task, last) refl, first, first')
pick_next_task-IsCursor m head next_node pre n (k ∷ post) h at =
    let more = IsChain-behind m.next head pre n (k ∷ post) h in
    (some k, rw (at, pick_next_task, more.0) refl, refl, refl)

-- Another node's remaining time does not count.
pub map-job :
    (m : Heap) (n : ℕ) (left : ℤ) (l : List ℕ)
    → Absent n l
    → map (job (record m { remaining_burst = update m.remaining_burst n left })) l ≡ map (job m) l
map-job m n left [] absent = refl
map-job m n left (u ∷ l) absent =
    let other = absent.0 in
    let same : update m.remaining_burst n left u ≡ m.remaining_burst u = ground arith in
    rw (same, map-job m n left l absent.1) refl

pub map-append :
    {A : Type 0} {B : Type 0} (f : A → B) (l r : List A) → map f (l ++ r) ≡ map f l ++ map f r
map-append f [] r = refl
map-append f (a ∷ l) r = ap (λ q. f a ∷ q) (map-append f l r)

-- What the loop leaves of the heap where the list has these nodes: only they may change.
pub record Spares (nodes : List ℕ) (m m' : Heap) : Type 0 where
  pub task : m'.task ≡ m.task
  pub size : m'.size ≡ m.size
  pub next : (k : ℕ) → Absent k nodes → m'.next k ≡ m.next k
  pub remaining_burst : (k : ℕ) → Absent k nodes → m'.remaining_burst k ≡ m.remaining_burst k

-- The loop with this fuel, from any state in which it is at the first node of `post`.
abbrev pub LoopServes : ℕ → Type 0
LoopServes fuel =
    (m : Heap) (head next_node : Option ℕ) (pre post : List ℕ)
    → length (pre ++ post) ≤ m.size
    → IsChain m.next head (pre ++ post)
    → IsCursor next_node (post ++ pre)
    → DistinctNames (map m.task (pre ++ post))
    → turns (map (job m) (post ++ pre)) < fuel
    → (trace : List Slice) × (m' : Heap) × (schedule_loop fuel head next_node m ≡ some (trace, m'))
      × Serves (map (job m) (post ++ pre)) trace
      × Spares (pre ++ post) m m'
