-- ===== src/Scheduler/Policies.antt =====
-- What each `pickNextTask` of Project-4 picks, by the order that its policy gives to the tasks.
use learning_ei.Base.{
  ◌≡◌, refl, arith, Bool, true, false, not, Option, some, List, [], ◌∷◌, inl, inr, Bool-cases,
}
use learning_ei.Base.Int.{ltb_ℤ}
use learning_ei.Scheduler.{Task, pick_fcfs, shortest_from, pick_sjf, highest_from, pick_priority}
use learning_ei.Scheduler.Picked.{All, Picked, here, there}

pub record IsPreorder (le : Task → Task → Bool) : Type 0 where
  pub reflexive : (t : Task) → le t t ≡ true
  pub total : (t u : Task) → le t u ≡ false → le u t ≡ true
  pub transitive : (t u v : Task) → le t u ≡ true → le u v ≡ true → le t v ≡ true

-- Whether `t` is no worse than `u`.
abbrev pub by_arrival : Task → Task → Bool
by_arrival t u = true

abbrev pub by_burst : Task → Task → Bool
by_burst t u = not (ltb_ℤ u.burst t.burst)

abbrev pub by_priority : Task → Task → Bool
by_priority t u = not (ltb_ℤ t.priority u.priority)

pub by_arrival-IsPreorder : IsPreorder by_arrival
by_arrival-IsPreorder = record {
  reflexive = λ t. refl;
  total = λ t u h. refl;
  transitive = λ t u v h k. refl;
}

pub by_burst-IsPreorder : IsPreorder by_burst
by_burst-IsPreorder = record {
  reflexive = λ t. ground arith;
  total = λ t u h. ground arith;
  transitive = λ t u v h k. ground arith;
}

pub by_priority-IsPreorder : IsPreorder by_priority
by_priority-IsPreorder = record {
  reflexive = λ t. ground arith;
  total = λ t u h. ground arith;
  transitive = λ t u v h k. ground arith;
}

-- From a list that is not empty, `pick` takes the oldest of the best tasks.
abbrev pub IsPicker : (Task → Task → Bool) → (List Task → Option Task) → Type 0
IsPicker le pick =
    (t : Task) (rest : List Task)
    → (u : Task) × (left : List Task) × (pick (t ∷ rest) ≡ some u) × Picked le u (t ∷ rest) left

-- The result of a loop that goes on through `rest` with `best`.
data Best (le : Task → Task → Bool) (best : Task) (rest : List Task) : Task → Type 0 where
  stayed : All (λ t. le t best ≡ false) rest → Best le best rest best
  found :
      (u : Task) (left : List Task) → Picked le u rest left → le u best ≡ true → Best le best rest u

module _ {le : Task → Task → Bool} (order : IsPreorder le) where
  Best-keep :
      (best n : Task) (rest : List Task) {u : Task}
      → le n best ≡ false
      → Best le best rest u
      → Best le best (n ∷ rest) u
  Best-keep best n rest h (stayed worse) = stayed (h, worse)
  Best-keep best n rest h (found u left p better) =
      found u (n ∷ left)
        (there n rest left (order.transitive u best n better (order.total n best h)) p) better

  Best-take :
      (best n : Task) (rest : List Task) {u : Task}
      → le n best ≡ true
      → Best le n rest u
      → Best le best (n ∷ rest) u
  Best-take best n rest h (stayed worse) = found n rest (here rest worse) h
  Best-take best n rest h (found u left p better) =
      found u (n ∷ left) (there n rest left better p) (order.transitive u n best better h)

  -- A loop that starts with the head, which it then meets again.
  Best-Picked :
      (t : Task) (rest : List Task) {u : Task}
      → Best le t (t ∷ rest) u
      → (left : List Task) × Picked le u (t ∷ rest) left
  Best-Picked t rest (stayed worse) = cc (order.reflexive t, worse.0)
  Best-Picked t rest (found u left p better) = (left, p)

shortest_from-Best :
    (best : Task) (rest : List Task) → Best by_burst best rest (shortest_from best rest)
unfolding shortest_from
shortest_from-Best best [] = stayed tt
shortest_from-Best best (n ∷ rest) = elim (Bool-cases (ltb_ℤ best.burst n.burst)) [
  | inl worse ↦
      rw worse
        (Best-keep by_burst-IsPreorder best n rest (rw worse refl) (shortest_from-Best best rest))
  | inr better ↦
      rw better
        (Best-take by_burst-IsPreorder best n rest (rw better refl) (shortest_from-Best n rest))
]

highest_from-Best :
    (best : Task) (rest : List Task) → Best by_priority best rest (highest_from best rest)
unfolding highest_from
highest_from-Best best [] = stayed tt
highest_from-Best best (n ∷ rest) = elim (Bool-cases (ltb_ℤ n.priority best.priority)) [
  | inl worse ↦
      rw worse
        (Best-keep by_priority-IsPreorder best n rest (rw worse refl) (highest_from-Best best rest))
  | inr better ↦
      rw better
        (Best-take by_priority-IsPreorder best n rest (rw better refl) (highest_from-Best n rest))
]

pub pick_sjf-IsPicker : IsPicker by_burst pick_sjf
unfolding pick_sjf
pick_sjf-IsPicker t rest =
    let (left, p) = Best-Picked by_burst-IsPreorder t rest (shortest_from-Best t (t ∷ rest)) in
    (shortest_from t (t ∷ rest), left, refl, p)

pub pick_priority-IsPicker : IsPicker by_priority pick_priority
unfolding pick_priority
pick_priority-IsPicker t rest =
    let (left, p) = Best-Picked by_priority-IsPreorder t rest (highest_from-Best t (t ∷ rest)) in
    (highest_from t (t ∷ rest), left, refl, p)

pub pick_fcfs-IsPicker : IsPicker by_arrival pick_fcfs
unfolding pick_fcfs
pick_fcfs-IsPicker t [] = (t, [], refl, here [] tt)
pick_fcfs-IsPicker t (u ∷ rest) =
    let (v, left, e, p) = pick_fcfs-IsPicker u rest in
    (v, t ∷ left, e, there t (u ∷ rest) left refl p)

-- The three files.
pub data Policy : Type 0 where
  fcfs sjf priority : Policy

abbrev pub pick_of : Policy → List Task → Option Task
pick_of fcfs = pick_fcfs
pick_of sjf = pick_sjf
pick_of priority = pick_priority

abbrev pub order_of : Policy → Task → Task → Bool
order_of fcfs = by_arrival
order_of sjf = by_burst
order_of priority = by_priority

pub pick_of-IsPicker : (policy : Policy) → IsPicker (order_of policy) (pick_of policy)
pick_of-IsPicker fcfs = pick_fcfs-IsPicker
pick_of-IsPicker sjf = pick_sjf-IsPicker
pick_of-IsPicker priority = pick_priority-IsPicker
