-- ===== src/Scheduler/Queue.antt =====
-- The order of service of Project-4's schedulers: a stable sort of the tasks of the file.
use learning_ei.Base.{
  ◌≡◌, refl, ◌∙◌, ap, sym, Bool, true, false, ◌&&◌, List, [], ◌∷◌, ◌++◌, if◌then◌else◌, inl, inr,
  Bool-cases,
}
use mathlib.Core.List.{append-nil, append_assoc}
use learning_ei.Scheduler.{Task, Slice, run, add_lines}
use learning_ei.Scheduler.Picked.{All, Picked, here, there}
use learning_ei.Scheduler.Policies.{IsPreorder}

-- A run to the end of the burst.
abbrev pub run_whole : Task → Slice
run_whole t = run t t.burst

-- The tasks of the list that `p` accepts.
abbrev pub only : (Task → Bool) → List Task → List Task
only p [] = []
only p (t ∷ rest) = if p t then t ∷ only p rest else only p rest

abbrev pub alike : (Task → Task → Bool) → Task → Task → Bool
alike le u t = le u t && le t u

abbrev pub IsOrdered : (Task → Task → Bool) → List Task → Type 0
IsOrdered le [] = Unit {0}
IsOrdered le (t ∷ rest) = All (λ u. le t u ≡ true) rest × IsOrdered le rest

-- `order` has the tasks of `lines`, the better ones first, and those that are as good as each
-- other in the order of the file.
pub record IsServed (le : Task → Task → Bool) (lines order : List Task) : Type 0 where
  pub ordered : IsOrdered le order
  pub fifo : (u : Task) → only (alike le u) order ≡ only (alike le u) lines

-- A task goes behind all that are no worse.
pub put : (Task → Task → Bool) → Task → List Task → List Task
put le t [] = t ∷ []
put le t (s ∷ rest) = let later = put le t rest in if le s t then s ∷ later else t ∷ s ∷ rest

-- The tasks of a list with the newest first, in the order of service.
unfoldable pub queue : (Task → Task → Bool) → List Task → List Task
queue le [] = []
queue le (t ∷ rest) = put le t (queue le rest)

All-map : {P Q : Task → Type 0} → ((t : Task) → P t → Q t) → (l : List Task) → All P l → All Q l
All-map f [] all = tt
All-map f (t ∷ rest) all = (f t all.0, All-map f rest all.1)

All-put :
    (P : Task → Type 0) (le : Task → Task → Bool) (t : Task) (l : List Task)
    → P t
    → All P l
    → All P (put le t l)
unfolding put
All-put P le t [] p all = (p, tt)
All-put P le t (s ∷ rest) p all = elim (Bool-cases (le s t)) [
  | inl e ↦ rw e (all.0, All-put P le t rest p all.1)
  | inr e ↦ rw e (p, all)
]

All-queue :
    (P : Task → Type 0) (le : Task → Task → Bool) (l : List Task) → All P l → All P (queue le l)
unfolding queue
All-queue P le [] all = tt
All-queue P le (t ∷ rest) all = All-put P le t (queue le rest) all.0 (All-queue P le rest all.1)

put-worse :
    (le : Task → Task → Bool) (t : Task) (l : List Task)
    → All (λ s. le s t ≡ false) l
    → put le t l ≡ t ∷ l
unfolding put
put-worse le t [] worse = refl
put-worse le t (s ∷ rest) worse = rw (worse.0) refl

-- The picked task is the first of the queue.
pub queue-Picked :
    {le : Task → Task → Bool} {u : Task} {l left : List Task}
    → Picked le u l left
    → queue le l ≡ u ∷ queue le left
unfolding queue put
queue-Picked {le = le} {u = u} (here older worse) =
    put-worse le u (queue le older) (All-queue (λ s. le s u ≡ false) le older worse)
queue-Picked (there t rest left no_worse p) = rw (queue-Picked p, no_worse) refl

and_true : (a b : Bool) → (a && b) ≡ true → (a ≡ true) × (b ≡ true)
and_true true true e = (refl, refl)
and_true true false e = cc
and_true false b e = cc

only-cons :
    (p : Task → Bool) (t : Task) (l : List Task) → only p (t ∷ []) ++ only p l ≡ only p (t ∷ l)
only-cons p t l = elim (Bool-cases (p t)) [ inl e ↦ rw e refl | inr e ↦ rw e refl ]

cons-back : (t : Task) (l : List Task) → l ≡ [] → t ∷ l ≡ l ++ (t ∷ [])
cons-back t l e = rw e refl

module _ {le : Task → Task → Bool} (order : IsPreorder le) where
  put-IsOrdered : (t : Task) (l : List Task) → IsOrdered le l → IsOrdered le (put le t l)
  unfolding put
  put-IsOrdered t [] o = (tt, tt)
  put-IsOrdered t (s ∷ rest) o = elim (Bool-cases (le s t)) [
    | inl e ↦ rw e (All-put (λ u. le s u ≡ true) le t rest e o.0, put-IsOrdered t rest o.1)
    | inr e ↦
        let better = order.total s t e in
        rw e ((better, All-map (λ u. order.transitive t s u better) rest o.0), o)
  ]

  queue-IsOrdered : (l : List Task) → IsOrdered le (queue le l)
  unfolding queue
  queue-IsOrdered [] = tt
  queue-IsOrdered (t ∷ rest) = put-IsOrdered t (queue le rest) (queue-IsOrdered rest)

  alike→le : (u s t : Task) → alike le u s ≡ true → alike le u t ≡ true → le s t ≡ true
  alike→le u s t like like' =
      order.transitive s u t (and_true (le u s) (le s u) like).1
        (and_true (le u t) (le t u) like').0

  worse_later : (s t v : Task) → le s t ≡ false → le s v ≡ true → le v t ≡ false
  worse_later s t v worse later = elim (Bool-cases (le v t)) [
    | inl e ↦ cc (order.transitive s v t later e)
    | inr e ↦ e
  ]

  -- What is worse than `t` is not like `u`, if `t` is.
  only-worse :
      (u t : Task) (l : List Task)
      → alike le u t ≡ true
      → All (λ s. le s t ≡ false) l
      → only (alike le u) l ≡ []
  only-worse u t [] like worse = refl
  only-worse u t (s ∷ rest) like worse = elim (Bool-cases (alike le u s)) [
    | inl e ↦ cc (alike→le u s t e like, worse.0)
    | inr e ↦ rw e (only-worse u t rest like worse.1)
  ]

  only-put :
      (u t : Task) (l : List Task)
      → IsOrdered le l
      → only (alike le u) (put le t l) ≡ only (alike le u) l ++ only (alike le u) (t ∷ [])
  unfolding put
  only-put u t [] o = refl
  only-put u t (s ∷ rest) o = elim (Bool-cases (le s t)) [
    | inl e ↦ elim (Bool-cases (alike le u s)) [
      | inl like ↦ rw (e, like) (ap (λ q. s ∷ q) (only-put u t rest o.1))
      | inr other ↦ rw (e, other) (only-put u t rest o.1)
    ]
    | inr e ↦ elim (Bool-cases (alike le u t)) [
      | inl like ↦
          rw (e, like)
            (cons-back t (only (alike le u) (s ∷ rest))
              (only-worse u t (s ∷ rest) like (e, All-map (λ v. worse_later s t v e) rest o.0)))
      | inr other ↦ rw (e, other) (sym (append-nil (only (alike le u) (s ∷ rest))))
    ]
  ]

  only-queue :
      (u : Task) (lines list : List Task)
      → only (alike le u) (queue le (add_lines lines list))
        ≡ only (alike le u) (queue le list) ++ only (alike le u) lines
  unfolding queue add_lines
  only-queue u [] list = sym (append-nil (only (alike le u) (queue le list)))
  only-queue u (line ∷ lines) list =
      only-queue u lines (line ∷ list)
      ∙ ap (λ q. q ++ only (alike le u) lines)
          (only-put u line (queue le list) (queue-IsOrdered list))
      ∙ append_assoc (only (alike le u) (queue le list)) (only (alike le u) (line ∷ []))
          (only (alike le u) lines)
      ∙ ap (λ q. only (alike le u) (queue le list) ++ q) (only-cons (alike le u) line lines)

  pub queue-IsServed : (lines : List Task) → IsServed le lines (queue le (add_lines lines []))
  unfolding queue
  queue-IsServed lines = record {
    ordered = queue-IsOrdered (add_lines lines []);
    fifo = λ u. only-queue u lines [];
  }
