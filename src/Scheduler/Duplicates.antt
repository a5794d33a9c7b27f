-- ===== src/Scheduler/Duplicates.antt =====
-- What Project-4's schedulers do with any tasks, tasks of the same name included.
use learning_ei.Base.{
  ℕ, zero, suc, ◌+◌, ◌<◌, ◌≡◌, refl, ◌∙◌, ap, sym, arith, Bool, true, Option, some, List, [], ◌∷◌,
  length, replicate, inl, inr, Bool-cases,
}
use text.Mathlib.Text.{◌==◌ as str_eq}
use text.Mathlib.TextEquality.{eq_iff}
use learning_ei.Scheduler.{Task, Slice, delete, pick_fcfs, schedule_loop, schedule, add_lines, main}
use learning_ei.Scheduler.Picked.{All, Picked, here, there}
use learning_ei.Scheduler.Policies.{IsPicker, Policy, pick_of, order_of, pick_of-IsPicker}
use learning_ei.Scheduler.Queue.{run_whole}

same_name : (u t : Task) → u.name ≡ t.name → str_eq u.name t.name ≡ true
same_name u t e = (eq_iff u.name t.name).1 e

-- `delete` unlinks exactly one node, if not always the picked one.
delete-one :
    {le : Task → Task → Bool} {u : Task} {l left : List Task}
    → Picked le u l left
    → (rest : List Task) × (delete u l ≡ some rest) × (length l ≡ suc (length rest))
unfolding delete
delete-one {u = u} (here older worse) = (older, rw (same_name u u refl) refl, refl)
delete-one {u = u} (there t l left no_worse p) = elim (Bool-cases (str_eq u.name t.name)) [
  | inl same ↦ (l, rw same refl, refl)
  | inr other ↦ let (rest, e, n) = delete-one p in (t ∷ rest, rw (other, e) refl, ap suc n)
]

schedule_loop-total :
    (le : Task → Task → Bool) (pick : List Task → Option Task)
    → IsPicker le pick
    → (fuel : ℕ) (l : List Task) → length l < fuel
    → (trace : List Slice) × (schedule_loop pick fuel l ≡ some trace) × (length trace ≡ length l)
unfolding schedule_loop
schedule_loop-total le pick picks zero l enough = absurd (omega arith)
schedule_loop-total le pick picks (suc fuel) [] enough = ([], refl, refl)
schedule_loop-total le pick picks (suc fuel) (t ∷ rest) enough =
    let (u, left, e, p) = picks t rest in
    let (list, gone, n) = delete-one p in
    let (trace, served, m) = schedule_loop-total le pick picks fuel list (omega (arith, n)) in
    (run_whole u ∷ trace, rw (e, schedule_loop, gone, served) refl, omega (arith, n, m))

length-add_lines :
    (lines list : List Task) → length (add_lines lines list) ≡ length lines + length list
unfolding add_lines
length-add_lines [] list = omega arith
length-add_lines (line ∷ lines) list = omega (arith, length-add_lines lines (line ∷ list))

-- Under each of the three policies and for any tasks that `main` has read, duplicate names included, it
-- ends without following a null pointer and runs as many slices as there are tasks.
pub main-length :
    (policy : Policy) (lines : List Task)
    → (trace : List Slice) × (main (pick_of policy) lines ≡ some trace)
      × (length trace ≡ length lines)
unfolding main schedule
main-length policy lines =
    let list = add_lines lines [] in
    let (trace, e, n) =
      schedule_loop-total (order_of policy) (pick_of policy) (pick_of-IsPicker policy)
        (suc (length list)) list (omega arith) in
    (trace, e, omega (arith, n, length-add_lines lines []))

-- A list of tasks of one name whose last is `t`.
data EndsIn (t : Task) : List Task → Type 0 where
  last : EndsIn t (t ∷ [])
  newer : (u v : Task) (l : List Task) → u.name ≡ t.name → EndsIn t (v ∷ l) → EndsIn t (u ∷ v ∷ l)

pick_fcfs-EndsIn : {t : Task} {l : List Task} → EndsIn t l → pick_fcfs l ≡ some t
unfolding pick_fcfs
pick_fcfs-EndsIn last = refl
pick_fcfs-EndsIn (newer u v l same e) = pick_fcfs-EndsIn e

schedule_loop-EndsIn :
    {t : Task} (fuel : ℕ) {l : List Task}
    → EndsIn t l
    → length l < fuel
    → schedule_loop pick_fcfs fuel l ≡ some (replicate (length l) (run_whole t))
unfolding schedule_loop delete
schedule_loop-EndsIn zero e enough = absurd (omega arith)
schedule_loop-EndsIn {t = t} (suc zero) last enough = absurd (omega arith)
schedule_loop-EndsIn {t = t} (suc (suc fuel)) last enough =
    let e : EndsIn t (t ∷ []) = last in
    rw (pick_fcfs-EndsIn e, schedule_loop, same_name t t refl) refl
schedule_loop-EndsIn {t = t} (suc fuel) (newer u v l same e) enough =
    rw
      (
        pick_fcfs-EndsIn (newer u v l same e),
        schedule_loop,
        same_name t u (sym same),
        schedule_loop-EndsIn fuel e (omega arith),
      )
      refl

EndsIn-add_lines :
    {t : Task} (lines : List Task) (u : Task) (list : List Task)
    → All (λ v. v.name ≡ t.name) lines
    → EndsIn t (u ∷ list)
    → EndsIn t (add_lines lines (u ∷ list))
unfolding add_lines
EndsIn-add_lines [] u list all e = e
EndsIn-add_lines (line ∷ lines) u list all e =
    EndsIn-add_lines lines line (u ∷ list) all.1 (newer line u list all.0 e)

-- Where all tasks of the file have the name of the first one, the first-come-first-served scheduler
-- runs the first one once for every line, and none of the others.
pub main-pick_fcfs_same_name :
    (first : Task) (lines : List Task)
    → All (λ t. t.name ≡ first.name) lines
    → main pick_fcfs (first ∷ lines) ≡ some (replicate (suc (length lines)) (run_whole first))
unfolding main schedule add_lines
main-pick_fcfs_same_name first lines all =
    let list = add_lines (first ∷ lines) [] in
    let n : length list ≡ suc (length lines) = length-add_lines (first ∷ lines) [] ∙ omega arith in
    schedule_loop-EndsIn (suc (length list)) (EndsIn-add_lines lines first [] all last)
      (omega arith)
    ∙ ap (λ k. some (replicate k (run_whole first))) n
