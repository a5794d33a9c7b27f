-- ===== src/RoundRobin/Time.antt =====
-- For how long the round-robin scheduler of Project-4 runs each task.
use learning_ei.Base.{
  ℕ, ◌≡◌, ◌≢◌, refl, ◌∙◌, ap, sym, some, List, [], ◌∷◌, ◌++◌, if◌then◌else◌, inl, inr, Bool-cases,
}
use learning_ei.Base.Int.{ℤ, pos, ◌+ℤ◌, ◌-ℤ◌, int_laws}
use learning_ei.Scheduler.{Task, Slice}
use learning_ei.Scheduler.Picked.{All, DistinctNames}
use learning_ei.RoundRobin.{quantum, main}
use learning_ei.RoundRobin.Chain.{str_eq-same, str_eq-other}
use learning_ei.RoundRobin.Serve.{Job, Serves, served, ends, waits}
use learning_ei.RoundRobin.Holds.{queue_of}
use learning_ei.RoundRobin.Order.{main-Serves}
use Prim.Native.String.{String}
use text.Mathlib.Text.{◌==◌ as str_eq}

-- For how long a trace runs tasks of the given name, and for how long a queue is still to run them.
abbrev pub time_of : String → List Slice → ℤ
time_of name [] = pos 0
time_of name (s ∷ trace) =
    (if str_eq name s.task.name then s.slice else pos 0) +ℤ time_of name trace

abbrev owed : String → List Job → ℤ
owed name [] = pos 0
owed name (j ∷ queue) =
    (if str_eq name j.task.name then j.remaining_burst else pos 0) +ℤ owed name queue

abbrev burst_of : String → List Task → ℤ
burst_of name [] = pos 0
burst_of name (t ∷ lines) = (if str_eq name t.name then t.burst else pos 0) +ℤ burst_of name lines

sum_shift : (a b c : ℤ) → a +ℤ (b +ℤ c) ≡ a +ℤ b +ℤ c
sum_shift a b c = omega int_laws

sum_swap : (a b c : ℤ) → a +ℤ (b +ℤ c) ≡ b +ℤ a +ℤ c
sum_swap a b c = omega int_laws

sum_part : (a b c : ℤ) → a +ℤ (b +ℤ (c -ℤ a)) ≡ c +ℤ b
sum_part a b c = omega int_laws

sum_zero : (a : ℤ) → a +ℤ pos 0 ≡ a
sum_zero a = omega int_laws

zero_sum : (a : ℤ) → pos 0 +ℤ a ≡ a
zero_sum a = omega int_laws

owed-append :
    (name : String) (queue : List Job) (j : Job)
    → owed name (queue ++ (j ∷ []))
      ≡ owed name queue +ℤ (if str_eq name j.task.name then j.remaining_burst else pos 0)
owed-append name [] j = omega int_laws
owed-append name (i ∷ queue) j =
    let first = if str_eq name i.task.name then i.remaining_burst else pos 0 in
    let last = if str_eq name j.task.name then j.remaining_burst else pos 0 in
    ap (λ x. first +ℤ x) (owed-append name queue j) ∙ sum_shift first (owed name queue) last

Serves-time_of :
    (name : String) {queue : List Job} {trace : List Slice}
    → Serves queue trace
    → time_of name trace ≡ owed name queue
Serves-time_of name served = refl
Serves-time_of name (ends t r queue trace short s) =
    ap (λ x. (if str_eq name t.name then r else pos 0) +ℤ x) (Serves-time_of name s)
Serves-time_of name (waits t r queue trace more s) =
    let back : Job = record { task = t; remaining_burst = r -ℤ quantum } in
    let rest = Serves-time_of name s ∙ owed-append name queue back in
    elim (Bool-cases (str_eq name t.name)) [
      | inl same ↦
          rw same (ap (λ x. quantum +ℤ x) (rw same at rest) ∙ sum_part quantum (owed name queue) r)
      | inr other ↦ rw other (ap (λ x. pos 0 +ℤ x) (rw other at rest ∙ sum_zero (owed name queue)))
    ]

owed-queue_of :
    (name : String) (lines : List Task) (queue : List Job)
    → owed name (queue_of lines queue) ≡ burst_of name lines +ℤ owed name queue
owed-queue_of name [] queue = omega int_laws
owed-queue_of name (line ∷ lines) queue =
    let first = if str_eq name line.name then line.burst else pos 0 in
    owed-queue_of name lines (record { task = line; remaining_burst = line.burst } ∷ queue)
    ∙ sum_swap (burst_of name lines) first (owed name queue)

burst_of-other :
    (t : Task) (lines : List Task)
    → All (λ u. u.name ≢ t.name) lines
    → burst_of t.name lines ≡ pos 0
burst_of-other t [] away = refl
burst_of-other t (u ∷ lines) away =
    rw (str_eq-other t u away.0) (zero_sum (burst_of t.name lines) ∙ burst_of-other t lines away.1)

burst_of-behind :
    (u : Task) (lines l : List Task)
    → All (λ t. t.name ≢ u.name) l
    → All (λ t. burst_of t.name lines ≡ t.burst) l
    → All (λ t. burst_of t.name (u ∷ lines) ≡ t.burst) l
burst_of-behind u lines [] away all = tt
burst_of-behind u lines (t ∷ l) away all = (
  rw (str_eq-other t u (λ e. away.0 (sym e))) (zero_sum (burst_of t.name lines) ∙ all.0),
  burst_of-behind u lines l away.1 all.1,
)

burst_of-All :
    (lines : List Task) → DistinctNames lines → All (λ t. burst_of t.name lines ≡ t.burst) lines
burst_of-All [] d = tt
burst_of-All (u ∷ lines) d = (
  rw (str_eq-same u) (ap (λ x. u.burst +ℤ x) (burst_of-other u lines d.0) ∙ sum_zero u.burst),
  burst_of-behind u lines lines d.0 (burst_of-All lines d.1),
)

All-time_of :
    (trace : List Slice) (lines l : List Task)
    → ((name : String) → time_of name trace ≡ burst_of name lines)
    → All (λ t. burst_of t.name lines ≡ t.burst) l
    → All (λ t. time_of t.name trace ≡ t.burst) l
All-time_of trace lines [] same all = tt
All-time_of trace lines (t ∷ l) same all =
    (same t.name ∙ all.0, All-time_of trace lines l same all.1)

-- With distinct names, the round-robin scheduler comes to an end, and it has then run every task of the
-- file for its whole burst.
pub main-time_of :
    (task : ℕ → Task) (lines : List Task)
    → DistinctNames lines
    → (trace : List Slice) × (main task lines ≡ some trace)
      × All (λ t. time_of t.name trace ≡ t.burst) lines
main-time_of task lines d =
    let (trace, ran, serves) = main-Serves task lines d in
    let same : (name : String) → time_of name trace ≡ burst_of name lines =
      λ name. Serves-time_of name serves ∙ owed-queue_of name lines [] ∙ omega int_laws in
    (trace, ran, All-time_of trace lines lines same (burst_of-All lines d))
