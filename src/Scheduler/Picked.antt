-- ===== src/Scheduler/Picked.antt =====
-- What the loops of `pickNextTask` pick, and what `delete` takes away, in Project-4.
use learning_ei.Base.{
  suc, ◌≡◌, refl, ap, ◌≢◌, Bool, true, false, some, List, [], ◌∷◌, length, inl, inr, Bool-cases,
}
use text.Mathlib.Text.{◌==◌ as str_eq}
use text.Mathlib.TextEquality.{eq_iff}
use learning_ei.Scheduler.{Task, delete}

-- `P` of every task of the list.
abbrev pub All : (Task → Type 0) → List Task → Type 0
All P [] = Unit {0}
All P (t ∷ rest) = P t × All P rest

abbrev pub DistinctNames : List Task → Type 0
DistinctNames [] = Unit {0}
DistinctNames (t ∷ rest) = All (λ u. u.name ≢ t.name) rest × DistinctNames rest

-- `u` stands in the first list, the second is the rest; nothing newer goes before `u` strictly, and
-- everything older comes behind it strictly.
pub data Picked (le : Task → Task → Bool) (u : Task) : List Task → List Task → Type 0 where
  here : (older : List Task) → All (λ t. le t u ≡ false) older → Picked le u (u ∷ older) older
  there :
      (t : Task) (rest left : List Task)
      → le u t ≡ true
      → Picked le u rest left
      → Picked le u (t ∷ rest) (t ∷ left)

pub Picked-All :
    {le : Task → Task → Bool} {u : Task} {l left : List Task} (P : Task → Type 0)
    → Picked le u l left
    → All P l
    → P u × All P left
Picked-All P (here older worse) all = all
Picked-All P (there t rest left no_worse p) all =
    let (at, others) = Picked-All P p all.1 in (at, (all.0, others))

pub Picked-length :
    {le : Task → Task → Bool} {u : Task} {l left : List Task}
    → Picked le u l left
    → length l ≡ suc (length left)
Picked-length (here older worse) = refl
Picked-length (there t rest left no_worse p) = ap suc (Picked-length p)

pub Picked-DistinctNames :
    {le : Task → Task → Bool} {u : Task} {l left : List Task}
    → Picked le u l left
    → DistinctNames l
    → DistinctNames left
Picked-DistinctNames (here older worse) d = d.1
Picked-DistinctNames (there t rest left no_worse p) d =
    ((Picked-All (λ u. u.name ≢ t.name) p d.0).1, Picked-DistinctNames p d.1)

str_eq_refl : (t : Task) → str_eq t.name t.name ≡ true
str_eq_refl t = (eq_iff t.name t.name).1 refl

-- With distinct names, `delete` takes the picked task and no other.
pub delete-Picked :
    {le : Task → Task → Bool} {u : Task} {l left : List Task}
    → Picked le u l left
    → DistinctNames l
    → delete u l ≡ some left
unfolding delete
delete-Picked {u = u} (here older worse) d = rw (str_eq_refl u) refl
delete-Picked {u = u} (there t rest left no_worse p) d =
    let differ : u.name ≢ t.name = (Picked-All (λ u. u.name ≢ t.name) p d.0).0 in
    elim (Bool-cases (str_eq u.name t.name)) [
      | inl same ↦ absurd (differ ((eq_iff u.name t.name).0 same))
      | inr other ↦ rw (other, delete-Picked p d.1) refl
    ]
