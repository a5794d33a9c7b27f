-- ===== src/RoundRobin/Chain.antt =====
-- The linked list of Project-4/list.c as the list of its nodes.
use learning_ei.Base.{
  ℕ, ◌≡◌, ◌≢◌, refl, arith, ap, sym, subst, true, false, Option, none, some, List, [], ◌∷◌, ◌++◌,
  map, inl, inr, Bool-cases,
}
use learning_ei.Base.Arrays.{update}
use learning_ei.Scheduler.{Task}
use learning_ei.Scheduler.Picked.{All, DistinctNames}
use text.Mathlib.Text.{◌==◌ as str_eq}
use text.Mathlib.TextEquality.{eq_iff}

-- From the pointer on, the nodes are those of the list, and then there is a null pointer.
abbrev pub IsChain : (ℕ → Option ℕ) → Option ℕ → List ℕ → Type 0
IsChain next p [] = p ≡ none
IsChain next p (n ∷ l) = (p ≡ some n) × IsChain next (next n) l

abbrev pub Absent : ℕ → List ℕ → Type 0
Absent k [] = Unit {0}
Absent k (n ∷ l) = (n ≢ k) × Absent k l

pub IsChain-at :
    (next : ℕ → Option ℕ) (p p' : Option ℕ) (l : List ℕ)
    → p ≡ p'
    → IsChain next p l
    → IsChain next p' l
IsChain-at next p p' l e h = subst (λ q. IsChain next q l) e h

pub IsChain-update :
    (next : ℕ → Option ℕ) (p : Option ℕ) (l : List ℕ) (k : ℕ) (x : Option ℕ)
    → Absent k l
    → IsChain next p l
    → IsChain (update next k x) p l
IsChain-update next p [] k x absent h = h
IsChain-update next p (n ∷ l) k x absent h =
    let other = absent.0 in
    let same : next n ≡ update next k x n = ground arith in
    (
      h.0,
      IsChain-at (update next k x) (next n) (update next k x n) l same
          (IsChain-update next (next n) l k x absent.1 h.1),
    )

-- Nodes whose tasks differ in their names differ.
pub Absent-names :
    (task : ℕ → Task) (k : ℕ) (l : List ℕ)
    → All (λ t. t.name ≢ (task k).name) (map task l)
    → Absent k l
Absent-names task k [] all = tt
Absent-names task k (n ∷ l) all =
    ((λ e. all.0 (ap (λ j. (task j).name) e)), Absent-names task k l all.1)

pub All-append :
    (P : Task → Type 0) (task : ℕ → Task) (pre : List ℕ) (n : ℕ) (post : List ℕ)
    → All P (map task (pre ++ (n ∷ post)))
    → P (task n) × All P (map task (pre ++ post)) × All P (map task pre) × All P (map task post)
All-append P task [] n post all = (all.0, all.1, tt, all.1)
All-append P task (u ∷ pre) n post all =
    let (at, both, first, second) = All-append P task pre n post all.1 in
    (at, (all.0, both), (all.0, first), second)

-- A list of distinct names without one of its nodes, whose name no other node has.
pub DistinctNames-without :
    (task : ℕ → Task) (pre : List ℕ) (n : ℕ) (post : List ℕ)
    → DistinctNames (map task (pre ++ (n ∷ post)))
    → DistinctNames (map task (pre ++ post))
      × All (λ t. t.name ≢ (task n).name) (map task (pre ++ post))
      × All (λ t. t.name ≢ (task n).name) (map task pre)
      × All (λ t. t.name ≢ (task n).name) (map task post)
DistinctNames-without task [] n post d = (d.1, d.0, tt, d.0)
DistinctNames-without task (u ∷ pre) n post d =
    let (distinct, both, first, second) = DistinctNames-without task pre n post d.1 in
    let (at, rest, _, _) = All-append (λ t. t.name ≢ (task u).name) task pre n post d.0 in
    ((rest, distinct), ((λ e. at (sym e)), both), ((λ e. at (sym e)), first), second)

pub str_eq-other : (t u : Task) → u.name ≢ t.name → str_eq t.name u.name ≡ false
str_eq-other t u differ = elim (Bool-cases (str_eq t.name u.name)) [
  | inl same ↦ absurd (differ (sym ((eq_iff t.name u.name).0 same)))
  | inr other ↦ other
]

pub str_eq-same : (t : Task) → str_eq t.name t.name ≡ true
str_eq-same t = (eq_iff t.name t.name).1 refl
