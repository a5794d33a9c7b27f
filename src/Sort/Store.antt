-- ===== src/Sort/Store.antt =====
-- Entries of the array of Project-3-1 as lists.
use learning_ei.Base.{
  ℕ, zero, suc, ◌+◌, ◌≤◌, ◌<◌, ◌≡◌, refl, ◌∙◌, subst, arith, List, [], ◌∷◌, length, ◌⊎◌, inl, inr,
  dec_lt,
}
use learning_ei.Base.Int.{ℤ, ◌≤ℤ◌}
use learning_ei.Base.Arrays.{update, update_self, update_other}
use learning_ei.Sort.{copy_from, store_from}
use learning_ei.Sort.Sorted.{IsRising, AllFrom, IsSorted}

pub store_from_outside :
    (low : ℕ) (l : List ℤ) (a : ℕ → ℤ) (i : ℕ)
    → (i < low) ⊎ (low + length l ≤ i)
    → store_from low l a i ≡ a i
unfolding store_from
store_from_outside low [] a i out = refl
store_from_outside low (x ∷ l) a i (inl less) =
    store_from_outside (low + 1) l (update a low x) i (inl (omega arith))
    ∙ update_other a low x i (omega arith)
store_from_outside low (x ∷ l) a i (inr more) =
    store_from_outside (low + 1) l (update a low x) i (inr (omega arith))
    ∙ update_other a low x i (omega arith)

pub copy_from-congr :
    (k low : ℕ) (a b : ℕ → ℤ)
    → ((i : ℕ) → low ≤ i → i < low + k → a i ≡ b i)
    → copy_from k low a ≡ copy_from k low b
unfolding copy_from
copy_from-congr zero low a b same = refl
copy_from-congr (suc k) low a b same =
    rw
      (
        same low (omega arith) (omega arith),
        copy_from-congr k (low + 1) a b (λ i p q. same i (omega arith) (omega arith)),
      )
      refl

pub copy_from-store_from :
    (k low : ℕ) (l : List ℤ) (a : ℕ → ℤ) → length l ≡ k → copy_from k low (store_from low l a) ≡ l
unfolding copy_from store_from
copy_from-store_from zero low [] a e = refl
copy_from-store_from zero low (x ∷ l) a e = absurd (omega arith)
copy_from-store_from (suc k) low [] a e = absurd (omega arith)
copy_from-store_from (suc k) low (x ∷ l) a e =
    let first : store_from (low + 1) l (update a low x) low ≡ x =
      store_from_outside (low + 1) l (update a low x) low (inl (omega arith))
      ∙ update_self a low x in
    rw (first, copy_from-store_from k (low + 1) l (update a low x) (omega arith)) refl

AllFrom-at :
    (k low : ℕ) (a : ℕ → ℤ) (b : ℤ)
    → AllFrom b (copy_from k low a)
    → (i : ℕ) → low ≤ i
    → i < low + k
    → b ≤ℤ a i
unfolding copy_from
AllFrom-at zero low a b h i p q = absurd (omega arith)
AllFrom-at (suc k) low a b h i p q = elim (dec_lt low i) [
  | yes more ↦ AllFrom-at k (low + 1) a b h.1 i (omega arith) (omega arith)
  | no over ↦ let e : low ≡ i = omega arith in rw e at h.0
]

pub IsSorted-IsRising :
    (k low : ℕ) (a : ℕ → ℤ) → IsSorted (copy_from k low a) → IsRising a low (low + k)
unfolding copy_from
IsSorted-IsRising zero low a h i j p q r = absurd (omega arith)
IsSorted-IsRising (suc k) low a h i j p q r = elim (dec_lt low i) [
  | yes more ↦ IsSorted-IsRising k (low + 1) a h.1 i j (omega arith) q (omega arith)
  | no over ↦ elim (dec_lt i j) [
    | yes further ↦
        let e : low ≡ i = omega arith in
        rw e at (AllFrom-at k (low + 1) a (a low) h.0 j (omega arith) (omega arith))
    | no same ↦ let e : i ≡ j = omega arith in rw e (omega arith)
  ]
]

pub length-copy_from : (k low : ℕ) (a : ℕ → ℤ) → length (copy_from k low a) ≡ k
unfolding copy_from
length-copy_from zero low a = refl
length-copy_from (suc k) low a = omega (arith, length-copy_from k (low + 1) a)

-- Every entry of the list.
abbrev pub AllOf : (ℤ → Type 0) → List ℤ → Type 0
AllOf P [] = Unit {0}
AllOf P (x ∷ l) = P x × AllOf P l

pub copy_from-AllOf :
    (P : ℤ → Type 0) (k low : ℕ) (a : ℕ → ℤ)
    → ((i : ℕ) → low ≤ i → i < low + k → P (a i))
    → AllOf P (copy_from k low a)
unfolding copy_from
copy_from-AllOf P zero low a h = tt
copy_from-AllOf P (suc k) low a h = (
  h low (omega arith) (omega arith),
  copy_from-AllOf P k (low + 1) a (λ i p q. h i (omega arith) (omega arith)),
)

pub AllOf-copy_from :
    (P : ℤ → Type 0) (k low : ℕ) (a : ℕ → ℤ)
    → AllOf P (copy_from k low a)
    → (i : ℕ) → low ≤ i
    → i < low + k
    → P (a i)
unfolding copy_from
AllOf-copy_from P zero low a h i p q = absurd (omega arith)
AllOf-copy_from P (suc k) low a h i p q = elim (dec_lt low i) [
  | yes more ↦ AllOf-copy_from P k (low + 1) a h.1 i (omega arith) (omega arith)
  | no over ↦ let e : low ≡ i = omega arith in subst (λ j. P (a j)) e h.0
]
