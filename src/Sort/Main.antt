-- ===== src/Sort/Main.antt =====
-- What `main` of Project-3-1/multithreaded_sort.c makes of the array.
use learning_ei.Base.{
  ℕ, ◌+◌, ◌-◌, ◌/◌, ◌≤◌, ◌<◌, ◌≡◌, refl, ◌∙◌, ap, sym, subst, arith, Bool, true, false, Option,
  some, List, length, ◌⊎◌, inl, inr,
}
use learning_ei.Base.Int.{ℤ, ◌-ℤ◌, int_laws}
use learning_ei.Sort.{copy_from, cmp, fits_int, runner, merge_array, sort_halves, main}
use learning_ei.Sort.Sorted.{IsSorted, count, count-copy_from}
use learning_ei.Sort.Merge.{merge_array-IsSorted}
use learning_ei.Sort.Store.{
  AllOf, copy_from-AllOf, store_from_outside, copy_from-congr, copy_from-store_from,
  IsSorted-IsRising, length-copy_from,
}
use learning_ei.Sort.Qsort.{Agrees, IsQsort}

cmp-Agrees : (x y : ℤ) → fits_int (x -ℤ y) ≡ true → Agrees cmp x y
cmp-Agrees x y fits = (
  x -ℤ y,
  rw fits refl,
  ((λ h. omega int_laws), (λ h. omega int_laws)),
  ((λ h. omega int_laws), (λ h. omega int_laws)),
)

-- No difference of two entries from `low` to `high` overflows.
abbrev pub Fits : (ℕ → ℤ) → ℕ → ℕ → Type 0
Fits a low high = (i j : ℕ) → low ≤ i → i < high → low ≤ j → j < high → fits_int (a i -ℤ a j) ≡ true

copy_from-Agrees :
    (k low : ℕ) (a : ℕ → ℤ)
    → Fits a low (low + k)
    → AllOf (λ x. AllOf (λ y. Agrees cmp x y) (copy_from k low a)) (copy_from k low a)
copy_from-Agrees k low a fits =
    copy_from-AllOf (λ x. AllOf (λ y. Agrees cmp x y) (copy_from k low a)) k low a
      (λ i p q.
        copy_from-AllOf (λ y. Agrees cmp (a i) y) k low a
          (λ j r s. cmp-Agrees (a i) (a j) (fits i j p q r s)))

Fits-same :
    (a b : ℕ → ℤ) (low high : ℕ)
    → ((i : ℕ) → low ≤ i → i < high → b i ≡ a i)
    → Fits a low high
    → Fits b low high
Fits-same a b low high same fits i j p q r s = rw (same i p q, same j r s) (fits i j p q r s)

-- The two halves of the array.
pub count-halves :
    (v : ℤ) (n : ℕ) (a : ℕ → ℤ)
    → count v (copy_from n 0 a)
      ≡ count v (copy_from (n / 2 - 0) 0 a) + count v (copy_from (n - n / 2) (n / 2) a)
count-halves v n a =
    let whole : (n / 2 - 0) + (n - n / 2) ≡ n = omega arith in
    let start : 0 + (n / 2 - 0) ≡ n / 2 = omega arith in
    rw (whole, start) at (count-copy_from v (n / 2 - 0) (n - n / 2) 0 a)

module _ {qsort : (ℤ → ℤ → Option ℤ) → List ℤ → List ℤ} (q : IsQsort qsort) where
  -- What a thread leaves of its entries, and of the others.
  copy_from-runner :
      (low high : ℕ) (a : ℕ → ℤ)
      → low ≤ high
      → Fits a low high
      → copy_from (high - low) low (runner qsort low high a)
        ≡ qsort cmp (copy_from (high - low) low a)
  unfolding runner
  copy_from-runner low high a le fits =
      let e : low + (high - low) ≡ high = omega arith in
      let agrees = copy_from-Agrees (high - low) low a (subst (Fits a low) (sym e) fits) in
      copy_from-store_from (high - low) low (qsort cmp (copy_from (high - low) low a)) a
        (q.lengths cmp (copy_from (high - low) low a) agrees ∙ length-copy_from (high - low) low a)

  runner_outside :
      (low high : ℕ) (a : ℕ → ℤ)
      → low ≤ high
      → Fits a low high
      → (i : ℕ) → (i < low) ⊎ (high ≤ i)
      → runner qsort low high a i ≡ a i
  unfolding runner
  runner_outside low high a le fits i out =
      let l = copy_from (high - low) low a in
      let e : low + (high - low) ≡ high = omega arith in
      let agrees = copy_from-Agrees (high - low) low a (subst (Fits a low) (sym e) fits) in
      let n : length (qsort cmp l) ≡ high - low =
        q.lengths cmp l agrees ∙ length-copy_from (high - low) low a in
      store_from_outside low (qsort cmp l) a i
        (elim out [ inl less ↦ inl less | inr more ↦ inr (omega arith) ])

  -- Both halves are sorted, whichever thread comes first.
  pub record IsHalved (n : ℕ) (a a' : ℕ → ℤ) : Type 0 where
    pub first : copy_from (n / 2 - 0) 0 a' ≡ qsort cmp (copy_from (n / 2 - 0) 0 a)
    pub second : copy_from (n - n / 2) (n / 2) a' ≡ qsort cmp (copy_from (n - n / 2) (n / 2) a)

  runner-IsHalved :
      (n : ℕ) (a : ℕ → ℤ)
      → Fits a 0 n
      → IsHalved n a (runner qsort (n / 2) n (runner qsort 0 (n / 2) a))
  runner-IsHalved n a fits =
      let half : Fits a 0 (n / 2) = λ i j p q r s. fits i j p (omega arith) r (omega arith) in
      let a1 = runner qsort 0 (n / 2) a in
      let same : (i : ℕ) → n / 2 ≤ i → i < n → a1 i ≡ a i =
        λ i p q. runner_outside 0 (n / 2) a (omega arith) half i (inr p) in
      let rest : Fits a1 (n / 2) n =
        Fits-same a a1 (n / 2) n same (λ i j p q r s. fits i j (omega arith) q (omega arith) s) in
      record {
        first =
            copy_from-congr (n / 2 - 0) 0 (runner qsort (n / 2) n a1) a1
              (λ i p q. runner_outside (n / 2) n a1 (omega arith) rest i (inl (omega arith)))
            ∙ copy_from-runner 0 (n / 2) a (omega arith) half;
        second =
            copy_from-runner (n / 2) n a1 (omega arith) rest
            ∙ ap (qsort cmp)
                (copy_from-congr (n - n / 2) (n / 2) a1 a (λ i p q. same i p (omega arith)));
      }

  runner-IsHalved_swapped :
      (n : ℕ) (a : ℕ → ℤ)
      → Fits a 0 n
      → IsHalved n a (runner qsort 0 (n / 2) (runner qsort (n / 2) n a))
  runner-IsHalved_swapped n a fits =
      let half : Fits a (n / 2) n = λ i j p q r s. fits i j (omega arith) q (omega arith) s in
      let a1 = runner qsort (n / 2) n a in
      let same : (i : ℕ) → 0 ≤ i → i < n / 2 → a1 i ≡ a i =
        λ i p q. runner_outside (n / 2) n a (omega arith) half i (inl q) in
      let rest : Fits a1 0 (n / 2) =
        Fits-same a a1 0 (n / 2) same (λ i j p q r s. fits i j p (omega arith) r (omega arith)) in
      record {
        first =
            copy_from-runner 0 (n / 2) a1 (omega arith) rest
            ∙ ap (qsort cmp) (copy_from-congr (n / 2 - 0) 0 a1 a (λ i p q. same i p (omega arith)));
        second =
            copy_from-congr (n - n / 2) (n / 2) (runner qsort 0 (n / 2) a1) a1
              (λ i p q. runner_outside 0 (n / 2) a1 (omega arith) rest i (inr p))
            ∙ copy_from-runner (n / 2) n a (omega arith) half;
      }

  pub sort_halves-IsHalved :
      (in_order : Bool) (n : ℕ) (a : ℕ → ℤ)
      → Fits a 0 n
      → IsHalved n a (sort_halves qsort in_order n a)
  unfolding sort_halves
  sort_halves-IsHalved true n a fits = runner-IsHalved n a fits
  sort_halves-IsHalved false n a fits = runner-IsHalved_swapped n a fits

  module _ (n : ℕ) (a a' : ℕ → ℤ) (fits : Fits a 0 n) (h : IsHalved n a a') where
    low-Agrees :
        AllOf
          (λ x. AllOf (λ y. Agrees cmp x y) (copy_from (n / 2 - 0) 0 a))
          (copy_from (n / 2 - 0) 0 a)
    low-Agrees =
        copy_from-Agrees (n / 2 - 0) 0 a (λ i j p q r s. fits i j p (omega arith) r (omega arith))

    high-Agrees :
        AllOf
          (λ x. AllOf (λ y. Agrees cmp x y) (copy_from (n - n / 2) (n / 2) a))
          (copy_from (n - n / 2) (n / 2) a)
    high-Agrees =
        copy_from-Agrees (n - n / 2) (n / 2) a
          (λ i j p q r s. fits i j (omega arith) (omega arith) (omega arith) (omega arith))

    pub IsHalved-IsSorted :
        IsSorted (copy_from (n / 2 - 0) 0 a') × IsSorted (copy_from (n - n / 2) (n / 2) a')
    IsHalved-IsSorted = (
      subst IsSorted (sym h.first) (q.sorts cmp (copy_from (n / 2 - 0) 0 a) low-Agrees),
      subst IsSorted (sym h.second) (q.sorts cmp (copy_from (n - n / 2) (n / 2) a) high-Agrees),
    )

    pub IsHalved-count : (v : ℤ) → count v (copy_from n 0 a') ≡ count v (copy_from n 0 a)
    IsHalved-count v =
        let same_low =
          ap (count v) h.first ∙ q.counts cmp (copy_from (n / 2 - 0) 0 a) low-Agrees v in
        let same_high =
          ap (count v) h.second ∙ q.counts cmp (copy_from (n - n / 2) (n / 2) a) high-Agrees v in
        omega (arith, count-halves v n a', count-halves v n a)

    pub merge_array-IsHalved :
        (r : List ℤ) × (merge_array n a' ≡ some r)
        × IsSorted r
        × ((v : ℤ) → count v r ≡ count v (copy_from n 0 a))
    merge_array-IsHalved =
        let (low_sorted, high_sorted) = IsHalved-IsSorted in
        let rise1 = IsSorted-IsRising (n / 2 - 0) 0 a' low_sorted in
        let rise2 = IsSorted-IsRising (n - n / 2) (n / 2) a' high_sorted in
        let (r, e, sorted, counted) =
          merge_array-IsSorted n a' (λ i j p q s. rise1 i j p q (omega arith))
            (λ i j p q s. rise2 i j p q (omega arith)) in
        (r, e, sorted, λ v. counted v ∙ IsHalved-count v)

-- If the differences of the entries do not overflow, then, whichever of the two threads comes first,
-- `main` ends, and what it prints is sorted and has every value as often as the array has it.
pub main-IsSorted :
    (qsort : (ℤ → ℤ → Option ℤ) → List ℤ → List ℤ) (in_order : Bool) (array_size : ℕ) (a : ℕ → ℤ)
    → IsQsort qsort
    → Fits a 0 array_size
    → (r : List ℤ) × (main qsort in_order array_size a ≡ some r)
      × IsSorted r
      × ((v : ℤ) → count v r ≡ count v (copy_from array_size 0 a))
unfolding main
main-IsSorted qsort in_order n a q fits =
    merge_array-IsHalved q n a (sort_halves qsort in_order n a) fits
      (sort_halves-IsHalved q in_order n a fits)
