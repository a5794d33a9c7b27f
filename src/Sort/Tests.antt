-- ===== src/Sort/Tests.antt =====
-- Project-3-1 on short arrays, with an insertion sort in the place of `qsort`.
use learning_ei.Base.{
  ℕ, zero, suc, ◌+◌, ◌≡◌, refl, arith, true, false, Option, none, some, List, [], ◌∷◌, length,
  if◌then◌else◌, inl, inr, Bool-cases,
}
use learning_ei.Base.Int.{ℤ, pos, ltb_ℤ, ◌≤ℤ◌, ◌-ℤ◌, ltb_ℤ→lt, ltb_ℤ→le}
use learning_ei.Sort.{copy_rest, copy_from, merge_from, merge_array}
use learning_ei.Sort.Session.{init_from, init_array, print_array, main}
use learning_ei.Sort.Session.Prints.{AllFit, Ends, main-Ends}
use learning_ei.Sort.Sorted.{AllFrom, IsSorted, one_if_same, count}
use learning_ei.Sort.Qsort.{IsQsort}

abbrev put : ℤ → List ℤ → List ℤ
put x [] = x ∷ []
put x (y ∷ l) = let rest = put x l in if ltb_ℤ y x then y ∷ rest else x ∷ y ∷ l

abbrev sorted : List ℤ → List ℤ
sorted [] = []
sorted (x ∷ l) = put x (sorted l)

abbrev by_insertion : (ℤ → ℤ → Option ℤ) → List ℤ → List ℤ
by_insertion compare l = sorted l

AllFrom-weaken : (b c : ℤ) (l : List ℤ) → b ≤ℤ c → AllFrom c l → AllFrom b l
AllFrom-weaken b c [] le h = tt
AllFrom-weaken b c (y ∷ l) le h = let first = h.0 in (omega arith, AllFrom-weaken b c l le h.1)

AllFrom-put : (b x : ℤ) (l : List ℤ) → b ≤ℤ x → AllFrom b l → AllFrom b (put x l)
AllFrom-put b x [] le h = (le, tt)
AllFrom-put b x (y ∷ l) le h = elim (Bool-cases (ltb_ℤ y x)) [
  | inl less ↦ rw less (h.0, AllFrom-put b x l le h.1)
  | inr over ↦ rw over (le, (h.0, h.1))
]

IsSorted-put : (x : ℤ) (l : List ℤ) → IsSorted l → IsSorted (put x l)
IsSorted-put x [] h = (tt, tt)
IsSorted-put x (y ∷ l) h = elim (Bool-cases (ltb_ℤ y x)) [
  | inl less ↦
      let lt = ltb_ℤ→lt y x less in
      rw less (AllFrom-put y x l (omega arith) h.0, IsSorted-put x l h.1)
  | inr over ↦ let le = ltb_ℤ→le y x over in rw over ((le, AllFrom-weaken x y l le h.0), (h.0, h.1))
]

count-put : (v x : ℤ) (l : List ℤ) → count v (put x l) ≡ one_if_same v x + count v l
count-put v x [] = refl
count-put v x (y ∷ l) = elim (Bool-cases (ltb_ℤ y x)) [
  | inl less ↦ rw less (omega (arith, count-put v x l))
  | inr over ↦ rw over refl
]

length-put : (x : ℤ) (l : List ℤ) → length (put x l) ≡ suc (length l)
length-put x [] = refl
length-put x (y ∷ l) = elim (Bool-cases (ltb_ℤ y x)) [
  | inl less ↦ rw less (omega (arith, length-put x l))
  | inr over ↦ rw over refl
]

IsSorted-sorted : (l : List ℤ) → IsSorted (sorted l)
IsSorted-sorted [] = tt
IsSorted-sorted (x ∷ l) = IsSorted-put x (sorted l) (IsSorted-sorted l)

count-sorted : (v : ℤ) (l : List ℤ) → count v (sorted l) ≡ count v l
count-sorted v [] = refl
count-sorted v (x ∷ l) = omega (arith, count-put v x (sorted l), count-sorted v l)

length-sorted : (l : List ℤ) → length (sorted l) ≡ length l
length-sorted [] = refl
length-sorted (x ∷ l) = omega (arith, length-put x (sorted l), length-sorted l)

by_insertion-IsQsort : IsQsort by_insertion
by_insertion-IsQsort = record {
  sorts = λ compare l agrees. IsSorted-sorted l;
  counts = λ compare l agrees v. count-sorted v l;
  lengths = λ compare l agrees. length-sorted l;
}

-- 1 and 4, and from index 2 on 0, 1, 2 and so on.
abbrev halves : ℕ → ℤ
halves zero = pos 1
halves (suc zero) = pos 4
halves (suc (suc i)) = pos i

merge_array_test : merge_array 5 halves ≡ some (pos 0 ∷ pos 1 ∷ pos 1 ∷ pos 2 ∷ pos 4 ∷ [])
unfolding merge_array merge_from copy_rest copy_from
merge_array_test = refl

abbrev numbers : List ℤ
numbers = pos 4 ∷ pos 1 ∷ pos 1 ∷ []

numbers-AllFit : AllFit numbers
unfolding ◌-ℤ◌
numbers-AllFit =
    ((refl, (refl, (refl, tt))), ((refl, (refl, (refl, tt))), ((refl, (refl, (refl, tt))), tt)))

main-Ends_example : Ends numbers 3 (main by_insertion false (pos 3) numbers)
main-Ends_example =
    main-Ends by_insertion false (pos 3) numbers by_insertion-IsQsort refl numbers-AllFit

-- More elements than the array has entries.
main-none : main by_insertion true (pos 101) numbers ≡ none
unfolding main init_array init_from print_array
main-none = refl
