-- ===== src/Sort/Session/Prints.antt =====
-- What Project-3-1/multithreaded_sort.c prints.
use learning_ei.Base.{
  ℕ, ◌+◌, ◌-◌, ◌/◌, ◌≤◌, ◌<◌, ◌≡◌, refl, ◌∙◌, ap, sym, subst, arith, Bool, true, Option, none, some,
  List, [], ◌∷◌, length, ltb, inl, inr, Option-cases, dec_lt,
}
use learning_ei.Base.Int.{ℤ, pos, ◌-ℤ◌}
use learning_ei.Base.Arrays.{update}
use learning_ei.Sort.{copy_from, store_from, fits_int, sort_halves}
use learning_ei.Sort.Sorted.{IsSorted, count}
use learning_ei.Sort.Store.{AllOf, AllOf-copy_from, copy_from-store_from, length-copy_from}
use learning_ei.Sort.Qsort.{IsQsort}
use learning_ei.Sort.Main.{
  Fits, IsHalved-IsSorted, IsHalved-count, sort_halves-IsHalved, merge_array-IsHalved, count-halves,
}
use learning_ei.Sort.Session.{
  max_num, init_from, size_of, init_array, print_array, Printed, finish, main,
}

init_from-store_from :
    (typed : List ℤ) (i : ℕ) (a : ℕ → ℤ)
    → i + length typed ≤ max_num
    → init_from (length typed) i typed a ≡ some (store_from i typed a)
unfolding init_from store_from
init_from-store_from [] i a fits = refl
init_from-store_from (x ∷ typed) i a fits =
    let lower : ltb i max_num ≡ true = ground arith in
    rw (lower, init_from) (init_from-store_from typed (i + 1) (update a i x) (omega arith))

-- No difference of two of them overflows.
abbrev pub AllFit : List ℤ → Type 0
AllFit l = AllOf (λ x. AllOf (λ y. fits_int (x -ℤ y) ≡ true) l) l

AllFit-Fits : (n : ℕ) (a : ℕ → ℤ) → AllFit (copy_from n 0 a) → Fits a 0 n
AllFit-Fits n a fits i j from below from' below' =
    AllOf-copy_from (λ y. fits_int (a i -ℤ y) ≡ true) n 0 a
      (AllOf-copy_from (λ x. AllOf (λ y. fits_int (x -ℤ y) ≡ true) (copy_from n 0 a)) n 0 a fits i
        from (omega arith))
      j from' (omega arith)

-- The typed numbers, both halves in order, and all of them in order.
pub record IsPrinted (typed : List ℤ) (out : Printed) : Type 0 where
  pub original : out.original ≡ typed
  pub first_length : length out.first ≡ length typed / 2
  pub first_sorted : IsSorted out.first
  pub second_sorted : IsSorted out.second
  pub halves : (v : ℤ) → count v out.first + count v out.second ≡ count v typed
  pub merged_sorted : IsSorted out.merged
  pub merged : (v : ℤ) → count v out.merged ≡ count v typed

-- How a run ends: with what is printed, or outside the array.
pub data Ends (typed : List ℤ) (size : ℕ) : Option Printed → Type 0 where
  printed : (out : Printed) → size ≤ max_num → IsPrinted typed out → Ends typed size (some out)
  outside : max_num < size → Ends typed size none

print_array-inside :
    (low size : ℕ) (a : ℕ → ℤ)
    → low + size ≤ max_num
    → print_array low size a ≡ some (copy_from size low a)
unfolding print_array
print_array-inside low size a inside = ground arith

print_array-outside :
    (low size : ℕ) (a : ℕ → ℤ) → max_num < low + size → print_array low size a ≡ none
unfolding print_array
print_array-outside low size a beyond = ground arith

module _ (qsort : (ℤ → ℤ → Option ℤ) → List ℤ → List ℤ) (in_order : Bool) where
  -- More than 100 elements are written or read outside the array.
  main-outside : (n : ℤ) (typed : List ℤ) → max_num < size_of n → main qsort in_order n typed ≡ none
  unfolding main
  main-outside n typed beyond = elim (Option-cases (init_array (size_of n) typed)) [
    | inl early ↦ rw (early, main) refl
    | inr (a, e) ↦ rw (e, main, print_array-outside 0 (size_of n) a (omega arith)) refl
  ]

  finish-IsPrinted :
      (typed : List ℤ) (a : ℕ → ℤ)
      → IsQsort qsort
      → length typed ≤ max_num
      → copy_from (length typed) 0 a ≡ typed
      → AllFit typed
      → (out : Printed) × (finish qsort in_order
            (length typed)
            (sort_halves qsort in_order (length typed) a)
            typed
          ≡ some out)
        × IsPrinted typed out
  unfolding finish
  finish-IsPrinted typed a q short same fits =
      let n = length typed in
      let b = sort_halves qsort in_order n a in
      let fit = AllFit-Fits n a (subst AllFit (sym same) fits) in
      let h = sort_halves-IsHalved q in_order n a fit in
      let (r, e, sorted, counted) = merge_array-IsHalved q n a b fit h in
      let (first_sorted, second_sorted) = IsHalved-IsSorted q n a b fit h in
      let whole : n / 2 - 0 ≡ n / 2 = omega arith in
      (
        record {
          original = typed;
          first = copy_from (n / 2) 0 b;
          second = copy_from (n - n / 2) (n / 2) b;
          merged = r;
        },
        rw
            (
              print_array-inside 0 (n / 2) b (omega arith),
              finish,
              print_array-inside (n / 2) (n - n / 2) b (omega arith),
              e,
            )
            refl,
        record {
          original = refl;
          first_length = length-copy_from (n / 2) 0 b;
          first_sorted = rw whole at first_sorted;
          second_sorted = second_sorted;
          halves = λ v.
              (rw whole at (sym (count-halves v n b)))
              ∙ (IsHalved-count q n a b fit h v ∙ ap (count v) same);
          merged_sorted = sorted;
          merged = λ v. counted v ∙ ap (count v) same;
        },
      )

  main-inside :
      (n : ℤ) (typed : List ℤ)
      → IsQsort qsort
      → length typed ≡ size_of n
      → size_of n ≤ max_num
      → AllFit typed
      → (out : Printed) × (main qsort in_order n typed ≡ some out) × IsPrinted typed out
  unfolding main init_array
  main-inside n typed q typed_all short fits =
      let a = store_from 0 typed (λ i. pos 0) in
      let same : copy_from (length typed) 0 a ≡ typed =
        copy_from-store_from (length typed) 0 typed (λ i. pos 0) refl in
      let stored = init_from-store_from typed 0 (λ i. pos 0) (omega arith) in
      let (out, e, prints) = finish-IsPrinted typed a q (omega arith) same fits in
      (
        out,
        rw (sym typed_all, main, stored, print_array-inside 0 (length typed) a (omega arith), same)
            e,
        prints,
      )

  -- If as many numbers are typed as are announced, and no difference of two of them overflows, then,
  -- whichever of the two threads comes first, `main` leaves the array where more than 100 are announced.
  -- Else it comes to an end and prints the typed numbers, then both halves, each sorted, which together
  -- have every number as often as it was typed, and then all of them sorted, as often as typed.
  pub main-Ends :
      (n : ℤ) (typed : List ℤ)
      → IsQsort qsort
      → length typed ≡ size_of n
      → AllFit typed
      → Ends typed (size_of n) (main qsort in_order n typed)
  main-Ends n typed q typed_all fits = elim (dec_lt max_num (size_of n)) [
    | yes beyond ↦ rw (main-outside n typed beyond) (outside beyond)
    | no within ↦
        let (out, e, prints) = main-inside n typed q typed_all (omega arith) fits in
        rw e (printed out (omega arith) prints)
  ]
