-- ===== src/Sort/Merge.antt =====
-- What `merge_array` of Project-3-1/multithreaded_sort.c makes of two sorted halves.
use learning_ei.Base.{
  ℕ, zero, suc, ◌+◌, ◌-◌, ◌/◌, ◌≤◌, ◌<◌, ◌≡◌, refl, ◌∙◌, sym, arith, true, false, ◌&&◌, some, List,
  [], ◌∷◌, ltb, inl, inr, Bool-cases, dec_lt,
}
use learning_ei.Base.Int.{ℤ, ltb_ℤ, ◌≤ℤ◌, ltb_ℤ→lt, ltb_ℤ→le}
use learning_ei.Sort.{copy_from, copy_rest, merge_from, merge_array}
use learning_ei.Sort.Sorted.{
  IsRising, AllFrom, IsSorted, count, copy_from-AllFrom, copy_from-IsSorted, count-copy_from,
}

-- What the loops write, from where they stand on.
record Merged (a : ℕ → ℤ) (low1 high1 low2 high2 : ℕ) (r : List ℤ) : Type 0 where
  bounded :
      (b : ℤ)
      → ((i : ℕ) → low1 ≤ i → i < high1 → b ≤ℤ a i)
      → ((i : ℕ) → low2 ≤ i → i < high2 → b ≤ℤ a i)
      → AllFrom b r
  sorted : IsSorted r
  counted :
      (v : ℤ)
      → count v r
        ≡ count v (copy_from (high1 - low1) low1 a) + count v (copy_from (high2 - low2) low2 a)

copy_from-used_up : (a : ℕ → ℤ) (low high : ℕ) → high ≤ low → copy_from (high - low) low a ≡ []
unfolding copy_from
copy_from-used_up a low high over = let e : high - low ≡ 0 = omega arith in rw e refl

copy_from-step :
    (a : ℕ → ℤ) (low high : ℕ)
    → low < high
    → copy_from (high - low) low a ≡ a low ∷ copy_from (high - (low + 1)) (low + 1) a
unfolding copy_from
copy_from-step a low high more =
    let e : high - low ≡ suc (high - (low + 1)) = omega arith in rw e refl

-- One half is used up: the other one is copied.
copy_rest-Merged :
    (a : ℕ → ℤ) (low1 high1 low2 high2 : ℕ)
    → IsRising a low1 high1
    → IsRising a low2 high2
    → (ltb low1 high1 && ltb low2 high2) ≡ false
    → Merged a low1 high1 low2 high2 (copy_rest low1 high1 low2 high2 a)
unfolding copy_rest
copy_rest-Merged a low1 high1 low2 high2 rise1 rise2 done = elim (dec_lt low2 high2) [
  | yes more ↦
      let used_up : copy_from (high1 - low1) low1 a ≡ [] =
        copy_from-used_up a low1 high1 (ground arith) in
      let e : ltb low2 high2 ≡ true = ground arith in
      rw e (record {
        bounded =
            λ b h1 h2. copy_from-AllFrom a b (high2 - low2) low2 (λ i p q. h2 i p (omega arith));
        sorted =
            copy_from-IsSorted a (high2 - low2) low2 (λ i j p q s. rise2 i j p q (omega arith));
        counted = λ v. rw used_up (omega arith);
      })
  | no over ↦
      let used_up : copy_from (high2 - low2) low2 a ≡ [] =
        copy_from-used_up a low2 high2 (omega arith) in
      let e : ltb low2 high2 ≡ false = ground arith in
      rw e (record {
        bounded =
            λ b h1 h2. copy_from-AllFrom a b (high1 - low1) low1 (λ i p q. h1 i p (omega arith));
        sorted =
            copy_from-IsSorted a (high1 - low1) low1 (λ i j p q s. rise1 i j p q (omega arith));
        counted = λ v. rw used_up (omega arith);
      })
]

module _ (a : ℕ → ℤ) (low1 high1 low2 high2 : ℕ) (r : List ℤ) where
  -- The entry of the first half is smaller.
  take_first :
      low1 < high1
      → a low1 ≤ℤ a low2
      → IsRising a low1 high1
      → IsRising a low2 high2
      → Merged a (low1 + 1) high1 low2 high2 r
      → Merged a low1 high1 low2 high2 (a low1 ∷ r)
  take_first more le rise1 rise2 m = record {
    bounded =
        λ b h1 h2. (h1 low1 (omega arith) more, m.bounded b (λ i p q. h1 i (omega arith) q) h2);
    sorted = (
      m.bounded (a low1) (λ i p q. rise1 low1 i (omega arith) (omega arith) q)
          (λ i p q. let le' = rise2 low2 i (omega arith) p q in omega arith),
      m.sorted,
    );
    counted = λ v. rw (copy_from-step a low1 high1 more) (omega (arith, m.counted v));
  }

  -- The entry of the second half is no greater.
  take_second :
      low2 < high2
      → a low2 ≤ℤ a low1
      → IsRising a low1 high1
      → IsRising a low2 high2
      → Merged a low1 high1 (low2 + 1) high2 r
      → Merged a low1 high1 low2 high2 (a low2 ∷ r)
  take_second more le rise1 rise2 m = record {
    bounded =
        λ b h1 h2. (h2 low2 (omega arith) more, m.bounded b h1 (λ i p q. h2 i (omega arith) q));
    sorted = (
      m.bounded (a low2) (λ i p q. let le' = rise1 low1 i (omega arith) p q in omega arith)
          (λ i p q. rise2 low2 i (omega arith) (omega arith) q),
      m.sorted,
    );
    counted = λ v. rw (copy_from-step a low2 high2 more) (omega (arith, m.counted v));
  }

merge_from-Merged :
    (fuel : ℕ) (a : ℕ → ℤ) (low1 high1 low2 high2 : ℕ)
    → (high1 - low1) + (high2 - low2) < fuel
    → IsRising a low1 high1
    → IsRising a low2 high2
    → (r : List ℤ) × (merge_from fuel low1 high1 low2 high2 a ≡ some r)
      × Merged a low1 high1 low2 high2 r
unfolding merge_from
merge_from-Merged zero a low1 high1 low2 high2 enough rise1 rise2 = absurd (omega arith)
merge_from-Merged (suc fuel) a low1 high1 low2 high2 enough rise1 rise2 =
    elim (Bool-cases (ltb low1 high1 && ltb low2 high2)) [
      | inl both ↦
          let more1 : low1 < high1 = ground arith in
          let more2 : low2 < high2 = ground arith in
          elim (Bool-cases (ltb_ℤ (a low1) (a low2))) [
            | inl smaller ↦
                let (r, e, m) =
                  merge_from-Merged fuel a (low1 + 1) high1 low2 high2 (omega arith)
                    (λ i j p q s. rise1 i j (omega arith) q s) rise2 in
                let less = ltb_ℤ→lt (a low1) (a low2) smaller in
                (
                  a low1 ∷ r,
                  rw (both, merge_from, smaller, e) refl,
                  take_first a low1 high1 low2 high2 r more1 (omega arith) rise1 rise2 m,
                )
            | inr greater ↦
                let (r, e, m) =
                  merge_from-Merged fuel a low1 high1 (low2 + 1) high2 (omega arith) rise1
                    (λ i j p q s. rise2 i j (omega arith) q s) in
                (
                  a low2 ∷ r,
                  rw (both, merge_from, greater, e) refl,
                  take_second a low1 high1 low2 high2 r more2 (ltb_ℤ→le (a low1) (a low2) greater)
                      rise1 rise2 m,
                )
          ]
      | inr done ↦ (
        copy_rest low1 high1 low2 high2 a,
        rw (done, merge_from) refl,
        copy_rest-Merged a low1 high1 low2 high2 rise1 rise2 done,
      )
    ]

-- Where both halves of the array are sorted, `merge_array` ends, and what it writes is sorted and has
-- every value as often as the array has it.
pub merge_array-IsSorted :
    (array_size : ℕ) (a : ℕ → ℤ)
    → IsRising a 0 (array_size / 2)
    → IsRising a (array_size / 2) array_size
    → (r : List ℤ) × (merge_array array_size a ≡ some r)
      × IsSorted r
      × ((v : ℤ) → count v r ≡ count v (copy_from array_size 0 a))
unfolding merge_array
merge_array-IsSorted n a rise1 rise2 =
    let (r, e, m) = merge_from-Merged (suc n) a 0 (n / 2) (n / 2) n (omega arith) rise1 rise2 in
    let all : n / 2 - 0 ≡ n / 2 = omega arith in
    let halves : n / 2 + (n - n / 2) ≡ n = omega arith in
    let start : 0 + n / 2 ≡ n / 2 = omega arith in
    (
      r,
      e,
      m.sorted,
      λ v.
          (rw all at (m.counted v))
          ∙ sym (rw (halves, start) at (count-copy_from v (n / 2) (n - n / 2) 0 a)),
    )
