-- ===== src/Banker/Release.antt =====
-- `release_resources` of Project-6/banker.c on every input, its undefined behaviour included.
use learning_ei.Base.{
  ℕ, zero, suc, ◌+◌, ◌<◌, ◌≡◌, ◌↔◌, ◌⊎◌, inl, inr, refl, subst, true, false, ◌&&◌, arith, ltb, ◌==◌,
  if◌then◌else◌, Option, none, some, Bool-cases, ℕ_discrete,
}
use learning_ei.Base.Int.{ℤ, pos, negsuc, pos_part, ◌+ℤ◌, ◌-ℤ◌, ◌≤ℤ◌}
use learning_ei.Banker.{
  Bank, Row, number_of_resources, valid_customer, give_back, take_again, rollback_release,
  can_release, release_from, release_resources,
}
use learning_ei.Banker.Granted.{Bank-eq}

-- The bank `b` after customer `c` gave back `release[0..n)`.
unfoldable pub released : ℕ → Row → ℕ → Bank → Bank
released c release n b = record b {
  available = λ j. if ltb j n then b.available j +ℤ release j else b.available j;
  allocation = λ d j. if d == c && ltb j n then b.allocation d j -ℤ release j else b.allocation d j;
}

-- What one entry of a release must satisfy.
abbrev pub Returnable : ℕ → Row → Bank → ℕ → Type 0
Returnable c release b j = (pos 0 ≤ℤ release j) × (release j ≤ℤ b.allocation c j)

abbrev pub AllReturnable : ℕ → Row → Bank → ℕ → Type 0
AllReturnable c release b n = (j : ℕ) → j < n → Returnable c release b j

module _ (c : ℕ) (release : Row) (b : Bank) where
  released-none : released c release 0 b ≡ b
  unfolding released
  released-none =
      Bank-eq (released c release 0 b) b (λ j. ground arith) (λ d j. refl) (λ d j. ground arith)
        (λ d j. refl)

  give_back-released :
      (i : ℕ) → give_back c release i (released c release i b) ≡ released c release (i + 1) b
  unfolding give_back released
  give_back-released i =
      Bank-eq (give_back c release i (released c release i b)) (released c release (i + 1) b)
        (λ j. ground arith) (λ d j. refl) (λ d j. ground arith) (λ d j. refl)

  can_release-released :
      (i : ℕ) → can_release c release i (released c release i b) ≡ can_release c release i b
  unfolding released
  can_release-released i = ground arith

  can_release→Returnable : (i : ℕ) → can_release c release i b ≡ true → Returnable c release b i
  can_release→Returnable i h = ground arith

  Returnable→can_release : (i : ℕ) → Returnable c release b i → can_release c release i b ≡ true
  Returnable→can_release i h = ground arith

  -- Every rollback of at least one entry ends at `release[-1]`.
  rollback_release-undefined : (i : ℕ) (d : Bank) → rollback_release (suc i) c release d ≡ none
  unfolding rollback_release take_again
  rollback_release-undefined zero d = refl
  rollback_release-undefined (suc i) d = rollback_release-undefined i _

  -- How the releasing loop ends, when the entries before `i` are done.
  data Outcome (n : ℕ) (r : Option (ℤ × Bank)) : Type 0 where
    all_released :
        AllReturnable c release b n → r ≡ some (pos 0, released c release n b) → Outcome n r
    refused_first : ¬ Returnable c release b 0 → r ≡ some (negsuc 0, b) → Outcome n r
    undefined_later :
        Returnable c release b 0 → ¬ AllReturnable c release b n → r ≡ none → Outcome n r

  AllReturnable-suc :
      (i : ℕ)
      → AllReturnable c release b i
      → can_release c release i b ≡ true
      → AllReturnable c release b (i + 1)
  AllReturnable-suc i all ok j lt = elim (ℕ_discrete i j) [
    | yes e ↦ subst (Returnable c release b) e (can_release→Returnable i ok)
    | no ne ↦ all j (omega arith)
  ]

  fail-Outcome :
      (n i : ℕ)
      → i < n
      → AllReturnable c release b i
      → can_release c release i b ≡ false
      → Outcome n (elim (rollback_release i c release (released c release i b)) [
        | none ↦ none
        | some b' ↦ some (negsuc 0, b')
      ])
  fail-Outcome n zero lt all bad =
      refused_first (λ h. cc (Returnable→can_release 0 h))
        (unfold rollback_release in rw released-none refl)
  fail-Outcome n (suc i) lt all bad =
      undefined_later (all 0 (omega arith))
        (λ h. cc (Returnable→can_release (suc i) (h (suc i) lt)))
        (rw (rollback_release-undefined i (released c release (suc i) b)) refl)

  release_from-Outcome :
      (n k i : ℕ)
      → i + k ≡ n
      → AllReturnable c release b i
      → Outcome n (release_from k i c release (released c release i b))
  unfolding release_from
  release_from-Outcome n zero i e all =
      let e' : i ≡ n = omega arith in
      all_released (subst (AllReturnable c release b) e' all) (rw e' refl)
  release_from-Outcome n (suc k) i e all = elim (Bool-cases (can_release c release i b)) [
    | inl ok ↦
        rw (can_release-released i, ok, give_back-released i)
          (release_from-Outcome n k (i + 1) (omega arith) (AllReturnable-suc i all ok))
    | inr bad ↦ rw (can_release-released i, bad) (fail-Outcome n i (omega arith) all bad)
  ]

module _ (customer : ℤ) (release : Row) (b : Bank) where
  outcome :
      valid_customer customer ≡ true
      → Outcome
          (pos_part customer)
          release
          b
          number_of_resources
          (release_resources customer release b)
  unfolding release_resources
  outcome v =
      let c = pos_part customer in
      rw v (
        rw (released-none c release b) at
          (release_from-Outcome c release b 4 4 0 refl (λ j lt. absurd (omega arith))))

  -- With all entries non-negative and held by the customer, a release returns 0 and moves exactly
  -- those amounts from the allocation to the available resources. The needs stay as they are.
  pub release_resources-released :
      valid_customer customer ≡ true
      → AllReturnable (pos_part customer) release b number_of_resources
      → release_resources customer release b
        ≡ some (pos 0, released (pos_part customer) release number_of_resources b)
  release_resources-released v all = elim (outcome v) [
    | all_released _ e ↦ e
    | refused_first first e ↦ absurd (first (all 0 (omega arith)))
    | undefined_later first later e ↦ absurd (later all)
  ]

  -- An unknown customer, or a first entry that cannot be returned, is refused with -1, and the bank
  -- stays as it was.
  pub release_resources-refused :
      (valid_customer customer ≡ false) ⊎ ¬ Returnable (pos_part customer) release b 0
      → release_resources customer release b ≡ some (negsuc 0, b)
  release_resources-refused (inl v) = unfold release_resources in rw v refl
  release_resources-refused (inr first) = elim (Bool-cases (valid_customer customer)) [
    | inl v ↦ elim (outcome v) [
      | all_released all e ↦ absurd (first (all 0 (omega arith)))
      | refused_first _ e ↦ e
      | undefined_later ok later e ↦ absurd (first ok)
    ]
    | inr v ↦ unfold release_resources in rw v refl
  ]

  -- The rollback goes outside its arrays exactly when the customer is known, the first entry can be
  -- returned, and a later one cannot.
  pub release_resources-undefined_iff : (release_resources customer release b ≡ none) ↔ (
      (valid_customer customer ≡ true)
      × Returnable (pos_part customer) release b 0
      × ¬ AllReturnable (pos_part customer) release b number_of_resources)
  release_resources-undefined_iff = (only_if, if_so)
    where
      only_if :
          release_resources customer release b ≡ none
          → (valid_customer customer ≡ true)
            × Returnable (pos_part customer) release b 0
            × ¬ AllReturnable (pos_part customer) release b number_of_resources
      only_if fault = elim (Bool-cases (valid_customer customer)) [
        | inl v ↦ elim (outcome v) [
          | all_released all e ↦ cc
          | refused_first first e ↦ cc
          | undefined_later ok later e ↦ (v, ok, later)
        ]
        | inr v ↦ cc (release_resources-refused (inl v))
      ]

      if_so :
          (valid_customer customer ≡ true)
            × Returnable (pos_part customer) release b 0
            × ¬ AllReturnable (pos_part customer) release b number_of_resources
          → release_resources customer release b ≡ none
      if_so (v, ok, later) = elim (outcome v) [
        | all_released all e ↦ absurd (later all)
        | refused_first first e ↦ absurd (first ok)
        | undefined_later _ _ e ↦ e
      ]

  -- The three ways a release can end.
  pub release_resources-cases :
      (valid_customer customer ≡ true)
        × AllReturnable (pos_part customer) release b number_of_resources
      ⊎ ((release_resources customer release b ≡ some (negsuc 0, b))
          ⊎ (release_resources customer release b ≡ none))
  release_resources-cases = elim (Bool-cases (valid_customer customer)) [
    | inl v ↦ elim (outcome v) [
      | all_released all e ↦ inl (v, all)
      | refused_first first e ↦ inr (inl e)
      | undefined_later ok later e ↦ inr (inr e)
    ]
    | inr v ↦ inr (inl (release_resources-refused (inl v)))
  ]
