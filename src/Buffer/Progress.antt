-- ===== src/Buffer/Progress.antt =====
-- That the threads of Project-5-2 never all wait for each other.
use learning_ei.Base.{
  ℕ, ◌<◌, ◌≡◌, refl, ◌∙◌, ◌≢◌, arith, Bool, true, false, none, some, List, [], ◌∷◌, inl, inr,
  Option-cases, dec_lt,
}
use learning_ei.Base.Int.{ℤ}
use learning_ei.Base.Family.{total-zero, find_failing}
use learning_ei.Ring.{acquire}
use learning_ei.Ring.Laws.{acquire-free}
use learning_ei.Buffer.{
  Shared, Pc, producer, wait_empty, lock_insert, store_item, consumer, lock_remove, load_item,
  move_head, unlock_remove, post_empty, step, System, pick, run, init,
}
use learning_ei.Buffer.Counts.{hides_item, hides_slot, is_inside}
use learning_ei.Buffer.Pick.{pick-step}
use learning_ei.Buffer.Invariant.{reached-IsCounted}

abbrev pub is_producer : Pc → Bool
is_producer consumer = false
is_producer lock_remove = false
is_producer load_item = false
is_producer (move_head _) = false
is_producer unlock_remove = false
is_producer post_empty = false
is_producer _ = true

-- Whether the thread is at a `sem_wait`.
abbrev pub is_waiting : Pc → Bool
is_waiting (wait_empty _) = true
is_waiting consumer = true
is_waiting _ = false

-- A producer stays one, and a consumer too.
step-is_producer :
    (i : ℕ) (x : ℤ) (m m' : Shared) (p p' : Pc)
    → step i x m p ≡ some (m', p')
    → is_producer p' ≡ is_producer p
unfolding step acquire
step-is_producer i x m m' producer p' e = ground arith
step-is_producer i x m m' p p' e = ground arith

pick-is_producer :
    (threads i : ℕ) (x : ℤ) (s : System) (j : ℕ)
    → is_producer ((pick threads i x s).pc j) ≡ is_producer (s.pc j)
pick-is_producer threads i x s j = elim (pick-step threads i x s) [
  | inl same ↦ rw same refl
  | inr (m, p, lower, e, stepped) ↦
      rw stepped (ground (arith, step-is_producer i x s.mem m (s.pc i) p e))
]

run-is_producer :
    (threads : ℕ) (picks : List (ℕ × ℤ)) (s : System) (j : ℕ)
    → is_producer ((run threads picks s).pc j) ≡ is_producer (s.pc j)
unfolding run
run-is_producer threads [] s j = refl
run-is_producer threads ((i, x) ∷ picks) s j =
    run-is_producer threads picks (pick threads i x s) j ∙ pick-is_producer threads i x s j

-- Outside a `sem_wait`, a thread moves if the mutex is free or if it is inside.
pub step-free :
    (i : ℕ) (x : ℤ) (m : Shared) (p : Pc)
    → is_waiting p ≡ false
    → m.ring.lock ≡ none
    → step i x m p ≢ none
unfolding step
step-free i x m (lock_insert item) w free = rw (acquire-free i m.ring free, step) (λ e. cc)
step-free i x m lock_remove w free = rw (acquire-free i m.ring free, step) (λ e. cc)
step-free i x m producer w free = λ e. cc
step-free i x m p w free = λ e. ground arith

pub step-inside : (i : ℕ) (x : ℤ) (m : Shared) (p : Pc) → is_inside p ≡ true → step i x m p ≢ none
unfolding step
step-inside i x m (store_item item) inside = λ e. cc
step-inside i x m p inside = λ e. ground arith

step-wait_empty :
    (i : ℕ) (x : ℤ) (m : Shared) (p : Pc)
    → is_waiting p ≡ true
    → is_producer p ≡ true
    → 0 < m.empty
    → step i x m p ≢ none
unfolding step
step-wait_empty i x m (wait_empty item) w r enough = λ e. ground arith
step-wait_empty i x m p w r enough = λ e. ground arith

step-wait_full :
    (i : ℕ) (x : ℤ) (m : Shared) (p : Pc)
    → is_waiting p ≡ true
    → is_producer p ≡ false
    → 0 < m.full
    → step i x m p ≢ none
unfolding step
step-wait_full i x m consumer w r enough = λ e. ground arith
step-wait_full i x m p w r enough = λ e. ground arith

waiting-hides_item : (p : Pc) → is_waiting p ≡ true → hides_item p ≡ 0
waiting-hides_item consumer w = refl
waiting-hides_item p w = ground arith

waiting-hides_slot : (p : Pc) → is_waiting p ≡ true → hides_slot p ≡ 0
waiting-hides_slot consumer w = refl
waiting-hides_slot p w = ground arith

-- Some thread can move.
abbrev pub CanMove : ℕ → System → Type 0
CanMove threads s = (i : ℕ) × (i < threads) × ((x : ℤ) → step i x s.mem (s.pc i) ≢ none)

-- With at least one producer and one consumer there is no deadlock: however the threads have been
-- interleaved, some thread need not wait.
pub run-CanMove :
    (threads producers : ℕ) (picks : List (ℕ × ℤ))
    → 0 < producers
    → producers < threads
    → CanMove threads (run threads picks (init producers))
unfolding init
run-CanMove threads producers picks some_producer some_consumer =
    let s = run threads picks (init producers) in
    let v = reached-IsCounted threads producers picks in
    let first : is_producer (s.pc 0) ≡ true =
      run-is_producer threads picks (init producers) 0 ∙ ground arith in
    let last : is_producer (s.pc producers) ≡ false =
      run-is_producer threads picks (init producers) producers ∙ ground arith in
    elim (Option-cases s.mem.ring.lock) [
      | inr (i, e) ↦
          let (lower, inside) = v.owned.held i e in
          (i, lower, λ x. step-inside i x s.mem (s.pc i) inside)
      | inl free ↦ elim (find_failing is_waiting threads s.pc) [
        | inl (i, lower, moves) ↦ (i, lower, λ x. step-free i x s.mem (s.pc i) moves free)
        | inr all ↦
            let no_item =
              total-zero hides_item threads s.pc (λ i q. waiting-hides_item (s.pc i) (all i q)) in
            let no_slot =
              total-zero hides_slot threads s.pc (λ i q. waiting-hides_slot (s.pc i) (all i q)) in
            let items = v.items in
            let slots = v.free in
            elim (dec_lt 0 s.mem.empty) [
              | yes enough ↦ (
                0,
                omega arith,
                λ x. step-wait_empty 0 x s.mem (s.pc 0) (all 0 (omega arith)) first enough,
              )
              | no full ↦ (
                producers,
                some_consumer,
                λ x.
                    step-wait_full producers x s.mem (s.pc producers) (all producers some_consumer)
                      last (omega arith),
              )
            ]
      ]
    ]
