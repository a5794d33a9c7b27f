-- ===== src/RoundRobin/Loop.antt =====
-- One turn of the loop of Project-4/schedule_rr.c, and all turns.
use learning_ei.Base.{
  ℕ, zero, suc, ◌<◌, ◌≤◌, ◌≡◌, ◌≢◌, refl, arith, ◌∙◌, ap, sym, subst, true, false, Option, some,
  List, [], ◌∷◌, ◌++◌, map, length, length-append, inl, inr, Bool-cases,
}
use learning_ei.Base.Int.{ltb_ℤ, ◌-ℤ◌, ltb_ℤ→lt, ltb_ℤ→le}
use learning_ei.Base.Arrays.{update, update_self, update_other}
use learning_ei.Scheduler.{Slice, run}
use learning_ei.Scheduler.Picked.{DistinctNames}
use learning_ei.RoundRobin.{Heap, quantum, slice_of, pick_next_task, schedule_loop, delete}
use learning_ei.RoundRobin.Chain.{IsChain, Absent, Absent-names, DistinctNames-without}
use learning_ei.RoundRobin.Remove.{delete-IsChain}
use learning_ei.RoundRobin.Serve.{
  Job, Serves, served, ends, waits, turns, turns-append, rounds_of-pos, rounds_of-quantum,
  slice_of-ends, slice_of-waits,
}
use learning_ei.RoundRobin.Turns.{
  job, IsChain-head, pick_next_task-IsCursor, map-job, map-append, Spares, LoopServes,
}
use mathlib.Core.List.{append_assoc, append-nil}

Absent-append : (k : ℕ) (l r : List ℕ) → Absent k (r ++ l) → Absent k (l ++ r)
Absent-append k l [] a = rw (append-nil l) a
Absent-append k l (u ∷ r) a = insert l (Absent-append k l r a.1)
  where
    insert : (l : List ℕ) → Absent k (l ++ r) → Absent k (l ++ (u ∷ r))
    insert [] b = (a.0, b)
    insert (v ∷ l) b = (b.0, insert l b.1)

Absent-without :
    (k : ℕ) (pre : List ℕ) (n : ℕ) (post : List ℕ)
    → Absent k (pre ++ (n ∷ post))
    → (n ≢ k) × Absent k (pre ++ post)
Absent-without k [] n post a = a
Absent-without k (u ∷ pre) n post a =
    let (other, rest) = Absent-without k pre n post a.1 in (other, (a.0, rest))

length-without :
    (pre : List ℕ) (n : ℕ) (post : List ℕ) → length (pre ++ (n ∷ post)) ≡ suc (length (pre ++ post))
length-without pre n post = omega (arith, length-append pre (n ∷ post), length-append pre post)

module _ {fuel : ℕ} (loop : LoopServes fuel) (m : Heap) (head next_node : Option ℕ) (pre : List ℕ)
    (n : ℕ) (post : List ℕ) where
  -- A task that runs to its end leaves the list.
  schedule_loop-ends :
      length (pre ++ (n ∷ post)) ≤ m.size
      → IsChain m.next head (pre ++ (n ∷ post))
      → next_node ≡ some n
      → DistinctNames (map m.task (pre ++ (n ∷ post)))
      → turns (map (job m) (n ∷ (post ++ pre))) < suc fuel
      → ltb_ℤ quantum (m.remaining_burst n) ≡ false
      → (trace : List Slice) × (m' : Heap) × (schedule_loop (suc fuel) head next_node m
          ≡ some (trace, m'))
        × Serves (map (job m) (n ∷ (post ++ pre))) trace
        × Spares (pre ++ (n ∷ post)) m m'
  unfolding schedule_loop
  schedule_loop-ends small h at d enough e =
      let r = m.remaining_burst n in
      let (first, some_first, _, _) = IsChain-head m.next head pre n post h in
      let (c, picked, _, cursor) = pick_next_task-IsCursor m head next_node pre n post h at in
      let (whole, gone) = slice_of-ends r e in
      let m' : Heap = record m { remaining_burst = update m.remaining_burst n (r -ℤ slice_of r) } in
      let fits = length-without pre n post in
      let (head', next, deleted, chain, spared) =
        delete-IsChain m' head pre n post (omega (arith, length-append pre (n ∷ post))) h d in
      let (distinct, apart, _, _) = DistinctNames-without m.task pre n post d in
      let m'' : Heap = record m' { next = next } in
      let others : map (job m'') (post ++ pre) ≡ map (job m) (post ++ pre) =
        map-job m n (r -ℤ slice_of r) (post ++ pre)
          (Absent-append n post pre (Absent-names m.task n (pre ++ post) apart)) in
      let (trace, left, ran, rest, spares) =
        loop m'' head' c pre post (omega arith) chain cursor distinct
          (omega (arith, rounds_of-pos r, ap turns others)) in
      let picked' : pick_next_task next_node (some first) m ≡ some (n, c) =
        subst (λ p. pick_next_task next_node p m ≡ some (n, c)) some_first picked in
      let deleted' : delete (m.task n) (some first) m' ≡ some (head', m'') =
        subst (λ p. delete (m.task n) p m' ≡ some (head', m'')) some_first deleted in
      (
        run (m.task n) (slice_of r) ∷ trace,
        left,
        rw (some_first, schedule_loop, picked', gone, deleted', ran) refl,
        subst (λ s. Serves (map (job m) (n ∷ (post ++ pre))) (run (m.task n) s ∷ trace)) (sym whole)
            (ends (m.task n) r (map (job m) (post ++ pre)) trace (ltb_ℤ→le quantum r e)
              (subst (λ q. Serves q trace) others rest)),
        record {
          task = spares.task;
          size = spares.size;
          next = λ k absent.
              let (_, rest_absent) = Absent-without k pre n post absent in
              spares.next k rest_absent ∙ spared k absent;
          remaining_burst = λ k absent.
              let (other, rest_absent) = Absent-without k pre n post absent in
              spares.remaining_burst k rest_absent
              ∙ update_other m.remaining_burst n (r -ℤ slice_of r) k (λ e. other (sym e));
        },
      )

  -- A task that needs more than a quantum stays in the list.
  schedule_loop-waits :
      length (pre ++ (n ∷ post)) ≤ m.size
      → IsChain m.next head (pre ++ (n ∷ post))
      → next_node ≡ some n
      → DistinctNames (map m.task (pre ++ (n ∷ post)))
      → turns (map (job m) (n ∷ (post ++ pre))) < suc fuel
      → ltb_ℤ quantum (m.remaining_burst n) ≡ true
      → (trace : List Slice) × (m' : Heap) × (schedule_loop (suc fuel) head next_node m
          ≡ some (trace, m'))
        × Serves (map (job m) (n ∷ (post ++ pre))) trace
        × Spares (pre ++ (n ∷ post)) m m'
  unfolding schedule_loop
  schedule_loop-waits small h at d enough e =
      let r = m.remaining_burst n in
      let (first, some_first, _, _) = IsChain-head m.next head pre n post h in
      let (c, picked, cursor, _) = pick_next_task-IsCursor m head next_node pre n post h at in
      let (part, stays) = slice_of-waits r e in
      let more = ltb_ℤ→lt quantum r e in
      let m' : Heap = record m { remaining_burst = update m.remaining_burst n (r -ℤ slice_of r) } in
      let moved : (pre ++ (n ∷ [])) ++ post ≡ pre ++ (n ∷ post) = append_assoc pre (n ∷ []) post in
      let (_, apart, _, _) = DistinctNames-without m.task pre n post d in
      let others : map (job m') (post ++ pre) ≡ map (job m) (post ++ pre) =
        map-job m n (r -ℤ slice_of r) (post ++ pre)
          (Absent-append n post pre (Absent-names m.task n (pre ++ post) apart)) in
      let back : Job = record { task = m.task n; remaining_burst = r -ℤ quantum } in
      let left : m'.remaining_burst n ≡ r -ℤ quantum =
        update_self m.remaining_burst n (r -ℤ slice_of r) ∙ ap (λ s. r -ℤ s) part in
      let queue : map (job m') (post ++ (pre ++ (n ∷ [])))
          ≡ map (job m) (post ++ pre) ++ (back ∷ []) =
        ap (map (job m')) (sym (append_assoc post pre (n ∷ [])))
        ∙ (map-append (job m') (post ++ pre) (n ∷ [])
            ∙ (ap (λ q. q ++ (job m' n ∷ [])) others
                ∙ ap
                    (λ x.
                      map (job m) (post ++ pre)
                      ++ (record { task = m.task n; remaining_burst = x } ∷ []))
                    left)) in
      let (trace, m'', ran, rest, spares) =
        loop m' head c (pre ++ (n ∷ [])) post (subst (λ l. length l ≤ m.size) (sym moved) small)
          (subst (IsChain m.next head) (sym moved) h) cursor
          (subst (λ l. DistinctNames (map m.task l)) (sym moved) d)
          (omega (
            arith,
            ap turns queue,
            turns-append (map (job m) (post ++ pre)) back,
            rounds_of-quantum r more,
          )) in
      let picked' : pick_next_task next_node (some first) m ≡ some (n, c) =
        subst (λ p. pick_next_task next_node p m ≡ some (n, c)) some_first picked in
      let ran' : schedule_loop fuel (some first) c m' ≡ some (trace, m'') =
        subst (λ p. schedule_loop fuel p c m' ≡ some (trace, m'')) some_first ran in
      (
        run (m.task n) (slice_of r) ∷ trace,
        m'',
        rw (some_first, schedule_loop, picked', stays, ran') refl,
        subst (λ s. Serves (map (job m) (n ∷ (post ++ pre))) (run (m.task n) s ∷ trace)) (sym part)
            (waits (m.task n) r (map (job m) (post ++ pre)) trace more
              (subst (λ q. Serves q trace) queue rest)),
        record {
          task = spares.task;
          size = spares.size;
          next = λ k absent. spares.next k (subst (Absent k) (sym moved) absent);
          remaining_burst = λ k absent.
              let (other, _) = Absent-without k pre n post absent in
              spares.remaining_burst k (subst (Absent k) (sym moved) absent)
              ∙ update_other m.remaining_burst n (r -ℤ slice_of r) k (λ e. other (sym e));
        },
      )

  schedule_loop-turn :
      length (pre ++ (n ∷ post)) ≤ m.size
      → IsChain m.next head (pre ++ (n ∷ post))
      → next_node ≡ some n
      → DistinctNames (map m.task (pre ++ (n ∷ post)))
      → turns (map (job m) (n ∷ (post ++ pre))) < suc fuel
      → (trace : List Slice) × (m' : Heap) × (schedule_loop (suc fuel) head next_node m
          ≡ some (trace, m'))
        × Serves (map (job m) (n ∷ (post ++ pre))) trace
        × Spares (pre ++ (n ∷ post)) m m'
  schedule_loop-turn small h at d enough = elim (Bool-cases (ltb_ℤ quantum (m.remaining_burst n))) [
    | inl more ↦ schedule_loop-waits small h at d enough more
    | inr short ↦ schedule_loop-ends small h at d enough short
  ]

-- The loop serves the queue, with fuel for all turns.
pub schedule_loop-LoopServes : (fuel : ℕ) → LoopServes fuel
unfolding schedule_loop
schedule_loop-LoopServes zero m head next_node pre post small h at d enough = absurd (omega arith)
schedule_loop-LoopServes (suc fuel) m head next_node [] [] small h at d enough = (
  [],
  m,
  rw (h, schedule_loop) refl,
  served,
  record { task = refl; size = refl; next = λ k absent. refl; remaining_burst = λ k absent. refl },
)
schedule_loop-LoopServes (suc fuel) m head next_node (u ∷ pre) [] small h at d enough =
    let straight : u ∷ (pre ++ []) ≡ u ∷ pre = append-nil (u ∷ pre) in
    let fewer : turns (map (job m) (u ∷ (pre ++ []))) < suc fuel =
      subst (λ l. turns (map (job m) l) < suc fuel) (sym straight) enough in
    let (trace, m', ran, serves, spares) =
      schedule_loop-turn (schedule_loop-LoopServes fuel) m head next_node [] u pre
        (subst (λ l. length l ≤ m.size) straight small) (subst (IsChain m.next head) straight h) at
        (subst (λ l. DistinctNames (map m.task l)) straight d) fewer in
    (
      trace,
      m',
      ran,
      subst (λ l. Serves (map (job m) l) trace) straight serves,
      subst (λ l. Spares l m m') (sym straight) spares,
    )
schedule_loop-LoopServes (suc fuel) m head next_node pre (n ∷ post) small h at d enough =
    schedule_loop-turn (schedule_loop-LoopServes fuel) m head next_node pre n post small h at d
      enough
