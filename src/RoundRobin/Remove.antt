-- ===== src/RoundRobin/Remove.antt =====
-- What `delete` of Project-4/list.c leaves of the linked list, where the names differ.
use learning_ei.Base.{
  ℕ, zero, suc, ◌<◌, ◌≤◌, ◌≡◌, ◌≢◌, refl, arith, ◌∙◌, sym, Option, some, List, [], ◌∷◌, ◌++◌, map,
  length,
}
use learning_ei.Base.Arrays.{update}
use learning_ei.Scheduler.Picked.{DistinctNames}
use learning_ei.RoundRobin.{Heap, delete_from, delete}
use learning_ei.RoundRobin.Chain.{
  IsChain, All-append, IsChain-at, IsChain-update, Absent, Absent-names, DistinctNames-without,
  str_eq-other, str_eq-same,
}

Absent-front : (k : ℕ) (l r : List ℕ) → Absent k (l ++ r) → Absent k l
Absent-front k [] r a = tt
Absent-front k (u ∷ l) r a = (a.0, Absent-front k l r a.1)

-- The loop unlinks node `n`, which stands behind the nodes of `pre`.
record Unlinked (m : Heap) (fuel prev : ℕ) (p : Option ℕ) (pre : List ℕ) (n : ℕ) (post : List ℕ)
    : Type 0 where
  next : ℕ → Option ℕ
  done : delete_from fuel (m.task n) prev p m ≡ some (record m { next = next })
  chain : IsChain next (next prev) (pre ++ post)
  kept : (k : ℕ) → prev ≢ k → Absent k pre → next k ≡ m.next k

delete_from-Unlinked :
    (m : Heap) (fuel prev : ℕ) (p : Option ℕ) (pre : List ℕ) (n : ℕ) (post : List ℕ)
    → length pre < fuel
    → m.next prev ≡ p
    → IsChain m.next p (pre ++ (n ∷ post))
    → DistinctNames (map m.task (prev ∷ (pre ++ (n ∷ post))))
    → Unlinked m fuel prev p pre n post
unfolding delete_from
delete_from-Unlinked m zero prev p pre n post enough at h d = absurd (omega arith)
delete_from-Unlinked m (suc fuel) prev p [] n post enough at h d =
    let absent = Absent-names m.task prev (n ∷ post) d.0 in
    let here : update m.next prev (m.next n) prev ≡ m.next n = ground arith in
    record {
      next = update m.next prev (m.next n);
      done = rw (h.0, delete_from, str_eq-same (m.task n)) refl;
      chain =
          IsChain-at (update m.next prev (m.next n)) (m.next n) (update m.next prev (m.next n) prev)
            post (sym here) (IsChain-update m.next (m.next n) post prev (m.next n) absent.1 h.1);
      kept = λ k other absent. ground arith;
    }
delete_from-Unlinked m (suc fuel) prev p (u ∷ pre) n post enough at h d =
    let rest = delete_from-Unlinked m fuel u (m.next u) pre n post (omega arith) refl h.1 d.1 in
    let (_, apart, _, _) = DistinctNames-without m.task (u ∷ pre) n post d.1 in
    let (_, _, before, _) =
      All-append (λ t. t.name ≢ (m.task prev).name) m.task (u ∷ pre) n post d.0 in
    let absent = Absent-names m.task prev (u ∷ pre) before in
    record {
      next = rest.next;
      done = rw (h.0, delete_from, str_eq-other (m.task n) (m.task u) apart.0) rest.done;
      chain = (rest.kept prev absent.0 absent.1 ∙ at ∙ h.0, rest.chain);
      kept = λ k other away. rest.kept k away.0 away.1;
    }

-- `delete` takes node `n` out of the list, and changes nothing in the heap but links of the list.
pub delete-IsChain :
    (m : Heap) (head : Option ℕ) (pre : List ℕ) (n : ℕ) (post : List ℕ)
    → length pre ≤ m.size
    → IsChain m.next head (pre ++ (n ∷ post))
    → DistinctNames (map m.task (pre ++ (n ∷ post)))
    → (head' : Option ℕ) × (next : ℕ → Option ℕ) × (delete (m.task n) head m
        ≡ some (head', record m { next = next }))
      × IsChain next head' (pre ++ post)
      × ((k : ℕ) → Absent k (pre ++ (n ∷ post)) → next k ≡ m.next k)
unfolding delete
delete-IsChain m head [] n post enough h d =
    (m.next n, m.next, rw (h.0, delete, str_eq-same (m.task n)) refl, h.1, λ k absent. refl)
delete-IsChain m head (u ∷ pre) n post enough h d =
    let (_, apart, _, _) = DistinctNames-without m.task (u ∷ pre) n post d in
    let gone = delete_from-Unlinked m m.size u (m.next u) pre n post enough refl h.1 d in
    (
      some u,
      gone.next,
      rw (h.0, delete, str_eq-other (m.task n) (m.task u) apart.0, gone.done) refl,
      (refl, gone.chain),
      λ k absent. gone.kept k absent.0 (Absent-front k pre (n ∷ post) absent.1),
    )
