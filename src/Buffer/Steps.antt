-- ===== src/Buffer/Steps.antt =====
-- That each statement of Project-5-2 keeps the counts.
use learning_ei.Base.{
  ℕ, ◌+◌, ◌-◌, ◌<◌, ◌≢◌, ◌≡◌, refl, arith, true, false, Option, none, some, ltb, inl, inr,
  Bool-cases, Option-cases, ℕ_discrete,
}
use learning_ei.Base.Int.{ℤ}
use learning_ei.Base.Arrays.{update}
use learning_ei.Base.Family.{total-update, total-one}
use learning_ei.Ring.{Ring, len, release, write, advance_tail, advance_head}
use learning_ei.Ring.Laws.{
  IsFifo, acquire-free, acquire-held, lock-IsFifo, write-IsFifo, len-advance_tail,
  advance_tail-IsFifo, len-advance_head, advance_head-IsFifo,
}
use learning_ei.Ring.Owner.{IsOwned, stay-IsOwned, take-IsOwned, give-IsOwned, other-outside}
use learning_ei.Buffer.{
  Shared, Pc, producer, wait_empty, lock_insert, store_item, move_tail, unlock_insert, post_full,
  consumer, lock_remove, load_item, move_head, unlock_remove, post_empty, step,
}
use learning_ei.Buffer.Counts.{hides_item, hides_slot, is_inside, IsFresh, IsCounted, Leaves}

lock-IsFresh :
    (r : Ring ℤ) (owner : Option ℕ) (p : Pc) → IsFresh r p → IsFresh (record r { lock = owner }) p
lock-IsFresh r owner (move_tail item) h = h
lock-IsFresh r owner (move_head item) h = h
lock-IsFresh r owner p h = ground arith

outside-IsFresh : (r : Ring ℤ) (p : Pc) → is_inside p ≡ false → IsFresh r p
outside-IsFresh r p outside = ground arith

module _ {threads : ℕ} {m : Shared} {pc : ℕ → Pc} (v : IsCounted threads m pc) (i : ℕ)
    (lt : i < threads) where
  -- A step of thread `i` to `p` has to balance its own share of the counts.
  moved :
      (m' : Shared) (p : Pc)
      → IsFifo m'.ring
      → m'.full + hides_item p + len m.ring ≡ m.full + hides_item (pc i) + len m'.ring
      → m'.empty + hides_slot p + len m'.ring ≡ m.empty + hides_slot (pc i) + len m.ring
      → IsOwned is_inside threads m'.ring.lock (update pc i p)
      → ((j : ℕ) → j ≢ i → IsFresh m'.ring (pc j))
      → IsFresh m'.ring p
      → IsCounted threads m' (update pc i p)
  moved m' p fifo items free owned others mine = record {
    fifo = fifo;
    items = omega (arith, items, v.items, total-update hides_item threads pc i p lt);
    free = omega (arith, free, v.free, total-update hides_slot threads pc i p lt);
    owned = owned;
    fresh = λ j. elim (ℕ_discrete j i) [
      | yes same ↦ ground (arith, mine)
      | no other ↦ ground (arith, others j other)
    ];
  }

  -- A statement that leaves the ring.
  stays :
      (full empty : ℕ) (p : Pc)
      → full + hides_item p ≡ m.full + hides_item (pc i)
      → empty + hides_slot p ≡ m.empty + hides_slot (pc i)
      → is_inside p ≡ is_inside (pc i)
      → IsFresh m.ring p
      → IsCounted threads (record m { full = full; empty = empty }) (update pc i p)
  stays full empty p items free same mine =
      moved (record m { full = full; empty = empty }) p v.fifo (omega (arith, items))
        (omega (arith, free)) (stay-IsOwned v.owned i p same) (λ j other. v.fresh j) mine

  -- To lock or unlock.
  relocks :
      (owner : Option ℕ) (p : Pc)
      → hides_item p ≡ hides_item (pc i)
      → hides_slot p ≡ hides_slot (pc i)
      → IsOwned is_inside threads owner (update pc i p)
      → IsFresh m.ring p
      → IsCounted threads (record m { ring = record m.ring { lock = owner } }) (update pc i p)
  relocks owner p items free owned mine =
      moved (record m { ring = record m.ring { lock = owner } }) p (lock-IsFifo owner v.fifo)
        (omega (arith, items)) (omega (arith, free)) owned
        (λ j other. lock-IsFresh m.ring owner (pc j) (v.fresh j)) (lock-IsFresh m.ring owner p mine)

  -- A statement between lock and unlock.
  turns :
      (ring : Ring ℤ) (p : Pc)
      → ring.lock ≡ m.ring.lock
      → is_inside (pc i) ≡ true
      → is_inside p ≡ true
      → IsFifo ring
      → hides_item p + len m.ring ≡ hides_item (pc i) + len ring
      → hides_slot p + len ring ≡ hides_slot (pc i) + len m.ring
      → IsFresh ring p
      → IsCounted threads (record m { ring = ring }) (update pc i p)
  turns ring p same within inside fifo items free mine =
      moved (record m { ring = ring }) p fifo (omega (arith, items)) (omega (arith, free))
        (rw same (stay-IsOwned v.owned i p (ground (arith, within, inside))))
        (λ j other. outside-IsFresh ring (pc j) (other-outside v.owned i p within j other)) mine

  pub step-Leaves : (x : ℤ) (p : Pc) → pc i ≡ p → Leaves threads pc i (step i x m p)
  unfolding step release write advance_tail advance_head
  step-Leaves x producer e =
      stays m.full m.empty (wait_empty x) (ground arith) (ground arith) (ground arith) tt
  step-Leaves x (wait_empty item) e = elim (Bool-cases (ltb 0 m.empty)) [
    | inl enough ↦ rw enough (
        stays m.full (m.empty - 1) (lock_insert item) (ground arith) (ground arith) (ground arith)
          tt)
    | inr none_left ↦ rw none_left tt
  ]
  step-Leaves x (lock_insert item) e = elim (Option-cases m.ring.lock) [
    | inl free ↦
        rw (acquire-free i m.ring free, Leaves, step)
          (relocks (some i) (store_item item) (ground arith) (ground arith)
            (take-IsOwned v.owned i (store_item item) free lt refl) tt)
    | inr (owner, taken) ↦ rw (acquire-held i m.ring taken, Leaves, step) tt
  ]
  step-Leaves x (store_item item) e =
      turns (write item m.ring) (move_tail item) refl (ground arith) refl (write-IsFifo item v.fifo)
        (ground arith) (ground arith) (ground arith)
  step-Leaves x (move_tail item) e =
      let at : m.ring.slots m.ring.tail ≡ item = ground (arith, v.fresh i) in
      let room : len m.ring < 10 = ground (arith, v.free, total-one hides_slot threads pc i lt) in
      let grown = len-advance_tail item v.fifo room in
      turns (advance_tail item m.ring) unlock_insert refl (ground arith) refl
        (advance_tail-IsFifo item v.fifo room at) (ground (arith, grown)) (ground (arith, grown)) tt
  step-Leaves x unlock_insert e =
      relocks none post_full (ground arith) (ground arith)
        (give-IsOwned v.owned i post_full (ground arith) refl) tt
  step-Leaves x post_full e =
      stays (m.full + 1) m.empty producer (ground arith) (ground arith) (ground arith) tt
  step-Leaves x consumer e = elim (Bool-cases (ltb 0 m.full)) [
    | inl enough ↦
        rw enough
          (stays (m.full - 1) m.empty lock_remove (ground arith) (ground arith) (ground arith) tt)
    | inr none_left ↦ rw none_left tt
  ]
  step-Leaves x lock_remove e = elim (Option-cases m.ring.lock) [
    | inl free ↦
        rw (acquire-free i m.ring free, Leaves, step)
          (relocks (some i) load_item (ground arith) (ground arith)
            (take-IsOwned v.owned i load_item free lt refl) tt)
    | inr (owner, taken) ↦ rw (acquire-held i m.ring taken, Leaves, step) tt
  ]
  step-Leaves x load_item e =
      stays m.full m.empty (move_head (m.ring.slots m.ring.head)) (ground arith) (ground arith)
        (ground arith) refl
  step-Leaves x (move_head item) e =
      let at : m.ring.slots m.ring.head ≡ item = ground (arith, v.fresh i) in
      let some_item : 0 < len m.ring =
        ground (arith, v.items, total-one hides_item threads pc i lt) in
      let shrunk = len-advance_head item v.fifo some_item in
      turns (advance_head item m.ring) unlock_remove refl (ground arith) refl
        (advance_head-IsFifo item v.fifo some_item at) (ground (arith, shrunk))
        (ground (arith, shrunk)) tt
  step-Leaves x unlock_remove e =
      relocks none post_empty (ground arith) (ground arith)
        (give-IsOwned v.owned i post_empty (ground arith) refl) tt
  step-Leaves x post_empty e =
      stays m.full (m.empty + 1) consumer (ground arith) (ground arith) (ground arith) tt
