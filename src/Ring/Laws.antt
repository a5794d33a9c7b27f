-- ===== src/Ring/Laws.antt =====
-- What each operation on the ring keeps: it is the queue of the items from `head` to `tail`.
use learning_ei.Base.{
  ℕ, suc, ◌+◌, ◌%◌, ◌<◌, ◌≡◌, ap, ◌∙◌, sym, arith, Option, none, some, List, [], ◌∷◌, ◌++◌,
}
use mathlib.Core.List.{append_assoc}
use learning_ei.Ring.{Ring, ring_slots, len, acquire, write, advance_tail, advance_head}
use learning_ei.Ring.Window.{window, window-update, window-suc}

module _ {A : Type 0} where
  -- The items, the oldest first.
  abbrev pub contents : Ring A → List A
  contents r = window r.slots r.head (len r)

  -- The indices are in range, and what has been added has been taken or is still there, in order.
  pub record IsFifo (r : Ring A) : Type 0 where
    pub head_in : r.head < ring_slots
    pub tail_in : r.tail < ring_slots
    pub in_order : r.taken ++ contents r ≡ r.added

  pub acquire-free :
      (i : ℕ) (r : Ring A) → r.lock ≡ none → acquire i r ≡ some (record r { lock = some i })
  unfolding acquire
  acquire-free i r free = ground arith

  pub acquire-held : (i : ℕ) (r : Ring A) {owner : ℕ} → r.lock ≡ some owner → acquire i r ≡ none
  unfolding acquire
  acquire-held i r held = ground arith

  pub lock-IsFifo : {r : Ring A} (owner : Option ℕ) → IsFifo r → IsFifo (record r { lock = owner })
  lock-IsFifo owner v = record { head_in = v.head_in; tail_in = v.tail_in; in_order = v.in_order }

  pub write-IsFifo : {r : Ring A} (x : A) → IsFifo r → IsFifo (write x r)
  unfolding write
  write-IsFifo {r} x v = record {
    head_in = v.head_in;
    tail_in = v.tail_in;
    in_order =
        rw (window-update r.slots x r.head (len r) r.tail v.head_in v.tail_in (omega arith))
          v.in_order;
  }

  pub len-advance_tail :
      {r : Ring A} (x : A) → IsFifo r → len r < 10 → len (advance_tail x r) ≡ len r + 1
  unfolding advance_tail
  len-advance_tail {r} x v room = let h = v.head_in in let t = v.tail_in in omega arith

  pub len-advance_head :
      {r : Ring A} (x : A) → IsFifo r → 0 < len r → len (advance_head x r) + 1 ≡ len r
  unfolding advance_head
  len-advance_head {r} x v some_item = let h = v.head_in in let t = v.tail_in in omega arith

  contents-advance_tail :
      {r : Ring A} (x : A)
      → IsFifo r
      → len r < 10
      → r.slots r.tail ≡ x
      → contents (advance_tail x r) ≡ contents r ++ (x ∷ [])
  unfolding advance_tail
  contents-advance_tail {r} x v room at =
      let grown : len (advance_tail x r) ≡ suc (len r) = omega (arith, len-advance_tail x v room) in
      let h = v.head_in in
      let t = v.tail_in in
      let last : (r.head + len r) % ring_slots ≡ r.tail = omega arith in
      ap (window r.slots r.head) grown
      ∙ window-suc r.slots r.head (len r) v.head_in
      ∙ ap (λ y. contents r ++ (y ∷ [])) (ap r.slots last ∙ at)

  contents-advance_head :
      {r : Ring A} (x : A)
      → IsFifo r
      → 0 < len r
      → r.slots r.head ≡ x
      → contents r ≡ x ∷ contents (advance_head x r)
  unfolding advance_head window
  contents-advance_head {r} x v some_item at =
      let shrunk : len r ≡ suc (len (advance_head x r)) =
        omega (arith, len-advance_head x v some_item) in
      ap (window r.slots r.head) shrunk ∙ ap (λ y. y ∷ contents (advance_head x r)) at

  pub advance_tail-IsFifo :
      {r : Ring A} (x : A) → IsFifo r → len r < 10 → r.slots r.tail ≡ x → IsFifo (advance_tail x r)
  unfolding advance_tail
  advance_tail-IsFifo {r} x v room at = record {
    head_in = v.head_in;
    tail_in = omega arith;
    in_order =
        ap (λ l. r.taken ++ l) (contents-advance_tail x v room at)
        ∙ sym (append_assoc r.taken (contents r) (x ∷ []))
        ∙ ap (λ l. l ++ (x ∷ [])) v.in_order;
  }

  pub advance_head-IsFifo :
      {r : Ring A} (x : A) → IsFifo r → 0 < len r → r.slots r.head ≡ x → IsFifo (advance_head x r)
  unfolding advance_head
  advance_head-IsFifo {r} x v some_item at = record {
    head_in = omega arith;
    tail_in = v.tail_in;
    in_order =
        append_assoc r.taken (x ∷ []) (contents (advance_head x r))
        ∙ ap (λ l. r.taken ++ l) (sym (contents-advance_head x v some_item at))
        ∙ v.in_order;
  }
