-- ===== src/Buffer/Safety.antt =====
-- What consumers of Project-5-2 get, whatever the interleaving.
use learning_ei.Base.{ℕ, ◌≤◌, ◌≡◌, arith, true, List, ◌++◌}
use learning_ei.Base.Int.{ℤ}
use learning_ei.Ring.{len}
use learning_ei.Ring.Laws.{contents}
use learning_ei.Buffer.{run, init, buffer_size}
use learning_ei.Buffer.Counts.{is_inside}
use learning_ei.Buffer.Invariant.{reached-IsCounted}

-- Whatever the threads and however they are interleaved, what consumers have removed, and then what
-- the buffer holds, is what producers have inserted, in order: no item is lost, doubled or
-- overtaken. The buffer never holds more than ten items.
pub run-in_order :
    (threads producers : ℕ) (picks : List (ℕ × ℤ))
    → let ring = (run threads picks (init producers)).mem.ring in
      (ring.taken ++ contents ring ≡ ring.added) × (len ring ≤ buffer_size)
run-in_order threads producers picks =
    let v = reached-IsCounted threads producers picks in (v.fifo.in_order, omega (arith, v.free))

-- In every interleaving, two threads are never between lock and unlock together.
pub run-exclusive :
    (threads producers : ℕ) (picks : List (ℕ × ℤ)) (i j : ℕ)
    → is_inside ((run threads picks (init producers)).pc i) ≡ true
    → is_inside ((run threads picks (init producers)).pc j) ≡ true
    → i ≡ j
run-exclusive threads producers picks i j p q =
    let v = reached-IsCounted threads producers picks in
    let p' = v.owned.owner i p in let q' = v.owned.owner j q in ground arith
