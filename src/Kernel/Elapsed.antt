-- ===== src/Kernel/Elapsed.antt =====
-- The seconds that Project-1/seconds_module.c shows.
use learning_ei.Base.{ℕ, ◌+◌, ◌/◌, ◌%◌, ◌^◌, ◌<◌, ◌≡◌, arith, ap}
use learning_ei.Kernel.{Text, sub_long, init_seconds, read_seconds}

-- `jiffies` may wrap around once: below 2 ^ 64 ticks, what is shown are the seconds since the module was
-- loaded.
pub read_seconds-init_seconds :
    (sprintf : ℕ → Text) (hz start ticks : ℕ)
    → start < 2 ^ 64
    → ticks < 2 ^ 64
    → (read_seconds sprintf hz ((start + ticks) % 2 ^ 64) (init_seconds start)).0.copied
      ≡ sprintf (ticks / hz)
unfolding read_seconds init_seconds
read_seconds-init_seconds sprintf hz start ticks lt lt' =
    let e : sub_long ((start + ticks) % 2 ^ 64) start ≡ ticks = omega arith in
    ap (λ n. sprintf (n / hz)) e
