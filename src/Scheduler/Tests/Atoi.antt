-- ===== src/Scheduler/Tests/Atoi.antt =====
-- `atoi` on blanks and digits, for the tests of Project-4/driver.c.
use learning_ei.Base.{ℕ, ◌+◌, ◌-◌, ◌*◌, ◌&&◌, leb, ◌==◌, if◌then◌else◌}
use learning_ei.Base.Int.{ℤ, pos}
use Prim.Native.Char.{code}
use Prim.Native.String.{String, [], ◌∷◌}

abbrev digits : ℕ → String → ℕ
digits n [] = n
digits n (c ∷ s) =
    if leb b'0' (code c) && leb (code c) b'9' then digits (n * 10 + (code c - b'0')) s else n

abbrev pub atoi : String → ℤ
atoi [] = pos 0
atoi (c ∷ s) = if code c == b' ' then atoi s else pos (digits 0 (c ∷ s))
