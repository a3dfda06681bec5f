-- ===== src/Cpu/State/Loops.antt =====
-- The loop over a range of an array, by its effect on each element.
use xremu.Base.{ℕ, zero, suc, ◌+◌, ◌≡◌, arith, leb, ltb, ◌&&◌, if◌then◌else◌, update}
use xremu.Cpu.State.{for_range}

pub for_range-entry :
    (f : ℕ → ℕ) (n i : ℕ) (a : ℕ → ℕ) (j : ℕ)
    → for_range f n i a j ≡ (if leb i j && ltb j (i + n) then f (a j) else a j)
unfolding for_range
for_range-entry f zero i a j = ground arith
for_range-entry f (suc n) i a j =
    ground (arith, for_range-entry f n (i + 1) (update a i (f (a i))) j)
