-- ===== src/Main/Ranges.antt =====
-- What ututna/main.c relies on where C leaves a conversion or an overflow undefined.
use rebench.Base.{ℕ, ◌^◌, ◌<◌, ◌≡◌, true, some, ℤ, pos, ◌*ℤ◌}
use rebench.Os.{History, Env}
use rebench.Os.Double.{Double}
use rebench.Main.State.{in_int, in_long}
use rebench.Main.Clock.{IsReading}

-- `convert` is what a target does whose conversion of a `double` to an `int` saturates, as that of
-- AArch64; the other two are about the answers of the map test and of the clock.
pub record KeepsRanges {D : Type 0} ⦃d : Double D⦄ (env : Env D) : Type 0 where
  -- The conversion of a `double` to an `int` gives an `int`.
  pub convert : (x : D) → (n : ℤ) × (d.to_int x ≡ some n) × (in_int n ≡ true)
  -- The operations of a map test, times any number of rounds of an `int`, fit a `long`.
  pub ops :
      (i : ℕ) (log : History D) → i < 2 ^ 31 → in_long (pos i *ℤ env.map_ops_result log) ≡ true
  -- The clock shows readings that leave room for the microseconds.
  pub clock : (log : History D) → IsReading (env.clock log)
