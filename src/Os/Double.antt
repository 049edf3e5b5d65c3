-- ===== src/Os/Double.antt =====
-- What ututna/main.c and ututna/perf.c do with a `double`, over any type of doubles. The arithmetic
-- is the machine's, so it is a parameter.
use rebench.Base.{ℕ, ℤ, Bool, Option}

pub record Double (D : Type 0) : Type 0 where
  -- The constant m / 10 ^ k.
  pub lit : ℕ → ℕ → D
  pub of_int : ℤ → D
  -- (double) of a `uint64_t`.
  pub of_u64 : ℕ → D
  pub add : D → D → D
  pub mul : D → D → D
  pub div : D → D → D
  -- The test `x == y`.
  pub eq : D → D → Bool
  -- (int)x, which drops the fraction; `none` where an `int` does not hold the rest, which C leaves
  -- undefined.
  pub to_int : D → Option ℤ
