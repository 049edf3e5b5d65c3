-- ===== src/Main/Clock.antt =====
-- The seconds of a benchmark run: what `end` of ututna/main.c computes from the two clock readings.
use rebench.Base.{Bool-cases, leb, inl, inr, ℕ, ◌+◌, ◌-◌, ◌*◌, ◌^◌, ◌≤◌, ◌<◌, ◌≡◌, some, arith}
use rebench.Os.{Timeval}
use rebench.Main.State.{elapsed_usec}

-- A reading of the clock: less than a million microseconds, and seconds that leave room for the
-- microseconds in a `long`.
pub record IsReading (tv : Timeval) : Type 0 where
  pub few_usec : tv.usec < 1000000
  pub room : tv.sec < 9223372036854

-- The microseconds that a clock reading stands for.
abbrev pub usec_of : Timeval → ℕ
usec_of tv = 1000000 * tv.sec + tv.usec

-- If the clock has not gone back between two readings, each with less than a million microseconds
-- and with less than 9223372036854 seconds, which are more than 290000 years, `end` counts exactly
-- the microseconds between the two, also where `tv_usec` is the smaller one at the end.
pub elapsed_usec_lem :
    (start tv : Timeval)
    → IsReading start
    → IsReading tv
    → usec_of start ≤ usec_of tv
    → elapsed_usec start tv ≡ some (usec_of tv - usec_of start)
unfolding elapsed_usec
elapsed_usec_lem start tv a b h = ground (arith, a.few_usec, a.room, b.few_usec, b.room)

-- If the clock has been set back between two such readings, `end` counts 2 ^ 64 less the
-- microseconds that it was set back by: a huge number, not a negative one.
pub elapsed_usec_back :
    (start tv : Timeval)
    → IsReading start
    → IsReading tv
    → usec_of tv < usec_of start
    → elapsed_usec start tv ≡ some (2 ^ 64 - (usec_of start - usec_of tv))
unfolding elapsed_usec
elapsed_usec_back start tv a b h = ground (arith, a.few_usec, a.room, b.few_usec, b.room)

-- Two readings have a difference that `end` can compute.
pub elapsed_usec_fits :
    (start tv : Timeval)
    → IsReading start
    → IsReading tv
    → (n : ℕ) × (elapsed_usec start tv ≡ some n)
elapsed_usec_fits start tv a b = elim (Bool-cases (leb (usec_of start) (usec_of tv))) [
  | inl forward ↦ (_, elapsed_usec_lem start tv a b (ground (arith, forward)))
  | inr back ↦ (_, elapsed_usec_back start tv a b (ground (arith, back)))
]
