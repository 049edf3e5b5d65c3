-- ===== src/Examples/Setup.antt =====
-- Whole numbers in place of doubles, and an environment in which every call works.
use rebench.Base.{
  ltb, if◌then◌else◌, ◌*ℤ◌, ◌%◌, ◌==◌, ℕ, ◌+◌, ◌*◌, ◌/◌, refl, ap, false, true, Option, none, some,
  List, [], ◌∷◌, arith, length, replicate, length-replicate, pos, pos_part,
}
use rebench.Os.{read_counters, History, Env}
use rebench.Os.Double.{Double}
use rebench.Perf.State.{Perf, initial}
use rebench.Perf.Overrun.{HasRoom, ReadsAtMost}
use rebench.Main.Ranges.{KeepsRanges}
use rebench.Main.Safety.Map.{MapsTwice}

-- 0 stands for the results of divisions that a double would give as infinities. A number that is no
-- `int` becomes the largest one.
instance abbrev pub naturals : Double ℕ
naturals = record {
  lit = λ m k. m;
  of_int = pos_part;
  of_u64 = λ n. n;
  add = λ a b. a + b;
  mul = λ a b. a * b;
  div = λ a b. a / b;
  eq = ◌==◌;
  to_int = λ n. some (pos (if ltb n 2147483648 then n else 2147483647));
}

-- `read` delivers what it is asked for, each word 7.
abbrev pub delivered : History ℕ → Option (List ℕ)
delivered (read_counters fd k ∷ log) = some (replicate k 7)
delivered log = none

abbrev pub working : Env ℕ
working = record {
  event_open_result = λ log. pos 5;
  read_result = delivered;
  clock = λ log. record { sec = length log % 1000; usec = 0 };
  stopwatch_result = λ log. length log;
  malloc_result = λ log. 0x1000 + length log;
  fft_plan = λ log. 0x2000;
  gemm_sizes = λ log. 16 ∷ 16 ∷ 16 ∷ [];
  gemm_result = λ log. 1;
  map_runs = λ log. (0x3000, 2) ∷ (0x4000, 3) ∷ [];
  map_result = λ log. 1;
  map_test_result = λ log. true;
  map_ops_result = λ log. pos 1;
  png_result = λ log. record { seconds = 1; bitmap = 0x5000 };
  physics_result = λ log. 1;
  data_result = λ log. 0x6000;
  digest_result = λ log. false;
}

unwrapped : Option (List ℕ) → List ℕ
unwrapped none = []
unwrapped (some ws) = ws

pub working-ReadsAtMost : ReadsAtMost working
unfolding unwrapped
working-ReadsAtMost fd k log ws e =
    omega (arith, length-replicate {A = ℕ} k 7, ap (λ o. length (unwrapped o)) e)

pub working-MapsTwice : MapsTwice working
working-MapsTwice log = omega arith

pub working-KeepsRanges : KeepsRanges working
unfolding ◌*ℤ◌
working-KeepsRanges = record {
  convert = λ x. (_, refl, ground arith);
  ops = λ i log h. ground arith;
  clock = λ log. record { few_usec = omega arith; room = omega arith };
}

-- A state of perf.c in which `n` counters are open.
abbrev pub counting : ℕ → Perf ℕ
counting n = record initial { fd = pos 5; n_counters = n }

pub counting-HasRoom : (n : ℕ) → HasRoom (counting n)
counting-HasRoom n = record { begin_room = refl; end_room = refl }
