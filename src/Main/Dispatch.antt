-- ===== src/Main/Dispatch.antt =====
-- Which benchmarks `main` of ututna/main.c runs for an id, and in what order.
use mathlib.Core.Path.{fun_ext}
use rebench.Base.{
  ℕ, ◌≡◌, refl, sym, ◌≢◌, false, List, [], ◌∷◌, arith, ℤ, pos, eqb_ℤ→eq, M, Run, done, exited,
  fault, and_then, ◌>>◌, skip,
}
use rebench.Os.{Env}
use rebench.Os.Double.{Double}
use rebench.Main.State.{State}
use rebench.Main.Gemm.{test_601_gemm}
use rebench.Main.Kernels.{test_600_fft, test_603_map, test_609_png, test_614_physics}
use rebench.Main.Hash.{test_607_hash}
use rebench.Main.Program.{or_default, is_chosen, run_tests}

pub data Benchmark : Type 0 where
  fft gemm map png physics hash : Benchmark

-- The id that the command line names a benchmark by, and the loops that it makes by itself.
abbrev pub id_number : Benchmark → ℕ
id_number fft = 600
id_number gemm = 601
id_number map = 603
id_number png = 609
id_number physics = 614
id_number hash = 607

abbrev pub default_loops : Benchmark → ℕ
default_loops fft = 200000
default_loops gemm = 1000
default_loops map = 500
default_loops png = 1000
default_loops physics = 600
default_loops hash = 5000

abbrev pub all_benchmarks : List Benchmark
all_benchmarks = fft ∷ gemm ∷ map ∷ png ∷ physics ∷ hash ∷ []

-- Id 0 stands for all of them, and any other id for the one that it names, if it names one.
pub data Selects : ℤ → List Benchmark → Type 0 where
  every : Selects (pos 0) all_benchmarks
  one : (b : Benchmark) → Selects (pos (id_number b)) (b ∷ [])
  nothing : {id : ℤ} → id ≢ pos 0 → ((b : Benchmark) → id ≢ pos (id_number b)) → Selects id []

module _ {D : Type 0} ⦃d : Double D⦄ (env : Env D) where
  unfoldable pub run : Benchmark → ℤ → M (State D) (Unit {0})
  run fft = test_600_fft env
  run gemm = test_601_gemm env
  run map = test_603_map env
  run png = test_609_png env
  run physics = test_614_physics env
  run hash = test_607_hash env

  -- The benchmarks one after the other, each with its own number of loops where none is given.
  unfoldable pub run_all : List Benchmark → ℤ → M (State D) (Unit {0})
  run_all [] loops = skip
  run_all (b ∷ bs) loops = run b (or_default loops (default_loops b)) >> run_all bs loops

  and_then-skip : (r : Run (State D) (Unit {0})) → and_then r (λ _. skip) ≡ r
  and_then-skip (done a s) = refl
  and_then-skip (exited s) = refl
  and_then-skip fault = refl

  tail_skip : (m : M (State D) (Unit {0})) → (m >> skip) ≡ m
  tail_skip m = fun_ext λ s. and_then-skip (m s)

  every_skip :
      (loops : ℤ) (s : State D) → run_all all_benchmarks loops s ≡ run_tests env (pos 0) loops s
  unfolding run_tests run_all run
  every_skip loops s = rw (tail_skip (test_607_hash env (or_default loops 5000))) refl

  -- `main` runs all six benchmarks in their order for the id 0, the one benchmark that the id names,
  -- or none for an id that names none, with the loops of the command line or the benchmark's own.
  pub run_tests_lem :
      {id : ℤ} {bs : List Benchmark} (loops : ℤ) (s : State D)
      → Selects id bs
      → run_tests env id loops s ≡ run_all bs loops s
  unfolding run_tests run_all run
  run_tests_lem loops s every = sym (every_skip loops s)
  run_tests_lem loops s (one fft) = refl
  run_tests_lem loops s (one gemm) = refl
  run_tests_lem loops s (one map) = refl
  run_tests_lem loops s (one png) = refl
  run_tests_lem loops s (one physics) = refl
  run_tests_lem loops s (one hash) =
      sym (and_then-skip (test_607_hash env (or_default loops 5000) s))
  run_tests_lem loops s (nothing {id} nonzero unnamed) =
      rw
        (
          unchosen 600 (unnamed fft),
          unchosen 601 (unnamed gemm),
          unchosen 603 (unnamed map),
          unchosen 609 (unnamed png),
          unchosen 614 (unnamed physics),
          unchosen 607 (unnamed hash),
        )
        refl
    where
      unchosen : (n : ℕ) → id ≢ pos n → is_chosen id n ≡ false
      unchosen n other = ground (arith, nonzero, other, eqb_ℤ→eq id (pos 0), eqb_ℤ→eq id (pos n))
