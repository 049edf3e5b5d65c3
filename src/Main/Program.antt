-- ===== src/Main/Program.antt =====
-- ututna/main.c: `main`, from its parsed command line on. `getopt`, `strtoul` and `atoi` are the C
-- library's, so the command line is given by what they return.
use rebench.Base.{
  ◌>>=◌, pure, ℕ, Bool, ◌||◌, Option, List, [], ◌∷◌, if◌then◌else◌, ℤ, pos, eqb_ℤ, u32, M, ◌>>◌,
  skip, need, when, unless,
}
use rebench.Os.{num, print, stdlib_test, Env}
use rebench.Os.Double.{Double}
use rebench.Perf.State.{Perf}
use rebench.Perf.Config.{perf_config}
use rebench.Perf.Measure.{perf_init}
use rebench.Main.State.{State, on_perf, say, print_header}
use rebench.Main.Gemm.{test_601_gemm}
use rebench.Main.Kernels.{test_600_fft, test_603_map, test_609_png, test_614_physics}
use rebench.Main.Hash.{test_607_hash}

-- One return of `getopt`: the option's letter, and strtoul(optarg, NULL, 16), `none` where `optarg`
-- is NULL and `strtoul` must not be called.
pub record Opt : Type 0 where
  pub letter : ℕ
  pub value : Option ℕ

pub record CommandLine : Type 0 where
  pub options : List Opt
  -- The numbers that `atoi` reads from the arguments behind the options.
  pub operands : List ℤ

abbrev pub id_of : List ℤ → ℤ
id_of [] = pos 0
id_of (id ∷ rest) = id

abbrev pub loops_of : List ℤ → ℤ
loops_of [] = pos 0
loops_of (id ∷ rest) = id_of rest

-- loops ? loops : n
abbrev pub or_default : ℤ → ℕ → ℤ
or_default loops n = if eqb_ℤ loops (pos 0) then pos n else loops

-- id == 0 || id == n
abbrev pub is_chosen : ℤ → ℕ → Bool
is_chosen id n = eqb_ℤ id (pos 0) || eqb_ℤ id (pos n)

module _ {D : Type 0} (env : Env D) where
  -- The loop over the options; the value is cut to an `int`.
  unfoldable pub configure : List Opt → M (Perf D) (Unit {0})
  unfolding perf_config
  configure [] = skip
  configure (o ∷ os) =
      (do value ← need o.value; perf_config env o.letter (u32 value)) >> configure os

module _ {D : Type 0} ⦃d : Double D⦄ (env : Env D) where
  unfoldable pub run_tests : (id loops : ℤ) → M (State D) (Unit {0})
  run_tests id loops = do
    when (is_chosen id 600) (test_600_fft env (or_default loops 200000))
    when (is_chosen id 601) (test_601_gemm env (or_default loops 1000))
    when (is_chosen id 603) (test_603_map env (or_default loops 500))
    when (is_chosen id 609) (test_609_png env (or_default loops 1000))
    when (is_chosen id 614) (test_614_physics env (or_default loops 600))
    when (is_chosen id 607) (test_607_hash env (or_default loops 5000))

  -- `main` behind the loop over the options.
  unfoldable pub after_options : (id loops : ℤ) → M (State D) ℕ
  unfolding perf_init print_header run_tests
  after_options id loops = do
    on_perf perf_init
    say (print "UTUTNA\n" [])
    unless (eqb_ℤ loops (pos 0)) (say (print "LOOPS: %d\n" (num loops ∷ [])))
    print_header
    run_tests id loops
    when (eqb_ℤ id (pos 1000)) (say stdlib_test)
    say (print "done\n" [])
    pure 0

  unfoldable pub main : CommandLine → M (State D) ℕ
  unfolding configure after_options
  main args = do
    on_perf (configure env args.options)
    after_options (id_of args.operands) (loops_of args.operands)
