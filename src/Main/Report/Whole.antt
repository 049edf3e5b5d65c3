-- ===== src/Main/Report/Whole.antt =====
-- The report of `main` of ututna/main.c: the lines of the benchmarks that are chosen.
use mathlib.Core.Path.{subst⁻¹}
use rebench.Base.{
  ◌/◌, ◌≤◌, ◌≡◌, refl, List, [], ◌∷◌, ◌++◌, ◌==◌, if◌then◌else◌, ℤ, pos, ◌*ℤ◌, pos_part, eqb_ℤ,
  ltb_ℤ, Returns, Returns-mono,
}
use rebench.Base.Progress.{
  Goes, goes, Goes-mono, Goes-when, Goes-unless, Goes-and_then, Returns-and_Goes,
}
use rebench.Os.{Env, History, test_map}
use rebench.Os.Double.{Double}
use rebench.Perf.State.{initial}
use rebench.Perf.Measure.{perf_init, perf_print_headers}
use rebench.Perf.Overrun.{ReadsAtMost}
use rebench.Perf.Progress.{OpensAll}
use rebench.Main.State.{State, initial_state, print_header}
use rebench.Main.Program.{CommandLine, id_of, loops_of, or_default, after_options, main}
use rebench.Main.Dispatch.{
  Benchmark, fft, gemm, map, png, physics, hash, default_loops, Selects, run, run_all,
  run_tests_lem,
}
use rebench.Main.Carried.Maps.{Limits, unordered_loops}
use rebench.Main.Ranges.{KeepsRanges}
use rebench.Main.Safety.Map.{MapsTwice, FitsInt}
use rebench.Main.Safety.Whole.{HaveValues, total_weight}
use rebench.Main.Progress.{AllocatesFew}
use rebench.Main.Progress.Whole.{main-Returns}
use rebench.Main.Report.{ScoreLine, score_lines}
use rebench.Main.Report.Counters.{score_lines-IsCarried, on_perf-Reports}
use rebench.Main.Report.Kernels.{
  test_600_fft-Reports, test_609_png-Reports, test_614_physics-Reports, test_607_hash-Reports,
}
use rebench.Main.Progress.Options.{configure-Carries}
use rebench.Main.Report.Benchmarks.{map_lines, test_601_gemm-Reports, test_603_map-Reports}

-- 601_gemm runs its second kernel half as often.
abbrev pub halved : ℤ → ℤ
halved loops = if ltb_ℤ (pos 1) loops then pos (pos_part loops / 2) else pos 1

-- The lines of a benchmark, the last one first. 603_map has a line for each map that it measures.
pub data IsReport {D : Type 0} ⦃d : Double D⦄ (env : Env D)
    : Benchmark → ℤ → List ScoreLine → Type 0 where
  fft_line : {loops : ℤ} → IsReport env fft loops (("600_FFT", loops) ∷ [])
  gemm_lines :
      {loops : ℤ}
      → IsReport env gemm loops
          (("601_GEMM", loops) ∷ ("[DGEMM]", halved loops) ∷ ("[SGEMM]", loops) ∷ [])
  map_report :
      {loops : ℤ} (log : History D) (limits : List ℤ)
      → Limits (env.map_runs (test_map (loops *ℤ pos 2) ∷ log)) [] limits
      → IsReport env map loops (("603_MAP", loops) ∷ map_lines (unordered_loops loops) limits)
  png_line : {loops : ℤ} → IsReport env png loops (("609_PNG", loops) ∷ [])
  physics_line : {loops : ℤ} → IsReport env physics loops (("614_PHYSICS", loops) ∷ [])
  hash_line : {loops : ℤ} → IsReport env hash loops (("607_HASH", loops) ∷ [])

-- The lines of benchmarks in this order, behind the lines `ls`, for the loops of the command line.
pub data AreReports {D : Type 0} ⦃d : Double D⦄ (env : Env D) (loops : ℤ)
    : List Benchmark → (ls after : List ScoreLine) → Type 0 where
  no_report : {ls : List ScoreLine} → AreReports env loops [] ls ls
  report :
      {b : Benchmark} {bs : List Benchmark} {ls after : List ScoreLine} (rs : List ScoreLine)
      → IsReport env b (or_default loops (default_loops b)) rs
      → AreReports env loops bs (rs ++ ls) after
      → AreReports env loops (b ∷ bs) ls after

module _ {D : Type 0} ⦃d : Double D⦄ (env : Env D) where
  run-IsReport :
      {ls : List ScoreLine} (b : Benchmark) (loops : ℤ) (s : State D)
      → score_lines s.perf.log ≡ ls
      → Goes Unit
          (λ _ t.
            (rs : List ScoreLine) × IsReport env b loops rs × (score_lines t.perf.log ≡ rs ++ ls))
          (run env b loops s)
  unfolding run
  run-IsReport fft loops s h =
      Goes-mono (test_600_fft-Reports env loops s h) λ _ _ i. (_, fft_line, i)
  run-IsReport gemm loops s h =
      Goes-mono (test_601_gemm-Reports env loops s h) λ _ _ i. (_, gemm_lines, i)
  run-IsReport map loops s h =
      Goes-mono (test_603_map-Reports env loops s h)
        λ _ _ (log, limits, are, i). (_, map_report log limits are, i)
  run-IsReport png loops s h =
      Goes-mono (test_609_png-Reports env loops s h) λ _ _ i. (_, png_line, i)
  run-IsReport physics loops s h =
      Goes-mono (test_614_physics-Reports env loops s h) λ _ _ i. (_, physics_line, i)
  run-IsReport hash loops s h =
      Goes-mono (test_607_hash-Reports env loops s h) λ _ _ i. (_, hash_line, i)

  run_all-AreReports :
      (bs : List Benchmark) (ls : List ScoreLine) (loops : ℤ) (s : State D)
      → score_lines s.perf.log ≡ ls
      → Goes Unit
          (λ _ t. AreReports env loops bs ls (score_lines t.perf.log))
          (run_all env bs loops s)
  unfolding run_all
  run_all-AreReports [] ls loops s h = goes (subst⁻¹ (AreReports env loops [] ls) h no_report)
  run_all-AreReports (b ∷ bs) ls loops s h =
      Goes-and_then (run-IsReport b (or_default loops (default_loops b)) s h) λ _ t (rs, is, i).
        Goes-mono (run_all-AreReports bs (rs ++ ls) loops t i) λ _ u are. report rs is are

  -- The report is complete in this state.
  abbrev IsReported : (loops : ℤ) → List Benchmark → State D → Type 0
  IsReported loops bs t = AreReports env loops bs [] (score_lines t.perf.log)

  after_options-IsReported :
      {id : ℤ} {bs : List Benchmark} (loops : ℤ) (s : State D)
      → Selects id bs
      → score_lines s.perf.log ≡ []
      → Goes Unit (λ _ t. IsReported loops bs t) (after_options env id loops s)
  unfolding after_options perf_init print_header perf_print_headers score_lines
  after_options-IsReported {id} {bs} loops s chosen h =
      let P : Unit {0} → State D → Type 0 = λ _ t. score_lines t.perf.log ≡ [] in
      Goes-and_then {P = P} (on_perf-Reports s (Goes-unless (s.perf.n_counters == 0) _ h (goes h)))
        λ _ t i. Goes-and_then {P = P} (Goes-unless (eqb_ℤ loops (pos 0)) _ i (goes i)) λ _ u j.
          Goes-and_then {P = λ _ v. IsReported loops bs v}
            (subst⁻¹ (Goes Unit λ _ v. IsReported loops bs v) (run_tests_lem env loops _ chosen)
              (run_all-AreReports bs [] loops _ j))
            λ _ v k.
              Goes-and_then {P = λ _ w. IsReported loops bs w}
                (Goes-when (eqb_ℤ id (pos 1000)) _ k (goes k)) λ _ w l. goes l

  main-IsReported :
      {bs : List Benchmark} (args : CommandLine)
      → Selects (id_of args.operands) bs
      → Goes Unit (λ _ t. IsReported (loops_of args.operands) bs t) (main env args initial_state)
  unfolding main score_lines
  main-IsReported args chosen =
      Goes-and_then
        (on_perf-Reports initial_state (
          configure-Carries env (λ log. score_lines log ≡ [])
            (score_lines-IsCarried (λ ls. ls ≡ [])) (λ _ _ _. tt) args.options initial refl))
        λ _ t i. after_options-IsReported (loops_of args.operands) t chosen i

module _ {D : Type 0} ⦃d : Double D⦄ (env : Env D) where
  -- If the options open at most six counters and have their arguments, the system opens every
  -- counter, `read` stores no more than it is asked for, the conversion of any `double` to an `int`
  -- gives an `int`, the operations of a map test times its rounds fit a `long`, the clock stays
  -- below 9223372036854 seconds with less than a million microseconds, a kernel's test asks for at
  -- most three matrices, `test_map` measures at most two maps and ten times the loops fit an `int`,
  -- then `main` returns 0, and the lines of scores that it printed are those of the benchmarks that
  -- the id selects, in their order, and no others. Each has the loops of the command line or the
  -- benchmark's own, but for these: [DGEMM] has half of them, or 1; [MAP.ORDERED], the line of the
  -- first map, has the time limit of that map as an `int`; and [MAP.UNORDERED], that of the second,
  -- has ten times the loops, or 1 if they are not more than 1. There is a line for each map.
  pub main-AreReports :
      {bs : List Benchmark} (args : CommandLine)
      → ReadsAtMost env
      → KeepsRanges env
      → MapsTwice env
      → OpensAll env
      → AllocatesFew env
      → HaveValues args.options
      → total_weight args.options ≤ 6
      → FitsInt (loops_of args.operands)
      → Selects (id_of args.operands) bs
      → Returns
          (λ ret t.
            (ret ≡ 0) × AreReports env (loops_of args.operands) bs [] (score_lines t.perf.log))
          (main env args initial_state)
  main-AreReports args few ranges twice opens matrices vs six fits chosen =
      Returns-mono
        (Returns-and_Goes (main-Returns env few ranges twice opens matrices args vs six fits)
          (main-IsReported env args chosen))
        λ _ _ ((zero_returned, _), reported). (zero_returned, reported)
