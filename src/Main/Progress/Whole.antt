-- ===== src/Main/Progress/Whole.antt =====
-- 601_gemm of ututna/main.c and the program as a whole: where `exit` is called, and where `main`
-- returns.
use Prim.Native.String.{String}
use rebench.Base.{
  ℕ, zero, suc, ◌+◌, ◌≤◌, ◌<◌, ◌≡◌, refl, Bool, false, List, [], ◌∷◌, arith, ltb, leb, ◌==◌, length,
  get_elem?, ℤ, pos, negsuc, eqb_ℤ, rounds, M, when, Returns, Returns-mono,
}
use rebench.Base.Progress.{
  Goes, goes, Goes-mono, Goes-if, Goes-need, Goes-check, Goes-when, Goes-unless, Goes-and_then,
  Returns-of_Safe,
}
use rebench.Os.{Env, History, Event, print, malloc, sgemm, dgemm, test_sgemm, test_dgemm}
use rebench.Os.Double.{Double}
use rebench.Perf.State.{Perf, initial}
use rebench.Perf.Measure.{perf_init, perf_print_headers}
use rebench.Perf.Overrun.{ReadsAtMost}
use rebench.Perf.Progress.{OpensAll, MayFail}
use rebench.Main.State.{State, initial_state, print_score, print_header}
use rebench.Main.Gemm.{
  gemm_malloc, gemm_clear, gemm_cleanup, gemm_mallocs, kernel, time_kernel, test_601_kernel,
  test_601_sgemm, test_601_dgemm, test_601_gemm, half_of, gemm_score,
}
use rebench.Main.Program.{
  Opt, CommandLine, id_of, loops_of, is_chosen, configure, run_tests, after_options, main,
}
use rebench.Main.Ranges.{KeepsRanges}
use rebench.Main.Safety.Map.{MapsTwice, FitsInt}
use rebench.Main.Safety.Whole.{HaveValues, total_weight, main-Safe}
use rebench.Main.Carried.{said}
use rebench.Main.Progress.Options.{configure-Carries}
use rebench.Main.Progress.{
  Continues, Anything-IsCarried, Keeps, AllocatesFew, on_perf-Keeps, repeat-Keeps,
  print_score-Keeps, begin-Keeps, end-Keeps, test_600_fft-Keeps, test_603_map-Keeps,
  test_609_png-Keeps, test_614_physics-Keeps, test_607_hash-Keeps,
}

module _ {D : Type 0} ⦃d : Double D⦄ (env : Env D) where
  gemm_malloc-Goes :
      (size : ℕ) (s : State D) → s.gemm_idx < 3 → Keeps (s.gemm_idx + 1) (gemm_malloc env size s)
  unfolding gemm_malloc
  gemm_malloc-Goes size s room =
      let fits : leb 3 s.gemm_idx ≡ false = ground arith in
      rw fits (
        Goes-and_then {P = λ _ t. t.gemm_idx ≡ s.gemm_idx}
          (Goes-check (ltb s.gemm_idx (length s.gemm_ptrs)) (said (malloc size) s) refl)
          λ _ t i. goes (omega (arith, i)))

  gemm_mallocs-Goes :
      (sizes : List ℕ) (s : State D)
      → s.gemm_idx + length sizes ≤ 3
      → Continues (gemm_mallocs env sizes s)
  unfolding gemm_mallocs
  gemm_mallocs-Goes [] s room = goes tt
  gemm_mallocs-Goes (size ∷ sizes) s room =
      Goes-and_then (gemm_malloc-Goes size s (omega arith))
        λ _ t i. gemm_mallocs-Goes sizes t (omega (arith, i))

  gemm_clear-Goes : (left i : ℕ) (s : State D) → Continues (gemm_clear env left i s)
  unfolding gemm_clear
  gemm_clear-Goes zero i s = goes tt
  gemm_clear-Goes (suc left) i s =
      Goes-and_then {P = λ _ _. Unit {0}}
        (Goes-and_then {P = λ _ _. Unit {0}} (Goes-need (get_elem? s.gemm_ptrs i) s λ _. tt)
          λ _ _ _. goes tt)
        λ _ t _. gemm_clear-Goes left (i + 1) t

  gemm_cleanup-Goes : (s : State D) → Keeps 0 (gemm_cleanup env s)
  unfolding gemm_cleanup
  gemm_cleanup-Goes s = Goes-and_then (gemm_clear-Goes 3 0 s) λ _ t _. goes refl

  kernel-Keeps :
      {n : ℕ} (call : ℕ → ℕ → ℕ → ℕ → Event D) (s : State D)
      → s.gemm_idx ≡ n
      → Keeps n (kernel env call s)
  kernel-Keeps {n} call s h =
      Goes-and_then {P = λ _ t. t.gemm_idx ≡ n} (Goes-need (get_elem? s.gemm_ptrs 0) s λ _. h)
        λ a t i.
          Goes-and_then {P = λ _ t. t.gemm_idx ≡ n} (Goes-need (get_elem? s.gemm_ptrs 1) t λ _. i)
            λ b u j.
              Goes-and_then {P = λ _ t. t.gemm_idx ≡ n}
                (Goes-need (get_elem? s.gemm_ptrs 2) u λ _. j) λ c v k. goes k

  time_kernel-Goes :
      (call : ℕ → ℕ → ℕ → ℕ → Event D) (loops : ℤ) (s : State D)
      → Continues (time_kernel env call loops s)
  unfolding time_kernel
  time_kernel-Goes call loops s = Goes-and_then (begin-Keeps env s refl) λ _ t i.
      Goes-and_then (repeat-Keeps (rounds loops) _ t (kernel-Keeps call) i)
        λ _ u j. Goes-mono (end-Keeps env u j) λ _ _ _. tt

  test_601_kernel-Goes :
      (test : Event D) (call : ℕ → ℕ → ℕ → ℕ → Event D) (message : String) (loops : ℤ) (s : State D)
      → AllocatesFew env
      → s.gemm_idx ≡ 0
      → Continues (test_601_kernel env test call message loops s)
  unfolding test_601_kernel
  test_601_kernel-Goes test call message loops s few h =
      let t = said test s in
      Goes-and_then
        (gemm_mallocs-Goes (env.gemm_sizes t.perf.log) t (omega (arith, few t.perf.log, h)))
        λ _ u _.
          Goes-if (d.eq (env.gemm_result u.perf.log) (d.of_int (negsuc 0))) _ _
            (time_kernel-Goes call loops u) (goes tt)

  score-Continues :
      (name : String) (score : D) (loops : ℤ) (secs : D) (s : State D)
      → Continues (print_score name score loops secs s)
  score-Continues name score loops secs s =
      Goes-mono (print_score-Keeps name score loops secs s refl) λ _ _ _. tt

  module _ (few : AllocatesFew env) where
    test_601_gemm-Keeps :
        (loops : ℤ) (s : State D) → s.gemm_idx ≡ 0 → Keeps 0 (test_601_gemm env loops s)
    unfolding test_601_gemm test_601_sgemm test_601_dgemm
    test_601_gemm-Keeps loops s h =
        Goes-and_then (test_601_kernel-Goes test_sgemm sgemm "sgemm error.\n" loops s few h)
          λ a t _.
            Goes-and_then (score-Continues "[SGEMM]" (gemm_score env loops a) loops a t) λ _ u _.
              Goes-and_then (gemm_cleanup-Goes u) λ _ v k.
                Goes-and_then
                  (test_601_kernel-Goes test_dgemm dgemm "dgemm error.\n" (half_of env loops) v few
                    k)
                  λ b w _.
                    Goes-and_then
                      (score-Continues "[DGEMM]" (gemm_score env (half_of env loops) b)
                        (half_of env loops) b w)
                      λ _ x _.
                        Goes-and_then (gemm_cleanup-Goes x)
                          λ _ y l. print_score-Keeps "601_GEMM" _ loops _ y l

    when-Keeps :
        (b : Bool) (m : M (State D) (Unit {0})) (s : State D)
        → s.gemm_idx ≡ 0
        → Keeps 0 (m s)
        → Keeps 0 (when b m s)
    when-Keeps b m s h k = Goes-when b m h k

    run_tests-Keeps :
        (id loops : ℤ) (s : State D) → s.gemm_idx ≡ 0 → Keeps 0 (run_tests env id loops s)
    unfolding run_tests
    run_tests-Keeps id loops s h =
        Goes-and_then (when-Keeps (is_chosen id 600) _ s h (test_600_fft-Keeps env _ s h)) λ _ t i.
          Goes-and_then (when-Keeps (is_chosen id 601) _ t i (test_601_gemm-Keeps _ t i)) λ _ u j.
            Goes-and_then (when-Keeps (is_chosen id 603) _ u j (test_603_map-Keeps env _ u j))
              λ _ v k.
                Goes-and_then (when-Keeps (is_chosen id 609) _ v k (test_609_png-Keeps env _ v k))
                  λ _ w l.
                    Goes-and_then
                      (when-Keeps (is_chosen id 614) _ w l (test_614_physics-Keeps env _ w l))
                      λ _ x m. when-Keeps (is_chosen id 607) _ x m (test_607_hash-Keeps env _ x m)

  configure-Continues :
      (options : List Opt) (p : Perf D) → OpensAll env → Continues (configure env options p)
  configure-Continues options p opens =
      configure-Carries env (λ _. Unit {0}) Anything-IsCarried never options p tt
    where
      never : MayFail ⊥ env
      never log r failed = let (_, opened) = opens log in cc

-- `main` returned 0, and its last message is the one for the end.
abbrev pub Finished : {D : Type 0} → ℕ → State D → Type 0
Finished {D} ret t = (ret ≡ 0) × ((log : History D) × (t.perf.log ≡ print "done\n" [] ∷ log))

module _ {D : Type 0} ⦃d : Double D⦄ (env : Env D) (few : ReadsAtMost env)
    (ranges : KeepsRanges env) (twice : MapsTwice env) (opens : OpensAll env)
    (matrices : AllocatesFew env) where
  after_options-Goes :
      (id loops : ℤ) (s : State D) → s.gemm_idx ≡ 0 → Goes ⊥ Finished (after_options env id loops s)
  unfolding after_options perf_init print_header perf_print_headers
  after_options-Goes id loops s h =
      Goes-and_then {P = λ _ t. t.gemm_idx ≡ 0}
        (on_perf-Keeps s h
          (Goes-unless {P = λ _ _. Unit {0}} (s.perf.n_counters == 0) _ tt (goes tt)))
        λ _ t i.
          Goes-and_then {P = λ _ u. u.gemm_idx ≡ 0} (Goes-unless (eqb_ℤ loops (pos 0)) _ i (goes i))
            λ _ u j. Goes-and_then (run_tests-Keeps env matrices id loops _ j) λ _ v k.
              Goes-and_then {P = λ _ w. w.gemm_idx ≡ 0}
                (Goes-when (eqb_ℤ id (pos 1000)) _ k (goes k))
                λ _ w l. goes (refl, (w.perf.log, refl))

  main-Goes : (args : CommandLine) → Goes ⊥ Finished (main env args initial_state)
  unfolding main
  main-Goes args =
      Goes-and_then
        (on_perf-Keeps initial_state refl (configure-Continues env args.options initial opens))
        λ _ t i. after_options-Goes (id_of args.operands) (loops_of args.operands) t i

  -- If the options open at most six counters and have their arguments, the system opens every
  -- counter, `read` stores no more than it is asked for, the conversion of any `double` to an `int`
  -- gives an `int`, the operations of a map test times its rounds fit a `long`, the clock stays
  -- below 9223372036854 seconds with less than a million microseconds, a kernel's test asks for at
  -- most three matrices, `test_map` measures at most two maps and ten times the loops fit an `int`,
  -- then `main` returns 0, with its closing message printed last.
  pub main-Returns :
      (args : CommandLine)
      → HaveValues args.options
      → total_weight args.options ≤ 6
      → FitsInt (loops_of args.operands)
      → Returns (λ ret t. Finished ret t) (main env args initial_state)
  main-Returns args vs six fits =
      Returns-mono
        (Returns-of_Safe (main-Safe env few ranges twice args vs six fits) (main-Goes args))
        λ _ _ (_, finished). finished
