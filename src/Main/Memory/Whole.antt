-- ===== src/Main/Memory/Whole.antt =====
-- The memory of `main` of ututna/main.c.
use rebench.Base.{
  ℕ, ◌+◌, ◌≢◌, ◌≤◌, ◌≡◌, refl, Bool, [], ◌∷◌, arith, ◌==◌, ℤ, pos, eqb_ℤ, M, Run, when, Returns,
  Returns-mono,
}
use rebench.Base.Progress.{goes, Goes-when, Goes-unless, Goes-and_then, Returns-and_Goes}
use rebench.Os.{Env}
use rebench.Os.Double.{Double}
use rebench.Perf.State.{initial}
use rebench.Perf.Measure.{perf_init, perf_print_headers}
use rebench.Perf.Overrun.{ReadsAtMost}
use rebench.Perf.Progress.{OpensAll}
use rebench.Main.State.{State, initial_state, print_header}
use rebench.Main.Program.{CommandLine, id_of, loops_of, is_chosen, run_tests, after_options, main}
use rebench.Main.Ranges.{KeepsRanges}
use rebench.Main.Safety.Map.{MapsTwice, FitsInt}
use rebench.Main.Safety.Whole.{HaveValues, total_weight}
use rebench.Main.Progress.{AllocatesFew}
use rebench.Main.Progress.Whole.{main-Returns}
use rebench.Main.Memory.{given, freed, plans}
use rebench.Main.Memory.Owned.{Owes, IsSettled, Settles}
use rebench.Main.Memory.Counters.{Owes-IsCarried}
use rebench.Main.Carried.{on_perf-Reaches}
use rebench.Main.Progress.Options.{configure-Carries}
use rebench.Main.Memory.Kernels.{
  test_600_fft-Settles, test_603_map-Settles, test_609_png-Settles, test_614_physics-Settles,
  test_607_hash-Settles,
}
use rebench.Main.Memory.Benchmarks.{test_601_gemm-Settles}

module _ {D : Type 0} ⦃d : Double D⦄ (env : Env D) where
  -- No matrix is allocated, and nothing is held.
  abbrev IsClean : State D → Type 0
  IsClean = IsSettled env (0 ∷ 0 ∷ 0 ∷ []) 0 (λ _. 0)

  abbrev Cleans : {A : Type 0} → Run (State D) A → Type 0
  Cleans = Settles env (0 ∷ 0 ∷ 0 ∷ []) 0 (λ _. 0)

  when-Cleans :
      (b : Bool) (m : M (State D) (Unit {0})) (s : State D)
      → IsClean s
      → Cleans (m s)
      → Cleans (when b m s)
  when-Cleans b m s h k = Goes-when b m h k

  run_tests-Cleans : (id loops : ℤ) (s : State D) → IsClean s → Cleans (run_tests env id loops s)
  unfolding run_tests
  run_tests-Cleans id loops s h =
      Goes-and_then (when-Cleans (is_chosen id 600) _ s h (test_600_fft-Settles env (λ _. 0) _ s h))
        λ _ t i.
          Goes-and_then
            (when-Cleans (is_chosen id 601) _ t i (test_601_gemm-Settles env (λ _. 0) _ t i))
            λ _ u j.
              Goes-and_then
                (when-Cleans (is_chosen id 603) _ u j (test_603_map-Settles env (λ _. 0) _ u j))
                λ _ v k.
                  Goes-and_then
                    (when-Cleans (is_chosen id 609) _ v k (test_609_png-Settles env (λ _. 0) _ v k))
                    λ _ w l.
                      Goes-and_then
                        (when-Cleans (is_chosen id 614) _ w l
                          (test_614_physics-Settles env (λ _. 0) _ w l))
                        λ _ x m.
                          when-Cleans (is_chosen id 607) _ x m
                            (test_607_hash-Settles env (λ _. 0) _ x m)

  after_options-Cleans :
      (id loops : ℤ) (s : State D) → IsClean s → Cleans (after_options env id loops s)
  unfolding after_options perf_init print_header perf_print_headers given freed plans
  after_options-Cleans id loops s (e, f, h) =
      let P : Unit {0} → State D → Type 0 = λ _ t. IsClean t in
      Goes-and_then {P = P}
        (on_perf-Reaches (Owes env (λ _. 0)) s e f
          (Goes-unless (s.perf.n_counters == 0) _ h (goes h)))
        λ _ t i. Goes-and_then {P = P} (Goes-unless (eqb_ℤ loops (pos 0)) _ i (goes i)) λ _ u j.
          Goes-and_then (run_tests-Cleans id loops _ j) λ _ v k.
            Goes-and_then {P = P} (Goes-when (eqb_ℤ id (pos 1000)) _ k (goes k)) λ _ w l. goes l

  main-Cleans : (args : CommandLine) → Cleans (main env args initial_state)
  unfolding main given freed plans
  main-Cleans args =
      Goes-and_then
        (on_perf-Reaches (Owes env (λ _. 0)) initial_state refl refl (
          configure-Carries env (Owes env (λ _. 0)) (Owes-IsCarried env (λ _. 0)) (λ _ _ _. tt)
            args.options initial λ p ne. omega arith))
        λ _ t i. after_options-Cleans (id_of args.operands) (loops_of args.operands) t i

  -- If the options open at most six counters and have their arguments, the system opens every
  -- counter, `read` stores no more than it is asked for, the conversion of any `double` to an `int`
  -- gives an `int`, the operations of a map test times its rounds fit a `long`, the clock stays
  -- below 9223372036854 seconds with less than a million microseconds, a kernel's test asks for at
  -- most three matrices, `test_map` measures at most two maps and ten times the loops fit an `int`,
  -- then `main` returns 0, and has freed every pointer but NULL as often as it was handed out as a
  -- matrix, a bitmap or a buffer, and no other: what it never frees are the plans of 600_fft.
  pub main-Balanced :
      (args : CommandLine)
      → ReadsAtMost env
      → KeepsRanges env
      → MapsTwice env
      → OpensAll env
      → AllocatesFew env
      → HaveValues args.options
      → total_weight args.options ≤ 6
      → FitsInt (loops_of args.operands)
      → Returns
          (λ ret t.
            (ret ≡ 0)
            × ((p : ℕ)
                → p ≢ 0
                → given env p t.perf.log ≡ freed env p t.perf.log + plans env p t.perf.log))
          (main env args initial_state)
  main-Balanced args few ranges twice opens matrices vs six fits =
      Returns-mono
        (Returns-and_Goes (main-Returns env few ranges twice opens matrices args vs six fits)
          (main-Cleans args))
        λ _ _ ((zero_returned, _), (_, _, owes)). (zero_returned, λ p ne. omega (arith, owes p ne))
