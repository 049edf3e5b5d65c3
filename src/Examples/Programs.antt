-- ===== src/Examples/Programs.antt =====
-- main.c at a concrete command line, and its benchmarks in an environment in which every call works.
use rebench.Base.{
  ◌+◌, ◌≢◌, ℕ, ◌≡◌, refl, some, List, [], ◌∷◌, arith, ◌>>◌, pos, exited, Returns, Safe,
}
use rebench.Os.{malloc, print}
use rebench.Perf.State.{Counters, Perf, initial}
use rebench.Perf.Group.{
  groups, group_of, IsGrouped, IsGrouped-IsKept, initial-IsGrouped, initial-IsRoomy,
}
use rebench.Perf.Bounds.{Configured}
use rebench.Main.State.{State, initial_state}
use rebench.Main.Program.{Opt, CommandLine, configure, run_tests, main}
use rebench.Main.Gemm.{gemm_mallocs, gemm_cleanup}
use rebench.Main.Kernels.{png_loop}
use rebench.Main.Hash.{hash_loop}
use rebench.Main.Safety.{IsSound}
use rebench.Main.Safety.Whole.{HaveValues, configure-Safe, run_tests-Safe, main-Safe}
use rebench.Main.Progress.Whole.{Finished, main-Returns}
use rebench.Perf.Table.{Shows}
use rebench.Main.Report.{score_lines}
use rebench.Main.Report.Whole.{AreReports, main-AreReports}
use rebench.Main.Memory.Whole.{main-Balanced}
use rebench.Main.Columns.{table, configure-Shows}
use rebench.Main.Grouping.{configure-grouped}
use rebench.Main.Dispatch.{all_benchmarks, every, hash, one, run_all, run_tests_lem}
use rebench.Main.HashScore.{Rounds, hash_loop_lem}
use rebench.Main.Memory.{
  given, freed, plans, idle, Balanced, gemm_cleanup-gemm_mallocs, gemm_mallocs_full,
  png_loop-Balanced,
}
use rebench.Examples.Setup.{
  naturals, working, working-ReadsAtMost, working-KeepsRanges, working-MapsTwice,
}

-- -i 0 -r 8 601 2
abbrev two_options : List Opt
two_options =
    record { letter = b'i'; value = some 0 } ∷ record { letter = b'r'; value = some 8 } ∷ []

two_options-HaveValues : HaveValues two_options
two_options-HaveValues = ((0, refl), ((8, refl), tt))

abbrev command : CommandLine
command = record { options = two_options; operands = pos 601 ∷ pos 2 ∷ [] }

abbrev started : State ℕ
started = initial_state

started-IsSound : IsSound started
started-IsSound = record {
  roomy = initial-IsRoomy;
  room = record { begin_room = refl; end_room = refl };
  six = omega arith;
  slots = refl;
  results = refl;
  unordered = refl;
  started = record { few_usec = omega arith; room = omega arith };
}

main-Safe_example : Safe (λ _ t. IsSound t) (main working command started)
main-Safe_example =
    main-Safe working working-ReadsAtMost working-KeepsRanges working-MapsTwice command
      two_options-HaveValues (omega arith) (omega arith, omega arith)

main-Returns_example : Returns (λ ret t. Finished ret t) (main working command started)
main-Returns_example =
    main-Returns working working-ReadsAtMost working-KeepsRanges working-MapsTwice
      (λ log. (5, refl)) (λ log. omega arith) command two_options-HaveValues (omega arith)
      (omega arith, omega arith)

-- -i 0 -r 8 0 2
abbrev every_command : CommandLine
every_command = record { options = two_options; operands = pos 0 ∷ pos 2 ∷ [] }

main-AreReports_example :
    Returns
      (λ ret t. (ret ≡ 0) × AreReports working (pos 2) all_benchmarks [] (score_lines t.perf.log))
      (main working every_command started)
main-AreReports_example =
    main-AreReports working every_command working-ReadsAtMost working-KeepsRanges working-MapsTwice
      (λ log. (5, refl)) (λ log. omega arith) two_options-HaveValues (omega arith)
      (omega arith, omega arith) every

main-Balanced_example :
    Returns
      (λ ret t.
        (ret ≡ 0)
        × ((p : ℕ)
            → p ≢ 0
            → given working p t.perf.log ≡ freed working p t.perf.log + plans working p t.perf.log))
      (main working every_command started)
main-Balanced_example =
    main-Balanced working every_command working-ReadsAtMost working-KeepsRanges working-MapsTwice
      (λ log. (5, refl)) (λ log. omega arith) two_options-HaveValues (omega arith)
      (omega arith, omega arith)

configure-Shows_example :
    Safe (λ _ (q : Perf ℕ). Shows (table two_options []) q) (configure working two_options initial)
configure-Shows_example = configure-Shows working two_options two_options-HaveValues

abbrev readings : Counters
readings = record { nr = 3; vals = 7 ∷ 9 ∷ 8 ∷ 0 ∷ 0 ∷ 0 ∷ [] }

configure-grouped_example :
    Safe
      (λ _ (q : Perf ℕ). groups q.log ≡ group_of q.n_counters q.fd)
      (configure working two_options initial)
configure-grouped_example = configure-grouped working two_options two_options-HaveValues

configure-Safe_example :
    Safe (λ _ q. Configured IsGrouped 3 initial q) (configure working two_options initial)
configure-Safe_example =
    configure-Safe working IsGrouped IsGrouped-IsKept two_options initial two_options-HaveValues
      initial-IsRoomy initial-IsGrouped

run_tests-Safe_example : Safe (λ _ t. IsSound t) (run_tests working (pos 607) (pos 2) started)
run_tests-Safe_example =
    run_tests-Safe working working-ReadsAtMost working-KeepsRanges working-MapsTwice (pos 607)
      (pos 2) started (omega arith, omega arith) started-IsSound

run_tests_lem_example :
    run_tests working (pos 607) (pos 2) started ≡ run_all working (hash ∷ []) (pos 2) started
run_tests_lem_example = run_tests_lem working (pos 2) started (one hash)

hash_loop_lem_example : Returns (Rounds working [] 3 0) (hash_loop working 0x6000 3 0 started)
hash_loop_lem_example = hash_loop_lem working 0x6000 3 0 started

gemm_cleanup-gemm_mallocs_example :
    Returns
      (λ _ t. (t ≡ idle working t) × Balanced working [] t.perf.log)
      ((gemm_mallocs working (16 ∷ 16 ∷ 16 ∷ []) >> gemm_cleanup working) (idle working started))
gemm_cleanup-gemm_mallocs_example =
    gemm_cleanup-gemm_mallocs working (16 ∷ 16 ∷ 16 ∷ []) started (omega arith)

gemm_mallocs_full_example :
    (t : State ℕ) × (gemm_mallocs working (1 ∷ 2 ∷ 3 ∷ 4 ∷ []) (idle working started) ≡ exited t)
    × (t.perf.log ≡ print "gemm_malloc error.\n" [] ∷ malloc 3 ∷ malloc 2 ∷ malloc 1 ∷ [])
gemm_mallocs_full_example = gemm_mallocs_full working 1 2 3 4 [] started

png_loop-Balanced_example :
    Returns (λ _ t. Balanced working [] t.perf.log) (png_loop working 2 0 started)
png_loop-Balanced_example = png_loop-Balanced working 2 0 started
