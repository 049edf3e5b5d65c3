-- ===== src/Examples/Measurements.antt =====
-- perf.c at concrete options, counters and clock readings.
use rebench.Base.{
  ℕ, ◌-◌, ◌^◌, ◌≡◌, refl, false, true, [], ◌∷◌, arith, replicate, done, fault, some, ◌>>◌, sub64,
  Returns, Safe,
}
use rebench.Os.{Timeval, hw_cache, kiss_fftr}
use rebench.Perf.State.{Perf, initial}
use rebench.Perf.Config.{perf_config, counter_name}
use rebench.Perf.Labels.{read_label, read_label-counter_name}
use rebench.Perf.Session
use rebench.Perf.Session.{session_lem}
use rebench.Perf.Measure.{perf_begin, perf_end, perf_print}
use rebench.Perf.Bounds.{IsRoomy, Configured}
use rebench.Perf.Bounds.Options.{perf_config-Safe}
use rebench.Perf.Group.{IsGrouped, IsGrouped-IsKept, initial-IsGrouped, initial-IsRoomy}
use rebench.Perf.Overrun.{Stays, perf_begin-Returns, perf_end-Returns, perf_begin_overrun}
use rebench.Perf.Print.{moved, push_all, columns, perf_print_lem}
use rebench.Main.State.{elapsed_usec}
use rebench.Main.Clock.{elapsed_usec_lem, elapsed_usec_back, usec_of, IsReading}
use rebench.Examples.Setup.{naturals, working, working-ReadsAtMost, counting, counting-HasRoom}

perf_config-Safe_example :
    Safe (λ _ q. Configured IsGrouped 2 initial q) (perf_config working b'i' 0 initial)
perf_config-Safe_example =
    perf_config-Safe working IsGrouped IsGrouped-IsKept b'i' 0 initial initial-IsRoomy
      initial-IsGrouped

perf_begin-Returns_example : Returns (λ _ q. Stays (counting 6) q) (perf_begin working (counting 6))
perf_begin-Returns_example =
    perf_begin-Returns working working-ReadsAtMost (counting 6) (counting-HasRoom 6) (omega arith)

perf_end-Returns_example : Returns (λ _ q. Stays (counting 6) q) (perf_end working (counting 6))
perf_end-Returns_example =
    perf_end-Returns working working-ReadsAtMost (counting 6) (counting-HasRoom 6) (omega arith)

perf_begin_overrun_example : perf_begin working (counting 7) ≡ fault
perf_begin_overrun_example =
    perf_begin_overrun working (counting 7) (replicate 8 7) (counting-HasRoom 7) (omega arith) refl
      refl

-- Two counters, the second with a ratio, after a measurement.
abbrev measured : Perf ℕ
measured = record initial {
  n_counters = 2;
  ratios = 0 ∷ 100 ∷ replicate 8 0;
  counters_begin = record { nr = 2; vals = 10 ∷ 20 ∷ replicate 4 0 };
  counters_end = record { nr = 2; vals = 40 ∷ 25 ∷ replicate 4 0 };
  counters_valid = true;
}

measured-IsRoomy : IsRoomy measured
measured-IsRoomy = record {
  few = omega arith;
  ratios_room = refl;
  headers_fit = omega arith;
  first_plain = refl;
}

perf_print_lem_example :
    perf_print measured
    ≡ done tt (record measured { counters_valid = false; log = push_all (columns measured 2 0) [] })
perf_print_lem_example =
    perf_print_lem measured measured-IsRoomy (record { begin_room = refl; end_room = refl })
      (omega arith) refl

abbrev earlier : Timeval
earlier = record { sec = 10; usec = 900000 }

abbrev later : Timeval
later = record { sec = 12; usec = 100000 }

earlier-IsReading : IsReading earlier
earlier-IsReading = record { few_usec = omega arith; room = omega arith }

later-IsReading : IsReading later
later-IsReading = record { few_usec = omega arith; room = omega arith }

elapsed_usec_lem_example : elapsed_usec earlier later ≡ some (usec_of later - usec_of earlier)
elapsed_usec_lem_example =
    elapsed_usec_lem earlier later earlier-IsReading later-IsReading (omega arith)

elapsed_usec_back_example :
    elapsed_usec later earlier ≡ some (2 ^ 64 - (usec_of later - usec_of earlier))
elapsed_usec_back_example =
    elapsed_usec_back later earlier later-IsReading earlier-IsReading (omega arith)

counting-IsRoomy : IsRoomy (counting 2)
counting-IsRoomy = record {
  few = omega arith;
  ratios_room = refl;
  headers_fit = omega arith;
  first_plain = refl;
}

-- The state in which the measurement of a call of 600_fft is printed.
abbrev ended : Perf ℕ
ended = Session.measured working (counting 2) (kiss_fftr 0x2000 ∷ []) 7 (7 ∷ 7 ∷ []) 7 (7 ∷ 7 ∷ [])

session_lem_example :
    ((perf_begin working
          >> (Session.working working (kiss_fftr 0x2000 ∷ []) >> (perf_end working >> perf_print)))
        (counting 2)
      ≡ done tt
          (record ended { counters_valid = false; log = push_all (columns ended 2 0) ended.log }))
    × (moved ended 1 ≡ sub64 7 7)
session_lem_example =
    session_lem working (counting 2) (kiss_fftr 0x2000 ∷ []) 7 7 (7 ∷ 7 ∷ []) (7 ∷ 7 ∷ [])
      counting-IsRoomy (counting-HasRoom 2) (omega arith) refl refl refl refl 1 (omega arith)

read_label-counter_name_example : read_label (counter_name b'c' 0x1a) ≡ some (hw_cache, 0x1a)
read_label-counter_name_example = read_label-counter_name b'c' 0x1a (omega arith)
