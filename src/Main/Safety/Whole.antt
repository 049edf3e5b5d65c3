-- ===== src/Main/Safety/Whole.antt =====
-- Undefined behaviour in ututna/main.c as a whole, from the options to the last benchmark.
use rebench.Base.{
  ℕ, ◌+◌, ◌≤◌, ◌≡◌, refl, ap, ◌∙◌, inl, inr, Bool, true, false, some, List, [], ◌∷◌, arith, ◌==◌,
  Bool-cases, length, All, ℤ, pos, eqb_ℤ, u32, M, Run, when, Safe, goes_on, stops, Safe-mono,
  Safe-unless, Safe-and_then,
}
use rebench.Os.{enable, print, ioctl, stdlib_test, History, Env}
use rebench.Os.Double.{Double}
use rebench.Perf.State.{Counters, Perf, initial}
use rebench.Perf.Measure.{perf_init, perf_print_headers}
use rebench.Main.State.{State, initial_state, on_perf, print_header, put_back}
use rebench.Perf.Bounds.{IsRoomy}
use rebench.Perf.Overrun.{ReadsAtMost}
use rebench.Main.Ranges.{KeepsRanges}
use rebench.Main.Safety.{IsSound, Next, Next-say}
use rebench.Main.Gemm.{test_601_gemm}
use rebench.Main.Kernels.{test_600_fft, test_603_map, test_609_png, test_614_physics}
use rebench.Main.Hash.{test_607_hash}
use rebench.Perf.Bounds.{IsKept, Configured, weight}
use rebench.Perf.Bounds.Options.{perf_config-Safe}
use rebench.Perf.Group.{initial-IsRoomy}
use rebench.Main.Safety.Kernels.{
  test_600_fft-Safe, test_601_gemm-Safe, test_609_png-Safe, test_614_physics-Safe,
  test_607_hash-Safe,
}
use rebench.Main.Safety.Map.{MapsTwice, FitsInt, test_603_map-Safe}
use rebench.Main.Program.{
  Opt, CommandLine, id_of, loops_of, or_default, is_chosen, configure, run_tests, after_options,
  main,
}

-- The counters that the options open, if all of them fit.
abbrev pub total_weight : List Opt → ℕ
total_weight [] = 0
total_weight (o ∷ os) = weight o.letter + total_weight os

-- Every option came with its argument.
abbrev pub HaveValues : List Opt → Type 0
HaveValues = All λ o. (v : ℕ) × (o.value ≡ some v)

module _ {D : Type 0} (env : Env D) (I : ℤ → ℕ → History D → Type 0) (kept : IsKept I) where
  -- From arrays with room for what is configured, any sequence of options that have their
  -- arguments overruns none of them, keeps that room, opens at most the counters that the options
  -- stand for, leaves the readings alone, and keeps whatever opening a counter and printing keep.
  pub configure-Safe :
      (options : List Opt) (p : Perf D)
      → HaveValues options
      → IsRoomy p
      → I p.fd p.n_counters p.log
      → Safe (λ _ q. Configured I (total_weight options) p q) (configure env options p)
  unfolding configure
  configure-Safe [] p vs h at =
      goes_on
        (record { roomy = h; at_most = omega arith; same_begin = refl; same_end = refl; at = at })
  configure-Safe (o ∷ os) p ((v, e), vs) h at = rw e (
      Safe-and_then (perf_config-Safe env I kept o.letter (u32 v) p h at) λ _ q k.
        Safe-mono (configure-Safe os q vs k.roomy k.at) λ _ r l. record {
          roomy = l.roomy;
          at_most = omega (arith, k.at_most, l.at_most);
          same_begin = l.same_begin ∙ k.same_begin;
          same_end = l.same_end ∙ k.same_end;
          at = l.at;
        })

-- The property that keeps nothing.
abbrev pub Always : {D : Type 0} → ℤ → ℕ → History D → Type 0
Always fd n log = Unit

pub always : {D : Type 0} → IsKept {D = D} Always
always = record { open_keeps = λ _ _ _ _ _ _ _. tt; print_keeps = λ _ _ _ _ _ _. tt }

FitsInt-or_default :
    (loops : ℤ) (n : ℕ) → n ≤ 214748364 → FitsInt loops → FitsInt (or_default loops n)
FitsInt-or_default loops n small fits = elim (Bool-cases (eqb_ℤ loops (pos 0))) [
  | inl none_given ↦ rw none_given (small, omega arith)
  | inr given ↦ rw given fits
]

module _ {D : Type 0} ⦃d : Double D⦄ (env : Env D) (few : ReadsAtMost env)
    (ranges : KeepsRanges env) (twice : MapsTwice env) where
  when-Safe :
      (b : Bool) (m : M (State D) (Unit {0})) (s : State D)
      → IsSound s
      → Safe (λ _ t. IsSound t) (m s)
      → Safe (λ _ t. IsSound t) (when b m s)
  when-Safe true m s h k = k
  when-Safe false m s h k = goes_on h

  IsSound-Next :
      {s : State D} {r : Run (State D) (Unit {0})}
      → Safe (λ _ t. Next s t) r
      → Safe (λ _ t. IsSound t) r
  IsSound-Next k = Safe-mono k λ _ t l. l.sound

  -- From a sound state, with at most six counters, the benchmarks overrun no array, and convert,
  -- multiply and add nothing out of range, whichever are chosen, as long as `read` stores no more
  -- than it is asked for, the conversion of any `double` to an `int` gives an `int`, the operations
  -- of a map test times its rounds fit a `long`, the clock stays below 9223372036854 seconds with
  -- less than a million microseconds, `test_map` measures at most two maps and ten times the loops
  -- fit an `int`. The state stays sound. The callbacks of `test_physics` count as its benchmark's.
  pub run_tests-Safe :
      (id loops : ℤ) (s : State D)
      → FitsInt loops
      → IsSound s
      → Safe (λ _ t. IsSound t) (run_tests env id loops s)
  unfolding run_tests
  run_tests-Safe id loops s fits h =
      let map_fits = FitsInt-or_default loops 500 (omega arith) fits in
      Safe-and_then
        (when-Safe (is_chosen id 600) (test_600_fft env (or_default loops 200000)) s h
          (IsSound-Next (test_600_fft-Safe env few ranges (or_default loops 200000) s h)))
        λ _ t k.
          Safe-and_then
            (when-Safe (is_chosen id 601) (test_601_gemm env (or_default loops 1000)) t k
              (IsSound-Next (test_601_gemm-Safe env few ranges (or_default loops 1000) t k)))
            λ _ u l.
              Safe-and_then
                (when-Safe (is_chosen id 603) (test_603_map env (or_default loops 500)) u l
                  (test_603_map-Safe env few ranges (or_default loops 500) u twice map_fits l))
                λ _ v m.
                  Safe-and_then
                    (when-Safe (is_chosen id 609) (test_609_png env (or_default loops 1000)) v m
                      (IsSound-Next (test_609_png-Safe env few ranges (or_default loops 1000) v m)))
                    λ _ w n.
                      Safe-and_then
                        (when-Safe (is_chosen id 614) (test_614_physics env (or_default loops 600))
                          w n
                          (IsSound-Next
                            (test_614_physics-Safe env few ranges (or_default loops 600) w n)))
                        λ _ x o.
                          when-Safe (is_chosen id 607) (test_607_hash env (or_default loops 5000)) x
                            o
                            (IsSound-Next
                              (test_607_hash-Safe env few ranges (or_default loops 5000) x o))

  perf_init-Safe : (s : State D) → IsSound s → Safe (λ _ t. IsSound t) (on_perf perf_init s)
  unfolding perf_init
  perf_init-Safe s h = elim (Bool-cases (s.perf.n_counters == 0)) [
    | inl off ↦ rw off (goes_on h)
    | inr on ↦ rw on (goes_on (Next-say (ioctl s.perf.fd enable) s h).sound)
  ]

  print_header-Safe : (s : State D) → IsSound s → Safe (λ _ t. IsSound t) (print_header s)
  unfolding print_header perf_print_headers
  print_header-Safe s h = goes_on (Next-say _ _ (Next-say _ s h).sound).sound

  -- `main` behind the loop over the options.
  after_options-Safe :
      (id loops : ℤ) (s : State D)
      → FitsInt loops
      → IsSound s
      → Safe (λ _ t. IsSound t) (after_options env id loops s)
  unfolding after_options
  after_options-Safe id loops s fits h = Safe-and_then (perf_init-Safe s h) λ _ t k.
      let l = (Next-say (print "UTUTNA\n" []) t k).sound in
      Safe-and_then
        (Safe-unless (eqb_ℤ loops (pos 0)) _ (λ _. l) λ _. goes_on (Next-say _ _ l).sound)
        λ _ u m. Safe-and_then (print_header-Safe u m) λ _ v n.
          Safe-and_then (run_tests-Safe id loops v fits n) λ _ w o.
            Safe-and_then
              (when-Safe (eqb_ℤ id (pos 1000)) _ w o (goes_on (Next-say stdlib_test w o).sound))
              λ _ x q. goes_on (Next-say (print "done\n" []) x q).sound

  -- If the options open at most six counters and have their arguments, `main` overruns no array,
  -- dereferences no missing argument, and converts, multiplies and adds nothing out of range, from
  -- the state at the start of the program on, as long as `read` stores no more than it is asked
  -- for, the conversion of any `double` to an `int` gives an `int` (in C it is undefined for a score
  -- that is no `int`, as where no time has passed), the operations of a map test times its rounds
  -- fit a `long`, the clock stays below 9223372036854 seconds with less than a million
  -- microseconds, `test_map` measures at most two maps and ten times the loops fit an `int`.
  pub main-Safe :
      (args : CommandLine)
      → HaveValues args.options
      → total_weight args.options ≤ 6
      → FitsInt (loops_of args.operands)
      → Safe (λ _ t. IsSound t) (main env args initial_state)
  unfolding main
  main-Safe args vs six fits =
      Safe-and_then
        (lifted (configure-Safe env Always always args.options initial vs initial-IsRoomy tt))
        λ _ t k. after_options-Safe (id_of args.operands) (loops_of args.operands) t fits k
    where
      sound :
          (p : Perf D)
          → Configured Always (total_weight args.options) initial p
          → IsSound (record (initial_state {D = D}) { perf = p })
      sound p k = record {
        roomy = k.roomy;
        room = record {
          begin_room = ap (λ (c : Counters). length c.vals) k.same_begin;
          end_room = ap (λ (c : Counters). length c.vals) k.same_end;
        };
        six = omega (arith, k.at_most);
        slots = refl;
        results = refl;
        unordered = refl;
        started = record { few_usec = omega arith; room = omega arith };
      }

      lifted :
          {r : Run (Perf D) (Unit {0})}
          → Safe (λ _ q. Configured Always (total_weight args.options) initial q) r
          → Safe (λ _ t. IsSound t) (put_back initial_state r)
      lifted (goes_on k) = goes_on (sound _ k)
      lifted stops = stops
