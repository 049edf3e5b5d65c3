-- ===== src/Main/State.antt =====
-- ututna/main.c: its file-level variables, the clock around a benchmark, and its output. The build
-- without SEMIHOSTING is modelled.
use Prim.Native.String.{String}
use rebench.Base.{
  ◌>>=◌, pure, ℕ, zero, suc, ◌^◌, Bool, List, [], ◌∷◌, ltb, if◌then◌else◌, replicate, ℤ, pos,
  negsuc, ◌+ℤ◌, ◌-ℤ◌, ◌*ℤ◌, wrap64, M, Run, done, exited, fault, ◌>>◌, get, modify, skip, check,
  Option, none, some, need, ◌&&◌,
}
use rebench.Os.{
  str, num, real, Event, print, gettimeofday, stopwatch_start, stopwatch_stop, History, Timeval,
  Env,
}
use rebench.Os.Double.{Double}
use rebench.Perf.State.{Perf, initial}
use rebench.Perf.Measure.{perf_begin, perf_end, perf_print_headers, perf_print}

-- `gemm_ptrs` holds 0 for NULL; `physics_step` is the variable L14f590.
pub record State (D : Type 0) : Type 0 where
  pub perf : Perf D
  pub start : Timeval
  pub gemm_ptrs : List ℕ
  pub gemm_idx : ℕ
  pub test_map_idx : ℕ
  pub loops_unordered : ℤ
  pub test_map_results : List D
  pub physics_step : D

module _ {D : Type 0} where
  -- A function of perf.c, called from main.c.
  abbrev pub put_back : {A : Type 0} → State D → Run (Perf D) A → Run (State D) A
  put_back s (done a p) = done a (record s { perf = p })
  put_back s (exited p) = exited (record s { perf = p })
  put_back s fault = fault

  abbrev pub on_perf : {A : Type 0} → M (Perf D) A → M (State D) A
  on_perf m s = put_back s (m s.perf)

  abbrev pub say : Event D → M (State D) (Unit {0})
  say e = modify λ s. record s { perf = record (s.perf) { log = e ∷ s.perf.log } }

  -- What the environment answers to the last call.
  abbrev pub ask : {A : Type 0} → (History D → A) → M (State D) A
  ask f s = done (f s.perf.log) s

  -- for (int i = 0; i < n; i++) body
  unfoldable pub repeat : ℕ → M (State D) (Unit {0}) → M (State D) (Unit {0})
  repeat zero body = skip
  repeat (suc n) body = body >> repeat n body

-- A product that an `int` holds; any other is undefined behaviour.
abbrev pub in_int : ℤ → Bool
in_int (pos n) = ltb n (2 ^ 31)
in_int (negsuc n) = ltb n (2 ^ 31)

abbrev pub in_long : ℤ → Bool
in_long (pos n) = ltb n (2 ^ 63)
in_long (negsuc n) = ltb n (2 ^ 63)

-- The microseconds from `start` to `tv`, as `end` computes them: in a `long`, whose overflow is
-- undefined, and then as an `unsigned long`.
unfoldable pub elapsed_usec : Timeval → Timeval → Option ℕ
unfolding ◌*ℤ◌ ◌-ℤ◌ ◌+ℤ◌
elapsed_usec start tv =
    let secs = pos 1000000 *ℤ (pos tv.sec -ℤ pos start.sec) in
    let usecs = pos tv.usec -ℤ pos start.usec in
    if in_long secs && (in_long usecs && in_long (secs +ℤ usecs))
    then some (wrap64 (secs +ℤ usecs))
    else none

unfoldable pub times : {S : Type 0} → ℤ → ℕ → M S ℤ
unfolding ◌*ℤ◌
times a k = check (in_int (a *ℤ pos k)) >> pure (a *ℤ pos k)

module _ {D : Type 0} ⦃d : Double D⦄ (env : Env D) where
  unfoldable pub begin : M (State D) (Unit {0})
  begin = do
    say gettimeofday
    tv ← ask env.clock
    modify λ s. record s { start = tv }
    on_perf (perf_begin env)

  unfoldable pub end : M (State D) D
  unfolding elapsed_usec
  end = do
    on_perf (perf_end env)
    say gettimeofday
    tv ← ask env.clock
    s ← get
    usec ← need (elapsed_usec s.start tv)
    pure (d.div (d.of_u64 usec) (d.lit 1000000 0))

  unfoldable pub s_start_stopwatch : M (State D) ℕ
  s_start_stopwatch = do
    say stopwatch_start
    ret ← ask env.stopwatch_result
    on_perf (perf_begin env)
    pure ret

  unfoldable pub s_stop_stopwatch : M (State D) ℕ
  s_stop_stopwatch = do on_perf (perf_end env); say stopwatch_stop; ask env.stopwatch_result

module _ {D : Type 0} ⦃d : Double D⦄ where
  unfoldable pub print_header : M (State D) (Unit {0})
  print_header = do
    say (
        print "%-15s %7s %8s  %s" (str "NAME" ∷ str "SCORE" ∷ str "LOOPS" ∷ str "DURATION(s)" ∷ []))
    on_perf perf_print_headers

  -- The line of a score, where a score of 0 is a dash; `none` where the score is no `int`.
  abbrev pub score_line : String → D → ℤ → D → Option (Event D)
  score_line name score loops secs =
      if d.eq score (d.lit 0 0)
      then some (print "%-15s %7s %8d  %.6f   " (str name ∷ str "-" ∷ num loops ∷ real secs ∷ []))
      else elim (d.to_int (d.add score (d.lit 5 1))) [
        | none ↦ none
        | some n ↦
            some (print "%-15s %7u %8d  %.6f   " (str name ∷ num n ∷ num loops ∷ real secs ∷ []))
      ]

  unfoldable pub print_score : String → D → ℤ → D → M (State D) (Unit {0})
  print_score name score loops secs = do
    line ← need (score_line name score loops secs)
    say line
    on_perf perf_print
    say (print "\n" [])

  -- The state at the start of the program.
  abbrev pub initial_state : State D
  initial_state = record {
    perf = initial;
    start = record { sec = 0; usec = 0 };
    gemm_ptrs = replicate 3 0;
    gemm_idx = 0;
    test_map_idx = 0;
    loops_unordered = pos 0;
    test_map_results = replicate 2 (d.lit 0 0);
    physics_step = d.lit 0 0;
  }
