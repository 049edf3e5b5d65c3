-- ===== src/Main/Carried.antt =====
-- Properties of the calls made, through the functions of ututna/main.c that every benchmark is made
-- of.
pub mod Benchmarks
pub mod MapFields
pub mod Maps
use Prim.Native.String.{String}
use mathlib.Core.Path.{subst}
use mathlib.Core.Option.{some-injective, none-ne-some}
use rebench.Base.{
  ◌>>=◌, ◌>>◌, ℕ, zero, suc, ◌+◌, ◌≡◌, refl, Bool, true, false, Option, none, some, List, [], ◌∷◌,
  ltb, ◌==◌, if◌then◌else◌, ℤ, pos, ◌*ℤ◌, M, Run, done,
}
use rebench.Base.Progress.{
  Goes, goes, exits, faults, Goes-mono, Goes-if, Goes-if_run, Goes-check, Goes-need, Goes-need_is,
  Goes-and_then,
}
use rebench.Os.{
  Arg, str, num, real, Env, History, Event, print, gettimeofday, kiss_fftr_alloc, kiss_fftr,
  map_test, map_ops, test_map, test_physics, stopwatch_start, stopwatch_stop, digest, Digest,
}
use rebench.Os.Double.{Double}
use rebench.Perf.State.{Perf}
use rebench.Perf.Measure.{perf_begin, perf_end, perf_print}
use rebench.Perf.Progress.{
  IsCarried, Carries, perf_begin-Carries, perf_end-Carries, perf_print-Carries,
}
use rebench.Main.State.{
  State, put_back, repeat, begin, end, print_score, score_line, times, in_int, elapsed_usec,
  s_start_stopwatch, s_stop_stopwatch,
}
use rebench.Main.Kernels.{map_loop, set_map_result, run_physics}
use rebench.Main.Hash.{digests, any_fails, hash_loop}

-- A property of the calls made that the calls of a benchmark keep, but for those that get or free
-- memory and for the line of a score.
pub record IsCarriedOn {D : Type 0} (I : History D → Type 0) : Type 0 where
  pub counters : IsCarried I
  pub on_clock : (log : History D) → I log → I (gettimeofday ∷ log)
  pub on_plan : (n : ℕ) (log : History D) → I log → I (kiss_fftr_alloc n ∷ log)
  pub on_fft : (cfg : ℕ) (log : History D) → I log → I (kiss_fftr cfg ∷ log)
  pub on_map_test : (map : ℕ) (log : History D) → I log → I (map_test map ∷ log)
  pub on_map_ops : (map : ℕ) (log : History D) → I log → I (map_ops map ∷ log)
  pub on_maps : (limit : ℤ) (log : History D) → I log → I (test_map limit ∷ log)
  pub on_physics : (step : D) (log : History D) → I log → I (test_physics step ∷ log)
  pub on_start : (log : History D) → I log → I (stopwatch_start ∷ log)
  pub on_stop : (log : History D) → I log → I (stopwatch_stop ∷ log)
  pub on_digest :
      (kind : Digest) (buffer : ℕ) (log : History D) → I log → I (digest kind buffer ∷ log)
  pub on_text : (format : String) (log : History D) → I log → I (print format [] ∷ log)

-- The line of a score leads from one property to another.
abbrev pub ScoresTo : {D : Type 0} ⦃d : Double D⦄ → (I J : History D → Type 0) → String → ℤ → Type 0
ScoresTo {D} I J name loops =
    (score secs : D) (e : Event D) (log : History D)
    → score_line name score loops secs ≡ some e
    → I log
    → J (e ∷ log)

module _ {D : Type 0} ⦃d : Double D⦄ where
  -- What holds of every line with this name and these loops holds of the one that is printed.
  line_is :
      (P : Event D → Type 0) (name : String) (loops : ℤ) (secs : D) (b : Bool) (o : Option ℤ)
      {e : Event D}
      → ((format : String) (a : Arg D)
          → P (print format (str name ∷ a ∷ num loops ∷ real secs ∷ [])))
      → (if b
          then some
              (print "%-15s %7s %8d  %.6f   " (str name ∷ str "-" ∷ num loops ∷ real secs ∷ []))
          else elim o [
            | none ↦ none
            | some n ↦
                some
                  (print "%-15s %7u %8d  %.6f   " (str name ∷ num n ∷ num loops ∷ real secs ∷ []))
          ])
        ≡ some e
      → P e
  line_is P name loops secs true o every is = subst P (some-injective _ _ is) (every _ _)
  line_is P name loops secs false none every is = absurd (none-ne-some _ is)
  line_is P name loops secs false (some n) every is = subst P (some-injective _ _ is) (every _ _)

  pub ScoresTo-of_lines :
      (I J : History D → Type 0) (name : String) (loops : ℤ)
      → ((secs : D) (format : String) (a : Arg D) (log : History D)
          → I log
          → J (print format (str name ∷ a ∷ num loops ∷ real secs ∷ []) ∷ log))
      → ScoresTo I J name loops
  ScoresTo-of_lines I J name loops every score secs e log is h =
      line_is (λ e. J (e ∷ log)) name loops secs (d.eq score (d.lit 0 0))
        (d.to_int (d.add score (d.lit 5 1))) (λ format a. every secs format a log h) is

-- The property holds, and these are the matrices.
abbrev pub IsAt : {D : Type 0} → (History D → Type 0) → List ℕ → ℕ → State D → Type 0
IsAt I ptrs idx s = (s.gemm_ptrs ≡ ptrs) × (s.gemm_idx ≡ idx) × I s.perf.log

-- Wherever the run goes on, it is so; it exits only where `E` holds.
abbrev pub Reaches :
    {D A : Type 0} → Type 0 → (History D → Type 0) → List ℕ → ℕ → Run (State D) A → Type 0
Reaches E I ptrs idx = Goes E (λ _ t. IsAt I ptrs idx t)

-- The state behind a call.
abbrev pub said : {D : Type 0} → Event D → State D → State D
said e s = record s { perf = record (s.perf) { log = e ∷ s.perf.log } }

pub on_perf-Reaches :
    {D A E : Type 0} (I : History D → Type 0) {ptrs : List ℕ} {idx : ℕ} (s : State D)
    {r : Run (Perf D) A}
    → s.gemm_ptrs ≡ ptrs
    → s.gemm_idx ≡ idx
    → Carries E I r
    → Reaches E I ptrs idx (put_back s r)
on_perf-Reaches I s e f (goes h) = goes (e, f, h)
on_perf-Reaches I s e f (exits x) = exits x
on_perf-Reaches I s e f faults = faults

pub print_score-Reaches :
    {D E : Type 0} ⦃d : Double D⦄ (I J : History D → Type 0) {ptrs : List ℕ} {idx : ℕ}
    (name : String) (score : D) (loops : ℤ) (secs : D) (s : State D)
    → IsCarriedOn J
    → ScoresTo I J name loops
    → IsAt I ptrs idx s
    → Reaches E J ptrs idx (print_score name score loops secs s)
unfolding print_score
print_score-Reaches I J {ptrs} {idx} name score loops secs s keeps scores (e, f, h) =
    Goes-and_then {P = λ line t. IsAt J ptrs idx (said line t)}
      (Goes-need_is (score_line name score loops secs) s
        λ line is. (e, f, scores score secs line s.perf.log is h))
      λ line t (e', f', i).
        Goes-and_then
          (on_perf-Reaches J (said line t) e' f'
            (perf_print-Carries J (keeps.counters) (said line t).perf i))
          λ _ u (e'', f'', j). goes (e'', f'', keeps.on_text "\n" u.perf.log j)

module _ {D E : Type 0} ⦃d : Double D⦄ (env : Env D) (I : History D → Type 0)
    (keeps : IsCarriedOn I) {ptrs : List ℕ} {idx : ℕ} where
  pub repeat-Reaches :
      (k : ℕ) (body : M (State D) (Unit {0})) (s : State D)
      → ((t : State D) → IsAt I ptrs idx t → Reaches E I ptrs idx (body t))
      → IsAt I ptrs idx s
      → Reaches E I ptrs idx (repeat k body s)
  unfolding repeat
  repeat-Reaches zero body s step h = goes h
  repeat-Reaches (suc k) body s step h =
      Goes-and_then (step s h) λ _ t i. repeat-Reaches k body t step i

  pub times-Reaches :
      (a : ℤ) (k : ℕ) (s : State D) → IsAt I ptrs idx s → Reaches E I ptrs idx (times a k s)
  unfolding times
  times-Reaches a k s h =
      Goes-and_then {P = λ _ t. IsAt I ptrs idx t} (Goes-check (in_int (a *ℤ pos k)) s h)
        λ _ t i. goes i

  pub begin-Reaches : (s : State D) → IsAt I ptrs idx s → Reaches E I ptrs idx (begin env s)
  unfolding begin
  begin-Reaches s (e, f, h) =
      let log = gettimeofday ∷ s.perf.log in
      let t : State D = record s { perf = record (s.perf) { log = log }; start = env.clock log } in
      on_perf-Reaches I t e f
        (perf_begin-Carries env I (keeps.counters) t.perf (keeps.on_clock s.perf.log h))

  pub end-Reaches : (s : State D) → IsAt I ptrs idx s → Reaches E I ptrs idx (end env s)
  unfolding end
  end-Reaches s (e, f, h) =
      Goes-and_then (on_perf-Reaches I s e f (perf_end-Carries env I (keeps.counters) s.perf h))
        λ _ t (e', f', i).
          Goes-and_then {P = λ _ u. IsAt I ptrs idx u}
            (Goes-need (elapsed_usec t.start (env.clock (gettimeofday ∷ t.perf.log))) _
              λ _. (e', f', keeps.on_clock t.perf.log i))
            λ _ u j. goes j

  s_start_stopwatch-Reaches :
      (s : State D) → IsAt I ptrs idx s → Reaches E I ptrs idx (s_start_stopwatch env s)
  unfolding s_start_stopwatch
  s_start_stopwatch-Reaches s (e, f, h) =
      Goes-and_then
        (on_perf-Reaches I (said stopwatch_start s) e f
          (perf_begin-Carries env I (keeps.counters) _ (keeps.on_start s.perf.log h)))
        λ _ t i. goes i

  s_stop_stopwatch-Reaches :
      (s : State D) → IsAt I ptrs idx s → Reaches E I ptrs idx (s_stop_stopwatch env s)
  unfolding s_stop_stopwatch
  s_stop_stopwatch-Reaches s (e, f, h) =
      Goes-and_then (on_perf-Reaches I s e f (perf_end-Carries env I (keeps.counters) s.perf h))
        λ _ t (e', f', i). goes (e', f', keeps.on_stop t.perf.log i)

  pub run_physics-Reaches :
      (step : D) (s : State D) → IsAt I ptrs idx s → Reaches E I ptrs idx (run_physics env step s)
  unfolding run_physics
  run_physics-Reaches step s (e, f, h) =
      Goes-and_then
        (s_start_stopwatch-Reaches (said (test_physics step) s)
          (e, f, keeps.on_physics step s.perf.log h))
        λ _ t i. Goes-and_then (s_stop_stopwatch-Reaches t i) λ _ u j. goes j

  pub map_loop-Reaches :
      (map left i : ℕ) (s : State D)
      → IsAt I ptrs idx s
      → Reaches E I ptrs idx (map_loop env map left i s)
  unfolding map_loop
  map_loop-Reaches map zero i s h = goes h
  map_loop-Reaches map (suc left) i s (e, f, h) =
      let h' : IsAt I ptrs idx (said (map_test map) s) =
        (e, f, keeps.on_map_test map s.perf.log h) in
      Goes-if (env.map_test_result (map_test map ∷ s.perf.log)) _ _
        (map_loop-Reaches map left (i + 1) _ h') (goes h')

  pub set_map_result-Reaches :
      (i : ℕ) (v : D) (s : State D)
      → IsAt I ptrs idx s
      → Reaches E I ptrs idx (set_map_result env i v s)
  unfolding set_map_result
  set_map_result-Reaches i v s h = Goes-if_run (ltb i 2) (goes h) faults

  any_fails-Reaches :
      (buffer : ℕ) (kinds : List Digest) (s : State D)
      → IsAt I ptrs idx s
      → Reaches E I ptrs idx (any_fails env buffer kinds s)
  unfolding any_fails
  any_fails-Reaches buffer [] s h = goes h
  any_fails-Reaches buffer (kind ∷ kinds) s (e, f, h) =
      let h' : IsAt I ptrs idx (said (digest kind buffer) s) =
        (e, f, keeps.on_digest kind buffer s.perf.log h) in
      Goes-if (env.digest_result (digest kind buffer ∷ s.perf.log)) _ _ (goes h')
        (any_fails-Reaches buffer kinds _ h')

  pub hash_loop-Reaches :
      (buffer left i : ℕ) (s : State D)
      → IsAt I ptrs idx s
      → Reaches E I ptrs idx (hash_loop env buffer left i s)
  unfolding hash_loop
  hash_loop-Reaches buffer zero i s h = goes h
  hash_loop-Reaches buffer (suc left) i s h =
      Goes-and_then (any_fails-Reaches buffer digests s h)
        λ b t k. Goes-if b _ _ (goes k) (hash_loop-Reaches buffer left (i + 1) t k)
