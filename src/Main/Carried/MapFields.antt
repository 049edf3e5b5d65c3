-- ===== src/Main/Carried/MapFields.antt =====
-- The two fields of 603_map of ututna/main.c, `test_map_idx` and `loops_unordered`, through the steps
-- of `test_const_time`, which leave them alone.
use Prim.Native.String.{String}
use rebench.Base.{ℕ, zero, suc, ◌+◌, ◌≡◌, ◌∷◌, ltb, ◌==◌, ℤ, pos, ◌*ℤ◌, Run, done, exited, fault}
use rebench.Base.Progress.{
  Goes, goes, exits, faults, Goes-if, Goes-if_run, Goes-need, Goes-check, Goes-and_then,
}
use rebench.Os.{Env, gettimeofday, map_test}
use rebench.Os.Double.{Double}
use rebench.Perf.State.{Perf}
use rebench.Perf.Measure.{perf_begin, perf_end, perf_print}
use rebench.Main.State.{
  State, put_back, begin, end, elapsed_usec, print_score, score_line, times, in_int,
}
use rebench.Main.Carried.{said}
use rebench.Main.Carried.{said}
use rebench.Main.Kernels.{map_loop, set_map_result, print_map}

abbrev pub HasFields : {D : Type 0} → ℕ → ℤ → State D → Type 0
HasFields idx more s = (s.test_map_idx ≡ idx) × (s.loops_unordered ≡ more)

-- Wherever the run goes on, the fields are these. It may exit or fault.
abbrev pub KeepsFields : {D A : Type 0} → ℕ → ℤ → Run (State D) A → Type 0
KeepsFields idx more = Goes Unit (λ _ t. HasFields idx more t)

module _ {D : Type 0} {idx : ℕ} {more : ℤ} where
  on_perf-KeepsFields :
      {A : Type 0} (s : State D) (r : Run (Perf D) A)
      → HasFields idx more s
      → KeepsFields idx more (put_back s r)
  on_perf-KeepsFields s (done a p) h = goes h
  on_perf-KeepsFields s (exited p) h = exits tt
  on_perf-KeepsFields s fault h = faults

module _ {D : Type 0} ⦃d : Double D⦄ (env : Env D) {idx : ℕ} {more : ℤ} where
  pub begin-KeepsFields : (s : State D) → HasFields idx more s → KeepsFields idx more (begin env s)
  unfolding begin
  begin-KeepsFields s h =
      let log = gettimeofday ∷ s.perf.log in
      let t : State D = record s { perf = record (s.perf) { log = log }; start = env.clock log } in
      on_perf-KeepsFields t (perf_begin env t.perf) h

  pub end-KeepsFields : (s : State D) → HasFields idx more s → KeepsFields idx more (end env s)
  unfolding end
  end-KeepsFields s h = Goes-and_then (on_perf-KeepsFields s (perf_end env s.perf) h) λ _ t i.
      Goes-and_then {P = λ _ u. HasFields idx more u}
        (Goes-need (elapsed_usec t.start (env.clock (gettimeofday ∷ t.perf.log))) _ λ _. i)
        λ _ u j. goes j

  pub map_loop-KeepsFields :
      (map left i : ℕ) (s : State D)
      → HasFields idx more s
      → KeepsFields idx more (map_loop env map left i s)
  unfolding map_loop
  map_loop-KeepsFields map zero i s h = goes h
  map_loop-KeepsFields map (suc left) i s h =
      Goes-if (env.map_test_result (map_test map ∷ s.perf.log)) _ _
        (map_loop-KeepsFields map left (i + 1) _ h) (goes h)

  pub set_map_result-KeepsFields :
      (i : ℕ) (v : D) (s : State D)
      → HasFields idx more s
      → KeepsFields idx more (set_map_result env i v s)
  unfolding set_map_result
  set_map_result-KeepsFields i v s h = Goes-if_run (ltb i 2) (goes h) faults

  print_score-KeepsFields :
      (name : String) (score : D) (loops : ℤ) (secs : D) (s : State D)
      → HasFields idx more s
      → KeepsFields idx more (print_score name score loops secs s)
  unfolding print_score
  print_score-KeepsFields name score loops secs s h =
      Goes-and_then {P = λ _ t. HasFields idx more t}
        (Goes-need (score_line name score loops secs) s λ _. h)
        λ line t i.
          Goes-and_then (on_perf-KeepsFields (said line t) (perf_print (said line t).perf) i)
            λ _ u j. goes j

  pub print_map-KeepsFields :
      (i : ℕ) (loops : ℤ) (s : State D)
      → HasFields idx more s
      → KeepsFields idx more (print_map env i loops s)
  unfolding print_map
  print_map-KeepsFields i loops s h =
      Goes-if (i == 0) _ _ (print_score-KeepsFields "[MAP.ORDERED]" _ loops _ s h)
        (print_score-KeepsFields "[MAP.UNORDERED]" _ s.loops_unordered _ s h)

pub times-KeepsFields :
    {D : Type 0} {idx : ℕ} {more : ℤ} (a : ℤ) (k : ℕ) (s : State D)
    → HasFields idx more s
    → KeepsFields idx more (times a k s)
unfolding times
times-KeepsFields {idx = idx} {more = more} a k s h =
    Goes-and_then {P = λ _ t. HasFields idx more t} (Goes-check (in_int (a *ℤ pos k)) s h)
      λ _ t i. goes i
