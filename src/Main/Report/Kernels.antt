-- ===== src/Main/Report/Kernels.antt =====
-- The benchmarks of ututna/main.c that report one line each, and what all of them are made of.
use Prim.Native.String.{String}
use rebench.Base.{ℕ, zero, suc, ◌≡◌, refl, ap, List, ◌∷◌, ℤ, M, Run}
use rebench.Base.Progress.{goes, Goes-mono, Goes-and_then}
use rebench.Os.{Env, History}
use rebench.Os.Double.{Double}
use rebench.Main.State.{State, repeat, begin, end, print_score}
use rebench.Main.Kernels.{test_600_fft, test_609_png, test_614_physics}
use rebench.Main.Hash.{test_607_hash}
use rebench.Main.Carried.{
  IsCarriedOn, ScoresTo, ScoresTo-of_lines, Reaches, print_score-Reaches, begin-Reaches,
  end-Reaches,
}
use rebench.Main.Carried.Benchmarks.{
  test_600_fft-Reaches, test_609_png-Reaches, test_614_physics-Reaches, test_607_hash-Reaches,
}
use rebench.Main.Report.{ScoreLine, score_lines, Reports}
use rebench.Main.Report.Counters.{score_lines-IsCarried}

-- These are the lines so far.
abbrev pub HasLines : {D : Type 0} → List ScoreLine → History D → Type 0
HasLines ls log = score_lines log ≡ ls

pub score_lines-IsCarriedOn :
    {D : Type 0} (P : List ScoreLine → Type 0) → IsCarriedOn {D = D} (λ log. P (score_lines log))
unfolding score_lines
score_lines-IsCarriedOn P = record {
  counters = score_lines-IsCarried P;
  on_clock = λ _ h. h;
  on_plan = λ _ _ h. h;
  on_fft = λ _ _ h. h;
  on_map_test = λ _ _ h. h;
  on_map_ops = λ _ _ h. h;
  on_maps = λ _ _ h. h;
  on_physics = λ _ _ h. h;
  on_start = λ _ h. h;
  on_stop = λ _ h. h;
  on_digest = λ _ _ _ h. h;
  on_text = λ _ _ h. h;
}

Reports-of_Reaches :
    {D A : Type 0} {ls : List ScoreLine} {ptrs : List ℕ} {n : ℕ} {r : Run (State D) A}
    → Reaches Unit (HasLines ls) ptrs n r
    → Reports ls r
Reports-of_Reaches g = Goes-mono g λ _ _ (_, _, i). i

module _ {D : Type 0} ⦃d : Double D⦄ {ls : List ScoreLine} where
  pub repeat-Reports :
      (k : ℕ) (body : M (State D) (Unit {0})) (s : State D)
      → ((t : State D) → score_lines t.perf.log ≡ ls → Reports ls (body t))
      → score_lines s.perf.log ≡ ls
      → Reports ls (repeat k body s)
  unfolding repeat score_lines
  repeat-Reports zero body s step h = goes h
  repeat-Reports (suc k) body s step h =
      Goes-and_then (step s h) λ _ t i. repeat-Reports k body t step i

  pub HasLines-ScoresTo :
      (name : String) (loops : ℤ)
      → ScoresTo {D = D} (HasLines ls) (HasLines ((name, loops) ∷ ls)) name loops
  unfolding score_lines
  HasLines-ScoresTo name loops =
      ScoresTo-of_lines (HasLines ls) (HasLines ((name, loops) ∷ ls)) name loops
        λ _ _ _ _ h. ap (λ ks. (name, loops) ∷ ks) h

  pub print_score-Reports :
      (name : String) (score : D) (loops : ℤ) (secs : D) (s : State D)
      → score_lines s.perf.log ≡ ls
      → Reports ((name, loops) ∷ ls) (print_score name score loops secs s)
  print_score-Reports name score loops secs s h = Reports-of_Reaches (
      print_score-Reaches (HasLines ls) (HasLines ((name, loops) ∷ ls)) name score loops secs s
        (score_lines-IsCarriedOn (λ ks. ks ≡ (name, loops) ∷ ls)) (HasLines-ScoresTo name loops)
        (refl, refl, h))

module _ {D : Type 0} ⦃d : Double D⦄ (env : Env D) {ls : List ScoreLine} where
  pub begin-Reports : (s : State D) → score_lines s.perf.log ≡ ls → Reports ls (begin env s)
  begin-Reports s h =
      Reports-of_Reaches (
        begin-Reaches env (HasLines ls) (score_lines-IsCarriedOn (λ ks. ks ≡ ls)) s (refl, refl, h))

  pub end-Reports : (s : State D) → score_lines s.perf.log ≡ ls → Reports ls (end env s)
  end-Reports s h =
      Reports-of_Reaches
        (end-Reaches env (HasLines ls) (score_lines-IsCarriedOn (λ ks. ks ≡ ls)) s (refl, refl, h))

  pub test_600_fft-Reports :
      (loops : ℤ) (s : State D)
      → score_lines s.perf.log ≡ ls
      → Reports (("600_FFT", loops) ∷ ls) (test_600_fft env loops s)
  test_600_fft-Reports loops s h =
      let after = ("600_FFT", loops) ∷ ls in
      Reports-of_Reaches (
        test_600_fft-Reaches env (HasLines ls) (HasLines after)
          (score_lines-IsCarriedOn (λ ks. ks ≡ ls)) (score_lines-IsCarriedOn (λ ks. ks ≡ after))
          loops s (HasLines-ScoresTo "600_FFT" loops) (refl, refl, h))

  pub test_609_png-Reports :
      (loops : ℤ) (s : State D)
      → score_lines s.perf.log ≡ ls
      → Reports (("609_PNG", loops) ∷ ls) (test_609_png env loops s)
  unfolding score_lines
  test_609_png-Reports loops s h =
      let after = ("609_PNG", loops) ∷ ls in
      Reports-of_Reaches (
        test_609_png-Reaches env (HasLines ls) (HasLines after)
          (score_lines-IsCarriedOn (λ ks. ks ≡ ls)) (score_lines-IsCarriedOn (λ ks. ks ≡ after))
          loops s (λ _ i. (λ _. i, i)) (HasLines-ScoresTo "609_PNG" loops) (refl, refl, h))

  pub test_614_physics-Reports :
      (loops : ℤ) (s : State D)
      → score_lines s.perf.log ≡ ls
      → Reports (("614_PHYSICS", loops) ∷ ls) (test_614_physics env loops s)
  test_614_physics-Reports loops s h =
      let after = ("614_PHYSICS", loops) ∷ ls in
      Reports-of_Reaches (
        test_614_physics-Reaches env (HasLines ls) (HasLines after)
          (score_lines-IsCarriedOn (λ ks. ks ≡ ls)) (score_lines-IsCarriedOn (λ ks. ks ≡ after))
          loops s (HasLines-ScoresTo "614_PHYSICS" loops) (refl, refl, h))

  pub test_607_hash-Reports :
      (loops : ℤ) (s : State D)
      → score_lines s.perf.log ≡ ls
      → Reports (("607_HASH", loops) ∷ ls) (test_607_hash env loops s)
  unfolding score_lines
  test_607_hash-Reports loops s h =
      let after = ("607_HASH", loops) ∷ ls in
      Reports-of_Reaches (
        test_607_hash-Reaches env (HasLines ls) (HasLines ls) (HasLines after) (HasLines after)
          (score_lines-IsCarriedOn (λ ks. ks ≡ ls)) (score_lines-IsCarriedOn (λ ks. ks ≡ after))
          loops s (λ i. i) (HasLines-ScoresTo "607_HASH" loops) (λ _ i. i) (refl, refl, h))
