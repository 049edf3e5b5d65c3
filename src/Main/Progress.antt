-- ===== src/Main/Progress.antt =====
-- Where the functions of ututna/main.c call `exit`: the benchmarks, one by one.
pub mod Options
pub mod Whole
use Prim.Native.String.{String}
use rebench.Base.{ℕ, zero, suc, ◌≤◌, ◌≡◌, refl, List, [], ◌∷◌, length, ◌>>◌, ℤ, M, Run}
use rebench.Base.Progress.{Goes, goes, exits, faults, Goes-mono, Goes-and_then}
use rebench.Os.{Env, History}
use rebench.Os.Double.{Double}
use rebench.Perf.State.{Perf}
use rebench.Perf.Progress.{IsCarried}
use rebench.Main.State.{State, put_back, repeat, begin, end, print_score}
use rebench.Main.Kernels.{test_600_fft, test_603_map, test_609_png, test_614_physics}
use rebench.Main.Hash.{test_607_hash}
use rebench.Main.Carried.{IsCarriedOn, Reaches, print_score-Reaches, begin-Reaches, end-Reaches}
use rebench.Main.Carried.Benchmarks.{
  test_600_fft-Reaches, test_609_png-Reaches, test_614_physics-Reaches, test_607_hash-Reaches,
}
use rebench.Main.Carried.Maps.{MapScores, unordered_loops, test_603_map-Reaches}

-- The run does not exit.
abbrev pub Continues : {S A : Type 0} → Run S A → Type 0
Continues = Goes ⊥ (λ _ _. Unit {0})

pub Anything-IsCarried : {D : Type 0} → IsCarried {D = D} (λ _. Unit {0})
Anything-IsCarried = record {
  on_ioctl = λ _ _ _ h. h;
  on_read = λ _ _ _ h. h;
  on_open = λ _ _ _ _ h. h;
  on_word = λ _ _ _ h. h;
  on_real = λ _ _ _ h. h;
  on_failed = λ _ _ _ _ _ h. h;
  on_unsupported = λ _ _ _ _ h. h;
}

abbrev Anything : {D : Type 0} → History D → Type 0
Anything log = Unit

Anything-IsCarriedOn : {D : Type 0} → IsCarriedOn {D = D} Anything
Anything-IsCarriedOn = record {
  counters = Anything-IsCarried;
  on_clock = λ _ h. h;
  on_plan = λ _ _ h. h;
  on_fft = λ _ _ h. h;
  on_map_test = λ _ _ h. h;
  on_map_ops = λ _ _ h. h;
  on_maps = λ _ _ h. h;
  on_physics = λ _ _ h. h;
  on_start = λ _ h. h;
  on_stop = λ _ h. h;
  on_digest = λ _ _ _ h. h;
  on_text = λ _ _ h. h;
}

-- The run does not exit, and leaves `n` matrices allocated.
abbrev pub Keeps : {D A : Type 0} → ℕ → Run (State D) A → Type 0
Keeps n = Goes ⊥ (λ _ t. t.gemm_idx ≡ n)

-- A kernel's test asks for no more than three matrices.
abbrev pub AllocatesFew : {D : Type 0} → Env D → Type 0
AllocatesFew {D} env = (log : History D) → length (env.gemm_sizes log) ≤ 3

pub on_perf-Keeps :
    {D A : Type 0} {n : ℕ} (s : State D) {r : Run (Perf D) A}
    → s.gemm_idx ≡ n
    → Continues r
    → Keeps n (put_back s r)
on_perf-Keeps s h (goes _) = goes h
on_perf-Keeps s h (exits e) = absurd e
on_perf-Keeps s h faults = faults

Keeps-of_Reaches :
    {D A : Type 0} {n : ℕ} {ptrs : List ℕ} {r : Run (State D) A}
    → Reaches ⊥ Anything ptrs n r
    → Keeps n r
Keeps-of_Reaches g = Goes-mono g λ _ _ (_, i, _). i

module _ {D : Type 0} ⦃d : Double D⦄ {n : ℕ} where
  pub repeat-Keeps :
      (k : ℕ) (body : M (State D) (Unit {0})) (s : State D)
      → ((t : State D) → t.gemm_idx ≡ n → Keeps n (body t))
      → s.gemm_idx ≡ n
      → Keeps n (repeat k body s)
  unfolding repeat
  repeat-Keeps zero body s step h = goes h
  repeat-Keeps (suc k) body s step h =
      Goes-and_then (step s h) λ _ t i. repeat-Keeps k body t step i

  pub print_score-Keeps :
      (name : String) (score : D) (loops : ℤ) (secs : D) (s : State D)
      → s.gemm_idx ≡ n
      → Keeps n (print_score name score loops secs s)
  print_score-Keeps name score loops secs s h = Keeps-of_Reaches (
      print_score-Reaches Anything Anything name score loops secs s Anything-IsCarriedOn
        (λ _ _ _ _ _ _. tt) (refl, h, tt))

any_scores :
    (D : Type 0) ⦃d : Double D⦄ (more : ℤ) (bs : List ℤ) (a : ℤ)
    → MapScores {D = D} (λ _. Anything) more bs a
any_scores D more [] a = λ _ _ _ _ _ _. tt
any_scores D more (b ∷ bs) a = λ _ _ _ _ _ _. tt

module _ {D : Type 0} ⦃d : Double D⦄ (env : Env D) {n : ℕ} where
  pub begin-Keeps : (s : State D) → s.gemm_idx ≡ n → Keeps n (begin env s)
  begin-Keeps s h =
      Keeps-of_Reaches (begin-Reaches env Anything Anything-IsCarriedOn s (refl, h, tt))

  pub end-Keeps : (s : State D) → s.gemm_idx ≡ n → Keeps n (end env s)
  end-Keeps s h = Keeps-of_Reaches (end-Reaches env Anything Anything-IsCarriedOn s (refl, h, tt))

  pub test_600_fft-Keeps :
      (loops : ℤ) (s : State D) → s.gemm_idx ≡ n → Keeps n (test_600_fft env loops s)
  test_600_fft-Keeps loops s h = Keeps-of_Reaches (
      test_600_fft-Reaches env Anything Anything Anything-IsCarriedOn Anything-IsCarriedOn loops s
        (λ _ _ _ _ _ _. tt) (refl, h, tt))

  pub test_603_map-Keeps :
      (loops : ℤ) (s : State D) → s.gemm_idx ≡ n → Keeps n (test_603_map env loops s)
  test_603_map-Keeps loops s h = Keeps-of_Reaches (
      test_603_map-Reaches env (λ _. Anything) (λ _. Anything-IsCarriedOn) Anything loops s
        Anything-IsCarriedOn (any_scores D (unordered_loops loops)) (λ _ _ _ _ _ _ _ _ _. tt)
        (refl, h, tt))

  pub test_609_png-Keeps :
      (loops : ℤ) (s : State D) → s.gemm_idx ≡ n → Keeps n (test_609_png env loops s)
  test_609_png-Keeps loops s h = Keeps-of_Reaches (
      test_609_png-Reaches env Anything Anything Anything-IsCarriedOn Anything-IsCarriedOn loops s
        (λ _ _. (λ _. tt, tt)) (λ _ _ _ _ _ _. tt) (refl, h, tt))

  pub test_614_physics-Keeps :
      (loops : ℤ) (s : State D) → s.gemm_idx ≡ n → Keeps n (test_614_physics env loops s)
  test_614_physics-Keeps loops s h = Keeps-of_Reaches (
      test_614_physics-Reaches env Anything Anything Anything-IsCarriedOn Anything-IsCarriedOn loops
        s (λ _ _ _ _ _ _. tt) (refl, h, tt))

  pub test_607_hash-Keeps :
      (loops : ℤ) (s : State D) → s.gemm_idx ≡ n → Keeps n (test_607_hash env loops s)
  test_607_hash-Keeps loops s h = Keeps-of_Reaches (
      test_607_hash-Reaches env Anything Anything Anything Anything Anything-IsCarriedOn
        Anything-IsCarriedOn loops s (λ _. tt) (λ _ _ _ _ _ _. tt) (λ _ _. tt) (refl, h, tt))
