-- ===== src/Main/Memory.antt =====
-- Memory that ututna/main.c is given and gives back: the matrices of 601_gemm, the bitmaps of 609_png,
-- the buffer of 607_hash and the plan of 600_fft.
pub mod Owned
pub mod Counters
pub mod Kernels
pub mod Benchmarks
pub mod Whole
use rebench.Base.{
  ℕ, zero, suc, ◌+◌, ◌≤◌, ◌≡◌, refl, ◌≢◌, inl, inr, Bool, true, List, [], ◌∷◌, arith, ◌==◌,
  if◌then◌else◌, Bool-cases, length, replicate, exited, ◌>>◌, Returns, returns, Returns-mono,
}
use rebench.Os.{print, malloc, free, load_png, generate_data, kiss_fftr_alloc, History, Env}
use rebench.Os.Double.{Double}
use rebench.Main.State.{State}
use rebench.Main.Gemm.{gemm_malloc, gemm_clear, gemm_cleanup, gemm_mallocs}
use rebench.Main.Kernels.{png_loop}

abbrev pub tick : Bool → ℕ
tick b = if b then 1 else 0

module _ {D : Type 0} ⦃d : Double D⦄ (env : Env D) where
  -- How often the calls in a log handed out the pointer `p`.
  unfoldable pub given : ℕ → History D → ℕ
  given p [] = 0
  given p (malloc size ∷ log) = tick (env.malloc_result (malloc size ∷ log) == p) + given p log
  given p (load_png ∷ log) = tick ((env.png_result (load_png ∷ log)).bitmap == p) + given p log
  given p (generate_data size ∷ log) =
      tick (env.data_result (generate_data size ∷ log) == p) + given p log
  given p (kiss_fftr_alloc n ∷ log) =
      tick (env.fft_plan (kiss_fftr_alloc n ∷ log) == p) + given p log
  given p (e ∷ log) = given p log

  -- How often they handed it out as a plan of the transform.
  unfoldable pub plans : ℕ → History D → ℕ
  plans p [] = 0
  plans p (kiss_fftr_alloc n ∷ log) =
      tick (env.fft_plan (kiss_fftr_alloc n ∷ log) == p) + plans p log
  plans p (e ∷ log) = plans p log

  -- How often they freed it.
  unfoldable pub freed : ℕ → History D → ℕ
  freed p [] = 0
  freed p (free q ∷ log) = tick (q == p) + freed p log
  freed p (e ∷ log) = freed p log

  -- From `before` to `after` every pointer but NULL was freed as often as it was handed out.
  abbrev pub Balanced : History D → History D → Type 0
  Balanced before after =
      (p : ℕ) → p ≢ 0 → given p after + freed p before ≡ freed p after + given p before

  -- The state with no matrix allocated.
  abbrev pub idle : State D → State D
  idle s = record s { gemm_ptrs = replicate 3 0; gemm_idx = 0 }

  -- Where no matrix is allocated, what a benchmark then allocates, up to three matrices,
  -- `gemm_cleanup` frees: every pointer but NULL as often as it was handed out. It leaves the
  -- slots empty for the next benchmark.
  pub gemm_cleanup-gemm_mallocs :
      (sizes : List ℕ) (s : State D)
      → length sizes ≤ 3
      → Returns
          (λ _ t. (t ≡ idle t) × Balanced s.perf.log t.perf.log)
          ((gemm_mallocs env sizes >> gemm_cleanup env) (idle s))
  unfolding gemm_mallocs gemm_malloc gemm_cleanup gemm_clear given freed
  gemm_cleanup-gemm_mallocs [] s few = returns (refl, λ p ne. ground arith)
  gemm_cleanup-gemm_mallocs (a ∷ []) s few = returns (refl, λ p ne. ground arith)
  gemm_cleanup-gemm_mallocs (a ∷ b ∷ []) s few = returns (refl, λ p ne. ground arith)
  gemm_cleanup-gemm_mallocs (a ∷ b ∷ c ∷ []) s few = returns (refl, λ p ne. ground arith)
  gemm_cleanup-gemm_mallocs (a ∷ b ∷ c ∷ e ∷ sizes) s few = absurd (omega arith)

  -- Where no matrix is allocated, the fourth one that is asked for is refused: the program exits,
  -- with the message printed and the three matrices before it allocated and no other.
  pub gemm_mallocs_full :
      (a b c e : ℕ) (sizes : List ℕ) (s : State D)
      → (t : State D) × (gemm_mallocs env (a ∷ b ∷ c ∷ e ∷ sizes) (idle s) ≡ exited t)
        × (t.perf.log
            ≡ print "gemm_malloc error.\n" [] ∷ malloc c ∷ malloc b ∷ malloc a ∷ s.perf.log)
  unfolding gemm_mallocs gemm_malloc
  gemm_mallocs_full a b c e sizes s = (_, refl, refl)

  png_round_null :
      (log : History D)
      → ((env.png_result (load_png ∷ log)).bitmap == 0) ≡ true
      → Balanced log (load_png ∷ log)
  unfolding given freed
  png_round_null log e p ne = ground arith

  png_round :
      (log : History D) (p : ℕ)
      → given p (free (env.png_result (load_png ∷ log)).bitmap ∷ load_png ∷ log) + freed p log
        ≡ freed p (free (env.png_result (load_png ∷ log)).bitmap ∷ load_png ∷ log) + given p log
  unfolding given freed
  png_round log p = omega arith

  -- The loop of 609_png always ends, and frees every bitmap but NULL as often as the decoder
  -- hands it out.
  pub png_loop-Balanced :
      (left : ℕ) (secs : D) (s : State D)
      → Returns (λ _ t. Balanced s.perf.log t.perf.log) (png_loop env left secs s)
  unfolding png_loop
  png_loop-Balanced zero secs s = returns λ p ne. omega arith
  png_loop-Balanced (suc left) secs s =
      let log : History D = load_png ∷ s.perf.log in
      let r = env.png_result log in
      let next : State D = record s { perf = record (s.perf) { log = log } } in
      let given_to : State D = record s { perf = record (s.perf) { log = free r.bitmap ∷ log } } in
      elim (Bool-cases (r.bitmap == 0)) [
        | inl none_given ↦ rw none_given (
            Returns-mono (png_loop-Balanced left (d.add secs r.seconds) next)
              λ _ t q p ne. omega (arith, q p ne, png_round_null s.perf.log none_given p ne))
        | inr some_given ↦ rw some_given (
            Returns-mono (png_loop-Balanced left (d.add secs r.seconds) given_to)
              λ _ t q p ne. omega (arith, q p ne, png_round s.perf.log p))
      ]
