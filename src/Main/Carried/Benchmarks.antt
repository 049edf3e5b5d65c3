-- ===== src/Main/Carried/Benchmarks.antt =====
-- The same of 600_fft, 609_png, 614_physics and 607_hash of ututna/main.c.
use rebench.Base.{ℕ, zero, suc, ◌≡◌, true, inl, inr, List, ◌∷◌, ◌==◌, Bool-cases, ℤ, rounds}
use rebench.Base.Progress.{goes, Goes-and_then}
use rebench.Os.{Env, History, free, kiss_fftr_alloc, load_png, generate_data}
use rebench.Os.Double.{Double}
use rebench.Main.State.{State}
use rebench.Main.Kernels.{test_600_fft, png_loop, test_609_png, test_614_physics}
use rebench.Main.Hash.{test_607_hash}
use rebench.Main.Carried.{
  IsCarriedOn, ScoresTo, IsAt, Reaches, said, print_score-Reaches, repeat-Reaches, begin-Reaches,
  end-Reaches, run_physics-Reaches, hash_loop-Reaches,
}

-- A bitmap keeps the property, whether it is NULL or freed.
abbrev pub KeepsBitmaps : {D : Type 0} → Env D → (History D → Type 0) → Type 0
KeepsBitmaps {D} env I =
    (log : History D)
    → I log
    → let bitmap = (env.png_result (load_png ∷ log)).bitmap in
      ((bitmap == 0) ≡ true → I (load_png ∷ log)) × I (free bitmap ∷ load_png ∷ log)

module _ {D E : Type 0} ⦃d : Double D⦄ (env : Env D) (I J : History D → Type 0)
    (keeps : IsCarriedOn I) (keeps' : IsCarriedOn J) {ptrs : List ℕ} {idx : ℕ} where
  pub test_600_fft-Reaches :
      (loops : ℤ) (s : State D)
      → ScoresTo I J "600_FFT" loops
      → IsAt I ptrs idx s
      → Reaches E J ptrs idx (test_600_fft env loops s)
  unfolding test_600_fft
  test_600_fft-Reaches loops s scores (e, f, h) =
      Goes-and_then
        (begin-Reaches env I keeps (said (kiss_fftr_alloc 1024) s)
          (e, f, keeps.on_plan 1024 s.perf.log h))
        λ _ t i.
          Goes-and_then
            (repeat-Reaches env I keeps (rounds loops) _ t
              (λ u (e', f', k). goes (e', f', keeps.on_fft _ u.perf.log k)) i)
            λ _ u j.
              Goes-and_then (end-Reaches env I keeps u j)
                λ secs v k. print_score-Reaches I J "600_FFT" _ loops secs v keeps' scores k

  png_loop-Reaches :
      (left : ℕ) (secs : D) (s : State D)
      → KeepsBitmaps env I
      → IsAt I ptrs idx s
      → Reaches E I ptrs idx (png_loop env left secs s)
  unfolding png_loop
  png_loop-Reaches zero secs s bitmaps h = goes h
  png_loop-Reaches (suc left) secs s bitmaps (e, f, h) =
      let (null, freed) = bitmaps s.perf.log h in
      elim (Bool-cases ((env.png_result (load_png ∷ s.perf.log)).bitmap == 0)) [
        | inl none_given ↦ rw none_given (png_loop-Reaches left _ _ bitmaps (e, f, null none_given))
        | inr some_given ↦ rw some_given (png_loop-Reaches left _ _ bitmaps (e, f, freed))
      ]

  pub test_609_png-Reaches :
      (loops : ℤ) (s : State D)
      → KeepsBitmaps env I
      → ScoresTo I J "609_PNG" loops
      → IsAt I ptrs idx s
      → Reaches E J ptrs idx (test_609_png env loops s)
  unfolding test_609_png
  test_609_png-Reaches loops s bitmaps scores h =
      Goes-and_then (begin-Reaches env I keeps s h) λ _ t i.
        Goes-and_then (png_loop-Reaches (rounds loops) (d.lit 0 0) t bitmaps i) λ secs u j.
          Goes-and_then (end-Reaches env I keeps u j)
            λ _ v k. print_score-Reaches I J "609_PNG" _ loops secs v keeps' scores k

  pub test_614_physics-Reaches :
      (loops : ℤ) (s : State D)
      → ScoresTo I J "614_PHYSICS" loops
      → IsAt I ptrs idx s
      → Reaches E J ptrs idx (test_614_physics env loops s)
  unfolding test_614_physics
  test_614_physics-Reaches loops s scores (e, f, h) =
      Goes-and_then (run_physics-Reaches env I keeps _ (record s { physics_step = _ }) (e, f, h))
        λ _ t i. print_score-Reaches I J "614_PHYSICS" _ loops _ t keeps' scores i

module _ {D E : Type 0} ⦃d : Double D⦄ (env : Env D) (I J K L : History D → Type 0)
    (keeps : IsCarriedOn J) (keeps' : IsCarriedOn K) {ptrs : List ℕ} {idx : ℕ} where
  -- The buffer of the hashes leads to `J`, and its end from `K` to `L`.
  pub test_607_hash-Reaches :
      (loops : ℤ) (s : State D)
      → (I s.perf.log → J (generate_data 0x5000 ∷ s.perf.log))
      → ScoresTo J K "607_HASH" loops
      → ((log : History D)
          → K log
          → L (free (env.data_result (generate_data 0x5000 ∷ s.perf.log)) ∷ log))
      → IsAt I ptrs idx s
      → Reaches E L ptrs idx (test_607_hash env loops s)
  unfolding test_607_hash
  test_607_hash-Reaches loops s got scores frees (e, f, h) =
      Goes-and_then (begin-Reaches env J keeps (said (generate_data 0x5000) s) (e, f, got h))
        λ _ t i. Goes-and_then (hash_loop-Reaches env J keeps _ (rounds loops) 0 t i) λ r u j.
          Goes-and_then (end-Reaches env J keeps u j) λ secs v k.
            Goes-and_then (print_score-Reaches J K "607_HASH" _ loops secs v keeps' scores k)
              λ _ w (e', f', l). goes (e', f', frees w.perf.log l)
