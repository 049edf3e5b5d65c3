-- ===== src/Main/Memory/Kernels.antt =====
-- The memory of 600_fft, 603_map, 609_png, 614_physics and 607_hash of ututna/main.c.
use rebench.Base.{ℕ, ◌+◌, ◌==◌, List, [], ◌∷◌, arith, ℤ}
use rebench.Os.{Env, generate_data}
use rebench.Os.Double.{Double}
use rebench.Main.State.{State}
use rebench.Main.Kernels.{test_600_fft, test_603_map, test_609_png, test_614_physics}
use rebench.Main.Hash.{test_607_hash}
use rebench.Main.Carried.Benchmarks.{
  KeepsBitmaps, test_600_fft-Reaches, test_609_png-Reaches, test_614_physics-Reaches,
  test_607_hash-Reaches,
}
use rebench.Main.Carried.Maps.{MapScores, unordered_loops, test_603_map-Reaches}
use rebench.Main.Memory.{given, freed, plans, tick}
use rebench.Main.Memory.Owned.{Owes, IsSettled, Settles}
use rebench.Main.Memory.Counters.{Owes-IsCarriedOn, Owes-ScoresTo}

-- A bitmap is freed in its round, unless it is NULL.
Owes-KeepsBitmaps :
    {D : Type 0} ⦃d : Double D⦄ (env : Env D) (own : ℕ → ℕ) → KeepsBitmaps env (Owes env own)
unfolding given freed plans
Owes-KeepsBitmaps env own log h =
    (λ null p ne. ground (arith, h p ne), λ p ne. omega (arith, h p ne))

Owes-MapScores :
    {D : Type 0} ⦃d : Double D⦄ (env : Env D) (own : ℕ → ℕ) (more : ℤ) (bs : List ℤ) (a : ℤ)
    → MapScores (λ _. Owes env own) more bs a
Owes-MapScores env own more [] a = Owes-ScoresTo env own "[MAP.ORDERED]" a
Owes-MapScores env own more (b ∷ bs) a = Owes-ScoresTo env own "[MAP.UNORDERED]" more

module _ {D : Type 0} ⦃d : Double D⦄ (env : Env D) (own : ℕ → ℕ) {ptrs : List ℕ} {idx : ℕ} where
  pub test_600_fft-Settles :
      (loops : ℤ) (s : State D)
      → IsSettled env ptrs idx own s
      → Settles env ptrs idx own (test_600_fft env loops s)
  test_600_fft-Settles loops s =
      let keeps = Owes-IsCarriedOn env own in
      test_600_fft-Reaches env (Owes env own) (Owes env own) keeps keeps loops s
        (Owes-ScoresTo env own "600_FFT" loops)

  pub test_603_map-Settles :
      (loops : ℤ) (s : State D)
      → IsSettled env ptrs idx own s
      → Settles env ptrs idx own (test_603_map env loops s)
  test_603_map-Settles loops s =
      let keeps = Owes-IsCarriedOn env own in
      test_603_map-Reaches env (λ _. Owes env own) (λ _. keeps) (Owes env own) loops s keeps
        (Owes-MapScores env own (unordered_loops loops))
        (λ _ _ _. Owes-ScoresTo env own "603_MAP" loops)

  pub test_609_png-Settles :
      (loops : ℤ) (s : State D)
      → IsSettled env ptrs idx own s
      → Settles env ptrs idx own (test_609_png env loops s)
  test_609_png-Settles loops s =
      let keeps = Owes-IsCarriedOn env own in
      test_609_png-Reaches env (Owes env own) (Owes env own) keeps keeps loops s
        (Owes-KeepsBitmaps env own) (Owes-ScoresTo env own "609_PNG" loops)

  pub test_614_physics-Settles :
      (loops : ℤ) (s : State D)
      → IsSettled env ptrs idx own s
      → Settles env ptrs idx own (test_614_physics env loops s)
  test_614_physics-Settles loops s =
      let keeps = Owes-IsCarriedOn env own in
      test_614_physics-Reaches env (Owes env own) (Owes env own) keeps keeps loops s
        (Owes-ScoresTo env own "614_PHYSICS" loops)

  -- The buffer of the hashes is freed at the end.
  pub test_607_hash-Settles :
      (loops : ℤ) (s : State D)
      → IsSettled env ptrs idx own s
      → Settles env ptrs idx own (test_607_hash env loops s)
  unfolding given freed plans
  test_607_hash-Settles loops s =
      let log = generate_data 0x5000 ∷ s.perf.log in
      let with_data : ℕ → ℕ = λ p. tick (env.data_result log == p) + own p in
      let keeps = Owes-IsCarriedOn env with_data in
      test_607_hash-Reaches env (Owes env own) (Owes env with_data) (Owes env with_data)
        (Owes env own) keeps keeps loops s (λ h p ne. omega (arith, h p ne))
        (Owes-ScoresTo env with_data "607_HASH" loops) (λ after h p ne. omega (arith, h p ne))
