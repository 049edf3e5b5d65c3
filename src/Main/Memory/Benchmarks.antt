-- ===== src/Main/Memory/Benchmarks.antt =====
-- The memory of 601_gemm of ututna/main.c.
use Prim.Native.String.{String}
use rebench.Base.{ℕ, ◌+◌, ◌≡◌, refl, List, [], ◌∷◌, arith, ◌==◌, get_elem?, ℤ, negsuc, rounds}
use rebench.Base.Progress.{Goes, goes, exits, Goes-mono, Goes-if, Goes-need, Goes-and_then}
use rebench.Os.{Env, History, Event, sgemm, dgemm, test_sgemm, test_dgemm}
use rebench.Os.Double.{Double}
use rebench.Main.State.{State, print_score}
use rebench.Main.Gemm.{
  gemm_malloc, gemm_clear, gemm_cleanup, gemm_mallocs, kernel, time_kernel, test_601_kernel,
  test_601_sgemm, test_601_dgemm, test_601_gemm, half_of, gemm_score,
}
use rebench.Main.Carried.{said}
use rebench.Main.Memory.{given, freed, plans, tick, idle}
use rebench.Main.Memory.Owned.{Owes, IsSettled, Settles}
use mathlib.Core.Path.{subst⁻¹}
use rebench.Main.Memory.Counters.{Owes-IsCarriedOn, Owes-ScoresTo}
use rebench.Main.Carried.{print_score-Reaches, repeat-Reaches, begin-Reaches, end-Reaches}

-- A call that neither gets nor frees memory.
abbrev IsNeutral : {D : Type 0} ⦃d : Double D⦄ → Env D → Event D → Type 0
IsNeutral {D} env e = (own : ℕ → ℕ) (log : History D) → Owes env own log → Owes env own (e ∷ log)

-- The matrices `a`, `b` and `c` are held too.
abbrev holding : (a b c : ℕ) → (ℕ → ℕ) → ℕ → ℕ
holding a b c own p = tick (a == p) + tick (b == p) + tick (c == p) + own p

module _ {D : Type 0} ⦃d : Double D⦄ (env : Env D) (own : ℕ → ℕ) where
  -- The three slots hold what is held.
  abbrev IsHolding : State D → Type 0
  IsHolding t =
      (a : ℕ) × (b : ℕ) × (c : ℕ) × (n : ℕ) × IsSettled env (a ∷ b ∷ c ∷ []) n (holding a b c own) t

  gemm_mallocs-idle :
      (sizes : List ℕ) (s : State D)
      → Owes env own s.perf.log
      → Goes Unit (λ _ t. IsHolding t) (gemm_mallocs env sizes (idle env s))
  unfolding gemm_mallocs gemm_malloc given freed plans
  gemm_mallocs-idle [] s h = goes (0, 0, 0, 0, (refl, refl, λ p ne. ground (arith, h p ne)))
  gemm_mallocs-idle (u ∷ []) s h = goes (_, 0, 0, 1, (refl, refl, λ p ne. ground (arith, h p ne)))
  gemm_mallocs-idle (u ∷ v ∷ []) s h =
      goes (_, _, 0, 2, (refl, refl, λ p ne. ground (arith, h p ne)))
  gemm_mallocs-idle (u ∷ v ∷ w ∷ []) s h =
      goes (_, _, _, 3, (refl, refl, λ p ne. omega (arith, h p ne)))
  gemm_mallocs-idle (u ∷ v ∷ w ∷ x ∷ sizes) s h = exits tt

  is_idle : (s : State D) → IsSettled env (0 ∷ 0 ∷ 0 ∷ []) 0 own s → s ≡ idle env s
  is_idle s (e, f, _) = λ i. record s { gemm_ptrs = e i; gemm_idx = f i }

  gemm_mallocs-IsHolding :
      (sizes : List ℕ) (s : State D)
      → IsSettled env (0 ∷ 0 ∷ 0 ∷ []) 0 own s
      → Goes Unit (λ _ t. IsHolding t) (gemm_mallocs env sizes s)
  gemm_mallocs-IsHolding sizes s (e, f, h) =
      subst⁻¹ (λ t. Goes Unit (λ _ t. IsHolding t) (gemm_mallocs env sizes t)) (is_idle s (e, f, h))
        (gemm_mallocs-idle sizes s h)

  gemm_cleanup-Settles :
      (s : State D) → IsHolding s → Settles env (0 ∷ 0 ∷ 0 ∷ []) 0 own (gemm_cleanup env s)
  unfolding gemm_cleanup gemm_clear given freed plans
  gemm_cleanup-Settles s (a, b, c, n, (e, f, h)) =
      let slots : s ≡ record s { gemm_ptrs = a ∷ b ∷ c ∷ [] } = λ i. record s { gemm_ptrs = e i } in
      subst⁻¹ (λ t. Settles env (0 ∷ 0 ∷ 0 ∷ []) 0 own (gemm_cleanup env t)) slots
        (goes (refl, refl, λ p ne. omega (arith, h p ne)))

  kernel-Settles :
      {ptrs : List ℕ} {idx : ℕ} (call : ℕ → ℕ → ℕ → ℕ → Event D) (s : State D)
      → ((n a b c : ℕ) → IsNeutral env (call n a b c))
      → IsSettled env ptrs idx own s
      → Settles env ptrs idx own (kernel env call s)
  kernel-Settles {ptrs} {idx} call s neutral h =
      let P : ℕ → State D → Type 0 = λ _ t. IsSettled env ptrs idx own t in
      Goes-and_then {P = P} (Goes-need (get_elem? s.gemm_ptrs 0) s λ _. h) λ a t i.
        Goes-and_then {P = P} (Goes-need (get_elem? s.gemm_ptrs 1) t λ _. i) λ b u j.
          Goes-and_then {P = P} (Goes-need (get_elem? s.gemm_ptrs 2) u λ _. j)
            λ c v (e, f, k). goes (e, f, neutral 0x100 a b c own v.perf.log k)

  time_kernel-Settles :
      {ptrs : List ℕ} {idx : ℕ} (call : ℕ → ℕ → ℕ → ℕ → Event D) (loops : ℤ) (s : State D)
      → ((n a b c : ℕ) → IsNeutral env (call n a b c))
      → IsSettled env ptrs idx own s
      → Settles env ptrs idx own (time_kernel env call loops s)
  unfolding time_kernel
  time_kernel-Settles call loops s neutral h =
      Goes-and_then (begin-Reaches env (Owes env own) (Owes-IsCarriedOn env own) s h) λ _ t i.
        Goes-and_then
          (repeat-Reaches env (Owes env own) (Owes-IsCarriedOn env own) (rounds loops) _ t
            (λ u j. kernel-Settles call u neutral j) i)
          λ _ u j. end-Reaches env (Owes env own) (Owes-IsCarriedOn env own) u j

module _ {D : Type 0} ⦃d : Double D⦄ (env : Env D) (own : ℕ → ℕ) where
  test_601_kernel-IsHolding :
      (test : Event D) (call : ℕ → ℕ → ℕ → ℕ → Event D) (message : String) (loops : ℤ) (s : State D)
      → IsNeutral env test
      → ((n a b c : ℕ) → IsNeutral env (call n a b c))
      → IsSettled env (0 ∷ 0 ∷ 0 ∷ []) 0 own s
      → Goes Unit (λ _ t. IsHolding env own t) (test_601_kernel env test call message loops s)
  unfolding test_601_kernel given freed plans
  test_601_kernel-IsHolding test call message loops s quiet neutral (e, f, h) =
      let t = said test s in
      Goes-and_then
        (gemm_mallocs-IsHolding env own (env.gemm_sizes t.perf.log) t
          (e, f, quiet own s.perf.log h))
        λ _ u (a, b, c, n, i).
          Goes-if (d.eq (env.gemm_result u.perf.log) (d.of_int (negsuc 0))) _ _
            (Goes-mono (time_kernel-Settles env (holding a b c own) call loops u neutral i)
              λ _ _ j. (a, b, c, n, j))
            (goes (a, b, c, n, i))

  score-Settles :
      {ptrs : List ℕ} {idx : ℕ} (held : ℕ → ℕ) (name : String) (score : D) (loops : ℤ) (secs : D)
      (s : State D)
      → IsSettled env ptrs idx held s
      → Settles env ptrs idx held (print_score name score loops secs s)
  score-Settles held name score loops secs s h =
      print_score-Reaches (Owes env held) (Owes env held) name score loops secs s
        (Owes-IsCarriedOn env held) (Owes-ScoresTo env held name loops) h

  score-IsHolding :
      (name : String) (score : D) (loops : ℤ) (secs : D) (s : State D)
      → IsHolding env own s
      → Goes Unit (λ _ t. IsHolding env own t) (print_score name score loops secs s)
  score-IsHolding name score loops secs s (a, b, c, n, h) =
      Goes-mono (score-Settles (holding a b c own) name score loops secs s h)
        λ _ _ j. (a, b, c, n, j)

  pub test_601_gemm-Settles :
      (loops : ℤ) (s : State D)
      → IsSettled env (0 ∷ 0 ∷ 0 ∷ []) 0 own s
      → Settles env (0 ∷ 0 ∷ 0 ∷ []) 0 own (test_601_gemm env loops s)
  unfolding test_601_gemm test_601_sgemm test_601_dgemm given freed plans
  test_601_gemm-Settles loops s h =
      let half = half_of env loops in
      Goes-and_then
        (test_601_kernel-IsHolding test_sgemm sgemm "sgemm error.\n" loops s (λ _ _ k. k)
          (λ _ _ _ _ _ _ k. k) h)
        λ a t i.
          Goes-and_then (score-IsHolding "[SGEMM]" (gemm_score env loops a) loops a t i) λ _ u j.
            Goes-and_then (gemm_cleanup-Settles env own u j) λ _ v k.
              Goes-and_then
                (test_601_kernel-IsHolding test_dgemm dgemm "dgemm error.\n" half v (λ _ _ k. k)
                  (λ _ _ _ _ _ _ k. k) k)
                λ b w l.
                  Goes-and_then (score-IsHolding "[DGEMM]" (gemm_score env half b) half b w l)
                    λ _ x m.
                      Goes-and_then (gemm_cleanup-Settles env own x m)
                        λ _ y n. score-Settles own "601_GEMM" _ loops _ y n
