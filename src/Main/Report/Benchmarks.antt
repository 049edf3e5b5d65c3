-- ===== src/Main/Report/Benchmarks.antt =====
-- What 601_gemm and 603_map of ututna/main.c report.
use Prim.Native.String.{String}
use rebench.Base.{
  ℕ, zero, suc, ◌+◌, ◌≡◌, refl, ◌∙◌, List, [], ◌∷◌, ◌++◌, ltb, leb, length, get_elem?, ℤ, negsuc,
  pos, ◌*ℤ◌, rounds,
}
use rebench.Base.Progress.{
  Goes, goes, exits, Goes-mono, Goes-if, Goes-need, Goes-check, Goes-when, Goes-and_then,
}
use rebench.Os.{Env, test_map, History, Event, sgemm, dgemm, test_sgemm, test_dgemm}
use rebench.Os.Double.{Double}
use rebench.Main.State.{State}
use rebench.Main.Gemm.{
  gemm_malloc, gemm_clear, gemm_cleanup, gemm_mallocs, kernel, time_kernel, test_601_kernel,
  test_601_sgemm, test_601_dgemm, test_601_gemm, half_of, gemm_score,
}
use rebench.Main.Kernels.{test_603_map}
use rebench.Main.Carried.{said}
use rebench.Main.Report.{ScoreLine, score_lines, Reports}
use rebench.Main.Carried.Maps.{Limits, MapScores, unordered_loops, test_603_map-Reaches}
use rebench.Main.Report.Kernels.{
  repeat-Reports, print_score-Reports, begin-Reports, end-Reports, HasLines, HasLines-ScoresTo,
  score_lines-IsCarriedOn,
}

-- A call that begins no line.
abbrev IsSilent : {D : Type 0} → (ℕ → ℕ → ℕ → ℕ → Event D) → Type 0
IsSilent {D} call =
    (n a b c : ℕ) (log : History D) → score_lines (call n a b c ∷ log) ≡ score_lines log

module _ {D : Type 0} ⦃d : Double D⦄ (env : Env D) {ls : List ScoreLine} where
  gemm_malloc-Reports :
      (size : ℕ) (s : State D) → score_lines s.perf.log ≡ ls → Reports ls (gemm_malloc env size s)
  unfolding gemm_malloc score_lines
  gemm_malloc-Reports size s h =
      Goes-and_then {P = λ _ t. score_lines t.perf.log ≡ ls}
        (Goes-when (leb 3 s.gemm_idx) _ h (exits tt))
        λ _ t i.
          Goes-and_then {P = λ _ u. score_lines u.perf.log ≡ ls}
            (Goes-check (ltb s.gemm_idx (length s.gemm_ptrs)) _ i) λ _ u j. goes j

  gemm_mallocs-Reports :
      (sizes : List ℕ) (s : State D)
      → score_lines s.perf.log ≡ ls
      → Reports ls (gemm_mallocs env sizes s)
  unfolding gemm_mallocs
  gemm_mallocs-Reports [] s h = goes h
  gemm_mallocs-Reports (size ∷ sizes) s h =
      Goes-and_then (gemm_malloc-Reports size s h) λ _ t i. gemm_mallocs-Reports sizes t i

  gemm_clear-Reports :
      (left i : ℕ) (s : State D)
      → score_lines s.perf.log ≡ ls
      → Reports ls (gemm_clear env left i s)
  unfolding gemm_clear score_lines
  gemm_clear-Reports zero i s h = goes h
  gemm_clear-Reports (suc left) i s h =
      Goes-and_then {P = λ _ t. score_lines t.perf.log ≡ ls}
        (Goes-and_then {P = λ _ t. score_lines t.perf.log ≡ ls}
          (Goes-need (get_elem? s.gemm_ptrs i) s λ _. h) λ _ _ j. goes j)
        λ _ t j. gemm_clear-Reports left (i + 1) t j

  gemm_cleanup-Reports :
      (s : State D) → score_lines s.perf.log ≡ ls → Reports ls (gemm_cleanup env s)
  unfolding gemm_cleanup
  gemm_cleanup-Reports s h = Goes-and_then (gemm_clear-Reports 3 0 s h) λ _ t i. goes i

  kernel-Reports :
      (call : ℕ → ℕ → ℕ → ℕ → Event D) (s : State D)
      → IsSilent call
      → score_lines s.perf.log ≡ ls
      → Reports ls (kernel env call s)
  kernel-Reports call s silent h =
      let P : ℕ → State D → Type 0 = λ _ t. score_lines t.perf.log ≡ ls in
      Goes-and_then {P = P} (Goes-need (get_elem? s.gemm_ptrs 0) s λ _. h) λ a t i.
        Goes-and_then {P = P} (Goes-need (get_elem? s.gemm_ptrs 1) t λ _. i) λ b u j.
          Goes-and_then {P = P} (Goes-need (get_elem? s.gemm_ptrs 2) u λ _. j)
            λ c v k. goes (silent 0x100 a b c v.perf.log ∙ k)

  time_kernel-Reports :
      (call : ℕ → ℕ → ℕ → ℕ → Event D) (loops : ℤ) (s : State D)
      → IsSilent call
      → score_lines s.perf.log ≡ ls
      → Reports ls (time_kernel env call loops s)
  unfolding time_kernel
  time_kernel-Reports call loops s silent h = Goes-and_then (begin-Reports env s h) λ _ t i.
      Goes-and_then (repeat-Reports (rounds loops) _ t (λ u j. kernel-Reports call u silent j) i)
        λ _ u j. end-Reports env u j

  test_601_kernel-Reports :
      (test : Event D) (call : ℕ → ℕ → ℕ → ℕ → Event D) (message : String) (loops : ℤ) (s : State D)
      → ((log : History D) → score_lines (test ∷ log) ≡ score_lines log)
      → IsSilent call
      → score_lines s.perf.log ≡ ls
      → Reports ls (test_601_kernel env test call message loops s)
  unfolding test_601_kernel score_lines
  test_601_kernel-Reports test call message loops s quiet silent h =
      let t = said test s in
      Goes-and_then (gemm_mallocs-Reports (env.gemm_sizes t.perf.log) t (quiet s.perf.log ∙ h))
        λ _ u i.
          Goes-if (d.eq (env.gemm_result u.perf.log) (d.of_int (negsuc 0))) _ _
            (time_kernel-Reports call loops u silent i) (goes i)

module _ {D : Type 0} ⦃d : Double D⦄ (env : Env D) {ls : List ScoreLine} where
  pub test_601_gemm-Reports :
      (loops : ℤ) (s : State D)
      → score_lines s.perf.log ≡ ls
      → Reports
          (("601_GEMM", loops) ∷ ("[DGEMM]", half_of env loops) ∷ ("[SGEMM]", loops) ∷ ls)
          (test_601_gemm env loops s)
  unfolding test_601_gemm test_601_sgemm test_601_dgemm score_lines
  test_601_gemm-Reports loops s h =
      let half = half_of env loops in
      Goes-and_then
        (test_601_kernel-Reports env test_sgemm sgemm "sgemm error.\n" loops s (λ _. refl)
          (λ _ _ _ _ _. refl) h)
        λ a t i.
          Goes-and_then (print_score-Reports "[SGEMM]" (gemm_score env loops a) loops a t i)
            λ _ u j. Goes-and_then (gemm_cleanup-Reports env u j) λ _ v k.
              Goes-and_then
                (test_601_kernel-Reports env test_dgemm dgemm "dgemm error.\n" half v (λ _. refl)
                  (λ _ _ _ _ _. refl) k)
                λ b w l.
                  Goes-and_then (print_score-Reports "[DGEMM]" (gemm_score env half b) half b w l)
                    λ _ x m.
                      Goes-and_then (gemm_cleanup-Reports env x m)
                        λ _ y n. print_score-Reports "601_GEMM" _ loops _ y n

-- The lines of maps with these limits, the last one first: the loops of the first are its limit.
abbrev pub map_lines : ℤ → List ℤ → List ScoreLine
map_lines more [] = []
map_lines more (a ∷ []) = ("[MAP.ORDERED]", a) ∷ []
map_lines more (a ∷ b ∷ bs) = ("[MAP.UNORDERED]", more) ∷ map_lines more (b ∷ bs)

-- The report of 603_map in front of `ls`.
abbrev pub MapReport :
    {D : Type 0} ⦃d : Double D⦄ → Env D → List ScoreLine → ℤ → List ScoreLine → Type 0
MapReport {D} env ls loops ks =
    (log : History D) × (limits : List ℤ) × Limits (env.map_runs (test_map (loops *ℤ pos 2) ∷ log))
      [] limits
    × (ks ≡ ("603_MAP", loops) ∷ (map_lines (unordered_loops loops) limits ++ ls))

map_lines-MapScores :
    (D : Type 0) ⦃d : Double D⦄ (ls : List ScoreLine) (more : ℤ) (bs : List ℤ) (a : ℤ)
    → MapScores {D = D} (λ cs. HasLines (map_lines more cs ++ ls)) more bs a
map_lines-MapScores D ls more [] a = HasLines-ScoresTo "[MAP.ORDERED]" a
map_lines-MapScores D ls more (b ∷ bs) a = HasLines-ScoresTo "[MAP.UNORDERED]" more

module _ {D : Type 0} ⦃d : Double D⦄ (env : Env D) {ls : List ScoreLine} where
  pub test_603_map-Reports :
      (loops : ℤ) (s : State D)
      → score_lines s.perf.log ≡ ls
      → Goes Unit
          (λ _ t. MapReport env ls loops (score_lines t.perf.log))
          (test_603_map env loops s)
  test_603_map-Reports loops s h =
      let more = unordered_loops loops in
      Goes-mono
        (test_603_map-Reaches env (λ cs. HasLines (map_lines more cs ++ ls))
          (λ cs. score_lines-IsCarriedOn (λ ks. ks ≡ map_lines more cs ++ ls))
          (λ log. MapReport env ls loops (score_lines log)) loops s
          (score_lines-IsCarriedOn (MapReport env ls loops)) (map_lines-MapScores D ls more)
          (λ log limits are score secs e after is i.
            (log, limits, are, HasLines-ScoresTo "603_MAP" loops score secs e after is i))
          (refl, refl, h))
        λ _ _ (_, _, i). i
