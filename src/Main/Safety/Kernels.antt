-- ===== src/Main/Safety/Kernels.antt =====
-- 600_fft, 601_gemm, 609_png, 614_physics and 607_hash of ututna/main.c over sound states.
use Prim.Native.String.{String}
use rebench.Base.{
  true, ltb, ℕ, zero, suc, ◌+◌, ◌≤◌, ◌≡◌, refl, ◌∙◌, inl, inr, List, [], ◌∷◌, arith, leb, ◌==◌,
  Bool-cases, length, get_or, set, length-set, get_elem?-eq-get_or, ℤ, negsuc, rounds, ◌>>◌, Safe,
  goes_on, stops, pure, Safe-if, Safe-mono, Safe-unless, Safe-and_then,
}
use rebench.Os.{
  Event, print, malloc, free, kiss_fftr_alloc, test_sgemm, test_dgemm, sgemm, dgemm, load_png,
  test_physics, generate_data, digest, Digest, Env,
}
use rebench.Os.Double.{Double}
use rebench.Main.State.{State, say}
use rebench.Perf.Overrun.{ReadsAtMost}
use rebench.Main.Ranges.{KeepsRanges}
use rebench.Main.Safety.{
  IsSound, Next, Next-trans, Next-say, repeat-Safe, print_score-Safe, begin-Safe, end-Safe,
  s_start_stopwatch-Safe, s_stop_stopwatch-Safe,
}
use rebench.Main.Gemm.{
  gemm_malloc, gemm_clear, gemm_cleanup, gemm_mallocs, kernel, time_kernel, test_601_kernel,
  test_601_sgemm, test_601_dgemm, half_of, gemm_score, test_601_gemm,
}
use rebench.Main.Kernels.{test_600_fft, png_loop, test_609_png, run_physics, test_614_physics}
use rebench.Main.Hash.{digests, any_fails, hash_loop, test_607_hash}

module _ {D : Type 0} where
  -- A change of `gemm_ptrs` that keeps its length, and of `gemm_idx`.
  Next-slots :
      (s : State D) (ptrs : List ℕ) (idx : ℕ)
      → IsSound s
      → length ptrs ≡ 3
      → Next s (record s { gemm_ptrs = ptrs; gemm_idx = idx })
  Next-slots s ptrs idx h e = record {
    sound = record {
      roomy = h.roomy;
      room = h.room;
      six = h.six;
      slots = e;
      results = h.results;
      unordered = h.unordered;
      started = h.started;
    };
    same_index = refl;
  }

module _ {D : Type 0} ⦃d : Double D⦄ (env : Env D) (few : ReadsAtMost env)
    (ranges : KeepsRanges env) where
  gemm_malloc-Safe :
      (size : ℕ) (s : State D) → IsSound s → Safe (λ _ t. Next s t) (gemm_malloc env size s)
  unfolding gemm_malloc
  gemm_malloc-Safe size s h = elim (Bool-cases (leb 3 s.gemm_idx)) [
    | inl full ↦ rw full stops
    | inr fits ↦
        let k = Next-say (malloc size) s h in
        let inside : ltb s.gemm_idx (length s.gemm_ptrs) ≡ true = ground (arith, h.slots) in
        rw (fits, inside)
          (goes_on (
            Next-trans k
              (Next-slots _ _ _ k.sound (length-set s.gemm_ptrs s.gemm_idx _ ∙ h.slots))))
  ]

  gemm_mallocs-Safe :
      (sizes : List ℕ) (s : State D) → IsSound s → Safe (λ _ t. Next s t) (gemm_mallocs env sizes s)
  unfolding gemm_mallocs
  gemm_mallocs-Safe [] s h = goes_on (record { sound = h; same_index = refl })
  gemm_mallocs-Safe (size ∷ sizes) s h =
      Safe-and_then (gemm_malloc-Safe size s h)
        λ _ t k. Safe-mono (gemm_mallocs-Safe sizes t k.sound) λ _ u l. Next-trans k l

  gemm_clear-Safe :
      (left i : ℕ) (s : State D)
      → IsSound s
      → i + left ≤ 3
      → Safe (λ _ t. Next s t) (gemm_clear env left i s)
  unfolding gemm_clear
  gemm_clear-Safe zero i s h fits = goes_on (record { sound = h; same_index = refl })
  gemm_clear-Safe (suc left) i s h fits =
      let k = Next-say (free (get_or s.gemm_ptrs i 0)) s h in
      let l =
        Next-slots
          (record s { perf = record (s.perf) { log = free (get_or s.gemm_ptrs i 0) ∷ s.perf.log } })
          (set s.gemm_ptrs i 0) s.gemm_idx k.sound (length-set s.gemm_ptrs i 0 ∙ h.slots) in
      rw (get_elem?-eq-get_or s.gemm_ptrs i 0 (omega (arith, h.slots))) (
        Safe-mono (gemm_clear-Safe left (i + 1) _ l.sound (omega arith))
          λ _ t m. Next-trans k (Next-trans l m))

  gemm_cleanup-Safe : (s : State D) → IsSound s → Safe (λ _ t. Next s t) (gemm_cleanup env s)
  unfolding gemm_cleanup
  gemm_cleanup-Safe s h =
      Safe-and_then (gemm_clear-Safe 3 0 s h (omega arith))
        λ _ t k. goes_on (Next-trans k (Next-slots t t.gemm_ptrs 0 k.sound k.sound.slots))

  kernel-Safe :
      (call : ℕ → ℕ → ℕ → ℕ → Event D) (s : State D)
      → IsSound s
      → Safe (λ _ t. Next s t) (kernel env call s)
  kernel-Safe call s h =
      rw
        (
          get_elem?-eq-get_or s.gemm_ptrs 0 0 (omega (arith, h.slots)),
          get_elem?-eq-get_or s.gemm_ptrs 1 0 (omega (arith, h.slots)),
          get_elem?-eq-get_or s.gemm_ptrs 2 0 (omega (arith, h.slots)),
        )
        (goes_on (Next-say _ s h))

  time_kernel-Safe :
      (call : ℕ → ℕ → ℕ → ℕ → Event D) (loops : ℤ) (s : State D)
      → IsSound s
      → Safe (λ _ t. Next s t) (time_kernel env call loops s)
  unfolding time_kernel
  time_kernel-Safe call loops s h = Safe-and_then (begin-Safe env few ranges s h) λ _ t k.
      Safe-and_then (repeat-Safe (rounds loops) (kernel env call) t (kernel-Safe call) k.sound)
        λ _ u l.
          Safe-mono (end-Safe env few ranges u l.sound) λ _ v m. Next-trans k (Next-trans l m)

  test_601_kernel-Safe :
      (test : Event D) (call : ℕ → ℕ → ℕ → ℕ → Event D) (message : String) (loops : ℤ) (s : State D)
      → IsSound s
      → Safe (λ _ t. Next s t) (test_601_kernel env test call message loops s)
  unfolding test_601_kernel
  test_601_kernel-Safe test call message loops s h =
      let k = Next-say test s h in
      Safe-and_then (gemm_mallocs-Safe (env.gemm_sizes (test ∷ s.perf.log)) _ k.sound) λ _ t l.
        Safe-mono
          (Safe-if (d.eq (env.gemm_result t.perf.log) (d.of_int (negsuc 0)))
            (time_kernel env call loops) (say (print message []) >> pure (d.lit 0 0)) {s = t}
            (λ _. time_kernel-Safe call loops t l.sound)
            λ _. goes_on (Next-say (print message []) t l.sound))
          λ _ u m. Next-trans k (Next-trans l m)

  pub test_601_gemm-Safe :
      (loops : ℤ) (s : State D) → IsSound s → Safe (λ _ t. Next s t) (test_601_gemm env loops s)
  unfolding test_601_gemm test_601_sgemm test_601_dgemm
  test_601_gemm-Safe loops s h =
      Safe-and_then (test_601_kernel-Safe test_sgemm sgemm "sgemm error.\n" loops s h) λ x t k.
        Safe-and_then
          (print_score-Safe env few ranges "[SGEMM]" (gemm_score env loops x) loops x t k.sound)
          λ _ u l. Safe-and_then (gemm_cleanup-Safe u l.sound) λ _ v m.
            Safe-and_then
              (test_601_kernel-Safe test_dgemm dgemm "dgemm error.\n" (half_of env loops) v m.sound)
              λ y w n.
                Safe-and_then
                  (print_score-Safe env few ranges "[DGEMM]" (gemm_score env (half_of env loops) y)
                    (half_of env loops) y w n.sound)
                  λ _ a o. Safe-and_then (gemm_cleanup-Safe a o.sound) λ _ b q.
                    Safe-mono (print_score-Safe env few ranges "601_GEMM" _ loops _ b q.sound)
                      λ _ c r.
                        Next-trans k (
                          Next-trans l
                            (Next-trans m (Next-trans n (Next-trans o (Next-trans q r)))))

  pub test_600_fft-Safe :
      (loops : ℤ) (s : State D) → IsSound s → Safe (λ _ t. Next s t) (test_600_fft env loops s)
  unfolding test_600_fft
  test_600_fft-Safe loops s h =
      let k = Next-say (kiss_fftr_alloc 1024) s h in
      Safe-and_then (begin-Safe env few ranges _ k.sound) λ _ t l.
        Safe-and_then (repeat-Safe (rounds loops) _ t (λ u hu. goes_on (Next-say _ u hu)) l.sound)
          λ _ u m. Safe-and_then (end-Safe env few ranges u m.sound) λ secs v n.
            Safe-mono (print_score-Safe env few ranges "600_FFT" _ loops secs v n.sound)
              λ _ w o. Next-trans k (Next-trans l (Next-trans m (Next-trans n o)))

  png_loop-Safe :
      (left : ℕ) (secs : D) (s : State D)
      → IsSound s
      → Safe (λ _ t. Next s t) (png_loop env left secs s)
  unfolding png_loop
  png_loop-Safe zero secs s h = goes_on (record { sound = h; same_index = refl })
  png_loop-Safe (suc left) secs s h =
      let k = Next-say load_png s h in
      Safe-and_then
        (Safe-unless ((env.png_result (load_png ∷ s.perf.log)).bitmap == 0) _ (λ _. k)
          λ _. goes_on (Next-trans k (Next-say _ _ k.sound)))
        λ _ t l. Safe-mono (png_loop-Safe left _ t l.sound) λ _ u m. Next-trans l m

  pub test_609_png-Safe :
      (loops : ℤ) (s : State D) → IsSound s → Safe (λ _ t. Next s t) (test_609_png env loops s)
  unfolding test_609_png
  test_609_png-Safe loops s h = Safe-and_then (begin-Safe env few ranges s h) λ _ t k.
      Safe-and_then (png_loop-Safe (rounds loops) _ t k.sound) λ secs u l.
        Safe-and_then (end-Safe env few ranges u l.sound) λ _ v m.
          Safe-mono (print_score-Safe env few ranges "609_PNG" _ loops secs v m.sound)
            λ _ w n. Next-trans k (Next-trans l (Next-trans m n))

  run_physics-Safe :
      (step : D) (s : State D) → IsSound s → Safe (λ _ t. Next s t) (run_physics env step s)
  unfolding run_physics
  run_physics-Safe step s h =
      let k = Next-say (test_physics step) s h in
      Safe-and_then (s_start_stopwatch-Safe env few ranges _ k.sound) λ _ t l.
        Safe-and_then (s_stop_stopwatch-Safe env few ranges t l.sound)
          λ _ u m. goes_on (Next-trans k (Next-trans l m))

  pub test_614_physics-Safe :
      (loops : ℤ) (s : State D) → IsSound s → Safe (λ _ t. Next s t) (test_614_physics env loops s)
  unfolding test_614_physics
  test_614_physics-Safe loops s h =
      let step = d.div (d.lit 5 0) (d.of_int loops) in
      let sound : IsSound (record s { physics_step = step }) = record {
        roomy = h.roomy;
        room = h.room;
        six = h.six;
        slots = h.slots;
        results = h.results;
        unordered = h.unordered;
        started = h.started;
      } in
      Safe-and_then (run_physics-Safe step (record s { physics_step = step }) sound) λ _ t k.
        Safe-mono (print_score-Safe env few ranges "614_PHYSICS" _ loops _ t k.sound)
          λ _ u l. record { sound = l.sound; same_index = l.same_index ∙ k.same_index }

  any_fails-Safe :
      (buffer : ℕ) (kinds : List Digest) (s : State D)
      → IsSound s
      → Safe (λ _ t. Next s t) (any_fails env buffer kinds s)
  unfolding any_fails
  any_fails-Safe buffer [] s h = goes_on (record { sound = h; same_index = refl })
  any_fails-Safe buffer (kind ∷ kinds) s h =
      let k = Next-say (digest kind buffer) s h in
      Safe-if (env.digest_result (digest kind buffer ∷ s.perf.log)) _ _ (λ _. goes_on k)
        λ _. Safe-mono (any_fails-Safe buffer kinds _ k.sound) λ _ t l. Next-trans k l

  hash_loop-Safe :
      (buffer left i : ℕ) (s : State D)
      → IsSound s
      → Safe (λ _ t. Next s t) (hash_loop env buffer left i s)
  unfolding hash_loop
  hash_loop-Safe buffer zero i s h = goes_on (record { sound = h; same_index = refl })
  hash_loop-Safe buffer (suc left) i s h =
      Safe-and_then (any_fails-Safe buffer digests s h) λ fails t k.
        Safe-if fails _ _ (λ _. goes_on k)
          λ _. Safe-mono (hash_loop-Safe buffer left (i + 1) t k.sound) λ _ u l. Next-trans k l

  pub test_607_hash-Safe :
      (loops : ℤ) (s : State D) → IsSound s → Safe (λ _ t. Next s t) (test_607_hash env loops s)
  unfolding test_607_hash
  test_607_hash-Safe loops s h =
      let k = Next-say (generate_data 0x5000) s h in
      let buffer = env.data_result (generate_data 0x5000 ∷ s.perf.log) in
      Safe-and_then (begin-Safe env few ranges _ k.sound) λ _ t l.
        Safe-and_then (hash_loop-Safe buffer (rounds loops) 0 t l.sound) λ i u m.
          Safe-and_then (end-Safe env few ranges u m.sound) λ secs v n.
            Safe-and_then (print_score-Safe env few ranges "607_HASH" _ loops secs v n.sound)
              λ _ w o. goes_on (
                Next-trans k (
                  Next-trans l (Next-trans m (Next-trans n (Next-trans o (Next-say _ w o.sound))))))
