-- ===== src/Perf/Progress/Options.antt =====
-- The same of `perf_config` of ututna/perf.c.
use Prim.Native.String.{String}
use rebench.Base.{
  ℕ, ◌+◌, List, ◌∷◌, ltb, ◌==◌, length, ℤ, pos, negsuc, signed32, ◌≡◌, refl, sign_extend32, ◌>>=◌,
}
use rebench.Base.Progress.{goes, exits, faults, Goes-if, Goes-if_run, Goes-unless, Goes-and_then}
use rebench.Os.{PerfType, raw, Env, History, event_open}
use rebench.Perf.State.{
  Perf, max_counters, pmu_l1d_cache, pmu_l1d_cache_refill, pmu_inst_retired, pmu_cpu_cycles,
  pmu_l2d_cache, pmu_l2d_cache_refill,
}
use rebench.Perf.Config.{
  type_of_option, preset_columns, counter_name, set_ratio, strcat_headers, sprintf, opened,
  perf_open, preset, config_preset, config_single, perf_config,
}
use rebench.Perf.Text.{pad}
use rebench.Perf.Progress.{IsCarried, MayFail, Carries}

module _ {D E : Type 0} (env : Env D) (I : History D → Type 0) (keeps : IsCarried I)
    (fails : MayFail E env) where
  perf_open-Carries :
      (type : PerfType) (event : ℕ) (p : Perf D)
      → I p.log
      → Carries E I (perf_open env type event p)
  unfolding perf_open
  perf_open-Carries type event p h = go (env.event_open_result called) refl
    where
      called : History D
      called = event_open type (sign_extend32 event) p.fd ∷ p.log

      go :
          (r : ℤ)
          → env.event_open_result called ≡ r
          → Carries E I (opened env type event r (record p { log = called }))
      go (pos r) e = goes (keeps.on_open type (sign_extend32 event) p.fd p.log h)
      go (negsuc r) e = exits (fails called r e)

  set_ratio-Carries : (i v : ℕ) (p : Perf D) → I p.log → Carries E I (set_ratio i v p)
  unfolding set_ratio
  set_ratio-Carries i v p h = Goes-if_run (ltb i (length p.ratios)) (goes h) faults

  strcat_headers-Carries :
      (buf : List ℕ) (p : Perf D) → I p.log → Carries E I (strcat_headers buf p)
  unfolding strcat_headers
  strcat_headers-Carries buf p h =
      Goes-if_run (ltb (length p.headers + length buf) 1024) (goes h) faults

  sprintf-Carries :
      (size : ℕ) (text : List ℕ) (p : Perf D) → I p.log → Carries E I (sprintf size text p)
  unfolding sprintf
  sprintf-Carries size text p h = Goes-if_run (ltb (length text) size) (goes h) faults

  preset-Carries :
      (ratio first second : ℕ) (a b c : String) (p : Perf D)
      → I p.log
      → Carries E I ((preset env ratio first second a b c >>= strcat_headers) p)
  unfolding preset
  preset-Carries ratio first second a b c p h =
      Goes-and_then
        (Goes-and_then (set_ratio-Carries (p.n_counters + 1) ratio p h) λ _ q i.
          Goes-and_then (perf_open-Carries raw first q i) λ _ r j.
            Goes-and_then (perf_open-Carries raw second r j)
              λ _ t k. sprintf-Carries 128 (preset_columns a b c) t k)
        λ buf q i. strcat_headers-Carries buf q i

  config_preset-Carries :
      (type event : ℕ) (p : Perf D) → I p.log → Carries E I (config_preset env type event p)
  unfolding config_preset
  config_preset-Carries type event p h =
      Goes-if (ltb max_counters (p.n_counters + 2)) _ _ (goes h) (
        Goes-if (event == 0) _ _
          (preset-Carries 1 pmu_inst_retired pmu_cpu_cycles "RETIRED" "CYCLES" "IPC" p h)
          (Goes-if (event == 1) _ _
            (preset-Carries 100 pmu_l1d_cache_refill pmu_l1d_cache "L1D_REFILL" "L1D" "%" p h)
            (Goes-if (event == 2) _ _
              (preset-Carries 100 pmu_l2d_cache_refill pmu_l2d_cache "L2D_REFILL" "L2D" "%" p h)
              (goes (keeps.on_unsupported _ type (signed32 event) p.log h)))))

  config_single-Carries :
      (type event : ℕ) (p : Perf D) → I p.log → Carries E I (config_single env type event p)
  unfolding config_single
  config_single-Carries type event p h = Goes-unless (ltb max_counters (p.n_counters + 1)) _ h (
      Goes-and_then (perf_open-Carries (type_of_option type) event p h) λ _ q i.
        Goes-and_then (sprintf-Carries 20 (counter_name type event) q i) λ name r j.
          Goes-and_then (sprintf-Carries 128 (0x20 ∷ pad 12 name) r j)
            λ buf t k. strcat_headers-Carries buf t k)

  pub perf_config-Carries :
      (type event : ℕ) (p : Perf D) → I p.log → Carries E I (perf_config env type event p)
  unfolding perf_config
  perf_config-Carries type event p h =
      Goes-if (type == b'i') (config_preset env type event) (config_single env type event)
        (config_preset-Carries type event p h) (config_single-Carries type event p h)
