-- ===== src/Perf/Bounds/Options.antt =====
-- `perf_config` of ututna/perf.c for each of its options.
use rebench.Base.{
  ℕ, ◌+◌, ◌≤◌, refl, ap, List, ◌∷◌, arith, ltb, ◌==◌, length, ℤ, ◌>>=◌, Safe, goes_on, Safe-if,
  Safe-unless, Safe-and_then,
}
use rebench.Os.{History, Env}
use rebench.Perf.State.{
  max_counters, pmu_l1d_cache, pmu_l1d_cache_refill, pmu_inst_retired, pmu_cpu_cycles,
  pmu_l2d_cache, pmu_l2d_cache_refill, Perf,
}
use rebench.Perf.Config.{
  counter_name, strcat_headers, sprintf, config_preset, config_single, type_of_option, perf_config,
}
use rebench.Perf.Text.{pad, length-pad_le}
use rebench.Perf.Bounds.{IsRoomy, IsKept, Grown, Configured, weight, At}
use rebench.Perf.Bounds.Columns.{counter_name-le}
use rebench.Perf.Bounds.Steps.{
  unchanged, perf_open-Safe, sprintf-Safe, preset_strcat-Safe, strcat_headers-Safe,
}

module _ {D : Type 0} (env : Env D) (I : ℤ → ℕ → History D → Type 0) (kept : IsKept I) where
  config_preset-Safe :
      (type event : ℕ) (p : Perf D)
      → IsRoomy p
      → At I p
      → Safe (λ _ q. Configured I 2 p q) (config_preset env type event p)
  unfolding config_preset
  config_preset-Safe type event p h at =
      Safe-if (ltb max_counters (p.n_counters + 2)) _ _
        (λ full. goes_on (unchanged env I kept 2 p h at))
        λ fits.
          let room : p.n_counters + 2 ≤ 10 = ground arith in
          Safe-if (event == 0) _ _
            (λ _.
              preset_strcat-Safe env I kept 1 pmu_inst_retired pmu_cpu_cycles "RETIRED" "CYCLES"
                "IPC" p (omega arith) (omega arith) (omega arith) h at room)
            λ _.
              Safe-if (event == 1) _ _
                (λ _.
                  preset_strcat-Safe env I kept 100 pmu_l1d_cache_refill pmu_l1d_cache "L1D_REFILL"
                    "L1D" "%" p (omega arith) (omega arith) (omega arith) h at room)
                λ _.
                  Safe-if (event == 2) _ _
                    (λ _.
                      preset_strcat-Safe env I kept 100 pmu_l2d_cache_refill pmu_l2d_cache
                        "L2D_REFILL" "L2D" "%" p (omega arith) (omega arith) (omega arith) h at
                        room)
                    λ _. goes_on (record {
                      roomy = record {
                        few = h.few;
                        ratios_room = h.ratios_room;
                        headers_fit = h.headers_fit;
                        first_plain = h.first_plain;
                      };
                      at_most = omega arith;
                      same_begin = refl;
                      same_end = refl;
                      at = kept.print_keeps _ _ p.fd p.n_counters p.log at;
                    })

  -- The end of `perf_config`, with a name that fits.
  name_column-Safe :
      (name : List ℕ) (p q : Perf D)
      → IsRoomy p
      → Grown I 1 p q
      → length name ≤ 18
      → p.n_counters + 1 ≤ 10
      → Safe (λ _ r. Configured I 1 p r) ((sprintf 128 (0x20 ∷ pad 12 name) >>= strcat_headers) q)
  name_column-Safe name p q h g short room =
      let wide = length-pad_le 12 18 name short (omega arith) in
      Safe-and_then (sprintf-Safe env I kept 128 (0x20 ∷ pad 12 name) q (omega arith)) λ buf r hr.
        strcat_headers-Safe env I kept 1 buf p r h (rw hr.1 g) (omega (arith, ap length hr.0)) room

  config_single-Safe :
      (type event : ℕ) (p : Perf D)
      → IsRoomy p
      → At I p
      → Safe (λ _ q. Configured I 1 p q) (config_single env type event p)
  unfolding config_single
  config_single-Safe type event p h at =
      Safe-unless (ltb max_counters (p.n_counters + 1)) _ (λ full. unchanged env I kept 1 p h at)
        λ fits.
          let room : p.n_counters + 1 ≤ 10 = ground arith in
          let short = counter_name-le type event in
          Safe-and_then (perf_open-Safe env I kept (type_of_option type) event p at) λ _ q g.
            Safe-and_then (sprintf-Safe env I kept 20 (counter_name type event) q (omega arith))
              λ name r hr.
                name_column-Safe name p r h (rw hr.1 g) (omega (arith, ap length hr.0)) room

  -- From arrays with room for what is configured, whatever option is given, `perf_config`
  -- overruns none of them, keeps that room, opens at most the counters that the option stands
  -- for, leaves the readings alone, and keeps whatever opening a counter and printing keep.
  pub perf_config-Safe :
      (type event : ℕ) (p : Perf D)
      → IsRoomy p
      → At I p
      → Safe (λ _ q. Configured I (weight type) p q) (perf_config env type event p)
  unfolding perf_config
  perf_config-Safe type event p h at =
      Safe-if (type == b'i') _ _ (λ preset. rw preset (config_preset-Safe type event p h at))
        λ single. rw single (config_single-Safe type event p h at)
