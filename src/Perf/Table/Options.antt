-- ===== src/Perf/Table/Options.antt =====
-- `perf_config` of ututna/perf.c and the table that its options ask for.
use mathlib.Core.Path.{subst⁻¹}
use rebench.Base.{
  ℕ, ◌+◌, ◌≤◌, ◌≡◌, refl, inl, inr, true, false, some, List, ◌∷◌, arith, leb, ltb, ◌==◌, Bool-cases,
  Safe, goes_on, Safe-if, Safe-unless, Safe-and_then,
}
use rebench.Os.{Env}
use rebench.Perf.Text.{pad, length-pad_le}
use rebench.Perf.State.{
  Perf, max_counters, pmu_l1d_cache, pmu_l1d_cache_refill, pmu_inst_retired, pmu_cpu_cycles,
  pmu_l2d_cache, pmu_l2d_cache_refill,
}
use rebench.Perf.Config.{counter_name, config_preset, config_single, perf_config, type_of_option}
use rebench.Perf.Bounds.Columns.{counter_name-le}
use rebench.Perf.Table.{
  Group, single, instructions, l1_misses, l2_misses, preset_of, asked, used, admit, Shows,
}
use rebench.Perf.Table.Steps.{
  IsPending, message-Shows, strcat_headers-Shows, sprintf-eq, perf_open-with_counter,
  with_counter-IsPending, preset-Shows,
}

module _ {D : Type 0} (env : Env D) where
  pub config_single-Shows :
      (type event : ℕ) (gs : List Group) (p : Perf D)
      → Shows gs p
      → Safe (λ _ q. Shows (admit (some (single type event)) gs) q) (config_single env type event p)
  unfolding config_single
  config_single-Shows type event gs p h =
      Safe-unless (ltb max_counters (p.n_counters + 1)) _
        (λ full.
          let none_left : leb (used gs + 1) 10 ≡ false = ground (arith, h.counters) in
          rw none_left h)
        λ free.
          let room : leb (used gs + 1) 10 ≡ true = ground (arith, h.counters) in
          let short = counter_name-le type event in
          let wide = length-pad_le 12 18 (counter_name type event) short (omega arith) in
          rw room (
            Safe-and_then (perf_open-with_counter env (type_of_option type) event p) λ _ q (r, e).
              rw
                (
                  sprintf-eq 20 (counter_name type event) q (omega arith),
                  sprintf-eq 128 (0x20 ∷ pad 12 (counter_name type event)) q (omega arith),
                )
                (strcat_headers-Shows (single type event) gs q (
                  subst⁻¹ (IsPending (single type event) gs) e
                    (with_counter-IsPending env type event r gs p h (ground (arith, room))))))

  pub config_preset-Shows :
      (type event : ℕ) (gs : List Group) (p : Perf D)
      → Shows gs p
      → Safe (λ _ q. Shows (admit (preset_of event) gs) q) (config_preset env type event p)
  unfolding config_preset
  config_preset-Shows type event gs p h =
      Safe-if (ltb max_counters (p.n_counters + 2)) _ _
        (λ full. goes_on (full_admits (ground (arith, full, h.counters))))
        λ free.
          let room : used gs + 2 ≤ 10 = ground (arith, free, h.counters) in
          let admitted : leb (used gs + 2) 10 ≡ true = ground arith in
          Safe-if (event == 0) _ _
            (λ e.
              rw (e, admitted)
                (preset-Shows env instructions 1 pmu_inst_retired pmu_cpu_cycles "RETIRED" "CYCLES"
                  "IPC" gs p refl refl refl refl h room))
            λ e.
              Safe-if (event == 1) _ _
                (λ f.
                  rw (e, f, admitted)
                    (preset-Shows env l1_misses 100 pmu_l1d_cache_refill pmu_l1d_cache "L1D_REFILL"
                      "L1D" "%" gs p refl refl refl refl h room))
                λ f.
                  Safe-if (event == 2) _ _
                    (λ g.
                      rw (e, f, g, admitted)
                        (preset-Shows env l2_misses 100 pmu_l2d_cache_refill pmu_l2d_cache
                          "L2D_REFILL" "L2D" "%" gs p refl refl refl refl h room))
                    λ g. rw (e, f, g) (goes_on (message-Shows gs p _ _ h))
    where
      full_admits : leb (used gs + 2) 10 ≡ false → Shows (admit (preset_of event) gs) p
      full_admits full = elim (Bool-cases (event == 0)) [
        | inl e ↦ rw (e, full) h
        | inr e ↦ elim (Bool-cases (event == 1)) [
          | inl f ↦ rw (e, f, full) h
          | inr f ↦ elim (Bool-cases (event == 2)) [
            | inl g ↦ rw (e, f, g, full) h
            | inr g ↦ rw (e, f, g) h
          ]
        ]
      ]

  pub perf_config-Shows :
      (type event : ℕ) (gs : List Group) (p : Perf D)
      → Shows gs p
      → Safe (λ _ q. Shows (admit (asked type event) gs) q) (perf_config env type event p)
  unfolding perf_config
  perf_config-Shows type event gs p h =
      Safe-if (type == b'i') _ _ (λ e. rw e (config_preset-Shows type event gs p h))
        λ e. rw e (config_single-Shows type event gs p h)
