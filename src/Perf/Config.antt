-- ===== src/Perf/Config.antt =====
-- `perf_open` and `perf_config` of ututna/perf.c: counters are opened and column heads collected.
-- An `int` argument is given by its 32 bits.
use Prim.Native.String.{String}
use rebench.Base.{
  ◌>>◌, ℕ, zero, ◌+◌, List, [], ◌∷◌, ◌++◌, ltb, ◌==◌, if◌then◌else◌, length, set, ℤ, pos, negsuc,
  signed32, sign_extend32, M, done, fault, ◌>>=◌, get, modify, exit, skip, unless,
}
use rebench.Os.{PerfType, hardware, hw_cache, raw, type_code, num, word, print, event_open, Env}
use rebench.Perf.Text.{codes, pad, hex}
use rebench.Perf.State.{
  max_counters, pmu_l1d_cache, pmu_l1d_cache_refill, pmu_inst_retired, pmu_cpu_cycles,
  pmu_l2d_cache, pmu_l2d_cache_refill, Perf, emit,
}

abbrev pub type_of_option : ℕ → PerfType
type_of_option type = if type == b'h' then hardware else if type == b'c' then hw_cache else raw

abbrev pub name_of_option : ℕ → String
name_of_option type = if type == b'h' then "HW" else if type == b'c' then "CACHE" else "RAW"

-- if (fd == -1) fd = ret;
abbrev pub lead : ℤ → ℕ → ℤ
lead (negsuc zero) r = pos r
lead fd r = fd

-- " %12s %12s %5s"
unfoldable pub preset_columns : String → String → String → List ℕ
unfolding pad
preset_columns name1 name2 name3 =
    (0x20 ∷ pad 12 (codes name1)) ++ ((0x20 ∷ pad 12 (codes name2)) ++ (0x20 ∷ pad 5 (codes name3)))

-- " %s(0x%X)"
unfoldable pub counter_name : ℕ → ℕ → List ℕ
unfolding hex
counter_name type event =
    (0x20 ∷ codes (name_of_option type)) ++ (codes "(0x" ++ (hex event ++ codes ")"))

module _ {D : Type 0} where
  -- ratios[i] = v
  unfoldable pub set_ratio : ℕ → ℕ → M (Perf D) (Unit {0})
  set_ratio i v p =
      if ltb i (length p.ratios) then done tt (record p { ratios = set p.ratios i v }) else fault

  -- strcat(headers, buf), where `headers` has 1024 bytes
  unfoldable pub strcat_headers : List ℕ → M (Perf D) (Unit {0})
  strcat_headers buf p =
      if ltb (length p.headers + length buf) 1024
      then done tt (record p { headers = p.headers ++ buf })
      else fault

  -- sprintf into an array of `size` bytes
  unfoldable pub sprintf : ℕ → List ℕ → M (Perf D) (List ℕ)
  sprintf size text p = if ltb (length text) size then done text p else fault

module _ {D : Type 0} (env : Env D) where
  -- What follows the system call in `perf_open`, given its result.
  abbrev pub opened : PerfType → ℕ → ℤ → M (Perf D) (Unit {0})
  opened type event (negsuc r) = do
    emit (
        print "perf_event_open(%d, %d) failed, ret = %d\n"
          (type_code type ∷ num (signed32 event) ∷ num (negsuc r) ∷ []))
    exit
  opened type event (pos r) =
      modify λ p. record p { fd = lead p.fd r; n_counters = p.n_counters + 1 }

  unfoldable pub perf_open : PerfType → ℕ → M (Perf D) (Unit {0})
  perf_open type event = do
    p ← get
    emit (event_open type (sign_extend32 event) p.fd)
    q ← get
    opened type event (env.event_open_result q.log)

  unfoldable pub preset : (ratio first second : ℕ) → String → String → String → M (Perf D) (List ℕ)
  unfolding perf_open set_ratio sprintf preset_columns
  preset ratio first second name1 name2 name3 = do
    p ← get
    set_ratio (p.n_counters + 1) ratio
    perf_open raw first
    perf_open raw second
    sprintf 128 (preset_columns name1 name2 name3)

  abbrev pub unsupported : ℕ → ℕ → M (Perf D) (Unit {0})
  unsupported type event =
      emit (print "unsupported pmu event %c %d\n" (word type ∷ num (signed32 event) ∷ []))

  -- The part of `perf_config` for the option `i`: two counters and a column for their ratio.
  unfoldable pub config_preset : ℕ → ℕ → M (Perf D) (Unit {0})
  unfolding preset strcat_headers
  config_preset type event = do
    p ← get
    if ltb max_counters (p.n_counters + 2)
        then skip
        else if event == 0
        then preset 1 pmu_inst_retired pmu_cpu_cycles "RETIRED" "CYCLES" "IPC" >>= strcat_headers
        else if event == 1
        then preset 100 pmu_l1d_cache_refill pmu_l1d_cache "L1D_REFILL" "L1D" "%" >>= strcat_headers
        else if event == 2
        then preset 100 pmu_l2d_cache_refill pmu_l2d_cache "L2D_REFILL" "L2D" "%" >>= strcat_headers
        else unsupported type event

  -- The part of `perf_config` for every other option: one counter.
  unfoldable pub config_single : ℕ → ℕ → M (Perf D) (Unit {0})
  unfolding perf_open strcat_headers sprintf pad counter_name
  config_single type event = do
    p ← get
    unless (ltb max_counters (p.n_counters + 1)) do
      perf_open (type_of_option type) event
      name ← sprintf 20 (counter_name type event)
      buf ← sprintf 128 (0x20 ∷ pad 12 name)
      strcat_headers buf

  unfoldable pub perf_config : ℕ → ℕ → M (Perf D) (Unit {0})
  unfolding config_preset config_single
  perf_config type event =
      if type == b'i' then config_preset type event else config_single type event
