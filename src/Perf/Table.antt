-- ===== src/Perf/Table.antt =====
-- The table that the options of `perf_config` of ututna/perf.c ask for, and what it means that the
-- variables of perf.c hold it.
pub mod Lists
pub mod Steps
pub mod Options
pub mod Heads
pub mod Widths
use rebench.Base.{
  ℕ, suc, ◌+◌, ◌-◌, ◌≤◌, ◌≡◌, Option, none, some, List, [], ◌∷◌, ◌++◌, leb, ◌==◌, if◌then◌else◌,
  length, replicate, sign_extend32,
}
use rebench.Os.{PerfType, raw, event_open, History}
use rebench.Perf.Text.{codes, pad}
use rebench.Perf.State.{
  pmu_l1d_cache, pmu_l1d_cache_refill, pmu_inst_retired, pmu_cpu_cycles, pmu_l2d_cache,
  pmu_l2d_cache_refill, Perf,
}
use rebench.Perf.Config.{preset_columns, counter_name, type_of_option}

-- What one option adds: a counter, or two with the ratio of the first to the second.
pub data Group : Type 0 where
  single : (type event : ℕ) → Group
  instructions l1_misses l2_misses : Group

abbrev pub size : Group → ℕ
size (single type event) = 1
size instructions = 2
size l1_misses = 2
size l2_misses = 2

-- The factors of the ratios of its counters, 0 for none.
abbrev pub factors : Group → List ℕ
factors (single type event) = 0 ∷ []
factors instructions = 0 ∷ 1 ∷ []
factors l1_misses = 0 ∷ 100 ∷ []
factors l2_misses = 0 ∷ 100 ∷ []

abbrev pub head : Group → List ℕ
head (single type event) = 0x20 ∷ pad 12 (counter_name type event)
head instructions = preset_columns "RETIRED" "CYCLES" "IPC"
head l1_misses = preset_columns "L1D_REFILL" "L1D" "%"
head l2_misses = preset_columns "L2D_REFILL" "L2D" "%"

-- Its events, the last one first.
abbrev pub events : Group → List (PerfType × ℕ)
events (single type event) = (type_of_option type, sign_extend32 event) ∷ []
events instructions = (raw, pmu_cpu_cycles) ∷ (raw, pmu_inst_retired) ∷ []
events l1_misses = (raw, pmu_l1d_cache) ∷ (raw, pmu_l1d_cache_refill) ∷ []
events l2_misses = (raw, pmu_l2d_cache) ∷ (raw, pmu_l2d_cache_refill) ∷ []

-- The group that an option stands for, if it is a known one.
abbrev pub preset_of : ℕ → Option Group
preset_of event =
    if event == 0
    then some instructions
    else if event == 1
    then some l1_misses
    else if event == 2
    then some l2_misses
    else none

abbrev pub asked : (type event : ℕ) → Option Group
asked type event = if type == b'i' then preset_of event else some (single type event)

-- A table is a list of groups, the last one first.
abbrev pub used : List Group → ℕ
used [] = 0
used (g ∷ gs) = used gs + size g

abbrev pub all_factors : List Group → List ℕ
all_factors [] = []
all_factors (g ∷ gs) = all_factors gs ++ factors g

abbrev pub all_heads : List Group → List ℕ
all_heads [] = []
all_heads (g ∷ gs) = all_heads gs ++ head g

abbrev pub all_events : List Group → List (PerfType × ℕ)
all_events [] = []
all_events (g ∷ gs) = events g ++ all_events gs

-- A group is added where ten counters have room for it.
abbrev pub admit : Option Group → List Group → List Group
admit none gs = gs
admit (some g) gs = if leb (used gs + size g) 10 then g ∷ gs else gs

-- The events of the counters that were opened, the last one first.
unfoldable pub opened_events : {D : Type 0} → History D → List (PerfType × ℕ)
opened_events [] = []
opened_events (event_open type config group ∷ log) = (type, config) ∷ opened_events log
opened_events (e ∷ log) = opened_events log

-- The variables of perf.c hold the table.
pub record Shows {D : Type 0} (gs : List Group) (p : Perf D) : Type 0 where
  pub fits : used gs ≤ 10
  pub counters : p.n_counters ≡ used gs
  pub ratios : p.ratios ≡ all_factors gs ++ replicate (10 - used gs) 0
  pub headers : p.headers ≡ all_heads gs
  pub opens : opened_events p.log ≡ all_events gs
