-- ===== src/Perf/State.antt =====
-- The file-level variables of ututna/perf.c and the stores that `read` makes into them.
use rebench.Base.{
  ℕ, Bool, false, Option, none, some, List, [], ◌∷◌, replicate, ℤ, negsuc, M, modify,
}
use rebench.Os.{Event, History}

abbrev pub max_counters : ℕ
max_counters = 10

abbrev pub pmu_l1d_cache : ℕ
pmu_l1d_cache = 0x04

abbrev pub pmu_l1d_cache_refill : ℕ
pmu_l1d_cache_refill = 0x03

abbrev pub pmu_inst_retired : ℕ
pmu_inst_retired = 0x08

abbrev pub pmu_cpu_cycles : ℕ
pmu_cpu_cycles = 0x11

abbrev pub pmu_l2d_cache : ℕ
pmu_l2d_cache = 0x16

abbrev pub pmu_l2d_cache_refill : ℕ
pmu_l2d_cache_refill = 0x17

-- `vals` has room for six values.
pub record Counters : Type 0 where
  pub nr : ℕ
  pub vals : List ℕ

pub record Perf (D : Type 0) : Type 0 where
  pub fd : ℤ
  pub headers : List ℕ
  pub n_counters : ℕ
  pub ratios : List ℕ
  pub counters_begin : Counters
  pub counters_end : Counters
  pub counters_valid : Bool
  pub log : History D

abbrev no_counters : Counters
no_counters = record { nr = 0; vals = replicate 6 0 }

-- The state at the start of the program.
abbrev pub initial : {D : Type 0} → Perf D
initial = record {
  fd = negsuc 0;
  headers = [];
  n_counters = 0;
  ratios = replicate max_counters 0;
  counters_begin = no_counters;
  counters_end = no_counters;
  counters_valid = false;
  log = [];
}

-- `read` stores words from the start of an array; `none` where they do not fit.
unfoldable pub overwrite : List ℕ → List ℕ → Option (List ℕ)
overwrite [] vs = some vs
overwrite (w ∷ ws) [] = none
overwrite (w ∷ ws) (v ∷ vs) = elim (overwrite ws vs) [ none ↦ none | some r ↦ some (w ∷ r) ]

-- The words that `read` delivers go to `nr` and on to `vals`.
unfoldable pub fill : List ℕ → Counters → Option Counters
fill [] c = some c
fill (w ∷ ws) c = elim (overwrite ws c.vals) [
  | none ↦ none
  | some vs ↦ some (record { nr = w; vals = vs })
]

module _ {D : Type 0} where
  abbrev pub emit : Event D → M (Perf D) (Unit {0})
  emit e = modify λ p. record p { log = e ∷ p.log }
