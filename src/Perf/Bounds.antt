-- ===== src/Perf/Bounds.antt =====
-- What `perf_config` of ututna/perf.c has room for, and what it may change.
pub mod Columns
pub mod Steps
pub mod Options
use Prim.Native.String.{String}
use rebench.Base.{ℕ, ◌+◌, ◌*◌, ◌≤◌, ◌≡◌, some, List, ◌∷◌, ◌==◌, if◌then◌else◌, length, get_elem?, ℤ}
use rebench.Os.{PerfType, Arg, print, event_open, History}
use rebench.Perf.State.{Perf}
use rebench.Perf.Config.{lead}

-- The arrays have room for what is configured: ten counters, and at most 19 characters of column
-- head for each of them.
pub record IsRoomy {D : Type 0} (p : Perf D) : Type 0 where
  pub few : p.n_counters ≤ 10
  pub ratios_room : length p.ratios ≡ 10
  pub headers_fit : length p.headers ≤ 19 * p.n_counters
  -- The first counter has no ratio, since a ratio looks at the counter before it.
  pub first_plain : get_elem? p.ratios 0 ≡ some 0

-- A property of the leader, the number of counters and the calls made, which holds on through every
-- counter that is opened and every message.
pub record IsKept {D : Type 0} (I : ℤ → ℕ → History D → Type 0) : Type 0 where
  pub open_keeps :
      (type : PerfType) (config r : ℕ) (fd : ℤ) (n : ℕ) (log : History D)
      → I fd n log
      → I (lead fd r) (n + 1) (event_open type config fd ∷ log)
  pub print_keeps :
      (format : String) (args : List (Arg D)) (fd : ℤ) (n : ℕ) (log : History D)
      → I fd n log
      → I fd n (print format args ∷ log)

-- `k` counters more than in `p`, with the column heads not yet written.
pub record Grown {D : Type 0} (I : ℤ → ℕ → History D → Type 0) (k : ℕ) (p q : Perf D) : Type 0 where
  pub more : q.n_counters ≡ p.n_counters + k
  pub same_room : length q.ratios ≡ length p.ratios
  pub same_headers : q.headers ≡ p.headers
  pub same_first : get_elem? q.ratios 0 ≡ get_elem? p.ratios 0
  pub same_begin : q.counters_begin ≡ p.counters_begin
  pub same_end : q.counters_end ≡ p.counters_end
  pub at : I q.fd q.n_counters q.log

-- What `perf_config` leaves: room for what is configured, at most `k` counters more, the readings as
-- they were, and the property `I`.
pub record Configured {D : Type 0} (I : ℤ → ℕ → History D → Type 0) (k : ℕ) (p q : Perf D)
    : Type 0 where
  pub roomy : IsRoomy q
  pub at_most : q.n_counters ≤ p.n_counters + k
  pub same_begin : q.counters_begin ≡ p.counters_begin
  pub same_end : q.counters_end ≡ p.counters_end
  pub at : I q.fd q.n_counters q.log

-- The counters that an option opens.
abbrev pub weight : ℕ → ℕ
weight letter = if letter == b'i' then 2 else 1

-- The property `I` of a state of perf.c.
abbrev pub At : {D : Type 0} → (ℤ → ℕ → History D → Type 0) → Perf D → Type 0
At I p = I p.fd p.n_counters p.log
