-- ===== src/Main/Report.antt =====
-- What ututna/main.c reports: the lines of its scores, read off the calls made.
pub mod Counters
pub mod Kernels
pub mod Benchmarks
pub mod Whole
use Prim.Native.String.{String}
use rebench.Base.{ℕ, ◌+◌, ◌≤◌, ◌≡◌, List, [], ◌∷◌, ◌++◌, length, ℤ, Run}
use rebench.Base.Progress.{Goes}
use rebench.Os.{Arg, str, num, real, Event, print, History}
use rebench.Main.State.{State}

-- The name of a benchmark and the loops that are reported for it.
abbrev pub ScoreLine : Type 0
ScoreLine = String × ℤ

-- The line that `print_score` begins: a name, a score or a dash, the loops and the seconds.
abbrev pub line_of : {D : Type 0} → List (Arg D) → List ScoreLine
line_of (str name ∷ score ∷ num loops ∷ real secs ∷ []) = (name, loops) ∷ []
line_of args = []

-- The lines that were begun, the last one first.
unfoldable pub score_lines : {D : Type 0} → History D → List ScoreLine
score_lines [] = []
score_lines (print format args ∷ log) = line_of args ++ score_lines log
score_lines (e ∷ log) = score_lines log

-- Wherever the run goes on, these are its lines. It may exit or fault.
abbrev pub Reports : {D A : Type 0} → List ScoreLine → Run (State D) A → Type 0
Reports ls = Goes Unit (λ _ t. score_lines t.perf.log ≡ ls)
