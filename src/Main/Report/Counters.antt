-- ===== src/Main/Report/Counters.antt =====
-- The lines of scores and the functions of ututna/perf.c.
use rebench.Base.{◌≡◌, List, Run}
use rebench.Base.Progress.{goes, exits, faults}
use rebench.Perf.Progress.{IsCarried, Carries}
use rebench.Perf.State.{Perf}
use rebench.Main.State.{State, put_back}
use rebench.Main.Report.{ScoreLine, score_lines, Reports}

pub score_lines-IsCarried :
    {D : Type 0} (P : List ScoreLine → Type 0) → IsCarried {D = D} (λ log. P (score_lines log))
unfolding score_lines
score_lines-IsCarried P = record {
  on_ioctl = λ _ _ _ h. h;
  on_read = λ _ _ _ h. h;
  on_open = λ _ _ _ _ h. h;
  on_word = λ _ _ _ h. h;
  on_real = λ _ _ _ h. h;
  on_failed = λ _ _ _ _ _ h. h;
  on_unsupported = λ _ _ _ _ h. h;
}

pub on_perf-Reports :
    {D A : Type 0} {ls : List ScoreLine} (s : State D) {r : Run (Perf D) A}
    → Carries Unit (λ log. score_lines log ≡ ls) r
    → Reports ls (put_back s r)
on_perf-Reports s (goes h) = goes h
on_perf-Reports s (exits e) = exits e
on_perf-Reports s faults = faults
