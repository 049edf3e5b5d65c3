-- ===== src/Main/Grouping.antt =====
-- The group of counters that the options of ututna/main.c open.
use rebench.Base.{◌≡◌, List, Safe, Safe-mono}
use rebench.Os.{Env}
use rebench.Perf.State.{Perf, initial}
use rebench.Perf.Group.{groups, group_of, IsGrouped-IsKept, initial-IsGrouped, initial-IsRoomy}
use rebench.Main.Program.{Opt, configure}
use rebench.Main.Safety.Whole.{HaveValues, configure-Safe}

-- Whatever counters the options ask for, and whatever file descriptors the kernel gives: if the
-- options have their arguments, the first counter is opened with the group -1, every later one in
-- the group of the first, and as many counters were opened as `n_counters` says.
pub configure-grouped :
    {D : Type 0} (env : Env D) (options : List Opt)
    → HaveValues options
    → Safe
        (λ _ (q : Perf D). groups q.log ≡ group_of q.n_counters q.fd)
        (configure env options initial)
configure-grouped env options values =
    Safe-mono
      (configure-Safe env _ IsGrouped-IsKept options initial values initial-IsRoomy
        initial-IsGrouped)
      λ _ q k. (k.at).grouped
