-- ===== src/Main/Progress/Options.antt =====
-- Properties of the calls made, through the loop over the options of ututna/main.c.
use rebench.Base.{List, [], ◌∷◌, u32}
use rebench.Base.Progress.{goes, Goes-need, Goes-and_then}
use rebench.Os.{Env, History}
use rebench.Perf.State.{Perf}
use rebench.Perf.Progress.{IsCarried, MayFail, Carries}
use rebench.Perf.Progress.Options.{perf_config-Carries}
use rebench.Main.Program.{Opt, configure}

module _ {D E : Type 0} (env : Env D) (I : History D → Type 0) (keeps : IsCarried I)
    (fails : MayFail E env) where
  pub configure-Carries :
      (options : List Opt) (p : Perf D) → I p.log → Carries E I (configure env options p)
  unfolding configure
  configure-Carries [] p h = goes h
  configure-Carries (o ∷ os) p h =
      Goes-and_then
        (Goes-and_then {P = λ _ q. I q.log} (Goes-need o.value p λ _. h)
          λ value q i. perf_config-Carries env I keeps fails o.letter (u32 value) q i)
        λ _ q i. configure-Carries os q i
