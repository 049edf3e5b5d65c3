-- ===== src/Main/Memory/Counters.antt =====
-- The calls of ututna/perf.c and ututna/main.c that free no memory.
use Prim.Native.String.{String}
use rebench.Base.{arith, ℕ, ℤ}
use rebench.Os.{Env}
use rebench.Os.Double.{Double}
use rebench.Perf.Progress.{IsCarried}
use rebench.Main.Carried.{IsCarriedOn, ScoresTo, ScoresTo-of_lines}
use rebench.Main.Memory.{given, freed, plans}
use rebench.Main.Memory.Owned.{Owes}

module _ {D : Type 0} ⦃d : Double D⦄ (env : Env D) (own : ℕ → ℕ) where
  pub Owes-IsCarried : IsCarried (Owes env own)
  unfolding given freed plans
  Owes-IsCarried = record {
    on_ioctl = λ _ _ _ h. h;
    on_read = λ _ _ _ h. h;
    on_open = λ _ _ _ _ h. h;
    on_word = λ _ _ _ h. h;
    on_real = λ _ _ _ h. h;
    on_failed = λ _ _ _ _ _ h. h;
    on_unsupported = λ _ _ _ _ h. h;
  }

  pub Owes-IsCarriedOn : IsCarriedOn (Owes env own)
  unfolding given freed plans
  Owes-IsCarriedOn = record {
    counters = Owes-IsCarried;
    on_clock = λ _ h. h;
    on_plan = λ _ _ h p ne. omega (arith, h p ne);
    on_fft = λ _ _ h. h;
    on_map_test = λ _ _ h. h;
    on_map_ops = λ _ _ h. h;
    on_maps = λ _ _ h. h;
    on_physics = λ _ _ h. h;
    on_start = λ _ h. h;
    on_stop = λ _ h. h;
    on_digest = λ _ _ _ h. h;
    on_text = λ _ _ h. h;
  }

  -- The line of a score is no memory.
  pub Owes-ScoresTo :
      (name : String) (loops : ℤ) → ScoresTo (Owes env own) (Owes env own) name loops
  unfolding given freed plans
  Owes-ScoresTo name loops =
      ScoresTo-of_lines (Owes env own) (Owes env own) name loops λ _ _ _ _ h. h
