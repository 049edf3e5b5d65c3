-- ===== src/Main/Memory/Owned.antt =====
-- Which memory ututna/main.c holds between its calls.
use rebench.Base.{ℕ, ◌+◌, ◌≡◌, ◌≢◌, List, Run}
use rebench.Os.{Env, History}
use rebench.Os.Double.{Double}
use rebench.Main.State.{State}
use rebench.Main.Carried.{IsAt, Reaches}
use rebench.Main.Memory.{given, freed, plans}

-- Every pointer but NULL was handed out as often as it was freed, as often as a plan, and `own` times
-- more.
abbrev pub Owes : {D : Type 0} ⦃d : Double D⦄ → Env D → (ℕ → ℕ) → History D → Type 0
Owes env own log = (p : ℕ) → p ≢ 0 → given env p log ≡ freed env p log + plans env p log + own p

-- So it is in this state, with these matrices.
abbrev pub IsSettled : {D : Type 0} ⦃d : Double D⦄ → Env D → List ℕ → ℕ → (ℕ → ℕ) → State D → Type 0
IsSettled env ptrs idx own = IsAt (Owes env own) ptrs idx

-- Wherever the run goes on, it is so. It may exit or fault.
abbrev pub Settles :
    {D A : Type 0} ⦃d : Double D⦄ → Env D → List ℕ → ℕ → (ℕ → ℕ) → Run (State D) A → Type 0
Settles env ptrs idx own = Reaches Unit (Owes env own) ptrs idx
