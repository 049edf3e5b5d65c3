-- ===== src/Main/Columns.antt =====
-- The options of ututna/main.c and the table of counters that they ask for.
use rebench.Base.{
  ℕ, ◌≤◌, ◌≡◌, refl, Option, none, some, List, [], ◌∷◌, All, length, u32, Safe, goes_on,
  Safe-and_then, arith, true, false, done,
}
use rebench.Os.{Event, Env}
use rebench.Perf.State.{Counters, Perf, initial}
use rebench.Perf.Config.{counter_name}
use rebench.Perf.Table.{Group, asked, admit, Shows, opened_events}
use rebench.Perf.Table.Options.{perf_config-Shows}
use rebench.Perf.Table.Widths.{printed_width}
use rebench.Perf.Print.{push_all}
use rebench.Perf.Measure.{perf_print}
use rebench.Os.Double.{Double}
use rebench.Main.Program.{Opt, configure}
use rebench.Main.Safety.Whole.{HaveValues}

-- The group that an option with its argument stands for.
abbrev pub asked_by : Opt → Option Group
asked_by o = elim o.value [ none ↦ none | some v ↦ asked o.letter (u32 v) ]

-- The table that the options make of `gs`, one group after the other.
abbrev pub table : List Opt → List Group → List Group
table [] gs = gs
table (o ∷ os) gs = table os (admit (asked_by o) gs)

-- The options have arguments, and the names of their counters fit their columns.
abbrev pub HaveShortNames : List Opt → Type 0
HaveShortNames =
    All λ o. (v : ℕ) × (o.value ≡ some v) × (length (counter_name o.letter (u32 v)) ≤ 12)

module _ {D : Type 0} where
  initial-Shows : Shows {D = D} [] initial
  unfolding opened_events
  initial-Shows = record {
    fits = omega arith;
    counters = refl;
    ratios = refl;
    headers = refl;
    opens = refl;
  }

  module _ (env : Env D) where
    configure_from-Shows :
        (options : List Opt) (gs : List Group) (p : Perf D)
        → HaveValues options
        → Shows gs p
        → Safe (λ _ q. Shows (table options gs) q) (configure env options p)
    unfolding configure
    configure_from-Shows [] gs p vs h = goes_on h
    configure_from-Shows (o ∷ os) gs p ((v, e), vs) h = rw e (
        Safe-and_then (perf_config-Shows env o.letter (u32 v) gs p h)
          λ _ q k. configure_from-Shows os (admit (asked o.letter (u32 v)) gs) q vs k)

    -- If the options have their arguments, the loop over them does not fault, and where it ends
    -- without `exit`, the variables of perf.c hold the table that the options ask for: a known
    -- option adds its counters, with the factors of their ratios and their column heads, where ten
    -- counters have room for them, and exactly these events were opened, in this order.
    pub configure-Shows :
        (options : List Opt)
        → HaveValues options
        → Safe (λ _ (q : Perf D). Shows (table options []) q) (configure env options initial)
    configure-Shows options vs = configure_from-Shows options [] initial vs initial-Shows

module _ {D : Type 0} ⦃d : Double D⦄ (env : Env D) where
  -- A finished measurement with these readings.
  abbrev pub measured_by : (begun ended : Counters) → Perf D → Perf D
  measured_by begun ended q = record q {
    counters_begin = begun;
    counters_end = ended;
    counters_valid = true;
  }

  -- `perf_print` prints these readings in as many characters at least as the heads have.
  abbrev pub PrintsAligned : (begun ended : Counters) → Perf D → Type 0
  PrintsAligned begun ended q =
      let p = measured_by begun ended q in
      (es : List (Event D)) × (perf_print p
        ≡ done tt (record p { counters_valid = false; log = push_all es p.log }))
      × (printed_width es ≡ length q.headers)
