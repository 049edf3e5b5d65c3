-- ===== src/Perf/Session.antt =====
-- A measurement of ututna/perf.c from end to end: `perf_begin`, the code that is measured, `perf_end`
-- and `perf_print`.
use rebench.Base.{
  ℕ, zero, suc, ◌+◌, ◌≤◌, ◌<◌, ◌≡◌, refl, ◌∙◌, true, false, some, List, [], ◌∷◌, ◌++◌, arith, ◌==◌,
  length, get_or, drop, sub64, M, done, ◌>>◌, modify,
}
use rebench.Os.{Event, read_counters, Env}
use rebench.Os.Double.{Double}
use rebench.Perf.State.{Counters, Perf, fill}
use rebench.Perf.Measure.{perf_begin, perf_end, perf_print}
use rebench.Perf.Bounds.{IsRoomy}
use rebench.Perf.Overrun.{HasRoom, begin_log, overwrite-some, length-append_drop}
use rebench.Perf.Print.{moved, columns, push_all, perf_print_lem}

get_or-append : (xs ys : List ℕ) (i d : ℕ) → i < length xs → get_or (xs ++ ys) i d ≡ get_or xs i d
get_or-append [] ys i d h = absurd (omega arith)
get_or-append (x ∷ xs) ys zero d h = refl
get_or-append (x ∷ xs) ys (suc i) d h = get_or-append xs ys i d (omega arith)

-- The counters once a reading is stored in them.
abbrev pub stored : ℕ → List ℕ → Counters → Counters
stored nr vs c = record { nr = nr; vals = vs ++ drop (length vs) c.vals }

fill-stored :
    (nr : ℕ) (vs : List ℕ) (c : Counters)
    → length vs ≤ length c.vals
    → fill (nr ∷ vs) c ≡ some (stored nr vs c)
unfolding fill
fill-stored nr vs c h = rw (overwrite-some vs c.vals h, fill)

module _ {D : Type 0} ⦃d : Double D⦄ (env : Env D) where
  -- The code that is measured makes the calls `work`, newest first.
  abbrev pub working : List (Event D) → M (Perf D) (Unit {0})
  working work = modify λ p. record p { log = work ++ p.log }

  -- The state in which `perf_print` starts.
  abbrev pub measured :
      Perf D → List (Event D) → (nr : ℕ) (vs : List ℕ) (mr : ℕ) (ws : List ℕ) → Perf D
  measured p work nr vs mr ws = record p {
    counters_begin = stored nr vs p.counters_begin;
    counters_end = stored mr ws p.counters_end;
    counters_valid = true;
    log = read_counters p.fd (p.n_counters + 1) ∷ (work ++ begin_log env p);
  }

  module _ (p : Perf D) (work : List (Event D)) (nr mr : ℕ) (vs ws : List ℕ) where
    session-eq :
        (p.n_counters == 0) ≡ false
        → env.read_result (begin_log env p) ≡ some (nr ∷ vs)
        → env.read_result (read_counters p.fd (p.n_counters + 1) ∷ (work ++ begin_log env p))
          ≡ some (mr ∷ ws)
        → length vs ≤ length p.counters_begin.vals
        → length ws ≤ length p.counters_end.vals
        → (perf_begin env >> (working work >> (perf_end env >> perf_print))) p
          ≡ perf_print (measured p work nr vs mr ws)
    unfolding perf_begin perf_end
    session-eq on first last room room' = rw (
      on,
      first,
      fill-stored nr vs p.counters_begin room,
      on,
      last,
      fill-stored mr ws p.counters_end room',
    )

    measured-IsRoomy : IsRoomy p → IsRoomy (measured p work nr vs mr ws)
    measured-IsRoomy h = record {
      few = h.few;
      ratios_room = h.ratios_room;
      headers_fit = h.headers_fit;
      first_plain = h.first_plain;
    }

    measured-HasRoom :
        HasRoom p → length vs ≤ 6 → length ws ≤ 6 → HasRoom (measured p work nr vs mr ws)
    measured-HasRoom room hv hw = record {
      begin_room =
          length-append_drop vs p.counters_begin.vals (omega (arith, room.begin_room, hv))
          ∙ room.begin_room;
      end_room =
          length-append_drop ws p.counters_end.vals (omega (arith, room.end_room, hw))
          ∙ room.end_room;
    }

    -- With at least one and at most six counters, arrays that have their room, no ratio for the
    -- first counter, and reads that deliver a value for each counter both times, `perf_begin`, the
    -- measured code, `perf_end` and `perf_print` go on, with the measurement consumed: after the
    -- calls of the measured code and the two readings comes one column for each counter in order,
    -- and the value that the column of counter `i` shows is its second value less its
    -- first, modulo 2 ^ 64.
    pub session_lem :
        IsRoomy p
        → HasRoom p
        → p.n_counters ≤ 6
        → length vs ≡ p.n_counters
        → length ws ≡ p.n_counters
        → env.read_result (begin_log env p) ≡ some (nr ∷ vs)
        → env.read_result (read_counters p.fd (p.n_counters + 1) ∷ (work ++ begin_log env p))
          ≡ some (mr ∷ ws)
        → (i : ℕ) → i < p.n_counters
        → let q = measured p work nr vs mr ws in
          ((perf_begin env >> (working work >> (perf_end env >> perf_print))) p
            ≡ done tt (record q {
              counters_valid = false;
              log = push_all (columns q p.n_counters 0) q.log;
            }))
          × (moved q i ≡ sub64 (get_or ws i 0) (get_or vs i 0))
    session_lem h room fits hv hw first last i small = (
      session-eq (ground (arith, small)) first last (omega (arith, room.begin_room, hv, fits))
            (omega (arith, room.end_room, hw, fits))
          ∙ perf_print_lem (measured p work nr vs mr ws) (measured-IsRoomy h)
              (measured-HasRoom room (omega (arith, hv, fits)) (omega (arith, hw, fits))) fits refl,
      rw
          (
            get_or-append vs (drop (length vs) p.counters_begin.vals) i 0
                (omega (arith, hv, small)),
            get_or-append ws (drop (length ws) p.counters_end.vals) i 0 (omega (arith, hw, small)),
          )
          refl,
    )
