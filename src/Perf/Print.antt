-- ===== src/Perf/Print.antt =====
-- The columns that `perf_print` of ututna/perf.c prints.
use mathlib.Core.Path.{subst⁻¹}
use rebench.Base.{
  ℕ, zero, suc, ◌+◌, ◌-◌, ◌≤◌, ◌<◌, ◌≡◌, refl, inl, inr, Bool, true, false, some, List, [], ◌∷◌,
  ◌++◌, arith, ltb, ◌==◌, if◌then◌else◌, Bool-cases, get_elem?, get_or, get_elem?-eq-get_or, pos,
  sub64, done, ◌>>◌, modify, when, Returns, returns,
}
use rebench.Os.{word, real, Event, print, History}
use rebench.Os.Double.{Double}
use rebench.Perf.State.{Perf}
use rebench.Perf.Measure.{delta, print_counter, print_counters, perf_print}
use rebench.Perf.Bounds.{IsRoomy}
use rebench.Perf.Overrun.{HasRoom, Stays}

-- Calls made one after the other, the first one first.
unfoldable pub push_all : {D : Type 0} → List (Event D) → History D → History D
push_all [] log = log
push_all (e ∷ es) log = push_all es (e ∷ log)

push_all-append :
    {D : Type 0} (es fs : List (Event D)) (log : History D)
    → push_all (es ++ fs) log ≡ push_all fs (push_all es log)
unfolding push_all
push_all-append [] fs log = refl
push_all-append (e ∷ es) fs log = push_all-append es fs (e ∷ log)

-- How far counter `i` moved between the two readings, modulo 2 ^ 64.
abbrev pub moved : {D : Type 0} → Perf D → ℕ → ℕ
moved p i = sub64 (get_or p.counters_end.vals i 0) (get_or p.counters_begin.vals i 0)

module _ {D : Type 0} ⦃d : Double D⦄ where
  -- The ratio of counter `i` to the one before it, scaled.
  abbrev pub ratio_of : Perf D → ℕ → D
  ratio_of p i =
      d.mul (d.div (d.of_u64 (moved p (i - 1))) (d.of_u64 (moved p i)))
        (d.of_int (pos (get_or p.ratios i 0)))

  abbrev pub column : Perf D → ℕ → List (Event D)
  column p i =
      print " %12lu" (word (moved p i) ∷ [])
      ∷ (if get_or p.ratios i 0 == 0 then [] else (print " %5.2f" (real (ratio_of p i) ∷ []) ∷ []))

  -- The columns of `left` counters from `i` on.
  unfoldable pub columns : Perf D → (left i : ℕ) → List (Event D)
  columns p zero i = []
  columns p (suc left) i = column p i ++ columns p left (i + 1)

  abbrev logged : Perf D → History D → Perf D
  logged p log = record p { log = log }

  delta-eq : (p q : Perf D) (i : ℕ) → HasRoom p → i < 6 → delta p i q ≡ done (moved p i) q
  unfolding delta
  delta-eq p q i room h =
      rw
        (
          get_elem?-eq-get_or p.counters_end.vals i 0 (omega (arith, room.end_room)),
          get_elem?-eq-get_or p.counters_begin.vals i 0 (omega (arith, room.begin_room)),
        )
        refl

  print_counter-eq :
      (p : Perf D) (i : ℕ)
      → IsRoomy p
      → HasRoom p
      → i < 6
      → print_counter i p ≡ done tt (logged p (push_all (column p i) p.log))
  unfolding print_counter push_all
  print_counter-eq p i h room small =
      let first = logged p (print " %12lu" (word (moved p i) ∷ []) ∷ p.log) in
      let found = get_elem?-eq-get_or p.ratios i 0 (omega (arith, h.ratios_room)) in
      elim (Bool-cases (get_or p.ratios i 0 == 0)) [
        | inl plain ↦ rw (delta-eq p p i room small, found, plain)
        | inr scaled ↦
            let later : ltb 0 i ≡ true = positive i scaled h.first_plain in
            rw (
              delta-eq p p i room small,
              found,
              scaled,
              later,
              delta-eq p first (i - 1) room (omega arith),
              delta-eq p first i room small,
            )
      ]
    where
      positive :
          (j : ℕ)
          → (get_or p.ratios j 0 == 0) ≡ false
          → get_elem? p.ratios 0 ≡ some 0
          → ltb 0 j ≡ true
      positive zero e f = ground (arith, f)
      positive (suc j) e f = ground arith

  -- Only the log differs, so a counter's columns are the same.
  print_counters-eq :
      (left i : ℕ) (p : Perf D) (log : History D)
      → IsRoomy p
      → HasRoom p
      → i + left ≤ 6
      → print_counters left i (logged p log) ≡ done tt (logged p (push_all (columns p left i) log))
  unfolding print_counters columns
  print_counters-eq zero i p log h room fits = unfold push_all in refl
  print_counters-eq (suc left) i p log h room fits =
      let roomy : IsRoomy (logged p log) = record {
        few = h.few;
        ratios_room = h.ratios_room;
        headers_fit = h.headers_fit;
        first_plain = h.first_plain;
      } in
      let same : HasRoom (logged p log) = record {
        begin_room = room.begin_room;
        end_room = room.end_room;
      } in
      rw
        (
          print_counter-eq (logged p log) i roomy same (omega arith),
          print_counters-eq left (i + 1) p (push_all (column p i) log) h room (omega arith),
          push_all-append (column p i) (columns p left (i + 1)) log,
        )
        refl

  -- With at most six counters, arrays that have their room, no ratio for the first counter, and a
  -- finished measurement, `perf_print` prints one column for each counter in order, each followed
  -- by its ratio where it has one, and consumes the measurement.
  pub perf_print_lem :
      (p : Perf D)
      → IsRoomy p
      → HasRoom p
      → p.n_counters ≤ 6
      → p.counters_valid ≡ true
      → perf_print p
        ≡ done tt
            (record p { counters_valid = false; log = push_all (columns p p.n_counters 0) p.log })
  unfolding perf_print
  perf_print_lem p h room fits valid = go p.counters_valid valid
    where
      go :
          (v : Bool)
          → v ≡ true
          → when v
              (print_counters p.n_counters 0 >> modify λ q. record q { counters_valid = false })
              (logged p p.log)
            ≡ done tt (record p {
              counters_valid = false;
              log = push_all (columns p p.n_counters 0) p.log;
            })
      go true e = rw (print_counters-eq p.n_counters 0 p p.log h room (omega arith))
      go false e = cc

  -- Without a finished measurement nothing is printed.
  pub perf_print_idle : (p : Perf D) → p.counters_valid ≡ false → perf_print p ≡ done tt p
  unfolding perf_print
  perf_print_idle p idle = go p.counters_valid idle
    where
      go :
          (v : Bool)
          → v ≡ false
          → when v
              (print_counters p.n_counters 0 >> modify λ q. record q { counters_valid = false })
              p
            ≡ done tt p
      go true e = cc
      go false e = refl

  pub perf_print-Returns :
      (p : Perf D)
      → IsRoomy p
      → HasRoom p
      → p.n_counters ≤ 6
      → Returns (λ _ q. Stays p q) (perf_print p)
  perf_print-Returns p h room fits = elim (Bool-cases p.counters_valid) [
    | inl valid ↦ subst⁻¹ (Returns (λ _ q. Stays p q)) (perf_print_lem p h room fits valid) (
        returns (record {
          room = record { begin_room = room.begin_room; end_room = room.end_room };
          same_count = refl;
          same_ratios = refl;
          same_headers = refl;
        }))
    | inr idle ↦ subst⁻¹ (Returns (λ _ q. Stays p q)) (perf_print_idle p idle) (
        returns
          (record { room = room; same_count = refl; same_ratios = refl; same_headers = refl }))
  ]
