-- ===== src/Perf/Measure.antt =====
-- The measuring part of ututna/perf.c: counters are enabled, read and printed.
use rebench.Base.{
  ◌>>=◌, ℕ, zero, suc, ◌+◌, ◌-◌, true, false, none, some, [], ◌∷◌, ltb, ◌==◌, get_elem?, pos, sub64,
  M, done, ◌>>◌, get, modify, skip, need, check, when, unless,
}
use rebench.Os.{enable, reset, chars, word, real, print, ioctl, read_counters, Env}
use rebench.Os.Double.{Double}
use rebench.Perf.State.{Counters, Perf, overwrite, fill, emit}

module _ {D : Type 0} where
  unfoldable pub perf_init : M (Perf D) (Unit {0})
  perf_init = do p ← get; unless (p.n_counters == 0) (emit (ioctl p.fd enable))

  unfoldable pub perf_print_headers : M (Perf D) (Unit {0})
  perf_print_headers = do p ← get; emit (print "%s\n" (chars p.headers ∷ []))

module _ {D : Type 0} (env : Env D) where
  -- read(fd, &counters, 8 * (n_counters + 1)); its result is not looked at, and where the call
  -- fails the counters stay as they are.
  abbrev pub read_into : Counters → M (Perf D) Counters
  read_into c = do
    p ← get
    emit (read_counters p.fd (p.n_counters + 1))
    q ← get
    need (elim (env.read_result q.log) [ none ↦ some c | some ws ↦ fill ws c ])

  unfoldable pub perf_begin : M (Perf D) (Unit {0})
  unfolding fill overwrite
  perf_begin = do
    p ← get
    unless (p.n_counters == 0) do
      emit (ioctl p.fd reset)
      c ← read_into p.counters_begin
      modify λ q. record q { counters_begin = c }

  unfoldable pub perf_end : M (Perf D) (Unit {0})
  unfolding fill overwrite
  perf_end = do
    p ← get
    unless (p.n_counters == 0) do
      c ← read_into p.counters_end
      modify λ q. record q { counters_end = c; counters_valid = true }

module _ {D : Type 0} ⦃d : Double D⦄ where
  -- counters_end.vals[i] - counters_begin.vals[i], where `i` may lie outside the arrays
  unfoldable pub delta : Perf D → ℕ → M (Perf D) ℕ
  delta p i = do
    e ← need (get_elem? p.counters_end.vals i)
    b ← need (get_elem? p.counters_begin.vals i)
    done (sub64 e b)

  -- One round of the loop of `perf_print`.
  unfoldable pub print_counter : ℕ → M (Perf D) (Unit {0})
  unfolding delta
  print_counter i = do
    p ← get
    v ← delta p i
    emit (print " %12lu" (word v ∷ []))
    ratio ← need (get_elem? p.ratios i)
    unless (ratio == 0) do
      check (ltb 0 i)
      val1 ← delta p (i - 1)
      val2 ← delta p i
      emit (
          print " %5.2f"
            (real (d.mul (d.div (d.of_u64 val1) (d.of_u64 val2)) (d.of_int (pos ratio))) ∷ []))

  -- The rounds of `perf_print` from `i` on, `left` of them.
  unfoldable pub print_counters : (left i : ℕ) → M (Perf D) (Unit {0})
  unfolding print_counter
  print_counters zero i = skip
  print_counters (suc left) i = print_counter i >> print_counters left (i + 1)

  unfoldable pub perf_print : M (Perf D) (Unit {0})
  unfolding print_counters
  perf_print = do
    p ← get
    when p.counters_valid
        do print_counters p.n_counters 0; modify λ q. record q { counters_valid = false }
