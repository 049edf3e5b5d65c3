-- ===== src/Main/Kernels.antt =====
-- ututna/main.c: 600_fft, 603_map, 609_png and 614_physics.
use rebench.Base.{
  ◌>>=◌, pure, ℕ, zero, suc, ◌+◌, List, [], ◌∷◌, map, ltb, ◌==◌, if◌then◌else◌, get_or, set, ℤ, pos,
  ◌*ℤ◌, ltb_ℤ, rounds, M, done, fault, ◌>>◌, get, modify, skip, unless, need, check,
}
use rebench.Os.{
  free, kiss_fftr_alloc, kiss_fftr, test_map, map_test, map_ops, load_png, test_physics, Env,
}
use rebench.Os.Double.{Double}
use rebench.Main.State.{
  State, say, ask, repeat, begin, end, print_score, times, in_long, s_start_stopwatch,
  s_stop_stopwatch,
}

module _ {D : Type 0} ⦃d : Double D⦄ (env : Env D) where
  unfoldable pub test_600_fft : ℤ → M (State D) (Unit {0})
  unfolding repeat begin end print_score
  test_600_fft loops = do
    say (kiss_fftr_alloc 1024)
    cfg ← ask env.fft_plan
    begin env
    repeat (rounds loops) (say (kiss_fftr cfg))
    secs ← end env
    let score = d.div (d.of_int loops) secs
    print_score "600_FFT" score loops secs

  -- The loop of `test_const_time` from `i` on, with `left` rounds to go; it stops at the first map
  -- test that fails, and gives the value of `i` behind the loop.
  unfoldable pub map_loop : ℕ → (left i : ℕ) → M (State D) ℕ
  map_loop map zero i = pure i
  map_loop map (suc left) i =
      let rest = map_loop map left (i + 1) in
      (do say (map_test map); passed ← ask env.map_test_result; if passed then rest else pure i)

  -- test_map_results[i] = v
  unfoldable pub set_map_result : ℕ → D → M (State D) (Unit {0})
  set_map_result i v s =
      if ltb i 2
      then done tt (record s { test_map_results = set s.test_map_results i v })
      else fault

  -- The two prints at the end of `test_const_time`.
  unfoldable pub print_map : ℕ → ℤ → M (State D) (Unit {0})
  unfolding print_score
  print_map idx loops = do
    t ← get
    if idx == 0
        then print_score "[MAP.ORDERED]" (d.lit 0 0) loops (get_or t.test_map_results 0 (d.lit 0 0))
        else print_score "[MAP.UNORDERED]" (d.lit 0 0) t.loops_unordered
            (get_or t.test_map_results 1 (d.lit 0 0))

  -- _Z15test_const_timeR8CMapTestd
  unfoldable pub test_const_time : ℕ → D → M (State D) D
  unfolding begin end map_loop set_map_result print_map
  test_const_time map tm = do
    s ← get
    limit ← need (d.to_int tm)
    let loops = if s.test_map_idx == 1 then s.loops_unordered else limit
    begin env
    i ← map_loop map (rounds loops) 0
    secs ← end env
    say (map_ops map)
    ops ← ask env.map_ops_result
    check (in_long (pos i *ℤ ops))
    let score = d.div (d.div (d.of_int (pos i *ℤ ops)) secs) (d.lit 1000000 0)
    set_map_result s.test_map_idx secs
    print_map s.test_map_idx loops
    modify (λ u. record u { test_map_idx = u.test_map_idx + 1 })
    pure score

  -- The calls that `test_map` makes, each with a map and a time limit.
  unfoldable pub run_maps : List (ℕ × D) → M (State D) (Unit {0})
  unfolding test_const_time
  run_maps [] = skip
  run_maps ((map, tm) ∷ rest) = test_const_time map tm >> run_maps rest

  unfoldable pub test_603_map : ℤ → M (State D) (Unit {0})
  unfolding times run_maps print_score
  test_603_map loops = do
    more ← (if ltb_ℤ (pos 1) loops then times loops 10 else pure (pos 1))
    modify (λ s. record s { test_map_idx = 0; loops_unordered = more })
    limit ← times loops 2
    say (test_map limit)
    maps ← ask env.map_runs
    run_maps maps
    result ← ask env.map_result
    let score = d.mul result (d.lit 10000 0)
    s ← get
    print_score "603_MAP" score loops
        (d.add (get_or s.test_map_results 0 (d.lit 0 0)) (get_or s.test_map_results 1 (d.lit 0 0)))

  -- The loop of `test_609_png`, with the seconds so far; each bitmap is freed in its round.
  unfoldable pub png_loop : (left : ℕ) → D → M (State D) D
  png_loop zero secs = pure secs
  png_loop (suc left) secs = do
    say load_png
    r ← ask env.png_result
    unless (r.bitmap == 0) (say (free r.bitmap))
    png_loop left (d.add secs r.seconds)

  unfoldable pub test_609_png : ℤ → M (State D) (Unit {0})
  unfolding begin png_loop end print_score
  test_609_png loops = do
    begin env
    secs ← png_loop (rounds loops) (d.lit 0 0)
    _ ← end env
    let score = d.div (d.mul (d.of_int loops) (d.lit 1000 0)) secs
    print_score "609_PNG" score loops secs

  -- `test_physics`, whose two calls of the stopwatch the script ututna/ututna redirects.
  unfoldable pub run_physics : D → M (State D) D
  unfolding s_start_stopwatch s_stop_stopwatch
  run_physics step = do
    say (test_physics step)
    _ ← s_start_stopwatch env
    _ ← s_stop_stopwatch env
    ask env.physics_result

  unfoldable pub test_614_physics : ℤ → M (State D) (Unit {0})
  unfolding run_physics print_score
  test_614_physics loops = do
    let step = d.div (d.lit 5 0) (d.of_int loops)
    modify (λ s. record s { physics_step = step })
    result ← run_physics step
    let secs = d.div (d.lit 60 0) result
    let score = d.mul (d.div (d.of_int loops) secs) (d.lit 1000 0)
    print_score "614_PHYSICS" score loops secs
