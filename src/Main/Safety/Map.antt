-- ===== src/Main/Safety/Map.antt =====
-- 603_map of ututna/main.c over sound states.
use rebench.Base.{
  Bool, ℕ, zero, suc, ◌+◌, ◌^◌, ◌≤◌, ◌<◌, ◌≡◌, refl, ◌∙◌, true, false, List, [], ◌∷◌, map, arith,
  ◌==◌, if◌then◌else◌, lt→ltb, length, length-set, ℤ, pos, negsuc, pos_part, neg_part, ◌*ℤ◌, ltb_ℤ,
  rounds, Safe, goes_on, pure, Safe-if, Safe-mono, Safe-and_then,
}
use rebench.Os.{test_map, map_test, map_ops, History, Env}
use rebench.Os.Double.{Double}
use rebench.Main.State.{State, in_int, times}
use rebench.Perf.Overrun.{ReadsAtMost}
use rebench.Main.Ranges.{KeepsRanges}
use rebench.Main.Safety.{
  IsSound, Next, Next-trans, Next-say, print_score-Safe, begin-Safe, end-Safe,
}
use rebench.Main.Kernels.{
  map_loop, set_map_result, print_map, test_const_time, run_maps, test_603_map,
}

-- `test_map` measures at most two maps.
abbrev pub MapsTwice : {D : Type 0} → Env D → Type 0
MapsTwice {D} env = (log : History D) → length (env.map_runs log) ≤ 2

-- The numbers of loops whose tenfold an `int` holds.
abbrev pub FitsInt : ℤ → Type 0
FitsInt loops = (pos_part loops ≤ 214748364) × (neg_part loops ≤ 2 ^ 30)

ten_fits : (n : ℕ) → n ≤ 214748364 → in_int (pos n *ℤ pos 10) ≡ true
unfolding ◌*ℤ◌
ten_fits n h = ground arith

two_fits : (loops : ℤ) → FitsInt loops → in_int (loops *ℤ pos 2) ≡ true
unfolding ◌*ℤ◌
two_fits (pos n) h = ground arith
two_fits (negsuc n) h = ground arith

times-Safe :
    {D : Type 0} (loops : ℤ) (k : ℕ) (s : State D)
    → in_int (loops *ℤ pos k) ≡ true
    → IsSound s
    → Safe (λ r t. Next s t × (in_int r ≡ true)) (times loops k s)
unfolding times
times-Safe loops k s fits h = rw fits (goes_on (record { sound = h; same_index = refl }, fits))

rounds_fit : (loops : ℤ) → in_int loops ≡ true → rounds loops < 2 ^ 31
rounds_fit (pos n) h = ground arith
rounds_fit (negsuc n) h = omega arith

module _ {D : Type 0} ⦃d : Double D⦄ (env : Env D) (few : ReadsAtMost env)
    (ranges : KeepsRanges env) where
  -- It ends at a number of rounds that an `int` holds.
  map_loop-Safe :
      (map left i : ℕ) (s : State D)
      → i + left < 2 ^ 31
      → IsSound s
      → Safe (λ r t. Next s t × (r < 2 ^ 31)) (map_loop env map left i s)
  unfolding map_loop
  map_loop-Safe map zero i s few_rounds h =
      goes_on (record { sound = h; same_index = refl }, omega arith)
  map_loop-Safe map (suc left) i s few_rounds h =
      let k = Next-say (map_test map) s h in
      Safe-if (env.map_test_result (map_test map ∷ s.perf.log)) _ _
        (λ _.
          Safe-mono (map_loop-Safe map left (i + 1) _ (omega arith) k.sound)
            λ _ t (l, small). (Next-trans k l, small))
        λ _. goes_on (k, omega arith)

  set_map_result-Safe :
      (i : ℕ) (v : D) (s : State D)
      → i < 2
      → IsSound s
      → Safe (λ _ t. Next s t) (set_map_result env i v s)
  unfolding set_map_result
  set_map_result-Safe i v s small h = rw (lt→ltb _ _ small) (
      goes_on (record {
        sound = record {
          roomy = h.roomy;
          room = h.room;
          six = h.six;
          slots = h.slots;
          results = length-set s.test_map_results i v ∙ h.results;
          unordered = h.unordered;
          started = h.started;
        };
        same_index = refl;
      }))

  print_map-Safe :
      (idx : ℕ) (loops : ℤ) (s : State D)
      → IsSound s
      → Safe (λ _ t. Next s t) (print_map env idx loops s)
  unfolding print_map
  print_map-Safe idx loops s h =
      Safe-if (idx == 0) _ _ (λ _. print_score-Safe env few ranges "[MAP.ORDERED]" _ _ _ s h)
        λ _. print_score-Safe env few ranges "[MAP.UNORDERED]" _ _ _ s h

  -- A step to a sound state after which one more map has been measured.
  record Counted (s t : State D) : Type 0 where
    sound : IsSound t
    counted : t.test_map_idx ≡ s.test_map_idx + 1

  -- The loops of a map are an `int`.
  map_loops_fit :
      (b : Bool) (more limit : ℤ)
      → in_int more ≡ true
      → in_int limit ≡ true
      → rounds (if b then more else limit) < 2 ^ 31
  map_loops_fit true more limit h k = rounds_fit more h
  map_loops_fit false more limit h k = rounds_fit limit k

  test_const_time-Safe :
      (map : ℕ) (tm : D) (s : State D)
      → s.test_map_idx < 2
      → IsSound s
      → Safe (λ _ t. Counted s t) (test_const_time env map tm s)
  unfolding test_const_time
  test_const_time-Safe map tm s small h =
      let (limit, e, fits) = ranges.convert tm in
      let loops = if s.test_map_idx == 1 then s.loops_unordered else limit in
      let few_rounds =
        map_loops_fit (s.test_map_idx == 1) s.loops_unordered limit h.unordered fits in
      rw e (
        Safe-and_then (begin-Safe env few ranges s h) λ _ t k.
          Safe-and_then (map_loop-Safe map (rounds loops) 0 t (omega (arith, few_rounds)) k.sound)
            λ i u (l, short). Safe-and_then (end-Safe env few ranges u l.sound) λ secs v m.
              let n = Next-say (map_ops map) v m.sound in
              let in_range = ranges.ops i (map_ops map ∷ v.perf.log) short in
              rw in_range (
                Safe-and_then (set_map_result-Safe s.test_map_idx secs _ small n.sound) λ _ w o.
                  Safe-and_then (print_map-Safe s.test_map_idx loops w o.sound) λ _ x q.
                    goes_on (record {
                      sound = record {
                        roomy = q.sound.roomy;
                        room = q.sound.room;
                        six = q.sound.six;
                        slots = q.sound.slots;
                        results = q.sound.results;
                        unordered = q.sound.unordered;
                        started = q.sound.started;
                      };
                      counted = omega (
                        arith, k.same_index, l.same_index, m.same_index, n.same_index, o.same_index,
                        q.same_index,
                      );
                    })))

  run_maps-Safe :
      (maps : List (ℕ × D)) (s : State D)
      → s.test_map_idx + length maps ≤ 2
      → IsSound s
      → Safe (λ _ t. IsSound t) (run_maps env maps s)
  unfolding run_maps
  run_maps-Safe [] s fits h = goes_on h
  run_maps-Safe ((map, tm) ∷ rest) s fits h =
      Safe-and_then (test_const_time-Safe map tm s (omega arith) h)
        λ _ t k. run_maps-Safe rest t (omega (arith, k.counted)) k.sound

  -- The first statements of `test_603_map`.
  start_map-Safe :
      (loops : ℤ) (s : State D)
      → FitsInt loops
      → IsSound s
      → Safe
          (λ more t. Next s t × (in_int more ≡ true))
          ((if ltb_ℤ (pos 1) loops then times loops 10 else pure (pos 1)) s)
  start_map-Safe (pos n) s fits h =
      Safe-if (ltb_ℤ (pos 1) (pos n)) (times (pos n) 10) (pure (pos 1)) {s = s}
        (λ _. times-Safe (pos n) 10 s (ten_fits n fits.0) h)
        λ _. goes_on (record { sound = h; same_index = refl }, refl)
  start_map-Safe (negsuc n) s fits h =
      let few_loops : ltb_ℤ (pos 1) (negsuc n) ≡ false = ground arith in
      rw few_loops (goes_on (record { sound = h; same_index = refl }, refl))

  pub test_603_map-Safe :
      (loops : ℤ) (s : State D)
      → MapsTwice env
      → FitsInt loops
      → IsSound s
      → Safe (λ _ t. IsSound t) (test_603_map env loops s)
  unfolding test_603_map
  test_603_map-Safe loops s twice fits h =
      Safe-and_then (start_map-Safe loops s fits h) λ more t (k, more_fits).
        let u : State D = record t { test_map_idx = 0; loops_unordered = more } in
        let sound : IsSound u = record {
          roomy = k.sound.roomy;
          room = k.sound.room;
          six = k.sound.six;
          slots = k.sound.slots;
          results = k.sound.results;
          unordered = more_fits;
          started = k.sound.started;
        } in
        Safe-and_then (times-Safe loops 2 u (two_fits loops fits) sound) λ limit v (l, _).
          let m = Next-say (test_map limit) v l.sound in
          let log : History D = test_map limit ∷ v.perf.log in
          Safe-and_then
            (run_maps-Safe (env.map_runs log) _ (omega (arith, twice log, l.same_index)) m.sound)
            λ _ w n.
              Safe-mono (print_score-Safe env few ranges "603_MAP" _ loops _ w n) λ _ x o. o.sound
