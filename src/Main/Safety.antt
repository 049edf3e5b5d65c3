-- ===== src/Main/Safety.antt =====
-- Sound states of ututna/main.c: the counters have room, the arrays of main.c have their lengths, and
-- the start of a measurement is a reading of the clock.
pub mod Kernels
pub mod Map
pub mod Whole
use Prim.Native.String.{String}
use rebench.Base.{
  true, some, inl, inr, Bool-cases, ℕ, zero, suc, ◌≤◌, ◌≡◌, refl, ap, ◌∙◌, List, [], ◌∷◌, arith,
  length, get_elem?, ℤ, M, Run, Returns, returns, Safe, goes_on, Safe-mono, Safe-and_then,
}
use rebench.Os.{Event, print, gettimeofday, stopwatch_start, stopwatch_stop, Env}
use rebench.Os.Double.{Double}
use rebench.Perf.State.{Perf}
use rebench.Main.State.{
  State, repeat, begin, end, print_score, score_line, put_back, in_int, s_start_stopwatch,
  s_stop_stopwatch,
}
use rebench.Perf.Bounds.{IsRoomy}
use rebench.Perf.Overrun.{HasRoom, Stays, ReadsAtMost, perf_begin-Returns, perf_end-Returns}
use rebench.Perf.Print.{perf_print-Returns}
use rebench.Main.Clock.{IsReading, elapsed_usec_fits}
use rebench.Main.Ranges.{KeepsRanges}

pub record IsSound {D : Type 0} (s : State D) : Type 0 where
  pub roomy : IsRoomy s.perf
  pub room : HasRoom s.perf
  -- `struct counters_t` has room for six values.
  pub six : s.perf.n_counters ≤ 6
  pub slots : length s.gemm_ptrs ≡ 3
  pub results : length s.test_map_results ≡ 2
  pub unordered : in_int s.loops_unordered ≡ true
  pub started : IsReading s.start

-- A step that keeps the state sound and the index of the map test.
pub record Next {D : Type 0} (s t : State D) : Type 0 where
  pub sound : IsSound t
  pub same_index : t.test_map_idx ≡ s.test_map_idx

pub Next-trans : {D : Type 0} {s t u : State D} → Next s t → Next t u → Next s u
Next-trans a b = record { sound = b.sound; same_index = b.same_index ∙ a.same_index }

module _ {D : Type 0} where
  Next-put_back :
      {s : State D} {p : Perf D} → IsSound s → Stays s.perf p → Next s (record s { perf = p })
  Next-put_back h k = record {
    sound = record {
      roomy = record {
        few = omega (arith, h.roomy.few, k.same_count);
        ratios_room = ap length k.same_ratios ∙ h.roomy.ratios_room;
        headers_fit = omega (arith, h.roomy.headers_fit, k.same_count, ap length k.same_headers);
        first_plain = ap (λ (r : List ℕ). get_elem? r 0) k.same_ratios ∙ h.roomy.first_plain;
      };
      room = k.room;
      six = omega (arith, h.six, k.same_count);
      slots = h.slots;
      results = h.results;
      unordered = h.unordered;
      started = h.started;
    };
    same_index = refl;
  }

  on_perf-Safe :
      {s : State D} {r : Run (Perf D) (Unit {0})}
      → IsSound s
      → Returns (λ _ q. Stays s.perf q) r
      → Safe (λ _ t. Next s t) (put_back s r)
  on_perf-Safe h (returns k) = goes_on (Next-put_back h k)

  pub Next-say :
      (e : Event D) (s : State D)
      → IsSound s
      → Next s (record s { perf = record (s.perf) { log = e ∷ s.perf.log } })
  Next-say e s h = Next-put_back h (record {
    room = record { begin_room = h.room.begin_room; end_room = h.room.end_room };
    same_count = refl;
    same_ratios = refl;
    same_headers = refl;
  })

  -- A loop of steps is a step.
  pub repeat-Safe :
      (n : ℕ) (body : M (State D) (Unit {0})) (s : State D)
      → ((t : State D) → IsSound t → Safe (λ _ u. Next t u) (body t))
      → IsSound s
      → Safe (λ _ t. Next s t) (repeat n body s)
  unfolding repeat
  repeat-Safe zero body s step h = goes_on (record { sound = h; same_index = refl })
  repeat-Safe (suc n) body s step h =
      Safe-and_then (step s h)
        λ _ t k. Safe-mono (repeat-Safe n body t step k.sound) λ _ u l. Next-trans k l

module _ {D : Type 0} ⦃d : Double D⦄ (env : Env D) (few : ReadsAtMost env)
    (ranges : KeepsRanges env) where
  -- Every score has a line.
  score_line_fits :
      (name : String) (score : D) (loops : ℤ) (secs : D)
      → (e : Event D) × (score_line name score loops secs ≡ some e)
  score_line_fits name score loops secs = elim (Bool-cases (d.eq score (d.lit 0 0))) [
    | inl zero_score ↦ rw zero_score (_, refl)
    | inr some_score ↦
        let (n, e, _) = ranges.convert (d.add score (d.lit 5 1)) in rw (some_score, e) (_, refl)
  ]

  pub print_score-Safe :
      (name : String) (score : D) (loops : ℤ) (secs : D) (s : State D)
      → IsSound s
      → Safe (λ _ t. Next s t) (print_score name score loops secs s)
  unfolding print_score
  print_score-Safe name score loops secs s h =
      let (e, is) = score_line_fits name score loops secs in
      let k = Next-say e s h in
      rw is (
        Safe-and_then
          (on_perf-Safe k.sound (perf_print-Returns _ k.sound.roomy k.sound.room k.sound.six))
          λ _ t l. goes_on (Next-trans k (Next-trans l (Next-say (print "\n" []) t l.sound))))

  pub begin-Safe : (s : State D) → IsSound s → Safe (λ _ t. Next s t) (begin env s)
  unfolding begin
  begin-Safe s h =
      let k = Next-say gettimeofday s h in
      let u : State D = record s {
        perf = record (s.perf) { log = gettimeofday ∷ s.perf.log };
        start = env.clock (gettimeofday ∷ s.perf.log);
      } in
      let sound : IsSound u = record {
        roomy = k.sound.roomy;
        room = k.sound.room;
        six = k.sound.six;
        slots = h.slots;
        results = h.results;
        unordered = h.unordered;
        started = ranges.clock (gettimeofday ∷ s.perf.log);
      } in
      Safe-mono (on_perf-Safe sound (perf_begin-Returns env few u.perf sound.room sound.six))
        λ _ t l. record { sound = l.sound; same_index = l.same_index }

  pub end-Safe : (s : State D) → IsSound s → Safe (λ _ t. Next s t) (end env s)
  unfolding end
  end-Safe s h =
      Safe-and_then (on_perf-Safe h (perf_end-Returns env few s.perf h.room h.six)) λ _ t l.
        let log = gettimeofday ∷ t.perf.log in
        let (usec, e) =
          elapsed_usec_fits t.start (env.clock log) l.sound.started (ranges.clock log) in
        rw e (goes_on (Next-trans l (Next-say gettimeofday t l.sound)))

  pub s_start_stopwatch-Safe :
      (s : State D) → IsSound s → Safe (λ _ t. Next s t) (s_start_stopwatch env s)
  unfolding s_start_stopwatch
  s_start_stopwatch-Safe s h =
      let k = Next-say stopwatch_start s h in
      Safe-and_then (on_perf-Safe k.sound (perf_begin-Returns env few _ k.sound.room k.sound.six))
        λ _ t l. goes_on (Next-trans k l)

  pub s_stop_stopwatch-Safe :
      (s : State D) → IsSound s → Safe (λ _ t. Next s t) (s_stop_stopwatch env s)
  unfolding s_stop_stopwatch
  s_stop_stopwatch-Safe s h =
      Safe-and_then (on_perf-Safe h (perf_end-Returns env few s.perf h.room h.six))
        λ _ t l. goes_on (Next-trans l (Next-say stopwatch_stop t l.sound))
