-- ===== src/Perf/Progress.antt =====
-- Properties of the calls made, through the functions of ututna/perf.c, and where these functions may
-- call `exit`.
pub mod Options
use Prim.Native.String.{String}
use rebench.Base.{
  ℕ, zero, suc, ◌+◌, ◌-◌, ◌≡◌, Option, none, some, List, [], ◌∷◌, ltb, ◌==◌, get_elem?, ℤ, pos,
  negsuc, Run, need,
}
use rebench.Base.Progress.{
  Goes, goes, exits, faults, Goes-need, Goes-check, Goes-when, Goes-unless, Goes-and_then,
}
use rebench.Os.{
  PerfType, Request, History, Env, read_counters, event_open, ioctl, reset, print, word, num, real,
  type_code,
}
use rebench.Os.Double.{Double}
use rebench.Perf.State.{Perf, Counters, fill}
use rebench.Perf.Measure.{
  read_into, perf_begin, perf_end, delta, print_counter, print_counters, perf_print,
}

-- The system opens every counter.
abbrev pub OpensAll : {D : Type 0} → Env D → Type 0
OpensAll {D} env = (log : History D) → (r : ℕ) × (env.event_open_result log ≡ pos r)

-- Where a counter is not opened, `E` holds.
abbrev pub MayFail : {D : Type 0} → Type 0 → Env D → Type 0
MayFail {D} E env = (log : History D) (r : ℕ) → env.event_open_result log ≡ negsuc r → E

-- A property of the calls made that the calls of perf.c keep.
pub record IsCarried {D : Type 0} (I : History D → Type 0) : Type 0 where
  pub on_ioctl : (fd : ℤ) (r : Request) (log : History D) → I log → I (ioctl fd r ∷ log)
  pub on_read : (fd : ℤ) (k : ℕ) (log : History D) → I log → I (read_counters fd k ∷ log)
  pub on_open :
      (type : PerfType) (event : ℕ) (fd : ℤ) (log : History D)
      → I log
      → I (event_open type event fd ∷ log)
  pub on_word :
      (format : String) (v : ℕ) (log : History D) → I log → I (print format (word v ∷ []) ∷ log)
  pub on_real :
      (format : String) (v : D) (log : History D) → I log → I (print format (real v ∷ []) ∷ log)
  pub on_failed :
      (format : String) (type : PerfType) (event r : ℤ) (log : History D)
      → I log
      → I (print format (type_code type ∷ num event ∷ num r ∷ []) ∷ log)
  pub on_unsupported :
      (format : String) (type : ℕ) (event : ℤ) (log : History D)
      → I log
      → I (print format (word type ∷ num event ∷ []) ∷ log)

-- Wherever the run goes on, the property holds; it exits only where `E` holds.
abbrev pub Carries : {D A : Type 0} → Type 0 → (History D → Type 0) → Run (Perf D) A → Type 0
Carries E I = Goes E (λ _ q. I q.log)

module _ {D E : Type 0} (env : Env D) (I : History D → Type 0) (keeps : IsCarried I) where
  read_into-Carries : (c : Counters) (p : Perf D) → I p.log → Carries E I (read_into env c p)
  read_into-Carries c p h =
      Goes-need
        (elim (env.read_result (read_counters p.fd (p.n_counters + 1) ∷ p.log)) [
          | none ↦ some c
          | some ws ↦ fill ws c
        ])
        _ λ _. keeps.on_read p.fd (p.n_counters + 1) p.log h

  pub perf_begin-Carries : (p : Perf D) → I p.log → Carries E I (perf_begin env p)
  unfolding perf_begin
  perf_begin-Carries p h = Goes-unless (p.n_counters == 0) _ h (
      Goes-and_then
        (read_into-Carries p.counters_begin (record p { log = ioctl p.fd reset ∷ p.log })
          (keeps.on_ioctl p.fd reset p.log h))
        λ _ _ i. goes i)

  pub perf_end-Carries : (p : Perf D) → I p.log → Carries E I (perf_end env p)
  unfolding perf_end
  perf_end-Carries p h =
      Goes-unless (p.n_counters == 0) _ h
        (Goes-and_then (read_into-Carries p.counters_end p h) λ _ _ i. goes i)

module _ {D E : Type 0} ⦃d : Double D⦄ (I : History D → Type 0) (keeps : IsCarried I) where
  need-Carries : {A : Type 0} (o : Option A) (p : Perf D) → I p.log → Carries E I (need o p)
  need-Carries o p h = Goes-need o p λ _. h

  delta-Carries : (p q : Perf D) (i : ℕ) → I q.log → Carries E I (delta p i q)
  unfolding delta
  delta-Carries p q i h =
      Goes-and_then (need-Carries (get_elem? p.counters_end.vals i) q h) λ _ r j.
        Goes-and_then (need-Carries (get_elem? p.counters_begin.vals i) r j) λ _ _ k. goes k

  print_counter-Carries : (i : ℕ) (p : Perf D) → I p.log → Carries E I (print_counter i p)
  unfolding print_counter
  print_counter-Carries i p h = Goes-and_then (delta-Carries p p i h) λ v q j.
      Goes-and_then
        (need-Carries (get_elem? p.ratios i)
          (record q { log = print " %12lu" (word v ∷ []) ∷ q.log })
          (keeps.on_word " %12lu" v q.log j))
        λ ratio r k. Goes-unless (ratio == 0) _ k (
          Goes-and_then {P = λ _ t. I t.log} (Goes-check (ltb 0 i) r k) λ _ t l.
            Goes-and_then (delta-Carries p t (i - 1) l) λ _ u m.
              Goes-and_then (delta-Carries p u i m)
                λ _ v n. goes (keeps.on_real " %5.2f" _ v.log n))

  print_counters-Carries :
      (left i : ℕ) (p : Perf D) → I p.log → Carries E I (print_counters left i p)
  unfolding print_counters
  print_counters-Carries zero i p h = goes h
  print_counters-Carries (suc left) i p h =
      Goes-and_then (print_counter-Carries i p h) λ _ q j. print_counters-Carries left (i + 1) q j

  pub perf_print-Carries : (p : Perf D) → I p.log → Carries E I (perf_print p)
  unfolding perf_print
  perf_print-Carries p h =
      Goes-when p.counters_valid _ h
        (Goes-and_then (print_counters-Carries p.n_counters 0 p h) λ _ _ i. goes i)
