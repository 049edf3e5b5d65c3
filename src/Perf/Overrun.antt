-- ===== src/Perf/Overrun.antt =====
-- What `perf_begin` and `perf_end` of ututna/perf.c store: `struct counters_t` has room for six
-- values, and ten counters can be configured.
use rebench.Base.{
  ℕ, suc, ◌+◌, ◌≤◌, ◌<◌, ◌≡◌, refl, ap, ◌∙◌, inl, inr, Bool, false, Option, none, some, List, [],
  ◌∷◌, ◌++◌, arith, ◌==◌, Bool-cases, length, drop, ℤ, fault, Returns, returns,
}
use rebench.Os.{reset, ioctl, read_counters, History, Env}
use rebench.Perf.State.{Counters, Perf, overwrite, fill}
use rebench.Perf.Measure.{perf_begin, perf_end}

pub overwrite-some :
    (ws vs : List ℕ) → length ws ≤ length vs → overwrite ws vs ≡ some (ws ++ drop (length ws) vs)
unfolding overwrite
overwrite-some [] vs h = refl
overwrite-some (w ∷ ws) [] h = absurd (omega arith)
overwrite-some (w ∷ ws) (v ∷ vs) h = rw (overwrite-some ws vs (omega arith))

overwrite-none : (ws vs : List ℕ) → length vs < length ws → overwrite ws vs ≡ none
unfolding overwrite
overwrite-none [] vs h = absurd (omega arith)
overwrite-none (w ∷ ws) [] h = refl
overwrite-none (w ∷ ws) (v ∷ vs) h = rw (overwrite-none ws vs (omega arith))

pub length-append_drop :
    (ws vs : List ℕ) → length ws ≤ length vs → length (ws ++ drop (length ws) vs) ≡ length vs
length-append_drop [] vs h = refl
length-append_drop (w ∷ ws) [] h = absurd (omega arith)
length-append_drop (w ∷ ws) (v ∷ vs) h = ap suc (length-append_drop ws vs (omega arith))

-- Both sets of counters have the room that `struct counters_t` gives.
pub record HasRoom {D : Type 0} (p : Perf D) : Type 0 where
  pub begin_room : length p.counters_begin.vals ≡ 6
  pub end_room : length p.counters_end.vals ≡ 6

-- A measurement leaves the configuration alone, and the counters keep their room.
pub record Stays {D : Type 0} (p q : Perf D) : Type 0 where
  pub room : HasRoom q
  pub same_count : q.n_counters ≡ p.n_counters
  pub same_ratios : q.ratios ≡ p.ratios
  pub same_headers : q.headers ≡ p.headers

Stays-of_room :
    {D : Type 0} (p : Perf D) (b e : Counters) (v : Bool) (log : History D)
    → length b.vals ≡ 6
    → length e.vals ≡ 6
    → Stays p (record p { counters_begin = b; counters_end = e; counters_valid = v; log = log })
Stays-of_room p b e v log hb he = record {
  room = record { begin_room = hb; end_room = he };
  same_count = refl;
  same_ratios = refl;
  same_headers = refl;
}

fill-IsSome :
    (ws : List ℕ) (c : Counters)
    → length ws ≤ suc (length c.vals)
    → (c' : Counters) × (fill ws c ≡ some c') × (length c'.vals ≡ length c.vals)
unfolding fill
fill-IsSome [] c h = (c, refl, refl)
fill-IsSome (w ∷ ws) c h = (
  record { nr = w; vals = ws ++ drop (length ws) c.vals },
  rw (overwrite-some ws c.vals (omega arith), fill),
  length-append_drop ws c.vals (omega arith),
)

fill-none : (ws : List ℕ) (c : Counters) → suc (length c.vals) < length ws → fill ws c ≡ none
unfolding fill
fill-none [] c h = absurd (omega arith)
fill-none (w ∷ ws) c h = rw (overwrite-none ws c.vals (omega arith), fill)

-- `read` stores no more than it is asked for.
abbrev pub ReadsAtMost : {D : Type 0} → Env D → Type 0
ReadsAtMost {D} env =
    (fd : ℤ) (k : ℕ) (log : History D) (ws : List ℕ)
    → env.read_result (read_counters fd k ∷ log) ≡ some ws
    → length ws ≤ k

module _ {D : Type 0} (env : Env D) where
  -- The log once `perf_begin` and once `perf_end` have asked for the counters.
  abbrev pub begin_log : Perf D → History D
  begin_log p = read_counters p.fd (p.n_counters + 1) ∷ ioctl p.fd reset ∷ p.log

  abbrev pub end_log : Perf D → History D
  end_log p = read_counters p.fd (p.n_counters + 1) ∷ p.log

  received-IsSome :
      (o : Option (List ℕ)) (k : ℕ) (c : Counters)
      → ((ws : List ℕ) → o ≡ some ws → length ws ≤ k)
      → k ≤ suc (length c.vals)
      → (c' : Counters) × (elim o [ none ↦ some c | some ws ↦ fill ws c ] ≡ some c')
        × (length c'.vals ≡ length c.vals)
  received-IsSome none k c few room = (c, refl, refl)
  received-IsSome (some ws) k c few room = fill-IsSome ws c (omega (arith, few ws refl))

  module _ (few : ReadsAtMost env) (p : Perf D) (room : HasRoom p) (fits : p.n_counters ≤ 6) where
    -- With at most six counters, the room for six values, and a `read` that stores no more than
    -- it is asked for, `perf_begin` stays within `counters_begin` and goes on, and leaves the
    -- number of counters, the ratios and the column heads alone.
    pub perf_begin-Returns : Returns (λ _ q. Stays p q) (perf_begin env p)
    unfolding perf_begin
    perf_begin-Returns =
        let (c, e, same) =
          received-IsSome (env.read_result (begin_log p)) (p.n_counters + 1) p.counters_begin
            (few p.fd (p.n_counters + 1) (ioctl p.fd reset ∷ p.log))
            (omega (arith, room.begin_room)) in
        elim (Bool-cases (p.n_counters == 0)) [
          | inl off ↦ rw off (returns (Stays-of_room p _ _ _ _ room.begin_room room.end_room))
          | inr on ↦
              rw (on, e) (returns (Stays-of_room p _ _ _ _ (same ∙ room.begin_room) room.end_room))
        ]

    -- With at most six counters, the room for six values, and a `read` that stores no more than
    -- it is asked for, `perf_end` stays within `counters_end` and goes on, and leaves the number
    -- of counters, the ratios and the column heads alone.
    pub perf_end-Returns : Returns (λ _ q. Stays p q) (perf_end env p)
    unfolding perf_end
    perf_end-Returns =
        let (c, e, same) =
          received-IsSome (env.read_result (end_log p)) (p.n_counters + 1) p.counters_end
            (few p.fd (p.n_counters + 1) p.log) (omega (arith, room.end_room)) in
        elim (Bool-cases (p.n_counters == 0)) [
          | inl off ↦ rw off (returns (Stays-of_room p _ _ _ _ room.begin_room room.end_room))
          | inr on ↦
              rw (on, e) (returns (Stays-of_room p _ _ _ _ room.begin_room (same ∙ room.end_room)))
        ]

  -- With seven counters or more, and the room for six values that `struct counters_t` gives, a
  -- `read` that delivers all of them writes past the end of `counters_begin`.
  pub perf_begin_overrun :
      (p : Perf D) (ws : List ℕ)
      → HasRoom p
      → 6 < p.n_counters
      → env.read_result (begin_log p) ≡ some ws
      → length ws ≡ p.n_counters + 1
      → perf_begin env p ≡ fault
  unfolding perf_begin
  perf_begin_overrun p ws room many e full =
      let on : (p.n_counters == 0) ≡ false = ground arith in
      rw (on, e, fill-none ws p.counters_begin (omega (arith, room.begin_room)))
